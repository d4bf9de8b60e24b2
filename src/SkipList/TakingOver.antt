-- ===== src/SkipList/TakingOver.antt =====
-- How the array of the first node of the list takes the place of that of the header, when
-- skiplist_rm removes the node.
use libqb.Prelude.{
  ltb, leb, ◌==◌, if◌then◌else◌, update, update_self, update_ne, ℕ, zero, suc, ◌+◌, ◌≤◌, ◌<◌, ◌≡◌,
  refl, sym, ap, ◌∙◌, subst, ◌≢◌, ◌⊎◌, inl, inr, Bool, false, ◌&&◌, Option, none, some, List, arith,
  ℕ_discrete, bind-some, some-injective, none_ne_some,
}
use libqb.Map.{Notification}
use libqb.SkipList.{SkipList, Node, Forward, level_count, forward_at}
use libqb.SkipList.Removing.{copy_loop, take_over}
use libqb.SkipList.Nodes.{free_array}
use libqb.SkipList.Writes.{
  IsMemory, with_arrays, forward_at-some, forward_at-backed, set_forward-lem,
}
use libqb.SkipList.Dropping.{without}

-- The pointer at `l` of node `y` after those of `cur` have been copied to `x`
abbrev pub copied_at : SkipList → ℕ → ℕ → Bool → ℕ → ℕ → Option (Option ℕ)
copied_at s x cur inside y l = if inside && x == y then forward_at s cur l else forward_at s y l

module _ (x cur : ℕ) (nx nc : Node) (apart : x ≢ cur) where
  merge :
      (s t r : SkipList) (level count y l : ℕ) (v : Option ℕ)
      → forward_at s cur level ≡ some v
      → forward_at r y l ≡ copied_at t x cur (leb (level + 1) l && ltb l (level + 1 + count)) y l
      → forward_at t y l ≡ (if x == y && level == l then some v else forward_at s y l)
      → forward_at t cur l ≡ (if x == cur && level == l then some v else forward_at s cur l)
      → forward_at r y l ≡ copied_at s x cur (leb level l && ltb l (level + suc count)) y l
  merge s t r level count y l v f p q k = elim (ℕ_discrete level l) [
    | yes e ↦ ground (arith, e, f, ap (λ m. forward_at s cur m) e, apart)
    | no n ↦ ground (arith, n, apart)
  ]

  copy_loop-lem :
      (count level : ℕ) (s : SkipList)
      → IsMemory s
      → s.nodes x ≡ some nx
      → s.nodes cur ≡ some nc
      → level + count ≤ level_count
      → (arrays : ℕ → Option Forward) × (copy_loop count level x cur s
          ≡ some (with_arrays s arrays))
        × IsMemory (with_arrays s arrays)
        × ((y l : ℕ) (m : Node)
            → s.nodes y ≡ some m
            → forward_at (with_arrays s arrays) y l
              ≡ copied_at s x cur (leb level l && ltb l (level + count)) y l)
  unfolding copy_loop
  copy_loop-lem zero level s mem e f b = (s.arrays, refl, mem, λ y l m g. ground arith)
  copy_loop-lem (suc count) level s mem e f b =
      let (v, g) = forward_at-some s cur level nc mem f (omega arith) in
      let (a1, w1, mem1, r1) = set_forward-lem s mem x level v nx e (omega arith) in
      let (a2, w2, mem2, r2) =
        copy_loop-lem count (level + 1) (with_arrays s a1) mem1 e f (omega arith) in
      (
        a2,
        bind-some _ g (bind-some _ w1 w2),
        mem2,
        λ y l m k.
            merge s (with_arrays s a1) (with_arrays s a2) level count y l v g (r2 y l m k)
              (r1 y l m k) (r1 cur l nc f),
      )

-- The node `x`, and the one before it
pub record Neighbours (s : SkipList) (x cur : ℕ) : Type 0 where
  pub node : Node
  pub header : Node
  pub apart : x ≢ cur
  pub memory : IsMemory s
  pub there : s.nodes x ≡ some node
  pub header_there : s.nodes cur ≡ some header
  pub low : node.level ≤ level_count

module _ (s : SkipList) (x cur : ℕ) (w : Neighbours s x cur) where
  abbrev pub marked : Node
  marked = record w.node { level = 0 }

  abbrev pub moved : Node
  moved = record w.header { forward = w.node.forward }

  pub copied :
      (arrays : ℕ → Option Forward) × (copy_loop w.node.level 0 x cur s
        ≡ some (with_arrays s arrays))
      × IsMemory (with_arrays s arrays)
      × ((y l : ℕ) (m : Node)
          → s.nodes y ≡ some m
          → forward_at (with_arrays s arrays) y l
            ≡ copied_at s x cur (leb 0 l && ltb l (0 + w.node.level)) y l)
  copied =
      copy_loop-lem x cur w.node w.header w.apart w.node.level 0 s w.memory w.there w.header_there
        (omega arith)

  abbrev pub taken : SkipList
  taken = record s {
    nodes = update (update s.nodes x (some marked)) cur (some moved);
    arrays = update copied.0 w.header.forward none;
  }

  pub take_over-lem : take_over s x cur ≡ some taken
  unfolding take_over
  take_over-lem = bind-some _ w.there (
      bind-some _ copied.1 (
        bind-some _ (update_ne s.nodes x (some marked) cur w.apart ∙ w.header_there) (
          bind-some _
            (ap
              (free_array (record s { nodes = update s.nodes x (some marked); arrays = copied.0 })
                w.header.forward)
              (copied.2.backed cur w.header w.header_there).1)
            refl)))

  -- The list after the node has been freed, without its array
  module _ (calls : List Notification) where
    abbrev pub rest_of : SkipList
    rest_of = without taken x marked false calls

    node-at : (y : ℕ) → x ≢ y → rest_of.nodes y ≡ (if cur == y then some moved else s.nodes y)
    node-at y q =
        update_ne (update taken.nodes x (some (record marked { refcount = 0 }))) x none y q
        ∙ update_ne taken.nodes x (some (record marked { refcount = 0 })) y q
        ∙ ap (λ o. if cur == y then some moved else o) (update_ne s.nodes x (some marked) y q)

    pub rest-header : rest_of.nodes cur ≡ some moved
    rest-header = node-at cur w.apart ∙ ground arith

    pub rest-keeps :
        (y : ℕ) (m : Node) → x ≢ y → cur ≢ y → s.nodes y ≡ some m → rest_of.nodes y ≡ some m
    rest-keeps y m q p e = node-at y q ∙ ground (arith, p, e)

    pub rest-back :
        (y : ℕ) (m : Node)
        → rest_of.nodes y ≡ some m
        → (x ≢ y) × (((cur ≡ y) × (moved ≡ m)) ⊎ ((cur ≢ y) × (s.nodes y ≡ some m)))
    rest-back y m e = elim (ℕ_discrete x y) [
      | yes q ↦ absurd (
          none_ne_some (
            sym (update_self (update taken.nodes x (some (record marked { refcount = 0 }))) x none)
            ∙ ap rest_of.nodes q
            ∙ e))
      | no q ↦ (
        q,
        elim (ℕ_discrete cur y) [
          | yes p ↦ inl (p, some-injective (sym rest-header ∙ ap rest_of.nodes p ∙ e))
          | no p ↦ inr (p, ground (arith, p, node-at y q, e))
        ],
      )
    ]

    own_ne : w.header.forward ≢ w.node.forward
    own_ne p = w.apart (w.memory.owned x cur w.node w.header w.there w.header_there (sym p))

    pub header_array :
        (f : Forward) × (rest_of.arrays w.node.forward ≡ some f)
        × (copied.0 w.node.forward ≡ some f)
    header_array =
        let (f, g) = copied.2.backed x w.node w.there in
        (f, update_ne copied.0 w.header.forward none w.node.forward own_ne ∙ g, g)

    other_array :
        (y : ℕ) (m : Node)
        → cur ≢ y
        → s.nodes y ≡ some m
        → (f : Forward) × (rest_of.arrays m.forward ≡ some f) × (copied.0 m.forward ≡ some f)
    other_array y m q e =
        let (f, g) = copied.2.backed y m e in
        (
          f,
          update_ne copied.0 w.header.forward none m.forward
                (λ p. q (w.memory.owned cur y w.header m w.header_there e p))
              ∙ g,
          g,
        )

    -- The pointers of the header are those of its own below the level of the node.
    pub rest-forward_header :
        (l : ℕ)
        → forward_at rest_of cur l
          ≡ (if ltb l w.node.level then forward_at s cur l else forward_at s x l)
    rest-forward_header l =
        let (f, g, k) = header_array in
        forward_at-backed rest_of cur l moved f rest-header g
        ∙ sym (forward_at-backed (with_arrays s copied.0) x l w.node f w.there k)
        ∙ copied.3 x l w.node w.there
        ∙ ground arith

    pub rest-forward :
        (y l : ℕ) (m : Node)
        → x ≢ y
        → cur ≢ y
        → s.nodes y ≡ some m
        → forward_at rest_of y l ≡ forward_at s y l
    rest-forward y l m q p e =
        let (f, g, k) = other_array y m p e in
        forward_at-backed rest_of y l m f (rest-keeps y m q p e) g
        ∙ sym (forward_at-backed (with_arrays s copied.0) y l m f e k)
        ∙ copied.3 y l m e
        ∙ ground (arith, q)

    array-of : (m : Node) → moved ≡ m → m.forward ≡ w.node.forward
    array-of m e = ap (λ (z : Node). z.forward) (sym e)

    pub rest-IsMemory : IsMemory rest_of
    rest-IsMemory = record {
      backed = λ y m e. elim (rest-back y m e).1 [
        | inl (p, q) ↦ let (f, g, k) = header_array in (f, ap rest_of.arrays (array-of m q) ∙ g)
        | inr (p, q) ↦ let (f, g, k) = other_array y m p q in (f, g)
      ];
      owned = λ y z m k e e' f.
          let (u, a) = rest-back y m e in
          let (v, b) = rest-back z k e' in
          elim a [
            | inl (p, q) ↦ elim b [
              | inl (p', q') ↦ sym p ∙ p'
              | inr (p', q') ↦
                  absurd (v (w.memory.owned x z w.node k w.there q' (sym (array-of m q) ∙ f)))
            ]
            | inr (p, q) ↦ elim b [
              | inl (p', q') ↦
                  absurd (u (w.memory.owned x y w.node m w.there q (sym (array-of k q') ∙ sym f)))
              | inr (p', q') ↦ w.memory.owned y z m k q q' f
            ]
          ];
      given = λ y m e. elim (rest-back y m e).1 [
        | inl (p, q) ↦
            let (a, b) = w.memory.given x w.node w.there in
            let (c, d) = w.memory.given cur w.header w.header_there in
            (subst (λ z. z < s.fresh) p c, subst (λ z. z < s.fresh) (sym (array-of m q)) b)
        | inr (p, q) ↦ w.memory.given y m q
      ];
    }
