-- ===== src/SkipList/Splicing.antt =====
-- The loop of skiplist_rm that splices a node out of the list.
use libqb.Prelude.{
  ltb, leb, ◌==◌, if◌then◌else◌, ℕ, zero, suc, ◌+◌, ◌≤◌, ◌<◌, ◌≡◌, refl, ap, ◌∙◌, ◌⊎◌, inl, inr,
  Bool, true, false, ◌&&◌, Option, some, arith, ℕ_discrete, ◌>>=◌, bind-some,
}
use libqb.SkipList.{SkipList, Node, Forward, Update, level_count, forward_at, set_forward}
use libqb.SkipList.Writes.{IsMemory, with_arrays, forward_at-some, set_forward-lem}
use libqb.SkipList.Removing.{is_node, splice_loop}

-- The node that the loop takes from `update_` is there, and `next` says whether the one to remove
-- follows it.
abbrev pub Ready : SkipList → ℕ → (ℕ → ℕ) → (ℕ → Bool) → Update → ℕ → Type 0
Ready s x before_ next update_ level =
    (update_ level ≡ some (before_ level))
    × ((n : Node) × (s.nodes (before_ level) ≡ some n))
    × ((v : Option ℕ) × (forward_at s (before_ level) level ≡ some v) × (is_node x v ≡ next level))

-- The pointer at `level` of node `y` after `x` has been spliced out
abbrev pub spliced_at : SkipList → ℕ → (ℕ → ℕ) → Bool → ℕ → ℕ → Option (Option ℕ)
spliced_at s x before_ inside y level =
    if inside && before_ level == y then forward_at s x level else forward_at s y level

module _ (x : ℕ) (nx : Node) (before_ : ℕ → ℕ) (next : ℕ → Bool) (update_ : Update) where
  written_at :
      (s : SkipList) (level l y : ℕ) (v : Option ℕ)
      → forward_at s x level ≡ some v
      → (if before_ level == y && level == l then some v else forward_at s y l)
        ≡ spliced_at s x before_ (level == l && true) y l
  written_at s level l y v f = elim (ℕ_discrete level l) [
    | yes e ↦ ground (arith, e, f, ap before_ e, ap (λ k. forward_at s x k) e)
    | no n ↦ ground (arith, n)
  ]

  splice-one :
      (level : ℕ) (s : SkipList)
      → IsMemory s
      → s.nodes x ≡ some nx
      → level < level_count
      → (n : Node) → s.nodes (before_ level) ≡ some n
      → (t : Bool)
      → (arrays : ℕ → Option Forward) × ((if t
            then forward_at s x level >>= set_forward s (before_ level) level
            else some s)
          ≡ some (with_arrays s arrays))
        × IsMemory (with_arrays s arrays)
        × ((y l : ℕ) (m : Node)
            → s.nodes y ≡ some m
            → forward_at (with_arrays s arrays) y l ≡ spliced_at s x before_ (level == l && t) y l)
  splice-one level s mem there low n e false = (s.arrays, refl, mem, λ y l m e. ground arith)
  splice-one level s mem there low n e true =
      let (v, f) = forward_at-some s x level nx mem there low in
      let (arrays, w, mem', reads) = set_forward-lem s mem (before_ level) level v n e low in
      (arrays, bind-some _ f w, mem', λ y l m k. reads y l m k ∙ written_at s level l y v f)

  merge :
      (s t r : SkipList) (level count y l : ℕ)
      → forward_at r y l
        ≡ spliced_at t x before_ ((leb (level + 1) l && ltb l (level + 1 + count)) && next l) y l
      → ((z : ℕ)
          → (z ≡ y) ⊎ (z ≡ x)
          → forward_at t z l ≡ spliced_at s x before_ (level == l && next level) z l)
      → (level ≡ l → next level ≡ next l)
      → forward_at r y l
        ≡ spliced_at s x before_ ((leb level l && ltb l (level + suc count)) && next l) y l
  merge s t r level count y l p q g =
      let here = q y (inl refl) in
      let there = q x (inr refl) in
      elim (ℕ_discrete level l) [
        | yes e ↦ ground (arith, e, g e, here)
        | no n ↦ ground (arith, n, here, there)
      ]

  -- The loop succeeds, and the pointers to the node become its own.
  pub splice_loop-lem :
      (count level : ℕ) (s : SkipList)
      → IsMemory s
      → s.nodes x ≡ some nx
      → level + count ≤ level_count
      → ((l : ℕ) → level ≤ l → l < level + count → Ready s x before_ next update_ l)
      → (arrays : ℕ → Option Forward) × (splice_loop count level x update_ s
          ≡ some (with_arrays s arrays))
        × IsMemory (with_arrays s arrays)
        × ((y l : ℕ) (m : Node)
            → s.nodes y ≡ some m
            → forward_at (with_arrays s arrays) y l
              ≡ spliced_at s x before_ ((leb level l && ltb l (level + count)) && next l) y l)
  unfolding splice_loop
  splice_loop-lem zero level s mem there b ready = (s.arrays, refl, mem, λ y l m e. ground arith)
  splice_loop-lem (suc count) level s mem there b ready =
      let (ue, (un, ut), (v, fe, ne)) = ready level (omega arith) (omega arith) in
      let (a1, e1, mem1, r1) = splice-one level s mem there (omega arith) un ut (next level) in
      let (a2, e2, mem2, r2) =
        splice_loop-lem count (level + 1) (with_arrays s a1) mem1 there (omega arith) (λ l p q.
          let (we, (wn, wt), (w, f, g)) = ready l (omega arith) (omega arith) in
          (we, (wn, wt), (w, r1 (before_ l) l wn wt ∙ ground arith ∙ f, g))) in
      (
        a2,
        bind-some _ ue (
            bind-some _ fe (
              bind-some _
                (ap
                    (λ t.
                      if t
                      then forward_at s x level >>= set_forward s (before_ level) level
                      else some s)
                    ne
                  ∙ e1)
                e2)),
        mem2,
        λ y l m e.
            merge s (with_arrays s a1) (with_arrays s a2) level count y l (r2 y l m e)
              (λ z c. elim c [
                | inl p ↦ r1 z l m (ap s.nodes p ∙ e)
                | inr p ↦ r1 z l nx (ap s.nodes p ∙ there)
              ])
              (λ p. ap next p),
      )
