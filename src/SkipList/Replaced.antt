-- ===== src/SkipList/Replaced.antt =====
-- skiplist_put of a key that is there keeps the list in shape.
use libqb.Prelude.{
  length-append, update, update_self, update_ne, ℕ, ◌≤◌, ◌<◌, ◌≡◌, refl, sym, ap, ◌∙◌, subst, ◌≢◌,
  some, List, [], ◌∷◌, ◌++◌, arith, ℕ_discrete, some-injective,
}
use libqb.Map.{Notification}
use libqb.Map.Keys.{Key}
use libqb.SkipList.{SkipList, Node, level_count, forward_at}
use libqb.SkipList.Items.{
  Item, Stored, AllStored, AllStored-parts, AllStored-join, AllReach-parts, AllReach-join,
  Links-keeps,
}
use libqb.SkipList.Sorted.{revalued, first-revalued, Links-revalued, IsSorted-revalued}
use libqb.SkipList.Writes.{IsMemory, forward_at-backed}
use libqb.SkipList.Apart.{IsApart, IsApart-parts, AllApart-from, keyless-IsApart, sorted-AllApart}
use libqb.SkipList.Shape.{Shape, AllEnded-back, AllEnded-parts, AllEnded-join}

-- The list with another node at an address
abbrev pub with_other : SkipList → ℕ → Node → List Notification → SkipList
with_other s x n calls = record s { nodes = update s.nodes x (some n); calls = calls }

module _ (s : SkipList) (mem : IsMemory s) (x : ℕ) (n n' : Node) (calls : List Notification)
    (there : s.nodes x ≡ some n) (same_array : n'.forward ≡ n.forward)
    (same_level : n'.level ≡ n.level) where
  abbrev t : SkipList
  t = with_other s x n' calls

  pub node-other : (y : ℕ) (m : Node) → x ≢ y → s.nodes y ≡ some m → t.nodes y ≡ some m
  node-other y m q e = update_ne s.nodes x (some n') y q ∙ e

  pub node-back :
      (y : ℕ) (m : Node)
      → t.nodes y ≡ some m
      → (k : Node) × (s.nodes y ≡ some k) × (k.level ≡ m.level) × (m.forward ≡ k.forward)
  node-back y m e = elim (ℕ_discrete x y) [
    | yes q ↦
        let same : n' ≡ m =
          some-injective
            (sym (update_self s.nodes x (some n')) ∙ ap (update s.nodes x (some n')) q ∙ e) in
        (
          n,
          ap s.nodes (sym q) ∙ there,
          sym same_level ∙ ap (λ (z : Node). z.level) same,
          ap (λ (z : Node). z.forward) (sym same) ∙ same_array,
        )
    | no q ↦ (m, sym (update_ne s.nodes x (some n') y q) ∙ e, refl, refl)
  ]

  pub forward_at-same :
      (y l : ℕ) (m : Node) → s.nodes y ≡ some m → forward_at t y l ≡ forward_at s y l
  forward_at-same y l m e =
      let (f, g) = mem.backed y m e in
      elim (ℕ_discrete x y) [
        | yes q ↦
            let same : n ≡ m = some-injective (sym there ∙ ap s.nodes q ∙ e) in
            forward_at-backed t y l n' f
              (ap (update s.nodes x (some n')) (sym q) ∙ update_self s.nodes x (some n'))
              (ap s.arrays (same_array ∙ ap (λ (z : Node). z.forward) same) ∙ g)
            ∙ sym (forward_at-backed s y l m f e g)
        | no q ↦
            forward_at-backed t y l m f (node-other y m q e) g
            ∙ sym (forward_at-backed s y l m f e g)
      ]

  other-IsMemory : IsMemory t
  other-IsMemory = record {
    backed = λ y m e.
        let (k, p, l, f) = node-back y m e in
        let (a, g) = mem.backed y k p in (a, ap s.arrays f ∙ g);
    owned = λ y z m m' e e' f.
        let (k, p, l, g) = node-back y m e in
        let (k', p', l', g') = node-back z m' e' in mem.owned y z k k' p p' (sym g ∙ f ∙ g');
    given = λ y m e.
        let (k, p, l, g) = node-back y m e in
        let (a, b) = mem.given y k p in (a, subst (λ z. z < s.fresh) (sym g) b);
  }

  AllStored-other : (is : List Item) → IsApart x is → AllStored s is → AllStored t is
  AllStored-other [] a st = tt
  AllStored-other (i ∷ is) (q, a) (st, sts) = (
    record {
      node = st.node;
      there = node-other i.at st.node q st.there;
      keyed = st.keyed;
      valued = st.valued;
      once = st.once;
      reaches = st.reaches;
      made = st.made;
    },
    AllStored-other is a sts,
  )

module _ (s : SkipList) (front rest : List Item) (i : Item) (key : Key) (value : ℕ)
    (calls : List Notification) (h : Shape s (front ++ (i ∷ rest))) (same : i.key ≡ key) (n : Node)
    (there : s.nodes i.at ≡ some n) where
  abbrev n' : Node
  n' = record n { key = some key; value = value }

  abbrev pub after_replace : SkipList
  after_replace = with_other s i.at n' calls

  header_ne : i.at ≢ s.header
  header_ne q =
      let (a, (b, c)) = IsApart-parts s.header front (i ∷ rest) (
        keyless-IsApart s s.header h.header_node (front ++ (i ∷ rest)) h.header_there
          h.header_unkeyed h.stored) in
      b (sym q)

  revalued-Stored : Stored s i → Stored after_replace (revalued i value)
  revalued-Stored st =
      let z : st.node ≡ n = some-injective (sym st.there ∙ there) in
      record {
        node = n';
        there = update_self s.nodes i.at (some n');
        keyed = ap some (sym same);
        valued = refl;
        once = ap (λ (m : Node). m.refcount) (sym z) ∙ st.once;
        reaches = subst (λ (m : Node). i.reach ≤ m.level) z st.reaches;
        made = subst (λ (m : Node). m.level ≤ level_count) z st.made;
      }

  abbrev unchanged :
      (y l : ℕ) (m : Node) → s.nodes y ≡ some m → forward_at after_replace y l ≡ forward_at s y l
  unchanged = forward_at-same s h.memory i.at n n' calls there refl refl

  -- Another value in a node keeps the list in shape.
  pub replaced-Shape : Shape after_replace (front ++ (revalued i value ∷ rest))
  replaced-Shape =
      let (near, (here, far)) = AllStored-parts s front (i ∷ rest) h.stored in
      let (reach_near, (reach_here, reach_far)) = AllReach-parts s.level front (i ∷ rest) h.reach in
      let (apart_near, apart_far) =
        AllApart-from i front rest (sorted-AllApart s (front ++ (i ∷ rest)) h.stored h.sorted) in
      let ended = AllEnded-parts after_replace front (i ∷ rest) (
        AllEnded-back s after_replace (front ++ (i ∷ rest))
          (λ y m e.
            let (k, p, l, f) = node-back s h.memory i.at n n' calls there refl refl y m e in
            (k, p, l))
          unchanged h.ended) in
      record {
        header_node = h.header_node;
        header_there =
            node-other s h.memory i.at n n' calls there refl refl s.header h.header_node header_ne
              h.header_there;
        header_unkeyed = h.header_unkeyed;
        header_once = h.header_once;
        forwards = λ l p.
            unchanged s.header l h.header_node h.header_there
            ∙ h.forwards l p
            ∙ ap some (first-revalued l i value front rest);
        links =
            Links-revalued after_replace i value front rest
              (Links-keeps s after_replace (front ++ (i ∷ rest)) unchanged h.stored h.links);
        stored =
            AllStored-join after_replace front (revalued i value ∷ rest)
              (AllStored-other s h.memory i.at n n' calls there refl refl front apart_near near)
              (
                revalued-Stored here,
                AllStored-other s h.memory i.at n n' calls there refl refl rest apart_far far,
              );
        sorted = IsSorted-revalued i value front rest h.sorted;
        reach =
            AllReach-join s.level front (revalued i value ∷ rest) reach_near
              (reach_here, reach_far);
        height = h.height;
        ended = AllEnded-join after_replace front (revalued i value ∷ rest) ended.0 ended.1;
        room =
            let e = length-append front (i ∷ rest) in
            let f = length-append front (revalued i value ∷ rest) in omega (arith, h.room);
        memory = other-IsMemory s h.memory i.at n n' calls there refl refl;
      }
