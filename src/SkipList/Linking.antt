-- ===== src/SkipList/Linking.antt =====
-- The loop of skiplist_put that drops a new node into the list.
use libqb.Prelude.{
  ltb, leb, ◌==◌, if◌then◌else◌, ℕ, zero, suc, ◌+◌, ◌≤◌, ◌<◌, ◌≡◌, refl, sym, ap, ◌∙◌, ◌≢◌, Bool,
  true, ◌&&◌, Option, some, arith, ℕ_discrete, bind-some,
}
use libqb.SkipList.{SkipList, Node, Forward, Update, level_count, forward_at}
use libqb.SkipList.Writes.{IsMemory, with_arrays, forward_at-some, set_forward-lem}
use libqb.SkipList.Putting.{link_loop}

-- The nodes that the loop takes from `update_` are there, and are not the new one.
abbrev pub Ready : SkipList → ℕ → (ℕ → ℕ) → Update → ℕ → Type 0
Ready s new before_ update_ level =
    (update_ level ≡ some (before_ level))
    × (before_ level ≢ new)
    × ((n : Node) × (s.nodes (before_ level) ≡ some n))

-- The pointer at `level` of node `y` after the new one has been linked in below `top`.
abbrev pub linked_at : SkipList → ℕ → (ℕ → ℕ) → Bool → ℕ → ℕ → Option (Option ℕ)
linked_at s new before_ inside y level =
    if inside
    then (if new == y
        then forward_at s (before_ level) level
        else if before_ level == y
        then some (some new)
        else forward_at s y level)
    else forward_at s y level

module _ (s : SkipList) (new : ℕ) (before_ : ℕ → ℕ) (y level : ℕ) where
  pub linked_at-else :
      (inside : Bool)
      → new ≢ y
      → before_ level ≢ y
      → linked_at s new before_ inside y level ≡ forward_at s y level
  linked_at-else inside n b = ground (arith, n, b)

  pub linked_at-before :
      new ≢ y → before_ level ≡ y → linked_at s new before_ true y level ≡ some (some new)
  linked_at-before n b = ground (arith, n, b)

  pub linked_at-new :
      new ≡ y → linked_at s new before_ true y level ≡ forward_at s (before_ level) level
  linked_at-new n = ground (arith, n)

module _ (new : ℕ) (nn : Node) (before_ : ℕ → ℕ) (update_ : Update) where
  -- Two writes, and the rest of the loop
  two_writes :
      (s t r : SkipList) (level z l : ℕ) (next : Option ℕ)
      → before_ level ≢ new
      → forward_at r z l ≡ (if new == z && level == l then some next else forward_at s z l)
      → forward_at t z l
        ≡ (if before_ level == z && level == l then some (some new) else forward_at r z l)
      → forward_at t z l ≡ (
          if level == l
          then (if new == z
              then some next
              else if before_ level == z
              then some (some new)
              else forward_at s z l)
          else forward_at s z l)
  two_writes s t r level z l next n p q = ground (arith, n)

  merge :
      (s t r : SkipList) (level count y l : ℕ) (next : Option ℕ)
      → forward_at r y l
        ≡ linked_at t new before_ (leb (level + 1) l && ltb l (level + 1 + count)) y l
      → forward_at t y l ≡ (
          if level == l
          then (if new == y
              then some next
              else if before_ level == y
              then some (some new)
              else forward_at s y l)
          else forward_at s y l)
      → (level < l
          → l < level + suc count
          → forward_at t (before_ l) l ≡ forward_at s (before_ l) l)
      → (level ≡ l → forward_at s (before_ l) l ≡ some next)
      → (level ≡ l → before_ level ≡ before_ l)
      → forward_at r y l ≡ linked_at s new before_ (leb level l && ltb l (level + suc count)) y l
  merge s t r level count y l next p q k g b = elim (ℕ_discrete level l) [
    | yes e ↦ ground (arith, e, g e, b e)
    | no n ↦ ground (arith, n)
  ]

  pub link_loop-lem :
      (count level : ℕ) (s : SkipList)
      → IsMemory s
      → s.nodes new ≡ some nn
      → level + count ≤ level_count
      → ((l : ℕ) → level ≤ l → l < level + count → Ready s new before_ update_ l)
      → (arrays : ℕ → Option Forward) × (link_loop count level new update_ s
          ≡ some (with_arrays s arrays))
        × IsMemory (with_arrays s arrays)
        × ((y l : ℕ) (m : Node)
            → s.nodes y ≡ some m
            → forward_at (with_arrays s arrays) y l
              ≡ linked_at s new before_ (leb level l && ltb l (level + count)) y l)
  unfolding link_loop
  link_loop-lem zero level s mem there b ready = (s.arrays, refl, mem, λ y l m e. ground arith)
  link_loop-lem (suc count) level s mem there b ready =
      let (ue, ne, (un, ut)) = ready level (omega arith) (omega arith) in
      let (next, fe) = forward_at-some s (before_ level) level un mem ut (omega arith) in
      let (a1, e1, mem1, r1) = set_forward-lem s mem new level next nn there (omega arith) in
      let (a2, e2, mem2, r2) =
        set_forward-lem (with_arrays s a1) mem1 (before_ level) level (some new) un ut
          (omega arith) in
      let (a3, e3, mem3, r3) =
        link_loop-lem count (level + 1) (with_arrays s a2) mem2 there (omega arith)
          (λ l p q. ready l (omega arith) (omega arith)) in
      let two : (z l : ℕ) (m : Node)
          → s.nodes z ≡ some m
          → forward_at (with_arrays s a2) z l ≡ (
              if level == l
              then (if new == z
                  then some next
                  else if before_ level == z
                  then some (some new)
                  else forward_at s z l)
              else forward_at s z l) =
        λ z l m e.
          two_writes s (with_arrays s a2) (with_arrays s a1) level z l next ne (r1 z l m e)
            (r2 z l m e) in
      (
        a3,
        bind-some _ ue (bind-some _ fe (bind-some _ e1 (bind-some _ e2 e3))),
        mem3,
        λ y l m e.
            merge s (with_arrays s a2) (with_arrays s a3) level count y l next (r3 y l m e)
              (two y l m e)
              (λ p q.
                let (rb, rn, (v, vt)) = ready l (omega arith) (omega arith) in
                two (before_ l) l v vt ∙ ground arith)
              (λ p. ap (λ k. forward_at s (before_ k) k) (sym p) ∙ fe) (λ p. ap before_ p),
      )
