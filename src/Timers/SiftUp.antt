-- ===== src/Timers/SiftUp.antt =====
-- timerlist_heap_sift_up restores the heap order at an entry that may be too small.
use libqb.Prelude.{
  ltb, if◌then◌else◌, Bool-cases, lt_or_ge, ℕ, zero, suc, ◌+◌, ◌≤◌, ◌<◌, ◌≡◌, sym, ap, ◌∙◌, ◌≢◌,
  inl, inr, Option, some, arith, lt→ltb,
}
use libqb.Timers.{TimerList, sift_up, sift_up_loop, parent_of}
use libqb.Timers.Swap.{
  key, Consistent, Rearranged, Rearranged-refl, Rearranged-trans, entry_get-in, swap_entries,
  sets-swap, key-swap, swap-Rearranged,
}

-- No entry expires before its parent.
abbrev pub IsHeap : TimerList → Type 0
IsHeap l = (c : ℕ) → 0 < c → c < l.size → key l (parent_of c) ≤ key l c

-- In order but for the edge above `i`, and across `i`.
pub record UpInv (l : TimerList) (i : ℕ) : Type 0 where
  pub edges : (c : ℕ) → 0 < c → c < l.size → c ≢ i → key l (parent_of c) ≤ key l c
  pub bridged :
      (c : ℕ) → 0 < c → c < l.size → parent_of c ≡ i → 0 < i → key l (parent_of i) ≤ key l c

-- The call returns, and leaves the same timers in heap order.
abbrev pub Restored : TimerList → Option TimerList → Type 0
Restored l result = (l' : TimerList) × (result ≡ some l') × IsHeap l' × Rearranged l l'

module _ (l : TimerList) (c : Consistent l) (i : ℕ) (hi : i < l.size) where
  up_step :
      (fuel : ℕ)
      → 0 < i
      → sift_up_loop (suc fuel) l (l.heap_entries i) i ≡ (
          if ltb (key l i) (key l (parent_of i))
          then sift_up_loop fuel (swap_entries l (parent_of i) i) (l.heap_entries i) (parent_of i)
          else some l)
  unfolding sift_up_loop
  up_step fuel h = rw (
    entry_get-in l (parent_of i) (omega arith),
    sets-swap l (parent_of i) i c (omega arith) hi (omega arith)
        (λ l2. sift_up_loop fuel l2 (l.heap_entries i) (parent_of i)),
    lt→ltb 0 i h,
  )

  up_top : (fuel : ℕ) → i ≡ 0 → sift_up_loop (suc fuel) l (l.heap_entries i) i ≡ some l
  unfolding sift_up_loop
  up_top fuel e = ground arith

  up_moved :
      0 < i
      → UpInv l i
      → key l i < key l (parent_of i)
      → UpInv (swap_entries l (parent_of i) i) (parent_of i)
  up_moved h inv lower =
      let at = key-swap l (parent_of i) i c (omega arith) hi (omega arith) in
      record {
        edges = λ k p q r. ground (arith, at k, at (parent_of k), inv.edges k, inv.bridged k);
        bridged = λ k p q r s.
            ground
              (arith, at k, at (parent_of (parent_of i)), inv.edges k, inv.edges (parent_of i));
      }

sift_up_loop-restores :
    (fuel : ℕ) (l : TimerList) (i : ℕ)
    → i < fuel
    → i < l.size
    → Consistent l
    → UpInv l i
    → Restored l (sift_up_loop fuel l (l.heap_entries i) i)
sift_up_loop-restores zero l i f hi c inv = absurd (omega arith)
sift_up_loop-restores (suc fuel) l i f hi c inv = elim (lt_or_ge 0 i) [
  | inr g ↦ (
    l,
    up_top l c i hi fuel (omega arith),
    λ k p q. inv.edges k p q (omega arith),
    Rearranged-refl l c,
  )
  | inl h ↦ elim (Bool-cases (ltb (key l i) (key l (parent_of i)))) [
    | inl lower ↦
        let p = parent_of i in
        let swap = swap-Rearranged l p i c (omega arith) hi (omega arith) in
        let moved = up_moved l c i hi h inv (ground arith) in
        let (l', done, heap, same) =
          sift_up_loop-restores fuel (swap_entries l p i) p (omega arith) (omega arith)
            swap.consistent moved in
        let first : (swap_entries l p i).heap_entries p ≡ l.heap_entries i = ground arith in
        (
          l',
          up_step l c i hi fuel h
              ∙ rw lower (ap (λ t. sift_up_loop fuel (swap_entries l p i) t p) (sym first) ∙ done),
          heap,
          Rearranged-trans swap same,
        )
    | inr higher ↦ (
      l,
      up_step l c i hi fuel h ∙ rw higher,
      λ k p q. ground (arith, inv.edges k p q),
      Rearranged-refl l c,
    )
  ]
]

-- timerlist_heap_sift_up terminates without a failed assertion, and restores the heap order
-- where only the edge above its entry may be wrong. The heap has the same timers as before.
pub sift_up-restores :
    (l : TimerList) (i : ℕ) → i < l.size → Consistent l → UpInv l i → Restored l (sift_up l i)
unfolding sift_up
sift_up-restores l i hi c inv =
    rw (entry_get-in l i hi) (sift_up_loop-restores (i + 1) l i (omega arith) hi c inv)
