-- ===== src/Timers/SiftDown.antt =====
-- timerlist_heap_sift_down restores the heap order at an entry that may be too large.
use libqb.Prelude.{
  ltb, if◌then◌else◌, lt_or_ge, ℕ, zero, suc, ◌+◌, ◌≤◌, ◌<◌, ◌≡◌, refl, sym, ap, ◌∙◌, subst, ◌≢◌,
  ◌⊎◌, inl, inr, some, arith, ℕ_discrete, ne→beq, eq→beq,
}
use libqb.Timers.{TimerList, smaller, sift_down, sift_down_loop, parent_of, left_of, right_of}
use libqb.Timers.Swap.{
  key, Consistent, Rearranged-refl, Rearranged-trans, entry_get-in, swap_entries, sets-swap,
  key-swap, swap-Rearranged,
}
use libqb.Timers.SiftUp.{Restored}

-- In order but for the edges below `i`, and across `i`.
pub record DownInv (l : TimerList) (i : ℕ) : Type 0 where
  pub edges : (c : ℕ) → 0 < c → c < l.size → parent_of c ≢ i → key l (parent_of c) ≤ key l c
  pub bridged :
      (c : ℕ) → 0 < c → c < l.size → parent_of c ≡ i → 0 < i → key l (parent_of i) ≤ key l c

-- The position that one test for a smaller child leaves.
abbrev pick : TimerList → ℕ → ℕ → ℕ
pick l k s = if ltb k l.size then (if ltb (key l k) (key l s) then k else s) else s

abbrev child : TimerList → ℕ → ℕ
child l i = pick l (right_of i) (pick l (left_of i) i)

smaller-pick :
    (l : TimerList) (k s : ℕ)
    → smaller l k (s, l.heap_entries s) ≡ some (pick l k s, l.heap_entries (pick l k s))
unfolding smaller
smaller-pick l k s = elim (lt_or_ge k l.size) [
  | inl p ↦ ground (arith, entry_get-in l k p)
  | inr p ↦ ground arith
]

-- What the two tests find: the entry itself if no child expires before it, else its first child.
record Picked (l : TimerList) (i m : ℕ) : Type 0 where
  inside : m < l.size
  place : (m ≡ i) ⊎ ((parent_of m ≡ i) × (i < m) × (key l m < key l i))
  least : (c : ℕ) → 0 < c → c < l.size → parent_of c ≡ i → key l m ≤ key l c
  below : key l m ≤ key l i

child-Picked : (l : TimerList) (i : ℕ) → i < l.size → Picked l i (child l i)
child-Picked l i hi = record {
  inside = ground arith;
  place = ground arith;
  least = λ c p q r. least_of c q (omega arith);
  below = ground arith;
}
  where
    least_of :
        (c : ℕ) → c < l.size → (c ≡ left_of i) ⊎ (c ≡ right_of i) → key l (child l i) ≤ key l c
    least_of c q (inl e) = rw e (let q' : left_of i < l.size = omega arith in ground arith)
    least_of c q (inr e) = rw e (let q' : right_of i < l.size = omega arith in ground arith)

module _ (l : TimerList) (c : Consistent l) (i : ℕ) (hi : i < l.size) where
  down_stop : (fuel : ℕ) → child l i ≡ i → sift_down_loop (suc fuel) l i ≡ some l
  unfolding sift_down_loop
  down_stop fuel e =
      rw
        (
          entry_get-in l i hi,
          smaller-pick l (left_of i) i,
          smaller-pick l (right_of i) (pick l (left_of i) i),
        )
        (rw (eq→beq (child l i) i e))

  down_step :
      (fuel : ℕ)
      → child l i ≢ i
      → sift_down_loop (suc fuel) l i
        ≡ sift_down_loop fuel (swap_entries l i (child l i)) (child l i)
  unfolding sift_down_loop
  down_step fuel e =
      rw
        (
          entry_get-in l i hi,
          smaller-pick l (left_of i) i,
          smaller-pick l (right_of i) (pick l (left_of i) i),
        )
        (rw (
          ne→beq (child l i) i e,
          sets-swap l i (child l i) c hi (child-Picked l i hi).inside (λ q. e (sym q))
              (λ l2. sift_down_loop fuel l2 (child l i)),
        ))

  down_moved : (m : ℕ) → Picked l i m → m ≢ i → DownInv l i → DownInv (swap_entries l i m) m
  down_moved m picked ne inv =
      let at = key-swap l i m c hi picked.inside (omega arith) in
      record {
        edges = λ k p q r. ground (
          arith,
          picked.place,
          picked.below,
          at k,
          at (parent_of k),
          inv.edges k p q,
          inv.bridged m,
          picked.least k p q,
        );
        bridged =
            λ k p q r s. ground (arith, picked.place, at k, at (parent_of m), inv.edges k p q);
      }

sift_down_loop-restores :
    (fuel : ℕ) (l : TimerList) (i : ℕ)
    → l.size < fuel + i
    → i < l.size
    → Consistent l
    → DownInv l i
    → Restored l (sift_down_loop fuel l i)
sift_down_loop-restores zero l i f hi c inv = absurd (omega arith)
sift_down_loop-restores (suc fuel) l i f hi c inv =
    next (λ m. sift_down_loop-restores fuel (swap_entries l i m) m) (child l i) refl
      (child-Picked l i hi)
  where
    next :
        ((m : ℕ)
          → l.size < fuel + m
          → m < l.size
          → Consistent (swap_entries l i m)
          → DownInv (swap_entries l i m) m
          → Restored (swap_entries l i m) (sift_down_loop fuel (swap_entries l i m) m))
        → (m : ℕ) → child l i ≡ m
        → Picked l i m
        → Restored l (sift_down_loop (suc fuel) l i)
    next ih m e picked = elim (ℕ_discrete m i) [
      | yes stop ↦ (
        l,
        down_stop l c i hi fuel (e ∙ stop),
        λ k p q. elim (ℕ_discrete (parent_of k) i) [
          | yes r ↦ rw r (subst (λ x. key l x ≤ key l k) stop (picked.least k p q r))
          | no r ↦ inv.edges k p q r
        ],
        Rearranged-refl l c,
      )
      | no go ↦
          let swap = swap-Rearranged l i m c hi picked.inside (λ q. go (sym q)) in
          let moved = down_moved l c i hi m picked go inv in
          let (l', done, heap, same) =
            ih m (omega (arith, picked.place)) picked.inside swap.consistent moved in
          (
            l',
            down_step l c i hi fuel (λ q. go (sym e ∙ q))
                ∙ (ap (λ x. sift_down_loop fuel (swap_entries l i x) x) e ∙ done),
            heap,
            Rearranged-trans swap same,
          )
    ]

-- timerlist_heap_sift_down terminates without a failed assertion, and restores the heap order
-- where only the edges below its entry may be wrong. The heap has the same timers as before.
pub sift_down-restores :
    (l : TimerList) (i : ℕ) → i < l.size → Consistent l → DownInv l i → Restored l (sift_down l i)
unfolding sift_down
sift_down-restores l i hi c inv = sift_down_loop-restores (l.size + 1) l i (omega arith) hi c inv
