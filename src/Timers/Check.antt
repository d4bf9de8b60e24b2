-- ===== src/Timers/Check.antt =====
-- timerlist_debug_is_valid_heap, and timerlist_msec_duration_to_expire.
use libqb.Prelude.{
  lt_or_ge, ℕ, zero, suc, ◌+◌, ◌-◌, ◌*◌, ◌/◌, ◌≤◌, ◌<◌, ◌≡◌, refl, sym, subst, ◌↔◌, ◌⊎◌, inl, inr,
  true, false, some, arith,
}
use libqb.Timers.{
  TimerList, debug_is_valid_heap, is_valid_from, child_before, msec_duration_to_expire, left_of,
  right_of, parent_of, entry_get,
}
use libqb.Timers.Swap.{key, In}
use libqb.Timers.SiftUp.{IsHeap}
use libqb.Timers.Delete.{IsValid}
use libqb.Timers.Expire.{root_least}

abbrev Ordered : TimerList → ℕ → ℕ → Type 0
Ordered l i child = child < l.size → key l i ≤ key l child

child_cases : (c : ℕ) {i : ℕ} → 0 < c → parent_of c ≡ i → (c ≡ left_of i) ⊎ (c ≡ right_of i)
child_cases c p e = ground arith

left_parent : (i : ℕ) → parent_of (left_of i) ≡ i
left_parent i = omega arith

right_parent : (i : ℕ) → parent_of (right_of i) ≡ i
right_parent i = omega arith

module _ (l : TimerList) where
  step :
      (i n : ℕ)
      → i < l.size
      → is_valid_from l i (suc n) ≡ some true
      → Ordered l i (left_of i) × Ordered l i (right_of i) × (is_valid_from l (i + 1) n ≡ some true)
  unfolding is_valid_from child_before entry_get
  step i n h e = ground arith

  step_back :
      (i n : ℕ)
      → i < l.size
      → Ordered l i (left_of i)
      → Ordered l i (right_of i)
      → is_valid_from l (i + 1) n ≡ some true
      → is_valid_from l i (suc n) ≡ some true
  unfolding is_valid_from child_before entry_get
  step_back i n h p q e = ground arith

  child_before-returns :
      (child cur : ℕ)
      → (child_before l child cur ≡ some true) ⊎ (child_before l child cur ≡ some false)
  unfolding child_before entry_get
  child_before-returns child cur = ground arith

  valid_from-returns :
      (n i : ℕ)
      → i + n ≡ l.size
      → (is_valid_from l i n ≡ some true) ⊎ (is_valid_from l i n ≡ some false)
  unfolding is_valid_from entry_get
  valid_from-returns zero i e = inl refl
  valid_from-returns (suc n) i e = ground (
    arith,
    child_before-returns (left_of i) (l.heap_entries i),
    child_before-returns (right_of i) (l.heap_entries i),
    valid_from-returns n (i + 1) (omega arith),
  )

  -- The heap order below the entries from `i` on.
  abbrev OrderedFrom : ℕ → Type 0
  OrderedFrom i = (c : ℕ) → 0 < c → c < l.size → i ≤ parent_of c → key l (parent_of c) ≤ key l c

  from-Ordered : (n i : ℕ) → i + n ≡ l.size → is_valid_from l i n ≡ some true → OrderedFrom i
  from-Ordered zero i e valid c p q h = absurd (omega arith)
  from-Ordered (suc n) i e valid c p q h =
      let (left, right, rest) = step i n (omega arith) valid in
      let later = from-Ordered n (i + 1) (omega arith) rest c p q in
      elim (lt_or_ge i (parent_of c)) [
        | inl above ↦ later (omega arith)
        | inr here ↦
            let at : parent_of c ≡ i = omega arith in
            subst (λ k. key l k ≤ key l c) (sym at)
              (elim (child_cases c p at) [
                | inl a ↦ subst (λ k. key l i ≤ key l k) (sym a) (left (omega arith))
                | inr b ↦ subst (λ k. key l i ≤ key l k) (sym b) (right (omega arith))
              ])
      ]

  ordered-from : (n i : ℕ) → i + n ≡ l.size → OrderedFrom i → is_valid_from l i n ≡ some true
  unfolding is_valid_from
  ordered-from zero i e o = refl
  ordered-from (suc n) i e o =
      step_back i n (omega arith)
        (λ h.
          subst (λ k. key l k ≤ key l (left_of i)) (left_parent i)
            (o (left_of i) (omega arith) h (omega arith)))
        (λ h.
          subst (λ k. key l k ≤ key l (right_of i)) (right_parent i)
            (o (right_of i) (omega arith) h (omega arith)))
        (ordered-from n (i + 1) (omega arith) (λ c p q h. o c p q (omega arith)))

-- timerlist_debug_is_valid_heap never fails an assertion of its own, whatever the heap, and it
-- returns true for exactly the heaps in which no entry expires before its parent.
pub debug_is_valid_heap-IsHeap :
    (l : TimerList)
    → ((debug_is_valid_heap l ≡ some true) ↔ IsHeap l)
      × ((debug_is_valid_heap l ≡ some true) ⊎ (debug_is_valid_heap l ≡ some false))
unfolding debug_is_valid_heap
debug_is_valid_heap-IsHeap l = (
  (
    λ e c p q. from-Ordered l l.size 0 (omega arith) e c p q (omega arith),
    λ h. ordered-from l l.size 0 (omega arith) (λ c p q le. h c p q),
  ),
  valid_from-returns l l.size 0 (omega arith),
)

-- In a valid heap with a timer `u`, whose first timer runs on the monotonic clock, the milliseconds
-- that timerlist_msec_duration_to_expire returns never pass the time of `u` by more than one tick of
-- the clock, and they are 0 if `u` is due: who sleeps so long wakes for the earliest timer.
pub msec_duration_to_expire-earliest :
    (hertz now from_epoch : ℕ) (l : TimerList) (u : ℕ)
    → IsValid l
    → (l.timers (l.heap_entries 0)).is_absolute_timer ≡ false
    → In l u
    → (msec : ℕ) × (msec_duration_to_expire hertz now from_epoch l ≡ some msec)
      × ((l.timers u).expire_time < now → msec ≡ 0)
      × (now ≤ (l.timers u).expire_time
          → msec * 1000000 ≤ (l.timers u).expire_time - now + 1000 / hertz * 1000000)
unfolding msec_duration_to_expire entry_get
msec_duration_to_expire-earliest hertz now from_epoch l u v m held = elim (lt_or_ge (key l 0) now) [
  | inl due ↦ (0, ground (arith, m, held), λ d. refl, λ w. omega arith)
  | inr late ↦ (
    (key l 0 - now) / 1000000 + 1000 / hertz,
    ground (arith, m, held),
    λ d. absurd (omega (arith, root_least l u v.heap held)),
    λ w. omega (arith, root_least l u v.heap held),
  )
]
