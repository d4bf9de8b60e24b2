-- ===== src/Timers/Insert.antt =====
-- timerlist_add puts a timer into the heap.
use libqb.Prelude.{
  lt_or_ge, update, enomem, ok, err, ℕ, ◌+◌, ◌*◌, ◌≤◌, ◌<◌, ◌≡◌, sym, ap, ◌∙◌, subst, ◌≢◌, ◌⊎◌, inl,
  inr, Bool, true, false, some, arith, lt→ltb, le→ltb,
}
use libqb.Timers.{TimerList, add, place_last, size_max, parent_of, entry_set}
use libqb.Timers.Swap.{key, Consistent, In, contents}
use libqb.Timers.SiftUp.{UpInv, sift_up-restores}
use libqb.Timers.Delete.{IsValid}

-- The timers of `l`, and `t` besides, in a valid heap that has room for them.
pub record With (l : TimerList) (t : ℕ) (l' : TimerList) : Type 0 where
  pub valid : IsValid l'
  pub size : l'.size ≡ l.size + 1
  pub handles : l'.handles ≡ l.handles
  pub same : (u : ℕ) → contents l' u ≡ contents l u
  pub others : (u : ℕ) → In l u → In l' u
  pub added : In l' t
  pub back : (u : ℕ) → In l' u → (u ≡ t) ⊎ In l u

abbrev grown : TimerList → ℕ → ℕ → TimerList
grown l room t = record l {
  size = l.size + 1;
  allocated = room;
  heap_entries = update l.heap_entries l.size t;
  timers = update l.timers t (record (l.timers t) { heap_pos = l.size });
}

module _ (l : TimerList) (t : ℕ) (room : ℕ) (v : IsValid l) (new : ¬ In l t)
    (bound : l.size < size_max) where
  -- A timer outside the heap is no entry of it.
  not_entry : (i : ℕ) → i < l.size → l.heap_entries i ≢ t
  not_entry i h e =
      let at : (l.timers t).heap_pos ≡ i =
        ap (λ u. (l.timers u).heap_pos) (sym e) ∙ v.consistent i h in
      new (subst (λ k. k < l.size) (sym at) h, ap l.heap_entries at ∙ e)

  grown-Consistent : Consistent (grown l room t)
  grown-Consistent i h = ground (arith, v.consistent i, not_entry i)

  grown-same : (u : ℕ) → contents (grown l room t) u ≡ contents l u
  grown-same u = ground arith

  key-grown : (k : ℕ) → k < l.size → key (grown l room t) k ≡ key l k
  key-grown k h =
      ap (λ x. x.expire_time) (grown-same ((grown l room t).heap_entries k)) ∙ ground arith

  grown-UpInv : UpInv (grown l room t) l.size
  grown-UpInv = record {
    edges = λ k p q ne. ground (arith, key-grown k, key-grown (parent_of k), v.heap k);
    bridged = λ k p q e h. absurd (omega arith);
  }

  grown-others : (u : ℕ) → In l u → In (grown l room t) u
  grown-others u (p, q) = ground (arith, new)

  grown-added : In (grown l room t) t
  grown-added = ground arith

  grown-back : (u : ℕ) → In (grown l room t) u → (u ≡ t) ⊎ In l u
  grown-back u (p, q) = ground arith

  place_last-With :
      l.size + 1 ≤ room
      → (l' : TimerList) × (place_last (record l { allocated = room }) t ≡ some (ok 0, l'))
        × With l t l'
  unfolding place_last entry_set
  place_last-With fits =
      let (l', done, heap, moved) =
        sift_up-restores (grown l room t) l.size (omega arith) grown-Consistent grown-UpInv in
      (
        l',
        rw (lt→ltb l.size (l.size + 1) (omega arith), done),
        record {
          valid = record {
            heap = heap;
            consistent = moved.consistent;
            counted = omega (arith, moved.size);
            fits = omega (arith, moved.size, moved.allocated);
          };
          size = moved.size;
          handles = moved.handles;
          same = λ u. moved.same u ∙ grown-same u;
          others = λ u p. moved.into u (grown-others u p);
          added = moved.into t grown-added;
          back = λ u p. grown-back u (moved.back u p);
        },
      )

-- Adding to a valid heap, of fewer than the most entries, a timer that is not in it puts exactly
-- that timer in: the others stay with their contents, the heap is in order, and the array is large
-- enough. This wants memory only when the array is full.
pub add-With :
    (memory : Bool) (l : TimerList) (t : ℕ)
    → IsValid l
    → ¬ In l t
    → l.size < size_max
    → (memory ≡ true) ⊎ (l.size < l.allocated)
    → (l' : TimerList) × (add memory l t ≡ some (ok 0, l')) × With l t l'
unfolding add
add-With memory l t v new bound possible = elim (lt_or_ge l.allocated (l.size + 1)) [
  | inr room ↦ rw (le→ltb _ _ room) (place_last-With l t l.allocated v new bound room)
  | inl full ↦
      let m : memory ≡ true = ground arith in
      rw (lt→ltb _ _ full, m)
        (place_last-With l t ((l.allocated + 1) * 2) v new bound (omega (arith, v.fits)))
]

-- Without memory a full heap refuses the timer with -ENOMEM and does not change.
add-enomem : (l : TimerList) (t : ℕ) → l.allocated ≤ l.size → add false l t ≡ some (err enomem, l)
unfolding add
add-enomem l t full = ground arith
