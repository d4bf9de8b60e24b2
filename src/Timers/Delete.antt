-- ===== src/Timers/Delete.antt =====
-- timerlist_heap_delete takes one timer out, wherever it stands in the heap.
use libqb.Prelude.{
  ◌==◌, if◌then◌else◌, lt_or_ge, update, update_self, ℕ, ◌+◌, ◌-◌, ◌≤◌, ◌<◌, ◌≡◌, refl, ap, ◌∙◌,
  ◌≢◌, inl, inr, none, some, arith, lt→ltb, le→ltb,
}
use libqb.Timers.{
  TimerList, heap_delete, del, clear_handle, resift, size_max, parent_of, entry_get, entry_set,
}
use libqb.Timers.Swap.{key, Consistent, In, contents, Rearranged-refl}
use libqb.Timers.SiftUp.{IsHeap, Restored, UpInv, sift_up-restores}
use libqb.Timers.SiftDown.{DownInv, sift_down-restores}

-- A heap in order whose timers know their places, whose size is a `size_t`, and whose array has
-- room for it.
pub record IsValid (l : TimerList) : Type 0 where
  pub heap : IsHeap l
  pub consistent : Consistent l
  pub counted : l.size ≤ size_max
  pub fits : l.size ≤ l.allocated

-- What is left when `t` has gone: all other timers as they were, in a valid heap.
pub record Without (l : TimerList) (t : ℕ) (l' : TimerList) : Type 0 where
  pub valid : IsValid l'
  pub size : l'.size + 1 ≡ l.size
  pub allocated : l'.allocated ≡ l.allocated
  pub handles : l'.handles ≡ l.handles
  pub same : (u : ℕ) → contents l' u ≡ contents l u
  pub others : (u : ℕ) → In l u → u ≢ t → In l' u
  pub gone : ¬ In l' t
  pub back : (u : ℕ) → In l' u → In l u

-- The heap after the replacement, before the order is restored.
abbrev cut : TimerList → ℕ → TimerList
cut l t =
    let pos = (l.timers t).heap_pos in
    let r = l.heap_entries (l.size - 1) in
    let marked = update l.timers t (record (l.timers t) { heap_pos = size_max }) in
    record l {
      heap_entries = update l.heap_entries pos r;
      timers = update marked r (record (marked r) { heap_pos = pos });
      size = l.size - 1;
    }

module _ (l : TimerList) (t : ℕ) (v : IsValid l) (held : In l t) where
  abbrev last : ℕ
  last = l.size - 1

  abbrev r : ℕ
  r = l.heap_entries last

  abbrev pos : ℕ
  pos = (l.timers t).heap_pos

  heap_delete-cut : heap_delete l t ≡ resift (cut l t) r t pos
  unfolding heap_delete entry_get entry_set
  heap_delete-cut = ground (arith, held)

  cut-Consistent : Consistent (cut l t)
  cut-Consistent i h = ground (arith, held, v.consistent i, v.consistent last)

  cut-others : (u : ℕ) → In l u → u ≢ t → In (cut l t) u
  cut-others u (p, q) ne = ground (arith, held, v.consistent last)

  cut-gone : ¬ In (cut l t) t
  cut-gone (p, q) = ground (arith, held, v.counted, v.consistent last)

  cut-back : (u : ℕ) → In (cut l t) u → In l u
  cut-back u (p, q) = ground (arith, held, v.consistent last, v.counted)

  cut-same : (u : ℕ) → contents (cut l t) u ≡ contents l u
  cut-same u = ground arith

  key-cut : (k : ℕ) → key (cut l t) k ≡ (if pos == k then (l.timers r).expire_time else key l k)
  key-cut k = ap (λ x. x.expire_time) (cut-same ((cut l t).heap_entries k)) ∙ ground arith

  -- The bound on the size of what is left, and where the replacement stands.
  in_cut : r ≢ t → pos < last
  in_cut ne = ground (arith, held)

  cut-UpInv : (l.timers r).expire_time < (l.timers t).expire_time → UpInv (cut l t) pos
  cut-UpInv lower = record {
    edges = λ k p q ne. ground (arith, held, key-cut k, key-cut (parent_of k), v.heap k);
    bridged =
        λ k p q e h. ground (arith, held, key-cut k, key-cut (parent_of pos), v.heap k, v.heap pos);
  }

  cut-DownInv : (l.timers t).expire_time < (l.timers r).expire_time → DownInv (cut l t) pos
  cut-DownInv higher = record {
    edges = λ k p q ne. ground (arith, held, key-cut k, key-cut (parent_of k), v.heap k);
    bridged =
        λ k p q e h. ground (arith, held, key-cut k, key-cut (parent_of pos), v.heap k, v.heap pos);
  }

  cut-IsHeap : (l.timers t).expire_time ≡ (l.timers r).expire_time → IsHeap (cut l t)
  cut-IsHeap e k p q = ground (arith, held, key-cut k, key-cut (parent_of k), v.heap k)

  cut-time : (u : ℕ) → ((cut l t).timers u).expire_time ≡ (l.timers u).expire_time
  cut-time u = ap (λ x. x.expire_time) (cut-same u)

  resift-Restored : Restored (cut l t) (resift (cut l t) r t pos)
  unfolding resift
  resift-Restored = elim (lt_or_ge (l.timers r).expire_time (l.timers t).expire_time) [
    | inl lower ↦
        rw (cut-time r, cut-time t, lt→ltb _ _ lower)
          (sift_up-restores (cut l t) pos
            (in_cut (λ e. absurd (omega (arith, ap (λ x. (l.timers x).expire_time) e))))
            cut-Consistent (cut-UpInv lower))
    | inr not_lower ↦ elim (lt_or_ge (l.timers t).expire_time (l.timers r).expire_time) [
      | inl higher ↦
          rw (cut-time r, cut-time t, le→ltb _ _ not_lower, lt→ltb _ _ higher)
            (sift_down-restores (cut l t) pos
              (in_cut (λ e. absurd (omega (arith, ap (λ x. (l.timers x).expire_time) e))))
              cut-Consistent (cut-DownInv higher))
      | inr not_higher ↦
          rw (cut-time r, cut-time t, le→ltb _ _ not_lower, le→ltb _ _ not_higher)
            (cut l t, refl, cut-IsHeap (omega arith), Rearranged-refl (cut l t) cut-Consistent)
    ]
  ]

  -- Deleting a timer that stands in a valid heap, at any place, returns without a failed
  -- assertion and takes out exactly that timer: every other one stays in the heap with its
  -- contents, the heap is in order, and the timers know their places.
  pub heap_delete-Without : (l' : TimerList) × (heap_delete l t ≡ some l') × Without l t l'
  heap_delete-Without =
      let (l', done, heap, moved) = resift-Restored in
      let positive : 0 < l.size = omega (arith, held) in
      (
        l',
        heap_delete-cut ∙ done,
        record {
          valid = record {
            heap = heap;
            consistent = moved.consistent;
            counted = omega (arith, moved.size, v.counted);
            fits = omega (arith, moved.size, moved.allocated, v.fits);
          };
          size = omega (arith, moved.size);
          allocated = moved.allocated;
          handles = moved.handles;
          same = λ u. moved.same u ∙ cut-same u;
          others = λ u p ne. moved.into u (cut-others u p ne);
          gone = λ p. cut-gone (moved.back t p);
          back = λ u p. cut-back u (moved.back u p);
        },
      )

-- What timerlist_del leaves when `t` has gone: the timers as `Without` says, and the handle of `t`,
-- which alone is cleared.
pub record Deleted (l : TimerList) (t : ℕ) (l' : TimerList) : Type 0 where
  pub without : Without (clear_handle l t) t l'
  pub cleared : l'.handles (l.timers t).handle_addr ≡ none
  pub kept : (a : ℕ) → a ≢ (l.timers t).handle_addr → l'.handles a ≡ l.handles a

-- timerlist_del of a timer in a valid heap returns without a failed assertion, takes out exactly
-- that timer, and clears its handle and no other.
pub del-Deleted :
    (l : TimerList) (t : ℕ)
    → IsValid l
    → In l t
    → (l' : TimerList) × (del l t ≡ some l') × Deleted l t l'
unfolding del
del-Deleted l t v held =
    let same_heap : IsValid (clear_handle l t) = record {
      heap = v.heap;
      consistent = v.consistent;
      counted = v.counted;
      fits = v.fits;
    } in
    let (l', done, w) = heap_delete-Without (clear_handle l t) t same_heap held in
    (
      l',
      done,
      record {
        without = w;
        cleared =
            ap (λ h. h (l.timers t).handle_addr) w.handles
            ∙ update_self l.handles (l.timers t).handle_addr none;
        kept = λ a ne. ap (λ h. h a) w.handles ∙ ground arith;
      },
    )
