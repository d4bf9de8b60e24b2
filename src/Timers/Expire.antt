-- ===== src/Timers/Expire.antt =====
-- timerlist_expire calls the functions of the timers that are due.
use libqb.Prelude.{
  ◌>>=◌, ltb, if◌then◌else◌, lt_or_ge, ℕ, zero, suc, ◌+◌, ◌≤◌, ◌<◌, ◌≡◌, refl, sym, ap, ◌∙◌, subst,
  ◌⊎◌, inl, inr, false, some, List, [], ◌∷◌, arith, ℕ_discrete, lt→ltb, le→ltb,
}
use libqb.Timers.{TimerList, del, expire, expire_loop, clear_handle, parent_of, entry_get}
use libqb.Timers.Swap.{key, In}
use libqb.Timers.SiftUp.{IsHeap}
use libqb.Timers.Delete.{IsValid, Without, del-Deleted}

-- The first timer of a heap in order expires first.
root_least_below :
    (k : ℕ) (l : TimerList) (i : ℕ) → IsHeap l → i < k → i < l.size → key l 0 ≤ key l i
root_least_below zero l i h f p = absurd (omega arith)
root_least_below (suc k) l i h f p = ground (arith, h i, root_least_below k l (parent_of i) h)

pub root_least : (l : TimerList) (u : ℕ) → IsHeap l → In l u → key l 0 ≤ (l.timers u).expire_time
root_least l u h (p, q) =
    subst (λ x. key l 0 ≤ (l.timers x).expire_time) q
      (root_least_below (suc (l.timers u).heap_pos) l (l.timers u).heap_pos h (omega arith) p)

abbrev pub Called : ℕ → List ℕ → Type 0
Called u [] = ⊥
Called u (t ∷ ts) = (u ≡ t) ⊎ Called u ts

-- The times do not fall from one to the next of those called.
abbrev pub Ascending : (ℕ → ℕ) → List ℕ → Type 0
Ascending time [] = Unit {0}
Ascending time (t ∷ ts) = ((u : ℕ) → Called u ts → time t ≤ time u) × Ascending time ts

-- Every timer runs on the monotonic clock.
abbrev pub IsMonotonic : TimerList → Type 0
IsMonotonic l = (u : ℕ) → In l u → (l.timers u).is_absolute_timer ≡ false

-- What a call at time `now` does to the timers of `l`, which expire at `time`.
pub record Expires (now : ℕ) (time : ℕ → ℕ) (l : TimerList) (called : List ℕ) (rest : TimerList)
    : Type 0 where
  pub valid : IsValid rest
  pub due : (u : ℕ) → In l u → time u < now → Called u called
  pub only_due : (u : ℕ) → Called u called → In l u × (time u < now)
  pub waiting : (u : ℕ) → In l u → now ≤ time u → In rest u
  pub only_waiting : (u : ℕ) → In rest u → In l u × (now ≤ time u)
  pub ascending : Ascending time called

module _ (now from_epoch : ℕ) (time : ℕ → ℕ) where
  abbrev Timed : TimerList → Type 0
  Timed l = (u : ℕ) → (l.timers u).expire_time ≡ time u

  module _ (l : TimerList) (v : IsValid l) (m : IsMonotonic l) (timed : Timed l) where
    abbrev first : ℕ
    first = l.heap_entries 0

    first-In : 0 < l.size → In l first
    first-In h =
        let at = v.consistent 0 h in (subst (λ k. k < l.size) (sym at) h, ap l.heap_entries at)

    stop-Expires : (0 < l.size → now ≤ time first) → Expires now time l [] l
    stop-Expires late = record {
      valid = v;
      due = λ u p d.
          absurd
            (omega (arith, root_least l u v.heap p, timed u, timed first, late (omega (arith, p))));
      only_due = λ u c. absurd c;
      waiting = λ u p w. p;
      only_waiting = λ u p. (
        p,
        omega (arith, root_least l u v.heap p, timed u, timed first, late (omega (arith, p))),
      );
      ascending = tt;
    }

    step-Expires :
        (l1 : TimerList) (called : List ℕ) (rest : TimerList)
        → 0 < l.size
        → time first < now
        → Without (clear_handle l first) first l1
        → Expires now time l1 called rest
        → Expires now time l (first ∷ called) rest
    step-Expires l1 called rest h early w e = record {
      valid = e.valid;
      due = λ u p d. elim (ℕ_discrete u first) [
        | yes q ↦ inl q
        | no q ↦ inr (e.due u (w.others u p q) d)
      ];
      only_due = λ u c. elim c [
        | inl q ↦ (subst (In l) (sym q) (first-In h), omega (arith, ap time q))
        | inr c' ↦ (w.back u (e.only_due u c').0, (e.only_due u c').1)
      ];
      waiting =
          λ u p late. e.waiting u (w.others u p (λ q. absurd (omega (arith, ap time q)))) late;
      only_waiting = λ u p. (w.back u (e.only_waiting u p).0, (e.only_waiting u p).1);
      ascending = (
        λ u c.
            omega
              (arith, root_least l u v.heap (w.back u (e.only_due u c).0), timed u, timed first),
        e.ascending,
      );
    }

  expire_loop-first :
      (fuel : ℕ) (l : TimerList)
      → 0 < l.size
      → (l.timers (l.heap_entries 0)).is_absolute_timer ≡ false
      → expire_loop (suc fuel) now from_epoch l ≡ (
          if ltb (l.timers (l.heap_entries 0)).expire_time now
          then del l (l.heap_entries 0) >>= (λ rest.
            expire_loop fuel now from_epoch rest >>= λ called.
            some (l.heap_entries 0 ∷ called.0, called.1))
          else some ([], l))
  unfolding expire_loop entry_get
  expire_loop-first fuel l h clock = ground (arith, h, clock)

  expire_loop-Expires :
      (fuel : ℕ) (l : TimerList)
      → IsValid l
      → IsMonotonic l
      → Timed l
      → l.size < fuel
      → (called : List ℕ) × (rest : TimerList) × (expire_loop fuel now from_epoch l
          ≡ some (called, rest))
        × Expires now time l called rest
  unfolding expire_loop
  expire_loop-Expires zero l v m timed enough = absurd (omega arith)
  expire_loop-Expires (suc fuel) l v m timed enough = elim (lt_or_ge 0 l.size) [
    | inr empty ↦
        ([], l, rw (le→ltb _ _ empty) refl, stop-Expires l v m timed (λ p. absurd (omega arith)))
    | inl some_left ↦
        let t : ℕ = l.heap_entries 0 in
        let held : In l t = first-In l v m timed some_left in
        let step = expire_loop-first fuel l some_left (m t held) in
        elim (lt_or_ge (l.timers t).expire_time now) [
          | inr late ↦ (
            [],
            l,
            step ∙ rw (le→ltb _ _ late),
            stop-Expires l v m timed (λ p. omega (arith, timed t)),
          )
          | inl early ↦
              let (l1, gone, d) = del-Deleted l t v held in
              let (called, rest, run, e) =
                expire_loop-Expires fuel l1 d.without.valid
                  (λ u p.
                    ap (λ x. x.is_absolute_timer) (d.without.same u) ∙ m u (d.without.back u p))
                  (λ u. ap (λ x. x.expire_time) (d.without.same u) ∙ timed u)
                  (omega (arith, d.without.size)) in
              (
                t ∷ called,
                rest,
                step ∙ rw (lt→ltb _ _ early, gone, run),
                step-Expires l v m timed l1 called rest some_left (omega (arith, timed t)) d.without
                    e,
              )
        ]
  ]

-- On a valid heap of monotonic timers, timerlist_expire ends without a failed assertion. It calls
-- exactly the timers whose time lies before `now`, in the order of their times, and leaves exactly
-- the others, in a valid heap.
pub expire-Expires :
    (now from_epoch : ℕ) (l : TimerList)
    → IsValid l
    → IsMonotonic l
    → (called : List ℕ) × (rest : TimerList) × (expire now from_epoch l ≡ some (called, rest))
      × Expires now (λ u. (l.timers u).expire_time) l called rest
unfolding expire
expire-Expires now from_epoch l v m =
    expire_loop-Expires now from_epoch (λ u. (l.timers u).expire_time) (l.size + 1) l v m
      (λ u. refl) (omega arith)
