-- ===== src/Timers/Tests.antt =====
-- Tests of the timers, on a heap of three.
use libqb.Prelude.{
  ok, ℕ, ◌+◌, ◌-◌, ◌*◌, ◌/◌, ◌≤◌, ◌<◌, ◌≡◌, refl, ◌↔◌, ◌⊎◌, inr, true, false, Option, none, some,
  List, [], ◌∷◌, arith,
}
use libqb.Timers.{
  debug_is_valid_heap, TimerList, Timer, add, expire, heap_delete, msec_duration_to_expire,
}
use libqb.Timers.Swap.{In}
use libqb.Timers.SiftUp.{IsHeap}
use libqb.Timers.Delete.{IsValid, Without, heap_delete-Without}
use libqb.Timers.Insert.{With, add-With}
use libqb.Timers.Expire.{IsMonotonic, Expires, expire-Expires}
use libqb.Timers.Check.{debug_is_valid_heap-IsHeap, msec_duration_to_expire-earliest}

-- Timer `u` expires at `10 * u`.
abbrev timer_at : ℕ → Timer
timer_at u = record {
  expire_time = u * 10;
  is_absolute_timer = false;
  timer_fn = 0;
  user_data = u;
  handle_addr = u + 100;
  heap_pos = u - 1;
}

-- Timers 1, 2 and 3.
abbrev three : TimerList
three = record {
  heap_entries = λ i. i + 1;
  allocated = 4;
  size = 3;
  timers = timer_at;
  handles = λ a. some (a - 100);
}

three-IsValid : IsValid three
three-IsValid = record {
  heap = λ c p q. omega arith;
  consistent = λ i h. omega arith;
  counted = omega arith;
  fits = omega arith;
}

two-In : In three 2
two-In = (omega arith, refl)

nine-out : ¬ In three 9
nine-out (p, q) = absurd (omega (arith, p))

three-IsMonotonic : IsMonotonic three
three-IsMonotonic u p = refl

heap_delete-Without_example :
    (l' : TimerList) × (heap_delete three 2 ≡ some l') × Without three 2 l'
heap_delete-Without_example = heap_delete-Without three 2 three-IsValid two-In

add-With_example : (l' : TimerList) × (add false three 9 ≡ some (ok 0, l')) × With three 9 l'
add-With_example = add-With false three 9 three-IsValid nine-out (omega arith) (inr (omega arith))

expire-Expires_example :
    (called : List ℕ) × (rest : TimerList) × (expire 25 0 three ≡ some (called, rest))
    × Expires 25 (λ u. u * 10) three called rest
expire-Expires_example = expire-Expires 25 0 three three-IsValid three-IsMonotonic

msec_duration_to_expire-earliest_example :
    (msec : ℕ) × (msec_duration_to_expire 1000 5 0 three ≡ some msec)
    × (20 < 5 → msec ≡ 0)
    × (5 ≤ 20 → msec * 1000000 ≤ 20 - 5 + 1000 / 1000 * 1000000)
msec_duration_to_expire-earliest_example =
    msec_duration_to_expire-earliest 1000 5 0 three 2 three-IsValid refl two-In

called_of : Option (List ℕ × TimerList) → List ℕ
called_of none = []
called_of (some (called, l)) = called

two_expire : called_of (expire 25 0 three) ≡ 1 ∷ 2 ∷ []
unfolding called_of expire
two_expire = refl

debug_is_valid_heap-IsHeap_example :
    ((debug_is_valid_heap three ≡ some true) ↔ IsHeap three)
    × ((debug_is_valid_heap three ≡ some true) ⊎ (debug_is_valid_heap three ≡ some false))
debug_is_valid_heap-IsHeap_example = debug_is_valid_heap-IsHeap three
