-- ===== src/Array/Tests.antt =====
-- Tests of the array, of numbers, with one bin of sixteen allocated.
use libqb.Prelude.{
  ◌==◌, if◌then◌else◌, enomem, ok, err, ℕ, ◌+◌, max, ◌≡◌, refl, true, none, some, arith,
}
use libqb.Array.{Array, Bins, Indexed, index, grow}
use libqb.Array.Index.{IsWellFormed, HandsOut, index-HandsOut}
use libqb.Array.Grow.{Grown, grow-Grown, index-autogrows, grow-loses_bins}

abbrev one_bin : Bins ℕ
one_bin b = if b == 1 then some (λ e. e + 7) else none

abbrev forty : ℕ → Array ℕ
forty autogrow = record {
  bin = some one_bin;
  max_elements = 40;
  num_bins = 3;
  autogrow_elements = autogrow;
  new_bin_cb = true;
}

forty-IsWellFormed : (autogrow : ℕ) → IsWellFormed (forty autogrow)
forty-IsWellFormed autogrow = record {
  bins = one_bin;
  has_bins = refl;
  bounded = omega arith;
  enough = omega arith;
  absent = λ b p. ground arith;
}

abbrev garbage : Bins ℕ
garbage b = some (λ e. 99)

index-HandsOut_example :
    (r : Indexed) × (a' : Array ℕ) × (index none none true 0 (forty 0) 35 ≡ some (r, a'))
    × HandsOut 0 (forty 0) 35 r a'
index-HandsOut_example =
    index-HandsOut 0 (forty 0) 35 (forty-IsWellFormed 0) (omega arith) none none

index-autogrows_example :
    (r : Indexed) × (a' : Array ℕ) × (index (some garbage) none true 0 (forty 16) 100
      ≡ some (r, a'))
    × HandsOut 0 (forty 16) 100 r a'
index-autogrows_example =
    index-autogrows (forty 16) (forty-IsWellFormed 16) garbage none 0 100 (omega arith)
      (omega arith) (omega arith)

grow-Grown_example :
    (a' : Array ℕ) × (grow (some garbage) (forty 0) 100 ≡ (ok 0, a'))
    × Grown (forty 0) (max 40 100) a'
grow-Grown_example = grow-Grown (forty 0) (forty-IsWellFormed 0) garbage 100 (omega arith)

grow-loses_bins_example :
    ((grow none (forty 0) 100).0 ≡ err enomem)
    × (index none (some garbage) true 0 (grow none (forty 0) 100).1 20 ≡ none)
grow-loses_bins_example =
    grow-loses_bins (forty 0) (forty-IsWellFormed 0) 100 20 none (some garbage) true 0 (omega arith)
      (omega arith) (omega arith) (omega arith)
