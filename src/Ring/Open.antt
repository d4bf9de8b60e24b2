-- ===== src/Ring/Open.antt =====
-- qb_rb_open_2: the ring that a creator starts with.
use native.Mathlib.Nat.{
  mod-eq_of_lt, div-add-mod, mod-lt, mul-add-div_right, div-eq_of_lt, add-zero,
}
use libqb.Prelude.{ℕ, ◌+◌, ◌-◌, ◌*◌, ◌/◌, ◌≤◌, ◌<◌, ◌≡◌, sym, ap, ◌∙◌, Bool, [], arith}
use libqb.Ring.{create, roundup, u32}
use libqb.Ring.Layout.{Holds}

-- QB_ROUNDUP gives the least multiple that is not less.
pub roundup_bounds : (x y : ℕ) → 0 < y → (x ≤ roundup x y) × (roundup x y < x + y)
roundup_bounds x y h =
    let d = div-add-mod (x + (y - 1)) y in
    let m = mod-lt (x + (y - 1)) h in (grind arith, grind arith)

pub roundup_self : (k y : ℕ) → 0 < y → roundup (k * y) y ≡ k * y
roundup_self k y h =
    ap (λ d. d * y)
      (mul-add-div_right h k (y - 1) ∙ (ap (λ e. k + e) (div-eq_of_lt (omega arith)) ∙ add-zero k))

module _ {S : Type 0} (inst : S) (overwrite : Bool) (size pages : ℕ) (paged : 0 < pages)
    (small : size + 4 * pages + 13 < 4294967296) where
  rounded_words : ℕ
  rounded_words = (size + 13 + (4 * pages - 1)) / (4 * pages) * pages

  rounded_words_bounds :
      (size + 13 ≤ 4 * rounded_words) × (4 * rounded_words < size + 13 + 4 * pages)
  unfolding rounded_words
  rounded_words_bounds =
      let b = roundup_bounds (size + 13) (4 * pages) (omega arith) in
      (omega (arith, b.0), omega (arith, b.1))

  create_size : (create inst overwrite size (4 * pages)).word_size ≡ rounded_words
  unfolding create rounded_words
  create_size =
      let bounds = rounded_words_bounds in
      rw (mod-eq_of_lt {n = size + 13} {m = 18446744073709551616} (omega arith))
        (ap u32 (omega arith) ∙ mod-eq_of_lt (omega (arith, bounds.1)))

  -- A new ring is empty, and has room for any message of the size that its creator asked for: the
  -- pages are counted in words, and the sum stays below 2^32.
  pub create-Holds :
      Holds (create inst overwrite size (4 * pages)) []
      × (size + 12 ≤ 4 * (create inst overwrite size (4 * pages)).word_size)
  unfolding create
  create-Holds =
      let ws : ℕ = (create inst overwrite size (4 * pages)).word_size in
      let bounds = rounded_words_bounds in
      let pos : 0 < ws = omega (arith, create_size, bounds.0) in
      (
        record {
          small = omega (arith, create_size, bounds.1);
          read_in = pos;
          write_at = sym (mod-eq_of_lt pos);
          fits = pos;
          chunks = tt;
        },
        omega (arith, create_size, bounds.0),
      )
