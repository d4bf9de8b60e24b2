-- ===== src/HashTable/Hash.antt =====
-- The hash of a key names a bucket that is there, and what qb_hashtable_create comes to.
use native.Mathlib.Nat.{mod-lt, two-pow-succ, pow-le-pow_right}
use native.Mathlib.Numerals.{unary_clauses}
use libqb.Prelude.{
  if◌then◌else◌, lt_or_ge, ℕ, zero, suc, ◌+◌, ◌-◌, ◌/◌, ◌%◌, ◌^◌, ◌≤◌, ◌<◌, max, ◌≡◌, refl, sym, ap,
  subst, inl, inr, Bool, none, some, arith, ℕ_discrete, lt→ltb, le→ltb, ne→beq, eq→beq,
}
use libqb.Map.Keys.{Key}
use libqb.HashTable.{hash_string}
use libqb.HashTable.Creation.{
  order_loop, create, order_found, create_order, table_of_order, made, null, overflow,
  size_of_order,
}

pub pow_pos : (n : ℕ) → 0 < 2 ^ n
pow_pos zero = omega arith
pow_pos (suc n) = simp unary_clauses (omega (arith, pow_pos n))

-- Whatever its bytes, a key's hash is the index of one of the 2^order buckets.
pub hash_string-lt : (key : Key) (order : ℕ) → hash_string key order < 2 ^ order
unfolding hash_string
hash_string-lt key order = mod-lt _ (pow_pos order)

twice : (n : ℕ) → 2 ^ suc n ≡ 2 ^ n + 2 ^ n
twice n = two-pow-succ n

-- With at most `k` bits left the loop ends, and counts them.
order_loop-ends :
    (k n i fuel : ℕ)
    → n < 2 ^ k
    → n < 2147483648
    → k < fuel
    → (j : ℕ) × (order_loop fuel n i ≡ some j) × (i ≤ j) × (j ≤ i + k) × (n < 2 ^ (j - i))
unfolding order_loop
order_loop-ends k n i zero h small f = absurd (omega arith)
order_loop-ends zero n i (suc fuel) h small f =
    let z : n ≡ 0 = omega arith in
    (
      i,
      rw (eq→beq n 0 z) refl,
      omega arith,
      omega arith,
      subst (λ e. n < 2 ^ e) (let s : 0 ≡ i - i = omega arith in s) (omega arith),
    )
order_loop-ends (suc k) n i (suc fuel) h small f = elim (ℕ_discrete n 0) [
  | yes z ↦ (
    i,
    rw (eq→beq n 0 z) refl,
    omega arith,
    omega arith,
    subst (λ e. n < 2 ^ e) (let s : 0 ≡ i - i = omega arith in s) (omega arith),
  )
  | no nz ↦
      let half : n / 2 < 2 ^ k = omega (arith, twice k) in
      let (j, run, above, below, bits) =
        order_loop-ends k (n / 2) (i + 1) fuel half (omega arith) (omega arith) in
      (
        j,
        rw (ne→beq n 0 nz, lt→ltb n 2147483648 small) run,
        omega arith,
        omega arith,
        let more : j - i ≡ suc (j - (i + 1)) = omega arith in
            subst (λ e. n < 2 ^ e) (sym more) (omega (arith, twice (j - (i + 1)), bits)),
      )
]

order_loop-negative : (fuel n i : ℕ) → 2147483648 ≤ n → order_loop fuel n i ≡ none
unfolding order_loop
order_loop-negative zero n i h = refl
order_loop-negative (suc fuel) n i h =
    rw (ne→beq n 0 (λ z. absurd (omega arith)), le→ltb n 2147483648 h)
      (order_loop-negative fuel (n / 2 + 2147483648) (i + 1) (omega arith))

pow_mono : (j k : ℕ) → j ≤ k → 2 ^ j ≤ 2 ^ k
pow_mono j k h = pow-le-pow_right (omega arith) h

below_word : (n : ℕ) → n < 1073741824 → n < 2 ^ 30
below_word n h = h

-- Where the loop ends for a size that is not negative, with the order that it gives.
order_of :
    (k max_size fuel : ℕ)
    → max_size < 2 ^ k
    → max_size < 2147483648
    → k < fuel
    → (j : ℕ) × (order_loop fuel (max_size % 4294967296) 0 ≡ some j) × (j ≤ k) × (max_size < 2 ^ j)
order_of k max_size fuel bits small enough =
    let (j, run, above, below, bound) = order_loop-ends k max_size 0 fuel bits small enough in
    let whole : max_size % 4294967296 ≡ max_size = omega arith in
    let same : j - 0 ≡ j = omega arith in
    (j, rw whole run, omega arith, subst (λ e. max_size < 2 ^ e) same bound)

module _ (header_size bucket_size : ℕ) (calloc : ℕ → Bool) where
  -- For a size below 2^30, qb_hashtable_create ends: it asks calloc for the bytes of a table whose
  -- number of buckets fits an `int` and is more than the size asked for, and returns that table,
  -- empty, or NULL where calloc does not give them.
  pub create-ends :
      (max_size fuel : ℕ)
      → max_size < 1073741824
      → 31 < fuel
      → (order : ℕ) × (create header_size bucket_size calloc fuel max_size
          ≡ some (
              if calloc (size_of_order header_size bucket_size calloc order)
              then made (table_of_order order)
              else null))
        × (order ≤ 30)
        × (max_size < 2 ^ order)
  unfolding create order_found create_order
  create-ends max_size fuel small enough =
      let (j, run, below, bits) =
        order_of 30 max_size fuel (below_word max_size small) (omega arith) (omega arith) in
      let fits : max j 3 < 31 = omega arith in
      (
        max j 3,
        rw (run, lt→ltb (max j 3) 31 fits) refl,
        omega arith,
        let wide : 2 ^ j ≤ 2 ^ max j 3 = pow_mono j (max j 3) (omega arith) in
            omega (arith, bits, wide),
      )

  -- For a size from 2^30 up to 2^31, the loop of qb_hashtable_create ends with an order for which
  -- `1 << order` overflows the `int`, whatever calloc would give.
  pub create-overflows :
      (max_size fuel : ℕ)
      → 1073741824 ≤ max_size
      → max_size < 2147483648
      → 31 < fuel
      → create header_size bucket_size calloc fuel max_size ≡ some overflow
  unfolding create order_found create_order
  create-overflows max_size fuel large small enough =
      let (j, run, below, bits) = order_of 31 max_size fuel small small enough in
      elim (lt_or_ge j 31) [
        | inl less ↦
            let narrow : 2 ^ j ≤ 1073741824 = pow_mono j 30 (omega arith) in
            absurd (omega (arith, bits, narrow, large))
        | inr wide ↦
            let high : 31 ≤ max j 3 = omega arith in rw (run, le→ltb (max j 3) 31 high) refl
      ]

  -- For a size whose lower 32 bits are from 2^31 on, qb_hashtable_create never ends: the `int32_t`
  -- that its loop shifts is negative, and never becomes 0.
  pub create-never_ends :
      (fuel max_size : ℕ)
      → 2147483648 ≤ max_size % 4294967296
      → create header_size bucket_size calloc fuel max_size ≡ none
  unfolding create order_found
  create-never_ends fuel max_size h =
      ap (order_found header_size bucket_size calloc)
        (order_loop-negative fuel (max_size % 4294967296) 0 h)
