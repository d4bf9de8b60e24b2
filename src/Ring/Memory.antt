-- ===== src/Ring/Memory.antt =====
-- The data segment of lib/ringbuffer.c: bytes, mapped twice in a row by qb_sys_circular_mmap
-- (lib/unix.c), so that address `a` and address `a + size` name one cell. Words are stored with
-- their lowest byte first.
use native.Mathlib.Nat.{mod-lt, mod-eq_of_lt, mod-add-mod, mod-eq-sub-mod}
use libqb.Prelude.{
  ◌==◌, if◌then◌else◌, lt_or_ge, length, update, ℕ, zero, suc, ◌+◌, ◌-◌, ◌*◌, ◌/◌, ◌%◌, ◌≤◌, ◌<◌,
  ◌≡◌, refl, sym, ap, ap₂, ◌∙◌, subst, ◌⊎◌, inl, inr, List, [], ◌∷◌, arith,
}

-- The bytes of a number below 2^32.
abbrev pub byte0 : ℕ → ℕ
byte0 x = x % 256

abbrev pub byte1 : ℕ → ℕ
byte1 x = x / 256 % 256

abbrev pub byte2 : ℕ → ℕ
byte2 x = x / 65536 % 256

abbrev pub byte3 : ℕ → ℕ
byte3 x = x / 16777216 % 256

abbrev pub Bytes : Type 0
Bytes = ℕ → ℕ

-- The word whose bytes stand at `i` to `i + 3` of a view of the memory.
unfoldable pub word : Bytes → ℕ → ℕ
word v i = v i + 256 * v (i + 1) + 65536 * v (i + 2) + 16777216 * v (i + 3)

-- `n` bytes of a view, from `i`.
unfoldable pub slice : Bytes → ℕ → ℕ → List ℕ
slice v i zero = []
slice v i (suc n) = v i ∷ slice v (i + 1) n

-- The bytes of `c` stand in the view, from `i`.
abbrev pub Stored : Bytes → ℕ → List ℕ → Type 0
Stored v i [] = Unit {0}
Stored v i (b ∷ c) = (v i ≡ b) × Stored v (i + 1) c

-- Two views have the same bytes from `i` to `j - 1`.
abbrev pub Agree : Bytes → Bytes → ℕ → ℕ → Type 0
Agree v w i j = (k : ℕ) → i ≤ k → k < j → v k ≡ w k

pub word-Agree : (v w : Bytes) (i j n : ℕ) → Agree v w i n → i ≤ j → j + 4 ≤ n → word v j ≡ word w j
unfolding word
word-Agree v w i j n h a b = omega (
  arith,
  h j (omega arith) (omega arith),
  h (j + 1) (omega arith) (omega arith),
  h (j + 2) (omega arith) (omega arith),
  h (j + 3) (omega arith) (omega arith),
)

pub Stored-Agree :
    (v w : Bytes) (i : ℕ) (c : List ℕ) (n : ℕ)
    → Agree v w i n
    → i + length c ≤ n
    → Stored v i c
    → Stored w i c
Stored-Agree v w i [] n h b s = tt
Stored-Agree v w i (x ∷ c) n h b s = (
  sym (h i (omega arith) (omega arith)) ∙ s.0,
  Stored-Agree v w (i + 1) c n (λ k p q. h k (omega arith) q) (omega arith) s.1,
)

pub slice-Stored : (v : Bytes) (i : ℕ) (c : List ℕ) → Stored v i c → slice v i (length c) ≡ c
unfolding slice
slice-Stored v i [] s = refl
slice-Stored v i (x ∷ c) s = ap₂ ◌∷◌ s.0 (slice-Stored v (i + 1) c s.1)

-- Moving the start of a view.
pub Stored-shift :
    (v w : Bytes) (d i : ℕ) (c : List ℕ) (n : ℕ)
    → ((k : ℕ) → k < n → w k ≡ v (k + d))
    → i + length c ≤ n
    → Stored v (i + d) c
    → Stored w i c
Stored-shift v w d i [] n h b s = tt
Stored-shift v w d i (x ∷ c) n h b s = (
  h i (omega arith) ∙ s.0,
  Stored-shift v w d (i + 1) c n h (omega arith) (subst (λ k. Stored v k c) (omega arith) s.1),
)

pub word-shift :
    (v w : Bytes) (d i n : ℕ)
    → ((k : ℕ) → k < n → w k ≡ v (k + d))
    → i + 4 ≤ n
    → word w i ≡ word v (i + d)
unfolding word
word-shift v w d i n h b =
    let at : (j : ℕ) → j < 4 → w (i + j) ≡ v (i + d + j) =
      λ j p. h (i + j) (omega arith) ∙ ap v (omega arith) in
    let h0 = h i (omega arith) in
    omega (arith, h0, at 1 (omega arith), at 2 (omega arith), at 3 (omega arith))

module _ (size : ℕ) where
  -- One byte, through either mapping.
  unfoldable pub load_byte : Bytes → ℕ → ℕ
  load_byte m a = m (a % size)

  unfoldable pub store_byte : Bytes → ℕ → ℕ → Bytes
  store_byte m a x = update m (a % size) x

  -- A `uint32_t` at a byte address.
  unfoldable pub load_word : Bytes → ℕ → ℕ
  unfolding load_byte word
  load_word m a = word (load_byte m) a

  unfoldable pub store_word : Bytes → ℕ → ℕ → Bytes
  unfolding store_byte
  store_word m a x =
      store_byte
        (store_byte (store_byte (store_byte m a (byte0 x)) (a + 1) (byte1 x)) (a + 2) (byte2 x))
        (a + 3) (byte3 x)

  -- `memcpy` into the segment, and out of it.
  unfoldable pub copy_in : Bytes → ℕ → List ℕ → Bytes
  unfolding store_byte
  copy_in m a [] = m
  copy_in m a (b ∷ c) = copy_in (store_byte m a b) (a + 1) c

  unfoldable pub copy_out : Bytes → ℕ → ℕ → List ℕ
  unfolding load_byte slice
  copy_out m a n = slice (load_byte m) a n

  -- The segment seen from byte address `base`.
  abbrev pub view : ℕ → Bytes → Bytes
  view base m i = m ((base + i) % size)

  module _ (pos : 0 < size) where
    mod_cases :
        (a b : ℕ)
        → a < size
        → b < size
        → ((a + b < size) × ((a + b) % size ≡ a + b))
          ⊎ ((size ≤ a + b) × ((a + b) % size ≡ a + b - size))
    mod_cases a b p q = elim (lt_or_ge (a + b) size) [
      | inl l ↦ inl (l, mod-eq_of_lt l)
      | inr g ↦ inr (g, mod-eq-sub-mod g ∙ mod-eq_of_lt (omega arith))
    ]

    -- Within one turn, equal cells have equal offsets.
    mod_injective_small :
        (b i j : ℕ) → b < size → i < size → j < size → (b + i) % size ≡ (b + j) % size → i ≡ j
    mod_injective_small b i j hb hi hj e = omega (arith, mod_cases b i hb hi, mod_cases b j hb hj)

    pub mod_injective : (b i j : ℕ) → i < size → j < size → (b + i) % size ≡ (b + j) % size → i ≡ j
    mod_injective b i j hi hj e =
        mod_injective_small (b % size) i j (mod-lt b pos) hi hj
          (mod-add-mod b size i ∙ e ∙ sym (mod-add-mod b size j))

    -- Address `a` is offset `j` from `base`, and so `a + 1` is offset `j + 1`.
    pub at_next :
        (base a j : ℕ) → a % size ≡ (base + j) % size → (a + 1) % size ≡ (base + (j + 1)) % size
    at_next base a j e =
        sym (mod-add-mod a size 1)
        ∙ (ap (λ k. (k + 1) % size) e
            ∙ (mod-add-mod (base + j) size 1 ∙ ap (λ k. k % size) (omega arith)))

    pub at_skip :
        (base a j d : ℕ) → a % size ≡ (base + j) % size → (a + d) % size ≡ (base + (j + d)) % size
    at_skip base a j d e =
        sym (mod-add-mod a size d)
        ∙ (ap (λ k. (k + d) % size) e
            ∙ (mod-add-mod (base + j) size d ∙ ap (λ k. k % size) (omega arith)))

    pub view-store_byte :
        (base : ℕ) (m : Bytes) (a x j i : ℕ)
        → a % size ≡ (base + j) % size
        → j < size
        → i < size
        → view base (store_byte m a x) i ≡ (if j == i then x else view base m i)
    unfolding store_byte
    view-store_byte base m a x j i e hj hi = ground (arith, mod_injective base j i hj hi)

    module _ (base : ℕ) (m : Bytes) (a x j : ℕ) (e : a % size ≡ (base + j) % size)
        (fits : j + 4 ≤ size) where
      view-store_word :
          (i : ℕ)
          → i < size
          → view base (store_word m a x) i ≡ (
              if j + 3 == i
              then byte3 x
              else if j + 2 == i
              then byte2 x
              else if j + 1 == i
              then byte1 x
              else if j == i
              then byte0 x
              else view base m i)
      unfolding store_word
      view-store_word i hi =
          let m1 = store_byte m a (byte0 x) in
          let m2 = store_byte m1 (a + 1) (byte1 x) in
          let m3 = store_byte m2 (a + 2) (byte2 x) in
          rw (
            view-store_byte base m3 (a + 3) (byte3 x) (j + 3) i (at_skip base a j 3 e) (omega arith)
                hi,
            view-store_byte base m2 (a + 2) (byte2 x) (j + 2) i (at_skip base a j 2 e) (omega arith)
                hi,
            view-store_byte base m1 (a + 1) (byte1 x) (j + 1) i (at_skip base a j 1 e) (omega arith)
                hi,
            view-store_byte base m a (byte0 x) j i e (omega arith) hi,
          )

      -- A stored word reads back.
      pub word-store_word : x < 4294967296 → word (view base (store_word m a x)) j ≡ x
      unfolding word
      word-store_word small = ground (
        arith,
        view-store_word j,
        view-store_word (j + 1),
        view-store_word (j + 2),
        view-store_word (j + 3),
      )

      -- A store leaves the bytes outside its word alone.
      pub store_word_frame :
          (i : ℕ)
          → i < size
          → (i < j) ⊎ (j + 4 ≤ i)
          → view base m i ≡ view base (store_word m a x) i
      store_word_frame i hi out = ground (arith, view-store_word i hi)

    module _ (base : ℕ) where
      pub copy_in_frame :
          (c : List ℕ) (m : Bytes) (a j : ℕ)
          → a % size ≡ (base + j) % size
          → j + length c ≤ size
          → (i : ℕ) → i < size
          → (i < j) ⊎ (j + length c ≤ i)
          → view base m i ≡ view base (copy_in m a c) i
      unfolding copy_in
      copy_in_frame [] m a j e fits i hi out = refl
      copy_in_frame (b ∷ c) m a j e fits i hi out = ground (
        arith,
        view-store_byte base m a b j i e,
        copy_in_frame c (store_byte m a b) (a + 1) (j + 1) (at_next base a j e) (omega arith) i hi,
      )

      pub copy_in-Stored :
          (c : List ℕ) (m : Bytes) (a j : ℕ)
          → a % size ≡ (base + j) % size
          → j + length c ≤ size
          → Stored (view base (copy_in m a c)) j c
      unfolding copy_in
      copy_in-Stored [] m a j e fits = tt
      copy_in-Stored (b ∷ c) m a j e fits = (
        sym (
              copy_in_frame c (store_byte m a b) (a + 1) (j + 1) (at_next base a j e) (omega arith)
                j (omega arith) (inl (omega arith)))
            ∙ ground (arith, view-store_byte base m a b j j e),
        copy_in-Stored c (store_byte m a b) (a + 1) (j + 1) (at_next base a j e) (omega arith),
      )

      pub load_word-view :
          (m : Bytes) (a j : ℕ)
          → a % size ≡ (base + j) % size
          → load_word m a ≡ word (view base m) j
      unfolding load_word
      load_word-view m a j e = omega (
        arith,
        ap m e,
        ap m (at_skip base a j 1 e),
        ap m (at_skip base a j 2 e),
        ap m (at_skip base a j 3 e),
      )

      pub copy_out-slice :
          (n : ℕ) (m : Bytes) (a j : ℕ)
          → a % size ≡ (base + j) % size
          → copy_out m a n ≡ slice (view base m) j n
      unfolding copy_out
      copy_out-slice zero m a j e = refl
      copy_out-slice (suc n) m a j e =
          ap₂ ◌∷◌ (ap m e) (copy_out-slice n m (a + 1) (j + 1) (at_next base a j e))
