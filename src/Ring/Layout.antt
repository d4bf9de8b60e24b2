-- ===== src/Ring/Layout.antt =====
-- How the chunks of lib/ringbuffer.c lie in the data segment, from the read pointer on.
use native.Mathlib.Nat.{mod-eq_of_lt, mod-add-div, add-mul-mod_self_left}
use libqb.Prelude.{
  lt_or_ge, length, ℕ, ◌+◌, ◌*◌, ◌/◌, ◌%◌, ◌≤◌, ◌<◌, ◌≡◌, sym, ap, ◌∙◌, subst, ◌⊎◌, inl, inr, List,
  [], ◌∷◌, ◌++◌, arith,
}
use libqb.Ring.{RingBuffer, chunk_magic, idx_step}
use libqb.Ring.Memory
use libqb.Ring.Memory.{Bytes, Stored, Agree, view, word, store_word, copy_in}

abbrev pub Chunk : Type 0
Chunk = List ℕ

-- Words that a chunk takes, its header included.
abbrev pub words : Chunk → ℕ
words c = 2 + (length c + 3) / 4

abbrev pub total : List Chunk → ℕ
total [] = 0
total (c ∷ q) = words c + total q

-- The chunks `q` stand one behind the other in a view, from byte `i`.
abbrev pub Chunks : Bytes → ℕ → List Chunk → Type 0
Chunks v i [] = Unit {0}
Chunks v i (c ∷ q) =
    (word v i ≡ length c)
    × (word v (i + 4) ≡ chunk_magic)
    × Stored v (i + 8) c
    × Chunks v (i + 4 * words c) q

-- The bytes of the segment in the order in which the reader meets them.
abbrev pub from_reader : {S : Type 0} → RingBuffer S → Bytes
from_reader rb = view (4 * rb.word_size) (4 * rb.read_pt) rb.shared_data

-- The ring holds the chunks `q`, the oldest first. The bound keeps byte counts below 2^32.
pub record Holds {S : Type 0} (rb : RingBuffer S) (q : List Chunk) : Type 0 where
  pub small : rb.word_size < 1073741824
  pub read_in : rb.read_pt < rb.word_size
  pub write_at : rb.write_pt ≡ (rb.read_pt + total q) % rb.word_size
  pub fits : total q < rb.word_size
  pub chunks : Chunks (from_reader rb) 0 q

pub Chunks-Agree :
    (v w : Bytes) (i : ℕ) (q : List Chunk) (n : ℕ)
    → Agree v w i n
    → i + 4 * total q ≤ n
    → Chunks v i q
    → Chunks w i q
Chunks-Agree v w i [] n h b s = tt
Chunks-Agree v w i (c ∷ q) n h b (sized, marked, stored, rest) = (
  sym (Memory.word-Agree v w i i n h (omega arith) (omega arith)) ∙ sized,
  sym (Memory.word-Agree v w i (i + 4) n h (omega arith) (omega arith)) ∙ marked,
  Memory.Stored-Agree v w (i + 8) c n (λ k p r. h k (omega arith) r) (omega arith) stored,
  Chunks-Agree v w (i + 4 * words c) q n (λ k p r. h k (omega arith) r) (omega arith) rest,
)

pub Chunks-append :
    (v : Bytes) (i : ℕ) (q : List Chunk) (c : Chunk)
    → Chunks v i q
    → Chunks v (i + 4 * total q) (c ∷ [])
    → Chunks v i (q ++ (c ∷ []))
Chunks-append v i [] c s t = subst (λ k. Chunks v k (c ∷ [])) (omega arith) t
Chunks-append v i (d ∷ q) c (sized, marked, stored, rest) t = (
  sized,
  marked,
  stored,
  Chunks-append v (i + 4 * words d) q c rest (subst (λ k. Chunks v k (c ∷ [])) (omega arith) t),
)

pub Chunks-shift :
    (v w : Bytes) (d i : ℕ) (q : List Chunk) (n : ℕ)
    → ((k : ℕ) → k < n → w k ≡ v (k + d))
    → i + 4 * total q ≤ n
    → Chunks v (i + d) q
    → Chunks w i q
Chunks-shift v w d i [] n h b s = tt
Chunks-shift v w d i (c ∷ q) n h b (sized, marked, stored, rest) = (
  Memory.word-shift v w d i n h (omega arith) ∙ sized,
  Memory.word-shift v w d (i + 4) n h (omega arith) ∙ (ap (word v) (omega arith) ∙ marked),
  Memory.Stored-shift v w d (i + 8) c n h (omega arith)
      (subst (λ k. Stored v k c) (omega arith) stored),
  Chunks-shift v w d (i + 4 * words c) q n h (omega arith)
      (subst (λ k. Chunks v k q) (omega arith) rest),
)

pub total-append : (q : List Chunk) (c : Chunk) → total (q ++ (c ∷ [])) ≡ total q + words c
total-append [] c = omega arith
total-append (d ∷ q) c = omega (arith, total-append q c)

-- A word pointer reduced to the ring, as a byte address reduced to the segment.
pub scale-mod : (x ws : ℕ) → (4 * (x % ws)) % (4 * ws) ≡ (4 * x) % (4 * ws)
scale-mod x ws =
    sym (add-mul-mod_self_left (4 * (x % ws)) (4 * ws) (x / ws))
    ∙ ap (λ k. k % (4 * ws)) (grind (arith, mod-add-div x ws))

pub idx_step-mod : (ws idx : ℕ) → 0 < ws → idx_step ws idx ≡ idx % ws
idx_step-mod ws idx h = elim (lt_or_ge idx ws) [
  | inl l ↦ ground (arith, mod-eq_of_lt l)
  | inr g ↦ ground arith
]

-- Where a chunk of `len` bytes goes: offset `j` from `base`, header words at `a0` and `a1`, data
-- at `a2`.
pub record Placed (size base j a0 a1 a2 len : ℕ) : Type 0 where
  pub pos : 0 < size
  pub at_size : a0 % size ≡ (base + j) % size
  pub at_magic : a1 % size ≡ (base + (j + 4)) % size
  pub at_data : a2 % size ≡ (base + (j + 8)) % size
  pub fits : j + 8 + len ≤ size
  pub short : len < 4294967296

-- What the stores of one qb_rb_chunk_write leave in memory: alloc marks the header, memcpy fills
-- the data, commit sets the size and the magic number.
module _ (size a0 a1 a2 : ℕ) (m : Bytes) (mark : ℕ) (c : Chunk) where
  abbrev pub filled : Bytes
  filled = copy_in size (store_word size (store_word size m a0 0) a1 mark) a2 c

  abbrev pub sized : Bytes
  sized = store_word size filled a0 (length c)

  abbrev pub committed : Bytes
  committed = store_word size sized a1 chunk_magic

module _ {size base j a0 a1 a2 : ℕ} (m : Bytes) (mark : ℕ) (c : Chunk)
    (placed : Placed size base j a0 a1 a2 (length c)) where
  open placed use {pos, fits, short, at_size as e0, at_magic as e1, at_data as e2}

  abbrev m1 : Bytes
  m1 = filled size a0 a1 a2 m mark c

  abbrev m2 : Bytes
  m2 = sized size a0 a1 a2 m mark c

  abbrev m3 : Bytes
  m3 = committed size a0 a1 a2 m mark c

  abbrev see : Bytes → Bytes
  see = view size base

  filled-Agree : Agree (see m) (see m1) 0 j
  filled-Agree k p q =
      Memory.store_word_frame size pos base m a0 0 j e0 (omega arith) k (omega arith) (inl q)
      ∙ (Memory.store_word_frame size pos base (store_word size m a0 0) a1 mark (j + 4) e1
            (omega arith) k (omega arith) (inl (omega arith))
          ∙ Memory.copy_in_frame size pos base c (store_word size (store_word size m a0 0) a1 mark)
              a2 (j + 8) e2 fits k (omega arith) (inl (omega arith)))

  sized-frame : (k : ℕ) → k < size → (k < j) ⊎ (j + 4 ≤ k) → see m1 k ≡ see m2 k
  sized-frame k p out =
      Memory.store_word_frame size pos base m1 a0 (length c) j e0 (omega arith) k p out

  committed-frame : (k : ℕ) → k < size → (k < j + 4) ⊎ (j + 4 + 4 ≤ k) → see m2 k ≡ see m3 k
  committed-frame k p out =
      Memory.store_word_frame size pos base m2 a1 chunk_magic (j + 4) e1 (omega arith) k p out

  pub committed-Agree : Agree (see m) (see m3) 0 j
  committed-Agree k p q =
      filled-Agree k p q
      ∙ (sized-frame k (omega arith) (inl q) ∙ committed-frame k (omega arith) (inl (omega arith)))

  pub sized_word : word (see m2) j ≡ length c
  sized_word = Memory.word-store_word size pos base m1 a0 (length c) j e0 (omega arith) short

  pub committed-Chunks : Chunks (see m3) j (c ∷ [])
  committed-Chunks = (
    sym (
          Memory.word-Agree (see m2) (see m3) j j (j + 4)
            (λ k p q. committed-frame k (omega arith) (inl q)) (omega arith) (omega arith))
        ∙ sized_word,
    Memory.word-store_word size pos base m2 a1 chunk_magic (j + 4) e1 (omega arith) (omega arith),
    Memory.Stored-Agree (see m1) (see m3) (j + 8) c size
        (λ k p q. sized-frame k q (inr (omega arith)) ∙ committed-frame k q (inr (omega arith)))
        fits
        (Memory.copy_in-Stored size pos base c (store_word size (store_word size m a0 0) a1 mark) a2
          (j + 8) e2 fits),
    tt,
  )
