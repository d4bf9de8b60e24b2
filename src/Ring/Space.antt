-- ===== src/Ring/Space.antt =====
-- qb_rb_space_free, qb_rb_space_used and qb_rb_chunk_step on a ring that holds chunks.
use native.Mathlib.Nat.{mod-eq_of_lt, mod-eq-sub-mod}
use libqb.Prelude.{
  ltb, if◌then◌else◌, lt_or_ge, length, ℕ, ◌+◌, ◌-◌, ◌*◌, ◌%◌, ◌≤◌, ◌<◌, ◌≡◌, refl, ap, ◌∙◌, ◌⊎◌,
  inl, inr, false, none, List, [], ◌∷◌, arith,
}
use libqb.Ring.{RingBuffer, Notifier, queued, free_words, used_words, space_free, space_used}
use libqb.Ring.{chunk_step, chunk_size_get}
use libqb.Ring.Layout.{Chunk, words, total, Holds, idx_step-mod}

-- The notifier leaves the measuring to the pointers, and counts nothing in an empty ring.
pub record Tracks {S : Type 0} (n : Notifier S) (rb : RingBuffer S) (q : List Chunk) : Type 0 where
  pub by_pointers : n.space_used_fn ≡ none
  pub empty : q ≡ [] → queued n rb ≡ false

-- Words that the ring can still take, the one kept between the pointers left out.
abbrev pub room : ℕ → List Chunk → ℕ
room ws [] = ws
room ws (c ∷ q) = ws - total (c ∷ q) - 1

module _ {S : Type 0} where
  pub write_pt_cases :
      {rb : RingBuffer S} {q : List Chunk}
      → Holds rb q
      → (rb.write_pt ≡ rb.read_pt + total q)
        ⊎ ((rb.write_pt + rb.word_size ≡ rb.read_pt + total q)
            × (rb.word_size ≤ rb.read_pt + total q))
  write_pt_cases {rb} {q} h = elim (lt_or_ge (rb.read_pt + total q) rb.word_size) [
    | inl l ↦ inl (h.write_at ∙ mod-eq_of_lt l)
    | inr g ↦ inr (
      omega (
        arith,
        h.write_at,
        h.fits,
        h.read_in,
        mod-eq-sub-mod g,
        mod-eq_of_lt {n = rb.read_pt + total q - rb.word_size} {m = rb.word_size}
            (omega (arith, h.fits, h.read_in)),
      ),
      g,
    )
  ]

  pub write_in : {rb : RingBuffer S} {q : List Chunk} → Holds rb q → rb.write_pt < rb.word_size
  write_in h = omega (arith, write_pt_cases h, h.read_in, h.fits)

  -- qb_rb_chunk_step over a chunk of known size.
  pub chunk_step-mod :
      (rb : RingBuffer S) (p : ℕ) (c : Chunk)
      → rb.word_size < 1073741824
      → p < rb.word_size
      → words c < rb.word_size
      → chunk_size_get rb p ≡ length c
      → chunk_step rb p ≡ (p + words c) % rb.word_size
  unfolding chunk_step
  chunk_step-mod rb p c small hp hw e =
      rw (e) (idx_step-mod rb.word_size _ (omega arith) ∙ ap (λ k. k % rb.word_size) (ground arith))

module _ {S : Type 0} (n : Notifier S) {rb : RingBuffer S} where
  free_words-Holds :
      (q : List Chunk) → Holds rb q → Tracks n rb q → free_words n rb ≡ room rb.word_size q
  unfolding free_words
  free_words-Holds [] h t = ground (arith, write_pt_cases h, h.small, h.read_in, t.empty refl)
  free_words-Holds (c ∷ q) h t =
      ground (arith, write_pt_cases h, h.small, h.read_in, h.fits, write_in h)

  -- On a ring that holds the chunks `q`, with a notifier that leaves the space to the pointers and
  -- counts right if it counts, the free space is that of the words they leave, less the word between
  -- the pointers, and an empty ring offers all of its words.
  pub space_free-Holds :
      (q : List Chunk) → Holds rb q → Tracks n rb q → space_free n rb ≡ 4 * room rb.word_size q
  unfolding space_free
  space_free-Holds q h t = rw (t.by_pointers, space_free, free_words-Holds q h t)

  -- Where the notifier leaves the space to the pointers, the used space counts the words of the
  -- chunks, but one word less where the write pointer has gone round and stands below the read
  -- pointer.
  pub space_used-Holds :
      (q : List Chunk)
      → Holds rb q
      → n.space_used_fn ≡ none
      → space_used n rb ≡ 4 * (total q - (if ltb rb.write_pt rb.read_pt then 1 else 0))
  unfolding space_used used_words
  space_used-Holds q h by_pointers =
      ground (arith, write_pt_cases h, h.small, h.read_in, h.fits, write_in h, by_pointers)
