-- ===== src/Ring/Overwrite.antt =====
-- The `while` of qb_rb_chunk_alloc: an overwriting ring drops its oldest chunks.
use native.Mathlib.Nat.{mod-eq_of_lt}
use libqb.Prelude.{
  ltb, if◌then◌else◌, Bool-cases, length, Ret, ok, ℕ, zero, suc, ◌+◌, ◌*◌, ◌≤◌, ◌<◌, ◌≡◌, refl, ap,
  ◌∙◌, inl, inr, true, none, some, List, [], ◌∷◌, ◌++◌, arith,
}
use libqb.Ring.{
  RingBuffer, Notifier, or_length, post, chunk_write, chunk_alloc, make_room, chunk_reclaim,
}
use libqb.Ring.Layout.{Chunk, total, Holds}
use libqb.Ring.Space.{Tracks, room, space_free-Holds}
use libqb.Ring.Write.{room-words, written, post-inst}
use libqb.Ring.Reclaim.{dropped, dropped-Holds, chunk_reclaim-first}

-- What is left of the chunks `q` when the oldest are dropped until `len` bytes fit.
unfoldable pub evict : ℕ → ℕ → List Chunk → List Chunk
evict ws len [] = []
evict ws len (c ∷ q) = if ltb (4 * room ws (c ∷ q)) (len + 12) then evict ws len q else c ∷ q

-- A notifier that neither counts chunks nor hears of those that are dropped, as under
-- QB_RB_FLAG_NO_SEMAPHORE.
pub record IsUncounted {S : Type 0} (n : Notifier S) : Type 0 where
  pub q_len : n.q_len_fn ≡ none
  pub space : n.space_used_fn ≡ none
  pub reclaim : n.reclaim_fn ≡ none

evict-room :
    (ws len : ℕ) (q : List Chunk) → len + 12 ≤ 4 * ws → len + 12 ≤ 4 * room ws (evict ws len q)
unfolding evict
evict-room ws len [] h = h
evict-room ws len (c ∷ q) h = ground (arith, evict-room ws len q h)

length-le-total : (q : List Chunk) → length q ≤ total q
length-le-total [] = omega arith
length-le-total (c ∷ q) = omega (arith, length-le-total q)

module _ {S : Type 0} (n : Notifier S) (u : IsUncounted n) where
  uncounted-Tracks : (rb : RingBuffer S) (q : List Chunk) → Tracks n rb q
  uncounted-Tracks rb q = record { by_pointers = u.space; empty = λ _. rw (u.q_len) }

  chunk_reclaim-uncounted :
      {rb : RingBuffer S} {c : Chunk} {q : List Chunk} (h : Holds rb (c ∷ q))
      → chunk_reclaim n rb ≡ (ok 0, dropped h)
  chunk_reclaim-uncounted h = chunk_reclaim-first h n ∙ rw (u.reclaim)

  make_room-evicts :
      (fuel len : ℕ) (q : List Chunk) {rb : RingBuffer S}
      → length q < fuel
      → Holds rb q
      → len + 12 ≤ 4 * rb.word_size
      → (rb' : RingBuffer S) × (make_room n fuel rb len ≡ some (true, rb'))
        × (rb'.word_size ≡ rb.word_size)
        × (rb'.inst ≡ rb.inst)
        × Holds rb' (evict rb.word_size len q)
  unfolding make_room evict
  make_room-evicts zero len q f h fits = absurd (omega arith)
  make_room-evicts (suc fuel) len [] {rb} f h fits =
      (rb, ground (arith, space_free-Holds n [] h (uncounted-Tracks rb []), h.small), refl, refl, h)
  make_room-evicts (suc fuel) len (c ∷ q) {rb} f h fits =
      let short : len + 12 < 18446744073709551616 = omega (arith, h.small) in
      let space = space_free-Holds n (c ∷ q) h (uncounted-Tracks rb (c ∷ q)) in
      let rest = make_room-evicts fuel len q (omega arith) (dropped-Holds h) fits in
      elim (Bool-cases (ltb (4 * room rb.word_size (c ∷ q)) (len + 12))) [
        | inl full ↦ (
          rest.0,
          rw (space, mod-eq_of_lt short, chunk_reclaim-uncounted h, full) rest.1,
          rest.2,
          rest.3,
          rw full (rest.4),
        )
        | inr free ↦ (rb, rw (space, mod-eq_of_lt short, free), refl, refl, rw free h)
      ]

  -- An overwriting ring, behind a notifier that neither counts chunks nor hears of dropped ones,
  -- takes every message that fits into the whole ring with its margin: it drops its oldest chunks,
  -- as many as it must and no more, and puts the message behind the others. The result is the
  -- message's length, or the error that the post gives.
  pub chunk_write-evicts :
      (rb : RingBuffer S) (q : List Chunk) (c : Chunk)
      → Holds rb q
      → rb.overwrite ≡ true
      → length c + 12 ≤ 4 * rb.word_size
      → (out : Ret × RingBuffer S) × (chunk_write n rb c ≡ some out)
        × (out.0 ≡ or_length (length c) (post n rb (length c)).0)
        × Holds out.1 (evict rb.word_size (length c) q ++ (c ∷ []))
  unfolding chunk_alloc
  chunk_write-evicts rb q c h over fits =
      let (rb', made, same_size, same_inst, held) =
        make_room-evicts (rb.word_size + 1) (length c) q (omega (arith, length-le-total q, h.fits))
          h fits in
      let (out, wrote, res, holds, _, _) =
        written n rb c rb' (evict rb.word_size (length c) q) held
          (room-words rb'.word_size _ c (rw same_size (evict-room rb.word_size (length c) q fits)))
          (ground (arith, made)) in
      (
        out,
        wrote,
        res ∙ ap (or_length (length c)) (post-inst n rb rb' (length c) same_inst).0,
        holds,
      )
