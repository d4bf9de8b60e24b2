-- ===== src/Ring/Reclaim.antt =====
-- _rb_chunk_reclaim: dropping the oldest chunk.
use native.Mathlib.Nat.{mod-add-mod, mod-lt}
use libqb.Prelude.{
  Option-cases, length, Ret, ok, err, ℕ, ◌+◌, ◌*◌, ◌%◌, ◌≤◌, ◌<◌, ◌≡◌, sym, ap, ◌∙◌, inl, inr, List,
  ◌∷◌, arith,
}
use libqb.Ring.{
  RingBuffer, Notifier, chunk_magic, chunk_magic_dead, chunk_size_get, chunk_size_set,
  chunk_magic_get, chunk_magic_set, chunk_reclaim, notify_reclaim, set_errno,
}
use libqb.Ring.Memory
use libqb.Ring.Memory.{Bytes, view, store_word}
use libqb.Ring.Layout.{
  Chunk, words, total, Chunks-Agree, Chunks-shift, Holds, scale-mod, from_reader,
}
use libqb.Ring.Space.{chunk_step-mod}
use libqb.Ring.Write.{Holds-outside}

module _ {S : Type 0} {rb : RingBuffer S} {c : Chunk} {q : List Chunk} (h : Holds rb (c ∷ q)) where
  abbrev size : ℕ
  size = 4 * rb.word_size

  pos : 0 < size
  pos = omega (arith, h.read_in)

  at_size : (4 * rb.read_pt) % size ≡ (4 * rb.read_pt + 0) % size
  at_size = ap (λ x. x % size) (omega arith)

  at_word :
      (k : ℕ) → (4 * ((rb.read_pt + k) % rb.word_size)) % size ≡ (4 * rb.read_pt + 4 * k) % size
  at_word k = scale-mod (rb.read_pt + k) rb.word_size ∙ ap (λ x. x % size) (omega arith)

  pub first_size : chunk_size_get rb rb.read_pt ≡ length c
  unfolding chunk_size_get
  first_size =
      Memory.load_word-view size pos (4 * rb.read_pt) rb.shared_data _ 0 at_size ∙ h.chunks.0

  pub first_magic : chunk_magic_get rb rb.read_pt ≡ chunk_magic
  unfolding chunk_magic_get
  first_magic =
      Memory.load_word-view size pos (4 * rb.read_pt) rb.shared_data _ 4 (at_word 1) ∙ h.chunks.1

  pub first_data :
      Memory.copy_out size rb.shared_data (4 * ((rb.read_pt + 2) % rb.word_size)) (length c) ≡ c
  first_data =
      Memory.copy_out-slice size pos (4 * rb.read_pt) (length c) rb.shared_data _ 8 (at_word 2)
      ∙ Memory.slice-Stored (from_reader rb) 8 c h.chunks.2

  abbrev half_cleared : Bytes
  half_cleared = store_word size rb.shared_data (4 * rb.read_pt) 0

  abbrev cleared : Bytes
  cleared = store_word size half_cleared (4 * ((rb.read_pt + 1) % rb.word_size)) chunk_magic_dead

  -- The ring once the oldest chunk is dropped, before the notifier hears of it.
  abbrev pub dropped : RingBuffer S
  dropped = record rb { read_pt = (rb.read_pt + words c) % rb.word_size; shared_data = cleared }

  -- Clearing the header leaves the other chunks alone.
  cleared-Agree :
      (k : ℕ) → 8 ≤ k → k < size → from_reader rb k ≡ view size (4 * rb.read_pt) cleared k
  cleared-Agree k a b =
      Memory.store_word_frame size pos (4 * rb.read_pt) rb.shared_data _ 0 0 at_size
        (omega (arith, h.fits)) k b (inr (omega arith))
      ∙ Memory.store_word_frame size pos (4 * rb.read_pt) half_cleared _ chunk_magic_dead 4
          (at_word 1) (omega (arith, h.fits)) k b (inr (omega arith))

  -- The new read pointer looks at the same bytes, further on.
  moved_view :
      (k : ℕ) → from_reader dropped k ≡ view size (4 * rb.read_pt) cleared (k + 4 * words c)
  moved_view k = ap cleared (
      Memory.at_skip size pos (4 * (rb.read_pt + words c))
        (4 * ((rb.read_pt + words c) % rb.word_size)) 0 k
        (scale-mod (rb.read_pt + words c) rb.word_size ∙ ap (λ x. x % size) (omega arith))
      ∙ ap (λ x. x % size) (omega arith))

  pub dropped-Holds : Holds dropped q
  dropped-Holds = record {
    small = h.small;
    read_in = mod-lt _ (omega (arith, h.read_in));
    write_at =
        h.write_at
        ∙ (ap (λ x. x % rb.word_size) (omega arith)
            ∙ sym (mod-add-mod (rb.read_pt + words c) rb.word_size (total q)));
    fits = omega (arith, h.fits);
    chunks =
        Chunks-shift (view size (4 * rb.read_pt) cleared) (from_reader dropped) (4 * words c) 0 q
          (4 * total q) (λ k p. moved_view k) (omega arith)
          (Chunks-Agree (from_reader rb) (view size (4 * rb.read_pt) cleared) (0 + 4 * words c) q
            (4 * total (c ∷ q)) (λ k a b. cleared-Agree k (omega arith) (omega (arith, h.fits)))
            (omega arith) h.chunks.3);
  }

  pub chunk_reclaim-first :
      (n : Notifier S) → chunk_reclaim n rb ≡ notify_reclaim n dropped (length c)
  unfolding chunk_reclaim chunk_size_set chunk_magic_set
  chunk_reclaim-first n = rw (
    first_magic,
    first_size,
    chunk_step-mod rb rb.read_pt c h.small h.read_in (omega (arith, h.fits)) first_size,
  )

module _ {S : Type 0} (n : Notifier S) where
  set_errno-Holds :
      (r : Ret) {rb : RingBuffer S} {q : List Chunk} → Holds rb q → Holds (set_errno r rb) q
  set_errno-Holds (ok k) h = h
  set_errno-Holds (err e) {rb} h = Holds-outside n e rb.inst h

  notify_reclaim-Holds :
      {rb : RingBuffer S} {q : List Chunk} (k : ℕ) → Holds rb q → Holds (notify_reclaim n rb k).1 q
  notify_reclaim-Holds {rb} k h = elim (Option-cases n.reclaim_fn) [
    | inl e ↦ rw e h
    | inr (f, e) ↦
        rw e (set_errno-Holds (f rb.inst k).0 (Holds-outside n rb.errno (f rb.inst k).1 h))
  ]

  -- Reclaiming drops the oldest chunk and keeps the others, whatever the notifier answers.
  pub chunk_reclaim-Holds :
      {rb : RingBuffer S} {c : Chunk} {q : List Chunk}
      → Holds rb (c ∷ q)
      → Holds (chunk_reclaim n rb).1 q
  chunk_reclaim-Holds {c = c} h =
      rw (chunk_reclaim-first h n) (notify_reclaim-Holds (length c) (dropped-Holds h))
