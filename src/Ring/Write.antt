-- ===== src/Ring/Write.antt =====
-- qb_rb_chunk_alloc, memcpy, qb_rb_chunk_commit: writing one chunk.
use native.Mathlib.Nat.{mod-add-mod, mod-eq_of_lt}
use libqb.Prelude.{
  ltb, Option-cases, length, Errno, eagain, Ret, err, ℕ, zero, suc, ◌+◌, ◌*◌, ◌%◌, ◌≤◌, ◌<◌, ◌≡◌,
  refl, ap, ◌∙◌, subst, inl, inr, true, false, some, List, [], ◌∷◌, ◌++◌, arith,
}
use libqb.Ring.{
  RingBuffer, Notifier, chunk_magic, chunk_magic_alloc, timedwait, Timeout, chunk_size_get,
  chunk_size_set, chunk_magic_set, space_free, start_chunk, fill, commit_header, chunk_commit,
  chunk_alloc, make_room, chunk_write, post, or_length, u64, chunk_step,
}
use libqb.Ring.Memory
use libqb.Ring.Memory.{view}
use libqb.Ring.Layout.{
  Chunk, words, total, total-append, Chunks, Chunks-Agree, Chunks-append, Holds, scale-mod, Placed,
  filled, sized_word, committed, committed-Agree, committed-Chunks,
}
use libqb.Ring.Space.{Tracks, room, space_free-Holds, chunk_step-mod, write_in}

module _ {S : Type 0} where
  -- The word `k` words past the write pointer, as an offset from the reader.
  pub address_past :
      {rb : RingBuffer S} {q : List Chunk} (k : ℕ)
      → Holds rb q
      → (4 * ((rb.write_pt + k) % rb.word_size)) % (4 * rb.word_size)
        ≡ (4 * rb.read_pt + (4 * total q + 4 * k)) % (4 * rb.word_size)
  address_past {rb} {q} k h =
      ap (λ x. (4 * x) % (4 * rb.word_size))
        (rw h.write_at (mod-add-mod (rb.read_pt + total q) rb.word_size k))
      ∙ (scale-mod (rb.read_pt + total q + k) rb.word_size
          ∙ ap (λ x. x % (4 * rb.word_size)) (omega arith))

  address_here :
      {rb : RingBuffer S} {q : List Chunk}
      → Holds rb q
      → (4 * rb.write_pt) % (4 * rb.word_size) ≡ (4 * rb.read_pt + 4 * total q) % (4 * rb.word_size)
  address_here {rb} {q} h =
      ap (λ x. (4 * x) % (4 * rb.word_size)) h.write_at
      ∙ (scale-mod (rb.read_pt + total q) rb.word_size
          ∙ ap (λ x. x % (4 * rb.word_size)) (omega arith))

  -- What alloc, memcpy and commit make of a ring.
  abbrev pub with_chunk : Notifier S → RingBuffer S → Chunk → RingBuffer S
  with_chunk n rb c =
      commit_header n (fill n (start_chunk n rb).1 ((rb.write_pt + 2) % rb.word_size) c) (length c)

module _ {S : Type 0} (n : Notifier S) {rb : RingBuffer S} {q : List Chunk} (c : Chunk)
    (h : Holds rb q) (has_room : total q + words c < rb.word_size) where
  abbrev segment : ℕ
  segment = 4 * rb.word_size

  place :
      Placed segment
        (4 * rb.read_pt)
        (4 * total q)
        (4 * rb.write_pt)
        (4 * ((rb.write_pt + 1) % rb.word_size))
        (4 * ((rb.write_pt + 2) % rb.word_size))
        (length c)
  place = record {
    pos = omega (arith, h.read_in);
    at_size = address_here h;
    at_magic = address_past 1 h;
    at_data = address_past 2 h;
    fits = omega arith;
    short = omega (arith, h.small);
  }

  abbrev stages : (ℕ → ℕ → ℕ → ℕ → Memory.Bytes → ℕ → Chunk → Memory.Bytes) → Memory.Bytes
  stages stage =
      stage segment (4 * rb.write_pt) (4 * ((rb.write_pt + 1) % rb.word_size))
        (4 * ((rb.write_pt + 2) % rb.word_size)) rb.shared_data chunk_magic_alloc c

  sized_ring : RingBuffer S
  sized_ring =
      chunk_size_set (fill n (start_chunk n rb).1 ((rb.write_pt + 2) % rb.word_size) c) rb.write_pt
        (length c)

  -- The size in the header reads back, so the write pointer steps over exactly this chunk.
  sized_ring_size : chunk_size_get sized_ring rb.write_pt ≡ length c
  unfolding sized_ring chunk_size_get fill start_chunk chunk_size_set chunk_magic_set
  sized_ring_size = rw (mod-eq_of_lt place.short) (
      Memory.load_word-view segment place.pos (4 * rb.read_pt) _ (4 * rb.write_pt) (4 * total q)
        place.at_size
      ∙ sized_word rb.shared_data chunk_magic_alloc c place)

  new_write_pt : chunk_step sized_ring rb.write_pt ≡ (rb.write_pt + words c) % rb.word_size
  unfolding sized_ring chunk_size_set fill start_chunk chunk_magic_set
  new_write_pt =
      chunk_step-mod sized_ring rb.write_pt c h.small (write_in h) (omega arith) sized_ring_size

  with_chunk_parts : with_chunk n rb c ≡ record rb {
    write_pt = (rb.write_pt + words c) % rb.word_size;
    shared_data = stages committed;
  }
  unfolding commit_header fill start_chunk chunk_size_set chunk_magic_set sized_ring
  with_chunk_parts = λ i. record rb {
    write_pt = new_write_pt i;
    shared_data =
        Memory.store_word (4 * rb.word_size)
          (Memory.store_word (4 * rb.word_size) (stages filled) (4 * rb.write_pt)
            (mod-eq_of_lt place.short i))
          (4 * ((rb.write_pt + 1) % rb.word_size)) chunk_magic;
  }

  pub with_chunk-Holds : Holds (with_chunk n rb c) (q ++ (c ∷ []))
  with_chunk-Holds = rw with_chunk_parts (record {
    small = h.small;
    read_in = h.read_in;
    write_at =
        ap (λ x. (x + words c) % rb.word_size) h.write_at
        ∙ (mod-add-mod (rb.read_pt + total q) rb.word_size (words c)
            ∙ ap (λ x. x % rb.word_size) (omega (arith, total-append q c)));
    fits = omega (arith, total-append q c);
    chunks =
        Chunks-append _ 0 q c
          (Chunks-Agree _ _ 0 q (4 * total q)
            (committed-Agree rb.shared_data chunk_magic_alloc c place) (omega arith) h.chunks)
          (subst (λ k. Chunks (view segment (4 * rb.read_pt) (stages committed)) k (c ∷ []))
            (omega arith) (committed-Chunks rb.shared_data chunk_magic_alloc c place));
  })

-- The notifier and `errno` have no part in what a ring holds.
module _ {S : Type 0} (n : Notifier S) {rb : RingBuffer S} {q : List Chunk} where
  pub Holds-outside : (e : Errno) (s : S) → Holds rb q → Holds (record rb { errno = e; inst = s }) q
  Holds-outside e s h = record {
    small = h.small;
    read_in = h.read_in;
    write_at = h.write_at;
    fits = h.fits;
    chunks = h.chunks;
  }

  pub Holds-post : (k : ℕ) → Holds rb q → Holds (post n rb k).1 q
  Holds-post k h = elim (Option-cases n.post_fn) [
    | inl e ↦ rw e h
    | inr (f, e) ↦ rw e (Holds-outside rb.errno (f rb.inst k).1 h)
  ]

  pub Holds-timedwait : (t : Timeout) → Holds rb q → Holds (timedwait n rb t).1 q
  Holds-timedwait t h = elim (Option-cases n.timedwait_fn) [
    | inl e ↦ rw e h
    | inr (f, e) ↦ rw e (Holds-outside rb.errno (f rb.inst t).1 h)
  ]

-- What a notification answers depends on the notifier alone.
pub post-inst :
    {S : Type 0} (n : Notifier S) (rb rb' : RingBuffer S) (k : ℕ)
    → rb'.inst ≡ rb.inst
    → ((post n rb' k).0 ≡ (post n rb k).0) × ((post n rb' k).1.inst ≡ (post n rb k).1.inst)
post-inst n rb rb' k p = elim (Option-cases n.post_fn) [
  | inl e ↦ rw e (refl, p)
  | inr (f, e) ↦ rw e (ap (λ s. (f s k).0) p, ap (λ s. (f s k).1) p)
]

-- The size of a ring and its mode are the same in both.
abbrev pub SameRing : {S : Type 0} → RingBuffer S → RingBuffer S → Type 0
SameRing rb rb' = (rb'.word_size ≡ rb.word_size) × (rb'.overwrite ≡ rb.overwrite)

pub post-SameRing :
    {S : Type 0} (n : Notifier S) (rb : RingBuffer S) (k : ℕ) → SameRing rb (post n rb k).1
post-SameRing n rb k = elim (Option-cases n.post_fn) [
  | inl e ↦ rw e (refl, refl)
  | inr (f, e) ↦ rw e (refl, refl)
]

pub room-words :
    (ws : ℕ) (q : List Chunk) (c : Chunk) → length c + 12 ≤ 4 * room ws q → total q + words c < ws
room-words ws [] c h = omega arith
room-words ws (d ∷ q) c h = omega arith

module _ {S : Type 0} (n : Notifier S) (rb : RingBuffer S) (c : Chunk) where
  make_room-room :
      (fuel len : ℕ)
      → 0 < fuel
      → ltb (space_free n rb) (u64 (len + 12)) ≡ false
      → make_room n fuel rb len ≡ some (true, rb)
  unfolding make_room
  make_room-room zero len h e = elim h [ ]
  make_room-room (suc fuel) len h e = rw e

  chunk_alloc-room :
      (len : ℕ)
      → ltb (space_free n rb) (u64 (len + 12)) ≡ false
      → chunk_alloc n rb len ≡ some (start_chunk n rb)
  unfolding chunk_alloc
  chunk_alloc-room len e = ground (arith, make_room-room (rb.word_size + 1) len (omega arith) e)

  abbrev result : RingBuffer S → Ret × RingBuffer S
  result r =
      let (res, committed) = post n (with_chunk n r c) (length c) in
      (or_length (length c) res, committed)

  -- Once the header is in place, the rest of qb_rb_chunk_write runs through.
  pub chunk_write-started :
      (r : RingBuffer S)
      → chunk_alloc n rb (length c) ≡ some (start_chunk n r)
      → chunk_write n rb c ≡ some (result r)
  unfolding chunk_write chunk_commit start_chunk chunk_size_set chunk_magic_set
  chunk_write-started r e = rw (e, chunk_write)

  pub written :
      (r : RingBuffer S) (q : List Chunk)
      → Holds r q
      → total q + words c < r.word_size
      → chunk_alloc n rb (length c) ≡ some (start_chunk n r)
      → (out : Ret × RingBuffer S) × (chunk_write n rb c ≡ some out)
        × (out.0 ≡ or_length (length c) (post n r (length c)).0)
        × Holds out.1 (q ++ (c ∷ []))
        × SameRing r out.1
        × (out.1.inst ≡ (post n r (length c)).1.inst)
  written r q h has_room e =
      let same_inst : (with_chunk n r c).inst ≡ r.inst = rw (with_chunk_parts n c h has_room) in
      let posted = post-inst n r (with_chunk n r c) (length c) same_inst in
      let kept = post-SameRing n (with_chunk n r c) (length c) in
      (
        result r,
        chunk_write-started r e,
        ap (or_length (length c)) posted.0,
        Holds-post n (length c) (with_chunk-Holds n c h has_room),
        (
          kept.0 ∙ rw (with_chunk_parts n c h has_room),
          kept.1 ∙ rw (with_chunk_parts n c h has_room),
        ),
        posted.1,
      )

module _ {S : Type 0} (n : Notifier S) (rb : RingBuffer S) (q : List Chunk) (c : Chunk) where
  -- Writing to a ring where the message and the margin fit, overwriting or not, puts the message
  -- behind the chunks that the ring holds, and leaves the ring's size and mode. The notifier is
  -- told once: its state is that after the post. The result is the message's length, or the error
  -- that the post gives.
  pub chunk_write-appends :
      Holds rb q
      → Tracks n rb q
      → length c + 12 ≤ 4 * room rb.word_size q
      → (out : Ret × RingBuffer S) × (chunk_write n rb c ≡ some out)
        × (out.0 ≡ or_length (length c) (post n rb (length c)).0)
        × Holds out.1 (q ++ (c ∷ []))
        × SameRing rb out.1
        × (out.1.inst ≡ (post n rb (length c)).1.inst)
  chunk_write-appends h t fits =
      written n rb c rb q h (room-words rb.word_size q c fits)
        (chunk_alloc-room n rb c (length c) (ground (arith, space_free-Holds n q h t, h.small)))

module _ {S : Type 0} (n : Notifier S) (rb : RingBuffer S) (c : Chunk) where
  -- A ring that does not overwrite refuses a message, shorter than a `size_t` can count, that does
  -- not fit with its margin into the free space: the call returns -EAGAIN and changes errno only.
  pub chunk_write-eagain :
      rb.overwrite ≡ false
      → space_free n rb < length c + 12
      → length c + 12 < 18446744073709551616
      → chunk_write n rb c ≡ some (err eagain, record rb { errno = eagain })
  unfolding chunk_write chunk_alloc
  chunk_write-eagain kept full short = ground arith
