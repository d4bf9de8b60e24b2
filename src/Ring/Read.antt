-- ===== src/Ring/Read.antt =====
-- qb_rb_chunk_peek and qb_rb_chunk_read.
use libqb.Prelude.{
  ltb, length, enobufs, Ret, ok, err, ℕ, ◌+◌, ◌*◌, ◌%◌, ◌≤◌, ◌<◌, ◌≡◌, refl, ◌∙◌, true, false, some,
  List, [], ◌∷◌, arith,
}
use libqb.Ring.{
  RingBuffer, Notifier, Timeout, chunk_reclaim, post, timedwait, is_eidrm, chunk_read, chunk_peek,
  read_after, read_waited, peek_after, peek_waited, bytes_in,
}
use libqb.Ring.Memory.{copy_out}
use libqb.Ring.Layout.{Chunk, Holds}
use libqb.Ring.Write.{Holds-post, Holds-timedwait}
use libqb.Ring.Reclaim.{first_size, first_magic, first_data, chunk_reclaim-Holds}

-- The wait ended because there is a chunk, or because the semaphore has gone.
abbrev pub IsWoken : Ret → Type 0
IsWoken (ok k) = Unit {0}
IsWoken (err e) = is_eidrm e ≡ true

module _ {S : Type 0} (n : Notifier S) where
  peek_waited-woken :
      (r : Ret) (rb : RingBuffer S) → IsWoken r → peek_waited n (r, rb) ≡ peek_after n r rb
  unfolding peek_waited
  peek_waited-woken (ok k) rb w = refl
  peek_waited-woken (err e) rb w = rw w

  read_waited-woken :
      (r : Ret) (len : ℕ) (rb : RingBuffer S)
      → IsWoken r
      → read_waited n len (r, rb) ≡ read_after n r len rb
  unfolding read_waited
  read_waited-woken (ok k) len rb w = refl
  read_waited-woken (err e) len rb w = rw w

  module _ {rb : RingBuffer S} {c : Chunk} {q : List Chunk} (t : Timeout) (h : Holds rb (c ∷ q))
      (woken : IsWoken (timedwait n rb t).0) where
    waited-Holds : Holds (timedwait n rb t).1 (c ∷ q)
    waited-Holds = Holds-timedwait n t h

    -- A reader that is woken sees the oldest chunk's length and the place of its bytes, and leaves
    -- the chunk in the ring.
    chunk_peek-first :
        (rb' : RingBuffer S) × (at : ℕ) × (chunk_peek n rb t ≡ (ok (length c), some at, rb'))
        × (copy_out (bytes_in rb') rb'.shared_data (4 * at) (length c) ≡ c)
        × Holds rb' (c ∷ q)
    unfolding chunk_peek peek_after
    chunk_peek-first =
        let rb' = (timedwait n rb t).1 in
        (
          rb',
          (rb'.read_pt + 2) % rb'.word_size,
          peek_waited-woken (timedwait n rb t).0 rb' woken
              ∙ rw (first_magic waited-Holds, first_size waited-Holds),
          first_data waited-Holds,
          waited-Holds,
        )

    -- A reader that is woken and offers room for the oldest chunk gets exactly its bytes, and
    -- takes it out of the ring.
    pub chunk_read-takes :
        (len : ℕ)
        → length c ≤ len
        → (rb' : RingBuffer S) × (chunk_read n rb len t ≡ (ok (length c), c, rb'))
          × (rb' ≡ (chunk_reclaim n (timedwait n rb t).1).1)
          × Holds rb' q
    unfolding chunk_read read_after
    chunk_read-takes len fits =
        let waited = (timedwait n rb t).1 in
        let enough : ltb len (length c) ≡ false = ground arith in
        (
          (chunk_reclaim n waited).1,
          read_waited-woken (timedwait n rb t).0 len waited woken
              ∙ rw (
                first_magic waited-Holds,
                first_size waited-Holds,
                enough,
                first_data waited-Holds,
              ),
          refl,
          chunk_reclaim-Holds n waited-Holds,
        )

    -- A reader whose buffer is too short gets -ENOBUFS, the notification is posted again, and
    -- every chunk stays in the ring.
    pub chunk_read-enobufs :
        (len : ℕ)
        → len < length c
        → (rb' : RingBuffer S) × (chunk_read n rb len t ≡ (err enobufs, [], rb'))
          × (rb' ≡ (post n (timedwait n rb t).1 (length c)).1)
          × Holds rb' (c ∷ q)
    unfolding chunk_read read_after
    chunk_read-enobufs len short =
        let waited = (timedwait n rb t).1 in
        let little : ltb len (length c) ≡ true = ground arith in
        (
          (post n waited (length c)).1,
          read_waited-woken (timedwait n rb t).0 len waited woken
              ∙ rw (first_magic waited-Holds, first_size waited-Holds, little),
          refl,
          Holds-post n (length c) waited-Holds,
        )
