-- ===== src/Ring/Queue.antt =====
-- The ring behind a counting notifier, against a bounded queue of messages.
use libqb.Prelude.{
  ltb, if◌then◌else◌, Bool-cases, length, length-append, eagain, enobufs, etimedout, Ret, ok, err,
  ℕ, ◌+◌, ◌*◌, ◌≤◌, ◌<◌, ◌≡◌, refl, sym, ap, ◌∙◌, subst, inl, inr, true, false, none, some, List,
  [], ◌∷◌, ◌++◌, arith,
}
use libqb.Ring.{
  RingBuffer, Notifier, Timeout, or_length, post, timedwait, chunk_write, chunk_read, chunk_reclaim,
  read_waited,
}
use libqb.Ring.Layout.{Chunk, Holds}
use libqb.Ring.Space.{Tracks, room, space_free-Holds}
use libqb.Ring.Write.{
  chunk_write-appends, chunk_write-eagain, SameRing, post-SameRing, Holds-outside, Holds-timedwait,
}
use libqb.Ring.Read.{IsWoken, chunk_read-takes, chunk_read-enobufs}
use libqb.Ring.Reclaim.{chunk_reclaim-first, dropped}

-- A request of a client, with a message to send or the size of a receive buffer.
pub data Request : Type 0 where
  send : Chunk → Request
  receive : ℕ → Request

abbrev pub Reply : Type 0
Reply = Ret × Chunk

-- A queue of messages in a ring of `ws` words.
unfoldable pub queue_run : ℕ → List Chunk → List Request → List Reply
queue_run ws q [] = []
queue_run ws q (send c ∷ rest) =
    if ltb (4 * room ws q) (length c + 12)
    then (err eagain, []) ∷ queue_run ws q rest
    else (ok (length c), []) ∷ queue_run ws (q ++ (c ∷ [])) rest
queue_run ws [] (receive len ∷ rest) = (err etimedout, []) ∷ queue_run ws [] rest
queue_run ws (c ∷ q) (receive len ∷ rest) =
    if ltb len (length c)
    then (err enobufs, []) ∷ queue_run ws (c ∷ q) rest
    else (ok (length c), c) ∷ queue_run ws q rest

-- The notifier counts as a semaphore does, and a wait for an empty one times out at once, whatever
-- the timeout: it does not block.
pub record IsSemaphore {S : Type 0} (n : Notifier S) (count : S → ℕ) : Type 0 where
  pub posted : S → ℕ → S
  pub post_fn : n.post_fn ≡ some (λ s k. (ok 0, posted s k))
  pub post_counts : (s : S) (k : ℕ) → count (posted s k) ≡ count s + 1
  pub waited : S → Timeout → Ret × S
  pub timedwait_fn : n.timedwait_fn ≡ some waited
  pub wait_empty : (s : S) (t : Timeout) → count s ≡ 0 → waited s t ≡ (err etimedout, s)
  pub wait_counts :
      (s : S) (t : Timeout)
      → 0 < count s
      → ((waited s t).0 ≡ ok 0) × (count (waited s t).1 + 1 ≡ count s)
  pub q_len_fn : n.q_len_fn ≡ some (λ s. ok (count s))
  pub space_used_fn : n.space_used_fn ≡ none
  pub reclaim_fn : n.reclaim_fn ≡ none

module _ {S : Type 0} (n : Notifier S) (t : Timeout) where
  unfoldable pub ring_run : RingBuffer S → List Request → List Reply
  ring_run rb [] = []
  ring_run rb (send c ∷ rest) = elim (chunk_write n rb c) [
    | none ↦ []
    | some (res, rb') ↦ (res, []) ∷ ring_run rb' rest
  ]
  ring_run rb (receive len ∷ rest) =
      let (res, c, rb') = chunk_read n rb len t in (res, c) ∷ ring_run rb' rest

after : (r : Reply) {xs ys : List Reply} → xs ≡ ys → r ∷ xs ≡ r ∷ ys
after r p = ap (◌∷◌ r) p

-- Every message is shorter than a `size_t` can count, its margin included.
abbrev pub AllShort : List Request → Type 0
AllShort [] = Unit {0}
AllShort (send c ∷ rest) = (length c + 12 < 18446744073709551616) × AllShort rest
AllShort (receive len ∷ rest) = AllShort rest

-- The ring holds the queue, keeps what it has, and the notifier has counted it.
record Serves {S : Type 0} (count : S → ℕ) (ws : ℕ) (rb : RingBuffer S) (q : List Chunk)
    : Type 0 where
  holds : Holds rb q
  size : rb.word_size ≡ ws
  kept : rb.overwrite ≡ false
  counted : count rb.inst ≡ length q

module _ {S : Type 0} (n : Notifier S) (t : Timeout) (count : S → ℕ) (sem : IsSemaphore n count)
    (ws : ℕ) where
  ring_run-send :
      (rb : RingBuffer S) (c : Chunk) (rest : List Request) (res : Ret) (rb' : RingBuffer S)
      → chunk_write n rb c ≡ some (res, rb')
      → ring_run n t rb (send c ∷ rest) ≡ (res, []) ∷ ring_run n t rb' rest
  unfolding ring_run
  ring_run-send rb c rest res rb' e = rw (e, ring_run)

  ring_run-receive :
      (rb : RingBuffer S) (len : ℕ) (rest : List Request) (res : Ret) (c : Chunk)
      (rb' : RingBuffer S)
      → chunk_read n rb len t ≡ (res, c, rb')
      → ring_run n t rb (receive len ∷ rest) ≡ (res, c) ∷ ring_run n t rb' rest
  unfolding ring_run
  ring_run-receive rb len rest res c rb' e = rw (e, ring_run)

  posted_inst :
      (rb : RingBuffer S) (k : ℕ)
      → ((post n rb k).0 ≡ ok 0) × (count (post n rb k).1.inst ≡ count rb.inst + 1)
  posted_inst rb k = rw sem.post_fn (refl, sem.post_counts rb.inst k)

  module _ {rb : RingBuffer S} {q : List Chunk} (v : Serves count ws rb q) where
    tracked : Tracks n rb q
    tracked = record {
      by_pointers = sem.space_used_fn;
      empty = λ e. rw sem.q_len_fn (ground (arith, v.counted, ap length e));
    }

    waited_empty : q ≡ [] → timedwait n rb t ≡ (err etimedout, rb)
    waited_empty e =
        let w = sem.wait_empty rb.inst t (v.counted ∙ ap length e) in
        rw sem.timedwait_fn (λ i. ((w i).0, record rb { inst = (w i).1 }))

    waited_some :
        0 < length q
        → ((timedwait n rb t).0 ≡ ok 0) × (count (timedwait n rb t).1.inst + 1 ≡ length q)
    waited_some h =
        let w = sem.wait_counts rb.inst t (omega (arith, v.counted)) in
        rw sem.timedwait_fn (w.0, w.1 ∙ v.counted)

    send_refused :
        (c : Chunk)
        → ltb (4 * room ws q) (length c + 12) ≡ true
        → length c + 12 < 18446744073709551616
        → (rb' : RingBuffer S) × (chunk_write n rb c ≡ some (err eagain, rb'))
          × Serves count ws rb' q
    send_refused c full short =
        let space = space_free-Holds n q v.holds tracked ∙ ap (λ k. 4 * room k q) v.size in
        (
          record rb { errno = eagain },
          chunk_write-eagain n rb c v.kept (ground (arith, space)) short,
          record {
            holds = Holds-outside n eagain rb.inst v.holds;
            size = v.size;
            kept = v.kept;
            counted = v.counted;
          },
        )

    send_taken :
        (c : Chunk)
        → ltb (4 * room ws q) (length c + 12) ≡ false
        → (rb' : RingBuffer S) × (chunk_write n rb c ≡ some (ok (length c), rb'))
          × Serves count ws rb' (q ++ (c ∷ []))
    send_taken c free =
        let fits : length c + 12 ≤ 4 * room rb.word_size q =
          rw v.size (let g : length c + 12 ≤ 4 * room ws q = ground arith in g) in
        let (out, wrote, res, holds, (size, over), inst) =
          chunk_write-appends n rb q c v.holds tracked fits in
        let posted = posted_inst rb (length c) in
        (
          out.1,
          wrote ∙ ap some (λ i. ((res ∙ ap (or_length (length c)) posted.0) i, out.1)),
          record {
            holds = holds;
            size = size ∙ v.size;
            kept = over ∙ v.kept;
            counted =
                ap count inst ∙ (posted.1 ∙ omega (arith, v.counted, length-append q (c ∷ [])));
          },
        )

    receive_empty : (len : ℕ) → q ≡ [] → chunk_read n rb len t ≡ (err etimedout, [], rb)
    unfolding chunk_read read_waited
    receive_empty len e = ap (read_waited n len) (waited_empty e)

  module _ {rb : RingBuffer S} {c : Chunk} {q : List Chunk} (v : Serves count ws rb (c ∷ q)) where
    woken : ((timedwait n rb t).0 ≡ ok 0) × (count (timedwait n rb t).1.inst + 1 ≡ length (c ∷ q))
    woken = waited_some v (omega arith)

    is_woken : IsWoken (timedwait n rb t).0
    is_woken = subst IsWoken (sym woken.0) tt

    timedwait-SameRing : SameRing rb (timedwait n rb t).1
    timedwait-SameRing = rw sem.timedwait_fn (refl, refl)

    receive_refused :
        (len : ℕ)
        → len < length c
        → (rb' : RingBuffer S) × (chunk_read n rb len t ≡ (err enobufs, [], rb'))
          × Serves count ws rb' (c ∷ q)
    receive_refused len short =
        let (rb', got, is_posted, holds) = chunk_read-enobufs n t v.holds is_woken len short in
        let same = post-SameRing n (timedwait n rb t).1 (length c) in
        (
          rb',
          got,
          record {
            holds = holds;
            size = ap (λ r. r.word_size) is_posted ∙ (same.0 ∙ (timedwait-SameRing.0 ∙ v.size));
            kept = ap (λ r. r.overwrite) is_posted ∙ (same.1 ∙ (timedwait-SameRing.1 ∙ v.kept));
            counted =
                ap (λ r. count r.inst) is_posted
                ∙ ((posted_inst (timedwait n rb t).1 (length c)).1 ∙ woken.1);
          },
        )

    receive_taken :
        (len : ℕ)
        → length c ≤ len
        → (rb' : RingBuffer S) × (chunk_read n rb len t ≡ (ok (length c), c, rb'))
          × Serves count ws rb' q
    receive_taken len fits =
        let (rb', got, is_left, holds) = chunk_read-takes n t v.holds is_woken len fits in
        let held = Holds-timedwait n t v.holds in
        let left : chunk_reclaim n (timedwait n rb t).1 ≡ (ok 0, dropped held) =
          chunk_reclaim-first held n ∙ rw sem.reclaim_fn in
        let is_dropped = is_left ∙ ap (λ p. p.1) left in
        (
          rb',
          got,
          record {
            holds = holds;
            size = ap (λ r. r.word_size) is_dropped ∙ (timedwait-SameRing.0 ∙ v.size);
            kept = ap (λ r. r.overwrite) is_dropped ∙ (timedwait-SameRing.1 ∙ v.kept);
            counted = ap (λ r. count r.inst) is_dropped ∙ omega (arith, woken.1);
          },
        )

  run-Serves :
      (requests : List Request) (rb : RingBuffer S) (q : List Chunk)
      → AllShort requests
      → Serves count ws rb q
      → ring_run n t rb requests ≡ queue_run ws q requests
  unfolding queue_run ring_run
  run-Serves [] rb q short v = refl
  run-Serves (send c ∷ rest) rb q short v =
      elim (Bool-cases (ltb (4 * room ws q) (length c + 12))) [
        | inl full ↦
            let (rb', sent, v') = send_refused v c full short.0 in
            ring_run-send rb c rest _ rb' sent
            ∙ rw full (after (err eagain, []) (run-Serves rest rb' q short.1 v'))
        | inr free ↦
            let (rb', sent, v') = send_taken v c free in
            ring_run-send rb c rest _ rb' sent
            ∙ rw free (after (ok (length c), []) (run-Serves rest rb' (q ++ (c ∷ [])) short.1 v'))
      ]
  run-Serves (receive len ∷ rest) rb [] short v =
      ring_run-receive rb len rest _ _ rb (receive_empty v len refl)
      ∙ after (err etimedout, []) (run-Serves rest rb [] short v)
  run-Serves (receive len ∷ rest) rb (c ∷ q) short v = elim (Bool-cases (ltb len (length c))) [
    | inl little ↦
        let (rb', got, v') = receive_refused v len (ground arith) in
        ring_run-receive rb len rest _ _ rb' got
        ∙ rw little (after (err enobufs, []) (run-Serves rest rb' (c ∷ q) short v'))
    | inr enough ↦
        let (rb', got, v') = receive_taken v len (ground arith) in
        ring_run-receive rb len rest _ _ rb' got
        ∙ rw enough (after (ok (length c), c) (run-Serves rest rb' q short v'))
  ]

-- No sequence of writes and reads tells a ring that does not overwrite, behind a notifier that
-- counts as a semaphore does and whose count is that of the chunks, from a first-in first-out queue
-- of messages: each request gets the queue's reply, the refusals of a full ring, an empty ring and
-- a short buffer included. The messages are shorter than a `size_t` can count.
pub run_refines :
    {S : Type 0} (n : Notifier S) (t : Timeout) (count : S → ℕ)
    → IsSemaphore n count
    → (rb : RingBuffer S) (q : List Chunk) → Holds rb q
    → rb.overwrite ≡ false
    → count rb.inst ≡ length q
    → (requests : List Request) → AllShort requests
    → ring_run n t rb requests ≡ queue_run rb.word_size q requests
run_refines n t count sem rb q h kept counted requests short =
    run-Serves n t count sem rb.word_size requests rb q short
      (record { holds = h; size = refl; kept = kept; counted = counted })
