-- ===== src/Ring/Tests.antt =====
-- Runs of the ring on small inputs, and instances of its theorems.
use libqb.Prelude.{
  ltb, if◌then◌else◌, length, eagain, enobufs, etimedout, other, Ret, ok, err, ℕ, zero, suc, ◌+◌,
  ◌-◌, ◌*◌, ◌≤◌, ◌<◌, ◌≡◌, refl, Bool, true, false, none, some, List, [], ◌∷◌, ◌++◌, arith,
}
use libqb.Ring.{
  RingBuffer, Notifier, Timeout, forever, create, chunk_write, chunk_read, chunk_reclaim,
  space_free, space_used, chunk_step, start_chunk, fill, commit_header, chunk_size_get,
  chunk_size_set, chunk_magic_get, chunk_magic_set,
}
use libqb.Ring.Memory
use libqb.Ring.Memory.{copy_out}
use libqb.Ring.Layout.{Chunk, Holds}
use libqb.Ring.Space.{room, space_free-Holds, space_used-Holds}
use libqb.Ring.Write.{with_chunk, with_chunk-Holds, chunk_write-appends, SameRing}
use libqb.Ring.Reclaim.{chunk_reclaim-Holds}
use libqb.Ring.Read.{chunk_read-takes}
use libqb.Ring.Overwrite.{evict, IsUncounted, chunk_write-evicts}
use libqb.Ring.Queue.{Request, send, receive, ring_run, queue_run, IsSemaphore, run_refines}
use libqb.Ring.Open.{create-Holds}
use libqb.Ring.Dump.{write_to_file, create_from_file, loaded, dump_round_trip}

abbrev uncounted : Notifier ℕ
uncounted = record {
  post_fn = none;
  q_len_fn = none;
  space_used_fn = none;
  timedwait_fn = none;
  reclaim_fn = none;
}

abbrev take_one : ℕ → Timeout → Ret × ℕ
take_one zero t = (err etimedout, 0)
take_one (suc k) t = (ok 0, k)

abbrev counting : Notifier ℕ
counting = record {
  post_fn = some (λ s k. (ok 0, s + 1));
  q_len_fn = some (λ s. ok s);
  space_used_fn = none;
  timedwait_fn = some take_one;
  reclaim_fn = none;
}

counting-IsSemaphore : IsSemaphore counting (λ s. s)
counting-IsSemaphore = record {
  posted = λ s k. s + 1;
  post_fn = refl;
  post_counts = λ s k. refl;
  waited = take_one;
  timedwait_fn = refl;
  wait_empty = at_zero;
  wait_counts = above_zero;
  q_len_fn = refl;
  space_used_fn = refl;
  reclaim_fn = refl;
}
  where
    at_zero : (s : ℕ) (t : Timeout) → s ≡ 0 → take_one s t ≡ (err etimedout, s)
    at_zero zero t e = refl
    at_zero (suc s) t e = absurd (omega arith)

    above_zero :
        (s : ℕ) (t : Timeout) → 0 < s → ((take_one s t).0 ≡ ok 0) × ((take_one s t).1 + 1 ≡ s)
    above_zero zero t h = elim h [ ]
    above_zero (suc s) t h = (refl, omega arith)

abbrev silent : IsUncounted uncounted
silent = record { q_len = refl; space = refl; reclaim = refl }

abbrev ring_of : Bool → RingBuffer ℕ
ring_of overwrite = record {
  overwrite = overwrite;
  write_pt = 0;
  read_pt = 0;
  word_size = 12;
  shared_data = λ _. 0;
  errno = other 0;
  inst = 0;
}

abbrev ring : RingBuffer ℕ
ring = ring_of false

abbrev short_message : Chunk
short_message = 10 ∷ 20 ∷ 30 ∷ []

abbrev long_message : Chunk
long_message = 1 ∷ 2 ∷ 3 ∷ 4 ∷ 5 ∷ 6 ∷ 7 ∷ 8 ∷ 9 ∷ 10 ∷ 11 ∷ 12 ∷ 13 ∷ 14 ∷ 15 ∷ 16 ∷ 17 ∷ []

empty_held : (overwrite : Bool) → Holds (ring_of overwrite) []
empty_held overwrite = record {
  small = omega arith;
  read_in = omega arith;
  write_at = refl;
  fits = omega arith;
  chunks = tt;
}

abbrev one_chunk : RingBuffer ℕ
one_chunk = with_chunk uncounted ring short_message

one_held : Holds one_chunk (short_message ∷ [])
one_held = with_chunk-Holds uncounted short_message (empty_held false) (omega arith)

abbrev requests : List Request
requests =
    receive 9
    ∷ send long_message
    ∷ send short_message
    ∷ send short_message
    ∷ receive 4
    ∷ receive 17
    ∷ send short_message
    ∷ receive 3
    ∷ receive 3
    ∷ []

-- What a ring of twelve words answers: an empty ring, a full one, a short buffer.
run_requests :
    queue_run 12 [] requests
    ≡ (err etimedout, [])
      ∷ (ok 17, [])
      ∷ (ok 3, [])
      ∷ (err eagain, [])
      ∷ (err enobufs, [])
      ∷ (ok 17, long_message)
      ∷ (ok 3, [])
      ∷ (ok 3, short_message)
      ∷ (ok 3, short_message)
      ∷ []
unfolding queue_run
run_requests = refl

run_refines_example : ring_run counting forever ring requests ≡ queue_run 12 [] requests
run_refines_example =
    run_refines counting forever (λ s. s) counting-IsSemaphore ring [] (empty_held false) refl refl
      requests (omega arith)

-- A message goes through memory and comes back.
first_message : (chunk_read uncounted one_chunk 3 forever).1 ≡ short_message
unfolding chunk_read chunk_size_get Memory.load_word chunk_magic_get Memory.copy_out commit_header
    fill start_chunk chunk_size_set chunk_magic_set chunk_step Memory.store_word Memory.copy_in
first_message = refl

chunk_write-evicts_example :
    (out : Ret × RingBuffer ℕ) × (chunk_write uncounted (ring_of true) long_message ≡ some out)
    × (out.0 ≡ ok 17)
    × Holds out.1 (evict 12 17 [] ++ (long_message ∷ []))
chunk_write-evicts_example =
    chunk_write-evicts uncounted silent (ring_of true) [] long_message (empty_held true) refl
      (omega arith)

chunk_write-appends_example :
    (out : Ret × RingBuffer ℕ) × (chunk_write uncounted ring long_message ≡ some out)
    × (out.0 ≡ ok 17)
    × Holds out.1 (long_message ∷ [])
    × SameRing ring out.1
    × (out.1.inst ≡ 0)
chunk_write-appends_example =
    chunk_write-appends uncounted ring [] long_message (empty_held false)
      (record { by_pointers = refl; empty = λ _. refl }) (omega arith)

chunk_read-takes_example :
    (rb' : RingBuffer ℕ) × (chunk_read uncounted one_chunk 3 forever ≡ (ok 3, short_message, rb'))
    × (rb' ≡ (chunk_reclaim uncounted one_chunk).1)
    × Holds rb' []
chunk_read-takes_example = chunk_read-takes uncounted forever one_held tt 3 (omega arith)

chunk_reclaim-Holds_example : Holds (chunk_reclaim uncounted one_chunk).1 []
chunk_reclaim-Holds_example = chunk_reclaim-Holds uncounted one_held

space_free-Holds_example :
    space_free uncounted one_chunk ≡ 4 * room one_chunk.word_size (short_message ∷ [])
space_free-Holds_example =
    space_free-Holds uncounted (short_message ∷ []) one_held
      (record { by_pointers = refl; empty = λ _. refl })

space_used-Holds_example :
    space_used uncounted one_chunk
    ≡ 4 * (3 - (if ltb one_chunk.write_pt one_chunk.read_pt then 1 else 0))
space_used-Holds_example = space_used-Holds uncounted (short_message ∷ []) one_held refl

create-Holds_example :
    Holds {S = ℕ} (create 0 true 100 4096) []
    × (112 ≤ 4 * (create {S = ℕ} 0 true 100 4096).word_size)
create-Holds_example = create-Holds 0 true 100 1024 (omega arith) (omega arith)

abbrev save : List ℕ → List ℕ → Ret × List ℕ
save f block = (ok (length block), f ++ block)

dump_round_trip_example :
    (file : List ℕ) × (rb' : RingBuffer ℕ) × (write_to_file save one_chunk []
      ≡ (ok (20 + 4 * one_chunk.word_size), file))
    × (create_from_file 0 16 file ≡ loaded rb')
    × Holds rb' (short_message ∷ [])
    × (rb'.word_size ≡ one_chunk.word_size)
unfolding commit_header fill start_chunk chunk_size_set chunk_magic_set
dump_round_trip_example =
    dump_round_trip 0 save (λ f b. refl) one_chunk (short_message ∷ []) one_held 3 4 (omega arith)
      refl
