-- ===== src/Ring.antt =====
-- lib/ringbuffer.c: the shared ring of chunks. A chunk is a header of two words, its size and a
-- magic number, and the bytes of the message. A function that changes `*rb` returns the new ring.
-- The ring pointer is never NULL here, and `errno` is a field of the ring.
pub mod Memory
pub mod Layout
pub mod Space
pub mod Write
pub mod Reclaim
pub mod Read
pub mod Overwrite
pub mod Queue
pub mod Open
pub mod Dump
mod Tests
use libqb.Prelude.{
  ltb, ◌==◌, if◌then◌else◌, length, Errno, einval, eagain, ebadmsg, enobufs, enotsup, etimedout,
  eidrm, other, Ret, ok, err, ℕ, zero, suc, ◌+◌, ◌-◌, ◌*◌, ◌/◌, ◌%◌, Bool, true, false, Option,
  none, some, List, [],
}
use Memory.{Bytes, load_word, store_word, copy_in, copy_out}

-- An `int32_t ms_timeout`: negative, or a number of milliseconds.
pub data Timeout : Type 0 where
  forever : Timeout
  millis : ℕ → Timeout

-- `struct qb_rb_notifier`, its functions over an instance of type `S`.
pub record Notifier (S : Type 0) : Type 0 where
  pub post_fn : Option (S → ℕ → Ret × S)
  pub q_len_fn : Option (S → Ret)
  pub space_used_fn : Option (S → ℕ)
  pub timedwait_fn : Option (S → Timeout → Ret × S)
  pub reclaim_fn : Option (S → ℕ → Ret × S)

-- `struct qb_ringbuffer_s` with the shared header and data that it points to.
pub record RingBuffer (S : Type 0) : Type 0 where
  pub overwrite : Bool
  pub write_pt : ℕ
  pub read_pt : ℕ
  pub word_size : ℕ
  pub shared_data : Bytes
  pub errno : Errno
  pub inst : S

abbrev pub u32 : ℕ → ℕ
u32 x = x % 4294967296

abbrev pub u64 : ℕ → ℕ
u64 x = x % 18446744073709551616

-- QB_RB_CHUNK_MARGIN, in bytes: the header and one word for alignment.
abbrev pub chunk_margin : ℕ
chunk_margin = 12

abbrev pub chunk_magic : ℕ
chunk_magic = 0xA1A1A1A1

abbrev pub chunk_magic_dead : ℕ
chunk_magic_dead = 0xD0D0D0D0

abbrev pub chunk_magic_alloc : ℕ
chunk_magic_alloc = 0xA110CED0

-- QB_ROUNDUP
abbrev pub roundup : ℕ → ℕ → ℕ
roundup x y = (x + (y - 1)) / y * y

-- idx_step: only an index past the end is reduced.
abbrev pub idx_step : ℕ → ℕ → ℕ
idx_step ws idx = if ltb (ws - 1) idx then idx % ws else idx

abbrev pub positive : Ret → Bool
positive (ok k) = ltb 0 k
positive (err e) = false

-- A result handed on as a `size_t`. The only error that reaches one is -EIDRM.
abbrev pub as_size : Ret → ℕ
as_size (ok k) = k
as_size (err e) = 18446744073709551573

abbrev pub is_eidrm : Errno → Bool
is_eidrm eidrm = true
is_eidrm e = false

abbrev pub is_etimedout : Errno → Bool
is_etimedout etimedout = true
is_etimedout e = false

abbrev pub is_zero : Ret → Bool
is_zero (ok k) = k == 0
is_zero (err e) = false

abbrev pub map_run : {A B : Type 0} → (A → B) → Option A → Option B
map_run f none = none
map_run f (some a) = some (f a)

-- The message's length, unless the commit failed.
abbrev pub or_length : ℕ → Ret → Ret
or_length len (ok k) = ok len
or_length len (err e) = err e

module _ {S : Type 0} where
  -- Byte addresses of the header words and of the data of the chunk at a word pointer.
  abbrev pub size_at : RingBuffer S → ℕ → ℕ
  size_at rb p = 4 * p

  abbrev pub magic_at : RingBuffer S → ℕ → ℕ
  magic_at rb p = 4 * ((p + 1) % rb.word_size)

  abbrev pub data_at : RingBuffer S → ℕ → ℕ
  data_at rb p = 4 * ((p + 2) % rb.word_size)

  abbrev pub bytes_in : RingBuffer S → ℕ
  bytes_in rb = 4 * rb.word_size

  -- QB_RB_CHUNK_SIZE_GET and the store through the same expression
  unfoldable pub chunk_size_get : RingBuffer S → ℕ → ℕ
  chunk_size_get rb p = load_word (bytes_in rb) rb.shared_data (size_at rb p)

  unfoldable pub chunk_size_set : RingBuffer S → ℕ → ℕ → RingBuffer S
  chunk_size_set rb p x = record rb {
    shared_data = store_word (bytes_in rb) rb.shared_data (size_at rb p) (u32 x);
  }

  -- QB_RB_CHUNK_MAGIC_GET, QB_RB_CHUNK_MAGIC_SET
  unfoldable pub chunk_magic_get : RingBuffer S → ℕ → ℕ
  chunk_magic_get rb p = load_word (bytes_in rb) rb.shared_data (magic_at rb p)

  unfoldable pub chunk_magic_set : RingBuffer S → ℕ → ℕ → RingBuffer S
  chunk_magic_set rb p x = record rb {
    shared_data = store_word (bytes_in rb) rb.shared_data (magic_at rb p) x;
  }

  -- qb_rb_chunk_step
  unfoldable pub chunk_step : RingBuffer S → ℕ → ℕ
  chunk_step rb pointer =
      let chunk_size = chunk_size_get rb pointer in
      let after_data = u32 (u32 (pointer + 2) + chunk_size / 4) in
      idx_step rb.word_size (if chunk_size % 4 == 0 then after_data else u32 (after_data + 1))

  abbrev set_errno : Ret → RingBuffer S → RingBuffer S
  set_errno (ok k) rb = rb
  set_errno (err e) rb = record rb { errno = e }

-- `real_size` of qb_rb_open_2
abbrev pub real_size_of : ℕ → ℕ → ℕ
real_size_of size page_size = roundup (u64 (size + (chunk_margin + 1))) page_size

-- The words that it clears, and the one behind them that it sets to 5.
abbrev pub new_data : ℕ → ℕ → ℕ
new_data word_size = store_word (4 * word_size) (λ _. 0) (4 * word_size) 5

-- The ring that qb_rb_open_2 sets up under QB_RB_FLAG_CREATE where none of the calls fails that
-- open and map its files and make its notifier, `inst`: its size, the fields of its header, and
-- the words of its data.
unfoldable pub create : {S : Type 0} → S → Bool → ℕ → ℕ → RingBuffer S
create inst overwrite size page_size =
    let real_size = real_size_of size page_size in
    record {
      overwrite = overwrite;
      write_pt = 0;
      read_pt = 0;
      word_size = u32 (real_size / 4);
      shared_data = new_data (u32 (real_size / 4));
      errno = other 0;
      inst = inst;
    }

module _ {S : Type 0} (n : Notifier S) where
  abbrev queued : RingBuffer S → Bool
  queued rb = elim n.q_len_fn [ none ↦ false | some q_len ↦ positive (q_len rb.inst) ]

  free_words : RingBuffer S → ℕ
  free_words rb =
      if ltb rb.read_pt rb.write_pt
      then u32 (rb.read_pt + 4294967296 - rb.write_pt + rb.word_size + 4294967295)
      else if ltb rb.write_pt rb.read_pt
      then u32 (rb.read_pt + 4294967296 - rb.write_pt + 4294967295)
      else if queued rb
      then 0
      else rb.word_size

  -- qb_rb_space_free, as the `size_t` that its callers compare
  unfoldable pub space_free : RingBuffer S → ℕ
  unfolding free_words
  space_free rb = elim n.space_used_fn [
    | some used ↦ u64 (4 * rb.word_size + 18446744073709551616 - used rb.inst)
    | none ↦ 4 * free_words rb
  ]

  used_words : RingBuffer S → ℕ
  used_words rb =
      if ltb rb.read_pt rb.write_pt
      then rb.write_pt - rb.read_pt
      else if ltb rb.write_pt rb.read_pt
      then u32 (rb.write_pt + 4294967296 - rb.read_pt + rb.word_size + 4294967295)
      else 0

  -- qb_rb_space_used
  unfoldable pub space_used : RingBuffer S → ℕ
  unfolding used_words
  space_used rb = elim n.space_used_fn [ some used ↦ used rb.inst | none ↦ 4 * used_words rb ]

  -- qb_rb_chunks_used
  unfoldable pub chunks_used : RingBuffer S → Ret
  chunks_used rb = elim n.q_len_fn [ some q_len ↦ q_len rb.inst | none ↦ err enotsup ]

  -- Calls through the function pointers that may be NULL.
  abbrev pub post : RingBuffer S → ℕ → Ret × RingBuffer S
  post rb size = elim n.post_fn [
    | some fn ↦ ((fn rb.inst size).0, record rb { inst = (fn rb.inst size).1 })
    | none ↦ (ok 0, rb)
  ]

  abbrev pub timedwait : RingBuffer S → Timeout → Ret × RingBuffer S
  timedwait rb timeout = elim n.timedwait_fn [
    | some fn ↦ ((fn rb.inst timeout).0, record rb { inst = (fn rb.inst timeout).1 })
    | none ↦ (ok 0, rb)
  ]

  abbrev pub notify_reclaim : RingBuffer S → ℕ → Ret × RingBuffer S
  notify_reclaim rb size = elim n.reclaim_fn [
    | some fn ↦ (
      (fn rb.inst size).0,
      set_errno (fn rb.inst size).0 (record rb { inst = (fn rb.inst size).1 }),
    )
    | none ↦ (ok 0, rb)
  ]

  -- _rb_chunk_reclaim
  unfoldable pub chunk_reclaim : RingBuffer S → Ret × RingBuffer S
  chunk_reclaim rb =
      let old_read_pt = rb.read_pt in
      if chunk_magic_get rb old_read_pt == chunk_magic
      then (let old_chunk_size = chunk_size_get rb old_read_pt in
          let new_read_pt = chunk_step rb old_read_pt in
          let cleared =
            chunk_magic_set (chunk_size_set rb old_read_pt 0) old_read_pt chunk_magic_dead in
          notify_reclaim (record cleared { read_pt = new_read_pt }) old_chunk_size)
      else (err einval, record rb { errno = einval })

  -- The `while` of qb_rb_chunk_alloc on fuel: whether there is room, `none` when fuel runs out.
  unfoldable pub make_room : ℕ → RingBuffer S → ℕ → Option (Bool × RingBuffer S)
  make_room zero rb len = none
  make_room (suc fuel) rb len =
      let rest = make_room fuel (chunk_reclaim rb).1 len in
      if ltb (space_free rb) (u64 (len + chunk_margin))
      then (if is_zero (chunk_reclaim rb).0 then rest else some (false, (chunk_reclaim rb).1))
      else some (true, rb)

  -- The header of the chunk that is being filled, and the word pointer to its data.
  unfoldable pub start_chunk : RingBuffer S → Option ℕ × RingBuffer S
  start_chunk rb = (
    some ((rb.write_pt + 2) % rb.word_size),
    chunk_magic_set (chunk_size_set rb rb.write_pt 0) rb.write_pt chunk_magic_alloc,
  )

  abbrev start_if_room : Bool × RingBuffer S → Option ℕ × RingBuffer S
  start_if_room (true, rb) = start_chunk rb
  start_if_room (false, rb) = (none, rb)

  -- qb_rb_chunk_alloc: `none` for the data pointer is NULL.
  unfoldable pub chunk_alloc : RingBuffer S → ℕ → Option (Option ℕ × RingBuffer S)
  chunk_alloc rb len =
      if rb.overwrite
      then map_run start_if_room (make_room (rb.word_size + 1) rb len)
      else if ltb (space_free rb) (u64 (len + chunk_margin))
      then some (none, record rb { errno = eagain })
      else some (start_chunk rb)

  -- qb_rb_chunk_commit up to the notification: size, write pointer, and the magic number last.
  unfoldable pub commit_header : RingBuffer S → ℕ → RingBuffer S
  commit_header rb len =
      let old_write_pt = rb.write_pt in
      let sized = chunk_size_set rb old_write_pt len in
      let moved = record sized { write_pt = chunk_step sized old_write_pt } in
      chunk_magic_set moved old_write_pt chunk_magic

  -- qb_rb_chunk_commit
  unfoldable pub chunk_commit : RingBuffer S → ℕ → Ret × RingBuffer S
  unfolding commit_header
  chunk_commit rb len = post (commit_header rb len) len

  -- memcpy to the pointer that qb_rb_chunk_alloc returned
  unfoldable pub fill : RingBuffer S → ℕ → List ℕ → RingBuffer S
  fill rb dest bytes = record rb {
    shared_data = copy_in (bytes_in rb) rb.shared_data (4 * dest) bytes;
  }

  abbrev write_to : List ℕ → Option ℕ × RingBuffer S → Ret × RingBuffer S
  write_to bytes (none, rb) = (err rb.errno, rb)
  write_to bytes (some dest, rb) =
      let (res, committed) = chunk_commit (fill rb dest bytes) (length bytes) in
      (or_length (length bytes) res, committed)

  -- qb_rb_chunk_write
  unfoldable pub chunk_write : RingBuffer S → List ℕ → Option (Ret × RingBuffer S)
  chunk_write rb bytes = map_run (write_to bytes) (chunk_alloc rb (length bytes))

  -- What qb_rb_chunk_peek does once the wait has given `res`.
  peek_after : Ret → RingBuffer S → Ret × Option ℕ × RingBuffer S
  peek_after res rb =
      if chunk_magic_get rb rb.read_pt == chunk_magic
      then (ok (chunk_size_get rb rb.read_pt), some ((rb.read_pt + 2) % rb.word_size), rb)
      else (err ebadmsg, none, (post rb (as_size res)).1)

  peek_waited : Ret × RingBuffer S → Ret × Option ℕ × RingBuffer S
  peek_waited (ok k, rb) = peek_after (ok k) rb
  peek_waited (err e, rb) =
      if is_eidrm e
      then peek_after (err e) rb
      else if is_etimedout e
      then (ok 0, none, rb)
      else (err e, none, record rb { errno = e })

  -- qb_rb_chunk_peek: the result, and the word pointer that goes through `data_out`.
  unfoldable pub chunk_peek : RingBuffer S → Timeout → Ret × Option ℕ × RingBuffer S
  unfolding peek_after peek_waited
  chunk_peek rb timeout = peek_waited (timedwait rb timeout)

  -- What qb_rb_chunk_read does once the wait has given `res`. A notifier with a wait has a post,
  -- since qb_rb_open_2 takes notifiers only with a post_fn.
  read_after : Ret → ℕ → RingBuffer S → Ret × List ℕ × RingBuffer S
  read_after res len rb =
      let chunk_size = chunk_size_get rb rb.read_pt in
      if chunk_magic_get rb rb.read_pt == chunk_magic
      then (if ltb len chunk_size then (err enobufs, [], (post rb chunk_size).1) else (
        ok chunk_size,
        copy_out (bytes_in rb) rb.shared_data (data_at rb rb.read_pt) chunk_size,
        (chunk_reclaim rb).1,
      ))
      else (elim n.timedwait_fn [
        | none ↦ (err etimedout, [], rb)
        | some _ ↦ (err ebadmsg, [], (post rb (as_size res)).1)
      ])

  read_waited : ℕ → Ret × RingBuffer S → Ret × List ℕ × RingBuffer S
  read_waited len (ok k, rb) = read_after (ok k) len rb
  read_waited len (err e, rb) =
      if is_eidrm e
      then read_after (err e) len rb
      else if is_etimedout e
      then (err e, [], rb)
      else (err e, [], record rb { errno = e })

  -- qb_rb_chunk_read: the result, and the bytes copied to `data_out`.
  unfoldable pub chunk_read : RingBuffer S → ℕ → Timeout → Ret × List ℕ × RingBuffer S
  unfolding read_after read_waited
  chunk_read rb len timeout = read_waited len (timedwait rb timeout)
