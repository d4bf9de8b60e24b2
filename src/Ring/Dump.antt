-- ===== src/Ring/Dump.antt =====
-- qb_rb_write_to_file and qb_rb_create_from_file: a ring saved to a file, and read back.
use native.Mathlib.Nat.{mod-eq_of_lt, mod-lt}
use libqb.Prelude.{
  ltb, ◌==◌, if◌then◌else◌, ==_iff, lt_or_ge, length, Errno, Ret, ok, err, ℕ, zero, suc, ◌+◌, ◌*◌,
  ◌/◌, ◌%◌, ◌<◌, ◌≡◌, refl, sym, ap, ap₂, ◌∙◌, inl, inr, false, ◌||◌, Option, none, some, List, [],
  ◌∷◌, ◌++◌, append-nil, append_assoc, arith,
}
use libqb.Ring.Open.{roundup_self}
use libqb.Ring.Space.{write_in}
use libqb.Ring.{RingBuffer, create, u32, u64, bytes_in}
use libqb.Ring.Memory
use libqb.Ring.Memory.{
  load_byte, Bytes, slice, copy_in, copy_out, byte0, byte1, byte2, byte3, Stored, Agree,
}
use libqb.Ring.Layout.{Chunk, Holds, total, Chunks-Agree}

abbrev pub file_header_version : ℕ
file_header_version = 1

abbrev pub word_bytes : ℕ → List ℕ
word_bytes x = byte0 x ∷ byte1 x ∷ byte2 x ∷ byte3 x ∷ []

-- The sum that guards the header, in 32 bits.
abbrev pub header_hash : ℕ → ℕ → ℕ → ℕ → ℕ
header_hash word_size write_pt read_pt version = u32 (word_size + write_pt + read_pt + version)

-- What is written, in this order: the header of five words, and the data.
abbrev pub dump_blocks : {S : Type 0} → RingBuffer S → List (List ℕ)
dump_blocks rb =
    word_bytes rb.word_size
    ∷ word_bytes rb.write_pt
    ∷ word_bytes rb.read_pt
    ∷ word_bytes file_header_version
    ∷ word_bytes (header_hash rb.word_size rb.write_pt rb.read_pt file_header_version)
    ∷ copy_out (bytes_in rb) rb.shared_data 0 (bytes_in rb)
    ∷ []

module _ {F : Type 0} (write : F → List ℕ → Ret × F) where
  -- The writes in turn. A write that does not take its whole block ends the call with -errno,
  -- which a short write leaves as it was.
  write_blocks : Errno → F → List (List ℕ) → ℕ → Ret × F
  write_blocks errno f [] written_size = (ok written_size, f)
  write_blocks errno f (block ∷ rest) written_size = elim ((write f block).0) [
    | ok result ↦
        let next = write_blocks errno (write f block).1 rest (written_size + result) in
        if result == length block then next else (err errno, (write f block).1)
    | err e ↦ (err e, (write f block).1)
  ]

  -- qb_rb_write_to_file, to a file `f` of the operating system
  unfoldable pub write_to_file : {S : Type 0} → RingBuffer S → F → Ret × F
  unfolding write_blocks
  write_to_file rb f = write_blocks rb.errno f (dump_blocks rb) 0

-- `read` of one `uint32_t` from what is left of the file.
abbrev pub read_word : List ℕ → Option (ℕ × List ℕ)
read_word (a ∷ b ∷ c ∷ d ∷ rest) = some (a + 256 * b + 65536 * c + 16777216 * d, rest)
read_word rest = none

-- `read` of at most `n` bytes.
abbrev pub read_bytes : ℕ → List ℕ → List ℕ
read_bytes zero rest = []
read_bytes (suc n) [] = []
read_bytes (suc n) (b ∷ rest) = b ∷ read_bytes n rest

-- A ring, NULL, or a failed assertion.
pub data Loaded (S : Type 0) : Type 0 where
  loaded : RingBuffer S → Loaded S
  refused aborted : Loaded S

abbrev or_else : {S : Type 0} → Option (ℕ × List ℕ) → Loaded S → (ℕ → List ℕ → Loaded S) → Loaded S
or_else none failure next = failure
or_else (some (x, rest)) failure next = next x rest

module _ {S : Type 0} (inst : S) (page_size : ℕ) where
  -- The ring of the header's size, with the pointers of the header and the data that follows it.
  load_data : ℕ → ℕ → ℕ → List ℕ → Loaded S
  load_data word_size write_pt read_pt rest =
      let n_required = 4 * word_size in
      let rb = create inst false (u64 (n_required + 18446744073709551603)) page_size in
      let bytes = read_bytes n_required rest in
      if length bytes == n_required
      then loaded (record rb {
        write_pt = write_pt;
        read_pt = read_pt;
        shared_data = copy_in (bytes_in rb) rb.shared_data 0 bytes;
      })
      else refused

  check_header : ℕ → ℕ → ℕ → ℕ → ℕ → List ℕ → Loaded S
  check_header word_size write_pt read_pt version hash rest =
      if hash == header_hash word_size write_pt read_pt version
      then (if version == file_header_version
          then load_data word_size write_pt read_pt rest
          else refused)
      else refused

  -- qb_rb_create_from_file, on the bytes of the file. A read gives what is asked for while the
  -- file lasts.
  unfoldable pub create_from_file : List ℕ → Loaded S
  unfolding load_data check_header
  create_from_file file =
      let st_size = length file in
      or_else (read_word file) refused λ word_size after_size.
        if ltb (st_size / 4) word_size
        then refused
        else or_else (read_word after_size) aborted λ write_pt after_write.
          or_else (read_word after_write) aborted λ read_pt after_read.
            if ltb st_size write_pt || ltb st_size read_pt
            then refused
            else or_else (read_word after_read) refused λ version after_version.
              or_else (read_word after_version) refused
                λ hash rest. check_header word_size write_pt read_pt version hash rest

-- What stands in the segment from byte `i` is what a copy of its bytes has.
Stored-slice : (v w : Bytes) (i n : ℕ) → Stored v i (slice w i n) → Agree w v i (i + n)
unfolding slice
Stored-slice v w i zero s k a b = absurd (omega arith)
Stored-slice v w i (suc n) s k a b = elim (lt_or_ge i k) [
  | inl l ↦ Stored-slice v w (i + 1) n s.1 k (omega arith) (omega arith)
  | inr g ↦ let e : k ≡ i = omega arith in rw e (sym s.0)
]

length-slice : (v : Bytes) (i n : ℕ) → length (slice v i n) ≡ n
unfolding slice
length-slice v i zero = refl
length-slice v i (suc n) = ap suc (length-slice v (i + 1) n)

read_bytes_all : (bytes : List ℕ) (n : ℕ) → length bytes ≡ n → read_bytes n bytes ≡ bytes
read_bytes_all [] zero e = refl
read_bytes_all [] (suc n) e = refl
read_bytes_all (b ∷ bytes) zero e = absurd (omega arith)
read_bytes_all (b ∷ bytes) (suc n) e = ap (◌∷◌ b) (read_bytes_all bytes n (omega arith))

word_of_bytes :
    (x : ℕ) → x < 4294967296 → byte0 x + 256 * byte1 x + 65536 * byte2 x + 16777216 * byte3 x ≡ x
word_of_bytes x h = omega arith

-- The blocks of a dump, one behind the other.
abbrev pub concat : List (List ℕ) → List ℕ
concat [] = []
concat (b ∷ rest) = b ++ concat rest

abbrev pub sum_length : List (List ℕ) → ℕ
sum_length [] = 0
sum_length (b ∷ rest) = length b + sum_length rest

module _ (write : List ℕ → List ℕ → Ret × List ℕ)
    (takes : (f block : List ℕ) → write f block ≡ (ok (length block), f ++ block)) where
  write_blocks-all :
      (errno : Errno) (f : List ℕ) (blocks : List (List ℕ)) (k : ℕ)
      → write_blocks write errno f blocks k ≡ (ok (k + sum_length blocks), f ++ concat blocks)
  unfolding write_blocks
  write_blocks-all errno f [] k = ap₂ (λ a b. (ok a, b)) (omega arith) (sym (append-nil f))
  write_blocks-all errno f (block ∷ rest) k =
      rw
        (
          takes f block,
          write_blocks,
          (==_iff (length block) (length block)).1 refl,
          takes f block,
          write_blocks-all errno (f ++ block) rest (k + length block),
        )
        (ap₂ (λ a b. (ok a, b)) (omega arith) (append_assoc f block (concat rest)))

module _ {S : Type 0} (inst : S) (page_size ws wp rp : ℕ) (bytes : List ℕ) where
  -- A whole and sound header leads on to the data.
  load_header :
      ws < 1073741824
      → wp < ws
      → rp < ws
      → length bytes ≡ 4 * ws
      → create_from_file inst page_size (
          concat (
            word_bytes ws
            ∷ word_bytes wp
            ∷ word_bytes rp
            ∷ word_bytes file_header_version
            ∷ word_bytes (header_hash ws wp rp file_header_version)
            ∷ bytes
            ∷ []))
        ≡ load_data inst page_size ws wp rp bytes
  unfolding create_from_file check_header
  load_header small wp_in rp_in size =
      rw
        (
          append-nil bytes,
          word_of_bytes ws (omega arith),
          word_of_bytes wp (omega arith),
          word_of_bytes rp (omega arith),
          word_of_bytes (header_hash ws wp rp file_header_version) (omega arith),
        )
        (ground (arith, read_bytes_all bytes (4 * ws) size))

module _ {S : Type 0} (inst : S) (rb : RingBuffer S) (q : List Chunk) (h : Holds rb q) (k pages : ℕ)
    (paged : 0 < pages) (whole : rb.word_size ≡ k * pages) where
  create_size :
      (create inst false (u64 (4 * rb.word_size + 18446744073709551603)) (4 * pages)).word_size
      ≡ rb.word_size
  unfolding create
  create_size =
      let wrap : u64 (u64 (4 * rb.word_size + 18446744073709551603) + 13) ≡ k * (4 * pages) =
        omega (arith, h.small) in
      rw (wrap, roundup_self k (4 * pages) (omega arith))
        (ap u32 (omega arith) ∙ mod-eq_of_lt (omega (arith, h.small)))

  -- The blocks that qb_rb_write_to_file writes.
  abbrev pub dump : List ℕ
  dump = concat (dump_blocks rb)

  pos : 0 < 4 * rb.word_size
  pos = omega (arith, h.read_in)

  copied : Bytes → Bytes
  copied m =
      copy_in (4 * rb.word_size) m 0
        (copy_out (4 * rb.word_size) rb.shared_data 0 (4 * rb.word_size))

  length-copy :
      length (copy_out (4 * rb.word_size) rb.shared_data 0 (4 * rb.word_size)) ≡ 4 * rb.word_size
  unfolding copy_out
  length-copy = length-slice _ 0 (4 * rb.word_size)

  -- Every byte of the segment comes back.
  copied_byte : (m : Bytes) (a : ℕ) → a < 4 * rb.word_size → copied m a ≡ rb.shared_data a
  unfolding copied copy_out load_byte
  copied_byte m a p =
      let stored =
        Memory.copy_in-Stored (4 * rb.word_size) pos 0
          (copy_out (4 * rb.word_size) rb.shared_data 0 (4 * rb.word_size)) m 0 0 refl
          (omega (arith, length-copy)) in
      let at : (0 + a) % (4 * rb.word_size) ≡ a =
        ap (λ x. x % (4 * rb.word_size)) (omega arith) ∙ mod-eq_of_lt p in
      ap (copied m) (sym at)
      ∙ (sym (Stored-slice _ _ 0 (4 * rb.word_size) stored a (omega arith) (omega arith))
          ∙ ap rb.shared_data (mod-eq_of_lt p))

  -- The ring that is read back.
  abbrev restored : RingBuffer S
  restored =
      let rb' = create inst false (u64 (4 * rb.word_size + 18446744073709551603)) (4 * pages) in
      record rb' {
        write_pt = rb.write_pt;
        read_pt = rb.read_pt;
        shared_data =
            copy_in (bytes_in rb') rb'.shared_data 0
              (copy_out (bytes_in rb) rb.shared_data 0 (bytes_in rb));
      }

  restored-Holds : Holds restored q
  unfolding copied
  restored-Holds = record {
    small = omega (arith, create_size, h.small);
    read_in = omega (arith, create_size, h.read_in);
    write_at = h.write_at ∙ ap (λ w. (rb.read_pt + total q) % w) (sym create_size);
    fits = omega (arith, create_size, h.fits);
    chunks =
        Chunks-Agree _ _ 0 q (4 * total q)
          (λ i a b. rw create_size (sym (copied_byte _ _ (mod-lt _ pos)))) (omega arith) h.chunks;
  }

  load_dump : create_from_file inst (4 * pages) dump ≡ loaded restored
  unfolding load_data
  load_dump =
      load_header inst (4 * pages) rb.word_size rb.write_pt rb.read_pt _ h.small (write_in h)
        h.read_in length-copy
      ∙ rw (
        read_bytes_all (copy_out (4 * rb.word_size) rb.shared_data 0 (4 * rb.word_size))
            (4 * rb.word_size) length-copy,
        (==_iff _ (4 * rb.word_size)).1 length-copy,
      )

-- A ring whose size is a number of pages of `pages` words, saved to a file that takes every block
-- and read back into a ring that can be opened, holds the same chunks in the same number of words,
-- and the call that writes reports the bytes written.
pub dump_round_trip :
    {S : Type 0} (inst : S) (write : List ℕ → List ℕ → Ret × List ℕ)
    → ((f block : List ℕ) → write f block ≡ (ok (length block), f ++ block))
    → (rb : RingBuffer S) (q : List Chunk) → Holds rb q
    → (k pages : ℕ) → 0 < pages
    → rb.word_size ≡ k * pages
    → (file : List ℕ) × (rb' : RingBuffer S) × (write_to_file write rb []
        ≡ (ok (20 + 4 * rb.word_size), file))
      × (create_from_file inst (4 * pages) file ≡ loaded rb')
      × Holds rb' q
      × (rb'.word_size ≡ rb.word_size)
unfolding write_to_file
dump_round_trip inst write takes rb q h k pages paged whole = (
  dump inst rb q h k pages paged whole,
  restored inst rb q h k pages paged whole,
  write_blocks-all write takes rb.errno [] (dump_blocks rb) 0
      ∙ ap (λ n. (ok n, dump inst rb q h k pages paged whole))
          (omega (arith, length-copy inst rb q h k pages paged whole)),
  load_dump inst rb q h k pages paged whole,
  restored-Holds inst rb q h k pages paged whole,
  create_size inst rb q h k pages paged whole,
)
