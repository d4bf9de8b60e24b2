-- ===== src/Array.antt =====
-- lib/array.c: an array that grows in bins of 16 elements, so that no element ever moves. The
-- elements are of any type `E` with a zero, which is what calloc leaves. A lock is taken around
-- each change, so the operations here are the critical sections in turn. `none` for a whole call
-- is a NULL pointer that is followed, or a failed assertion.
pub mod Index
pub mod Grow
pub mod Store
mod Tests
use libqb.Prelude.{
  ltb, leb, ◌==◌, if◌then◌else◌, update, Errno, einval, enomem, erange, Ret, ok, err, ℕ, zero, suc,
  ◌+◌, ◌/◌, ◌%◌, min, Bool, false, Option, none, some, List, [], ◌∷◌,
}

-- What stands in a bin, by the element's place in it.
abbrev pub Bin : Type 0 → Type 0
Bin E = ℕ → E

-- The block of pointers to bins; a NULL pointer is `none`.
abbrev pub Bins : Type 0 → Type 0
Bins E = ℕ → Option (Bin E)

-- `struct qb_array`
pub record Array (E : Type 0) : Type 0 where
  pub bin : Option (Bins E)
  pub max_elements : ℕ
  pub num_bins : ℕ
  pub autogrow_elements : ℕ
  pub new_bin_cb : Bool

-- The result of qb_array_index: the bin and the place in it of the element, and the bin that
-- `new_bin_cb` was called for; or -errno.
pub data Indexed : Type 0 where
  element_at : ℕ → ℕ → Option ℕ → Indexed
  failed : Errno → Indexed

-- QB_ARRAY_MAX_ELEMENTS, MAX_BINS, MAX_ELEMENTS_PER_BIN
abbrev pub array_max_elements : ℕ
array_max_elements = 65536

abbrev pub max_bins : ℕ
max_bins = 4096

abbrev pub max_elements_per_bin : ℕ
max_elements_per_bin = 16

-- BIN_NUM_GET, ELEM_NUM_GET
abbrev pub bin_num_get : ℕ → ℕ
bin_num_get idx = idx / 16

abbrev pub elem_num_get : ℕ → ℕ
elem_num_get idx = idx % 16

-- An `int32_t`, kept as the 32 bits, is negative from 2^31 on.
abbrev pub is_negative : ℕ → Bool
is_negative x = leb 2147483648 x

-- The bins that max_elements needs, as qb_array_create_2 and qb_array_grow count them.
abbrev pub bins_for : ℕ → ℕ
bins_for max_elements = min (max_elements / 16 + 1) max_bins

abbrev pub copied : {E : Type 0} → Option (Bins E) → Bins E → Bins E
copied none fresh = fresh
copied (some old) fresh = old

module _ {E : Type 0} where
  -- _grow_bin_array. `realloc` is what it returns: NULL, or a block with anything in it.
  unfoldable pub grow_bin_array : Option (Bins E) → Array E → ℕ → Ret × Array E
  grow_bin_array none a new_bin_size = (err enomem, record a { bin = none })
  grow_bin_array (some fresh) a new_bin_size = (
    ok 0,
    record a {
      bin = some (λ b. if ltb b a.num_bins then copied a.bin fresh b else none);
      num_bins = new_bin_size;
    },
  )

  abbrev created : Ret × Array E → Option (Array E)
  created (ok k, a) = some a
  created (err e, a) = none

  -- qb_array_create_2, when calloc gives the structure: NULL for a size out of bounds.
  unfoldable pub create_2 : Option (Bins E) → ℕ → ℕ → ℕ → Option (Array E)
  unfolding grow_bin_array
  create_2 realloc max_elements element_size autogrow_elements =
      if ltb array_max_elements max_elements
      then none
      else if ltb element_size 1
      then none
      else if ltb max_elements_per_bin autogrow_elements
      then none
      else created (
          grow_bin_array realloc
            (record {
              bin = none;
              max_elements = max_elements;
              num_bins = 0;
              autogrow_elements = autogrow_elements;
              new_bin_cb = false;
            })
            (bins_for max_elements))

  -- qb_array_grow
  unfoldable pub grow : Option (Bins E) → Array E → ℕ → Ret × Array E
  unfolding grow_bin_array
  grow realloc a max_elements =
      let wider = record a { max_elements = max_elements } in
      let b = bins_for max_elements in
      if ltb array_max_elements max_elements
      then (err einval, a)
      else if leb max_elements a.max_elements
      then (ok 0, a)
      else if ltb a.num_bins b
      then grow_bin_array realloc wider (b + 1)
      else (ok 0, wider)

  -- The bin `b` of a block of pointers, allocated if it is NULL.
  fill_bin : Bool → E → Array E → ℕ → ℕ → Bins E → Option (Bin E) → Indexed × Array E
  fill_bin calloc zeroed a b elem bins (some old) = (element_at b elem none, a)
  fill_bin calloc zeroed a b elem bins none =
      if calloc
      then (
        element_at b elem (if a.new_bin_cb then some b else none),
        record a { bin = some (update bins b (some (λ _. zeroed))) },
      )
      else (failed enomem, a)

  -- a->bin[b], which is read through a->bin.
  follow : Bool → E → Array E → ℕ → ℕ → Option (Bins E) → Option (Indexed × Array E)
  unfolding fill_bin
  follow calloc zeroed a b elem none = none
  follow calloc zeroed a b elem (some bins) = some (fill_bin calloc zeroed a b elem bins (bins b))

  after_bins : Bool → E → ℕ → Ret × Array E → Option (Indexed × Array E)
  unfolding follow
  after_bins calloc zeroed idx (err e, a) = some (failed e, a)
  after_bins calloc zeroed idx (ok k, a) =
      follow calloc zeroed a (bin_num_get idx) (elem_num_get idx) a.bin

  -- qb_array_index once `idx` lies below max_elements.
  pub index_in : Option (Bins E) → Bool → E → Array E → ℕ → Option (Indexed × Array E)
  unfolding grow_bin_array after_bins
  index_in realloc calloc zeroed a idx =
      if leb max_bins (bin_num_get idx)
      then none
      else if leb a.num_bins (bin_num_get idx)
      then after_bins calloc zeroed idx (grow_bin_array realloc a (bin_num_get idx + 1))
      else after_bins calloc zeroed idx (ok 0, a)

  index_grown : Option (Bins E) → Bool → E → ℕ → Ret × Array E → Option (Indexed × Array E)
  unfolding index_in
  index_grown realloc calloc zeroed idx (err e, a) = some (failed e, a)
  index_grown realloc calloc zeroed idx (ok k, a) = index_in realloc calloc zeroed a idx

  -- qb_array_index. The reallocs are those of qb_array_grow and of the call itself.
  unfoldable pub index :
      Option (Bins E) → Option (Bins E) → Bool → E → Array E → ℕ → Option (Indexed × Array E)
  unfolding grow index_in index_grown
  index realloc_in_grow realloc calloc zeroed a idx =
      if is_negative idx
      then some (failed erange, a)
      else if leb a.max_elements idx
      then (if a.autogrow_elements == 0
          then some (failed erange, a)
          else index_grown realloc calloc zeroed idx (grow realloc_in_grow a (idx + 1)))
      else index_in realloc calloc zeroed a idx

  -- qb_array_new_bin_cb_set
  unfoldable pub new_bin_cb_set : Array E → Bool → Ret × Array E
  new_bin_cb_set a fn = (ok 0, record a { new_bin_cb = fn })

  -- qb_array_num_bins_get, qb_array_elems_per_bin_get
  unfoldable pub num_bins_get : Array E → ℕ
  num_bins_get a = a.num_bins

  unfoldable pub elems_per_bin_get : Array E → ℕ
  elems_per_bin_get a = max_elements_per_bin

  freed_bin : ℕ → Option (Bin E) → Option (List ℕ) → Option (List ℕ)
  freed_bin b (some bin) (some rest) = some (b ∷ rest)
  freed_bin b bin rest = rest

  -- The `for` of qb_array_free from bin `b`, with `left` to go: the numbers of the bins that are
  -- freed. Of a NULL block none can be read.
  unfoldable pub free_from : Option (Bins E) → ℕ → ℕ → Option (List ℕ)
  unfolding freed_bin
  free_from bins b zero = some []
  free_from none b (suc left) = none
  free_from (some bins) b (suc left) = freed_bin b (bins b) (free_from (some bins) (b + 1) left)

  -- qb_array_free, whose argument is not to be used again
  unfoldable pub free : Array E → Option (List ℕ)
  unfolding free_from
  free a = free_from a.bin 0 a.num_bins

  -- What an element pointer leads to.
  abbrev pub bin_element : Option (Bin E) → ℕ → Option E
  bin_element none elem = none
  bin_element (some bin) elem = some (bin elem)

  abbrev pub element_in : Option (Bins E) → ℕ → ℕ → Option E
  element_in none b elem = none
  element_in (some bins) b elem = bin_element (bins b) elem

  abbrev pub element : Array E → ℕ → Option E
  element a idx = element_in a.bin (bin_num_get idx) (elem_num_get idx)

  -- A store through the pointer to an element.
  abbrev pub stored_in_bin : Option (Bin E) → ℕ → E → Option (Bin E)
  stored_in_bin none elem x = none
  stored_in_bin (some bin) elem x = some (update bin elem x)

  abbrev pub stored_in : Option (Bins E) → ℕ → E → Option (Bins E)
  stored_in none idx x = none
  stored_in (some bins) idx x =
      some (
        update bins (bin_num_get idx) (stored_in_bin (bins (bin_num_get idx)) (elem_num_get idx) x))

  abbrev pub stored : Array E → ℕ → E → Array E
  stored a idx x = record a { bin = stored_in a.bin idx x }
