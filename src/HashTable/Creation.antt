-- ===== src/HashTable/Creation.antt =====
-- hashtable_destroy and qb_hashtable_create.
use libqb.Prelude.{
  ltb, ◌==◌, if◌then◌else◌, other, ℕ, zero, suc, ◌+◌, ◌*◌, ◌/◌, ◌%◌, ◌^◌, max, Bool, Option, none,
  some, List, [], ◌∷◌,
}
use libqb.Map.{Ops}
use libqb.HashTable.{Node, Table, Iter, table_get, node_deref, one_less, table_rm, table_put}
use libqb.HashTable.Notifiers.{notify_add, notify_del}
use libqb.HashTable.Iterating.{iter_create, iter_next, iter_free}

-- hashtable_node_deref_under_bucket, over the nodes of a bucket that are left
unfoldable pub deref_under_bucket : Table → List Node → Table
unfolding node_deref
deref_under_bucket t [] = t
deref_under_bucket t (n ∷ ns) = deref_under_bucket (one_less (node_deref t n)) ns

-- The `for` of hashtable_destroy, from bucket `b`, with `left` to go.
unfoldable pub destroy_loop : ℕ → ℕ → Table → Table
unfolding deref_under_bucket
destroy_loop zero b t = t
destroy_loop (suc left) b t = destroy_loop left (b + 1) (deref_under_bucket t (t.hash_buckets b))

-- hashtable_destroy, up to the freeing of the table
unfoldable pub destroy : Table → Table
unfolding destroy_loop
destroy t = record (destroy_loop t.hash_buckets_len 0 t) { notifiers = [] }

-- `n >>= 1` of an `int32_t`, kept as its 32 bits: the sign stays.
abbrev pub shift_right : ℕ → ℕ
shift_right n = if ltb n 2147483648 then n / 2 else n / 2 + 2147483648

-- The first `for` of qb_hashtable_create, on fuel.
unfoldable pub order_loop : ℕ → ℕ → ℕ → Option ℕ
order_loop zero n i = none
order_loop (suc fuel) n i =
    let rest = order_loop fuel (shift_right n) (i + 1) in if n == 0 then some i else rest

abbrev pub table_of_order : ℕ → Table
table_of_order order = record {
  count = 0;
  order = order;
  hash_buckets_len = 2 ^ order;
  notifiers = [];
  hash_buckets = λ b. [];
  errno = other 0;
  calls = [];
}

-- What qb_hashtable_create does once its loop has ended: `1 << order` overflows the `int`, or it
-- returns NULL or the table.
pub data Created : Type 0 where
  overflow null : Created
  made : Table → Created

module _ (header_size bucket_size : ℕ) (calloc : ℕ → Bool) where
  -- `size` for an order below 31
  abbrev pub size_of_order : ℕ → ℕ
  size_of_order order = (header_size + bucket_size * 2 ^ order) % 18446744073709551616

  -- The rest of qb_hashtable_create. `calloc` says whether it gives so many bytes.
  unfoldable pub create_order : ℕ → Created
  create_order order =
      if ltb order 31
      then (if calloc (size_of_order order) then made (table_of_order order) else null)
      else overflow

  unfoldable pub order_found : Option ℕ → Option Created
  unfolding create_order
  order_found none = none
  order_found (some i) = some (create_order (max i 3))

  -- qb_hashtable_create, where the structures of the table and of a bucket have the given sizes
  unfoldable pub create : ℕ → ℕ → Option Created
  unfolding order_loop order_found
  create fuel max_size = order_found (order_loop fuel (max_size % 4294967296) 0)

-- The functions that qb_hashtable_create puts into `struct qb_map`.
abbrev pub hashtable_ops : Ops Bool Table Iter
hashtable_ops = record {
  put = λ calloc t key value. some (table_put calloc t key value);
  get = λ t key. some (table_get t key);
  rm = λ t key. some (table_rm t key);
  count_get = λ t. t.count;
  destroy = λ t. some (destroy t);
  iter_create = λ t prefix. some (iter_create t prefix);
  iter_next = iter_next;
  iter_free = iter_free;
  notify_add = some (λ memory t key n. some (notify_add memory t key n));
  notify_del = some (λ t key n cmp_userdata. some (notify_del t key n cmp_userdata));
}
