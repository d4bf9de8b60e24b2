-- ===== src/HashTable.antt =====
-- lib/hashtable.c: the map interface on buckets of nodes. The keys in a table differ, so a node is
-- named by its key. The functions of notifiers leave the table alone, and their calls are recorded
-- in order. `none` for a whole call is a freed node that is read.
pub mod Notifiers
pub mod Iterating
pub mod Creation
pub mod Hash
pub mod Bucket
pub mod Refine
pub mod Remaining
pub mod Visited
pub mod Iterate
pub mod Notify
mod Tests
use Prim.Native.Nat.{bit_xor}
use libqb.Prelude.{
  ltb, if◌then◌else◌, update, Errno, enomem, ℕ, ◌+◌, ◌*◌, ◌/◌, ◌%◌, ◌^◌, Bool, true, false, ◌&&◌,
  ◌||◌, Option, none, some, List, [], ◌∷◌, ◌++◌,
}
use libqb.Map.{
  Notifier, Notification, notify_deleted, notify_replaced, notify_inserted, notify_free, has_event,
}
use libqb.Map.Keys.{Key, key_eq}

-- `struct hash_node`, in the list of its bucket
pub record Node : Type 0 where
  pub value : ℕ
  pub key : Key
  pub refcount : ℕ
  pub notifiers : List Notifier

-- `struct hash_table`, and the calls of notifiers so far
pub record Table : Type 0 where
  pub count : ℕ
  pub order : ℕ
  pub hash_buckets_len : ℕ
  pub notifiers : List Notifier
  pub hash_buckets : ℕ → List Node
  pub errno : Errno
  pub calls : List Notification

-- `struct hashtable_iter`
pub record Iter : Type 0 where
  pub node : Option Key
  pub bucket : ℕ

-- The `while` of hash_fnv, over the bytes that are left.
unfoldable pub fnv_loop : ℕ → List ℕ → ℕ
fnv_loop hash_result [] = hash_result
fnv_loop hash_result (b ∷ bs) = fnv_loop (bit_xor hash_result b * 16777619 % 4294967296) bs

-- hash_fnv
unfoldable pub hash_fnv : List ℕ → ℕ → ℕ
unfolding fnv_loop
hash_fnv bytes order =
    let hash_result = fnv_loop 2166136261 bytes in
    bit_xor (hash_result / 2 ^ order) hash_result % 2 ^ order

-- qb_hash_string
unfoldable pub hash_string : Key → ℕ → ℕ
unfolding hash_fnv
hash_string key order = hash_fnv key order

-- The first node of a list with a key, the list with that node changed, and without it.
unfoldable pub find : Key → List Node → Option Node
find key [] = none
find key (n ∷ ns) = if key_eq n.key key then some n else find key ns

unfoldable pub change : (Node → Node) → Key → List Node → List Node
change f key [] = []
change f key (n ∷ ns) = if key_eq n.key key then f n ∷ ns else n ∷ change f key ns

unfoldable pub unlink : Key → List Node → List Node
unlink key [] = []
unlink key (n ∷ ns) = if key_eq n.key key then ns else n ∷ unlink key ns

abbrev pub bucket_of : Table → Key → List Node
bucket_of t key = t.hash_buckets (hash_string key t.order)

abbrev pub set_bucket : Table → Key → List Node → Table
set_bucket t key ns = record t { hash_buckets = update t.hash_buckets (hash_string key t.order) ns }

-- hashtable_lookup
unfoldable pub lookup_node : Table → Key → Option Node
unfolding find
lookup_node t key = find key (bucket_of t key)

unfoldable pub value_of : Option Node → ℕ
value_of none = 0
value_of (some n) = n.value

-- hashtable_get
unfoldable pub table_get : Table → Key → ℕ
unfolding lookup_node value_of
table_get t key = value_of (lookup_node t key)

abbrev pub notification : ℕ → Key → ℕ → ℕ → Notifier → Notification
notification event key old_value value tn = record {
  function = tn.callback;
  event = event;
  key = key;
  old_value = old_value;
  value = value;
  user_data = tn.user_data;
}

-- The first loop of hashtable_notify, over the notifiers of the node.
unfoldable pub node_calls : ℕ → Key → ℕ → ℕ → List Notifier → List Notification
node_calls event key old_value value [] = []
node_calls event key old_value value (tn ∷ tns) =
    let rest = node_calls event key old_value value tns in
    if has_event tn.events event then notification event key old_value value tn ∷ rest else rest

-- The second loop, over those of the table, with the calls to free what has gone.
unfoldable pub table_calls : ℕ → Key → ℕ → ℕ → List Notifier → List Notification
table_calls event key old_value value [] = []
table_calls event key old_value value (tn ∷ tns) =
    let rest = table_calls event key old_value value tns in
    let freeing =
      if (has_event event notify_deleted || has_event event notify_replaced)
        && has_event tn.events notify_free
      then notification notify_free key old_value value tn ∷ rest
      else rest in
    if has_event tn.events event
    then notification event key old_value value tn ∷ freeing
    else freeing

-- hashtable_notify
unfoldable pub notify : Table → List Notifier → ℕ → Key → ℕ → ℕ → Table
unfolding node_calls table_calls
notify t node_notifiers event key old_value value = record t {
  calls =
      t.calls
      ++ (node_calls event key old_value value node_notifiers
          ++ table_calls event key old_value value t.notifiers);
}

-- hashtable_node_destroy
unfoldable pub node_destroy : Table → Node → Table
unfolding notify unlink
node_destroy t n =
    let notified = notify t n.notifiers notify_deleted n.key n.value 0 in
    set_bucket notified n.key (unlink n.key (bucket_of notified n.key))

abbrev pub with_refcount : ℕ → Node → Node
with_refcount r n = record n { refcount = r }

-- hashtable_node_deref
unfoldable pub node_deref : Table → Node → Table
unfolding node_destroy change
node_deref t n =
    let left = (n.refcount + 4294967295) % 4294967296 in
    if ltb 0 left
    then set_bucket t n.key (change (with_refcount left) n.key (bucket_of t n.key))
    else node_destroy t n

abbrev pub one_less : Table → Table
one_less t = record t { count = (t.count + 18446744073709551615) % 18446744073709551616 }

unfoldable pub rm_node : Table → Option Node → Bool × Table
unfolding node_deref
rm_node t none = (false, t)
rm_node t (some n) = (true, one_less (node_deref t n))

-- hashtable_rm, with hashtable_rm_with_hash
unfoldable pub table_rm : Table → Key → Bool × Table
unfolding rm_node
table_rm t key = rm_node t (lookup_node t key)

abbrev pub with_entry : Key → ℕ → Node → Node
with_entry key value n = record n { key = key; value = value }

unfoldable pub put_node : Bool → Table → Key → ℕ → Option Node → Table
unfolding notify change
put_node calloc t key value (some n) =
    notify (set_bucket t key (change (with_entry key value) key (bucket_of t key))) n.notifiers
      notify_replaced n.key n.value value
put_node false t key value none = record t { errno = enomem }
put_node true t key value none =
    notify
      (record (set_bucket t key (
        bucket_of t key
        ++ (record { value = value; key = key; refcount = 1; notifiers = [] } ∷ []))) {
          count = (t.count + 1) % 18446744073709551616;
        })
      [] notify_inserted key 0 value

-- hashtable_put. `calloc` says whether there is memory.
unfoldable pub table_put : Bool → Table → Key → ℕ → Table
unfolding put_node
table_put calloc t key value = put_node calloc t key value (lookup_node t key)
