-- ===== src/HashTable/Iterating.antt =====
-- The iterator of a hash table. A reference keeps the node that it stands at.
use libqb.Prelude.{
  ltb, if◌then◌else◌, update, ℕ, zero, suc, ◌+◌, ◌-◌, ◌%◌, Option, none, some, List, [], ◌∷◌,
}
use libqb.Map.Keys.{Key, key_eq}
use libqb.HashTable.{Node, Table, Iter, change, lookup_node, node_deref}

-- hashtable_iter_create: the prefix is not looked at.
abbrev pub iter_create : Table → Option Key → Iter × Table
iter_create t prefix = (record { node = none; bucket = 0 }, t)

-- What follows the node with a key in its list; `none` if it is not there.
unfoldable pub after_node : Key → List Node → Option (List Node)
after_node key [] = none
after_node key (n ∷ ns) = if key_eq n.key key then some ns else after_node key ns

-- The inner loop of hashtable_iter_next.
unfoldable pub first_live : List Node → Option Node
first_live [] = none
first_live (n ∷ ns) = if ltb 0 n.refcount then some n else first_live ns

abbrev pub found_or : Option Node → ℕ → Option (ℕ × Node) → Option (ℕ × Node)
found_or (some n) b rest = some (b, n)
found_or none b rest = rest

-- Its outer loop, from bucket `b` with what is left of its list and `left` further buckets.
unfoldable pub scan : Table → ℕ → ℕ → List Node → Option (ℕ × Node)
unfolding first_live
scan t zero b ns = found_or (first_live ns) b none
scan t (suc left) b ns = found_or (first_live ns) b (scan t left (b + 1) (t.hash_buckets (b + 1)))

unfoldable pub start_list : Table → Iter → Option (List Node)
unfolding after_node
start_list t hi = elim hi.node [
  | none ↦ some (t.hash_buckets hi.bucket)
  | some key ↦ after_node key (t.hash_buckets hi.bucket)
]

-- The search of hashtable_iter_next, if the node that the iterator stands at is there.
unfoldable pub search_from : Table → Iter → Option (List Node) → Option (Option (ℕ × Node))
unfolding scan
search_from t hi none = none
search_from t hi (some ns) = some (
    if ltb hi.bucket t.hash_buckets_len
    then scan t (t.hash_buckets_len - 1 - hi.bucket) hi.bucket ns
    else none)

unfoldable pub deref_node : Table → Option Node → Option Table
unfolding node_deref
deref_node t none = none
deref_node t (some n) = some (node_deref t n)

-- The reference that the iterator has on its node is dropped.
unfoldable pub drop_current : Option Key → Table → Option Table
unfolding deref_node lookup_node
drop_current none t = some t
drop_current (some key) t = deref_node t (lookup_node t key)

abbrev pub more_references : Node → Node
more_references n = record n { refcount = (n.refcount + 1) % 4294967296 }

abbrev pub hold : Table → ℕ → Node → Table
hold t b n = record t {
  hash_buckets = update t.hash_buckets b (change more_references n.key (t.hash_buckets b));
}

abbrev pub moved : ℕ → Node → Option Table → Option (Option (Key × ℕ) × Iter × Table)
moved b n none = none
moved b n (some t) = some (some (n.key, n.value), record { node = some n.key; bucket = b }, t)

abbrev pub stay : Iter → Option Table → Option (Option (Key × ℕ) × Iter × Table)
stay hi none = none
stay hi (some t) = some (none, hi, t)

unfoldable pub found_next :
    Iter → Table → Option (Option (ℕ × Node)) → Option (Option (Key × ℕ) × Iter × Table)
found_next hi t none = none
found_next hi t (some none) = stay hi (drop_current hi.node t)
found_next hi t (some (some (b, n))) = moved b n (drop_current hi.node (hold t b n))

-- hashtable_iter_next
unfoldable pub iter_next : Iter → Table → Option (Option (Key × ℕ) × Iter × Table)
unfolding start_list search_from found_next
iter_next hi t = found_next hi t (search_from t hi (start_list t hi))

-- hashtable_iter_free: only the iterator is freed.
abbrev pub iter_free : Iter → Table → Table
iter_free hi t = t
