-- ===== src/HashTable/Notifiers.antt =====
-- hashtable_notify_add and hashtable_notify_del.
use libqb.Prelude.{
  ◌==◌, if◌then◌else◌, enoent, enomem, eexist, Ret, ok, err, Bool, false, not, ◌&&◌, ◌||◌, Option,
  none, some, List, [], ◌∷◌, ◌++◌,
}
use libqb.Map.{Notifier, notify_free, has_event}
use libqb.Map.Keys.{Key}
use libqb.HashTable.{Node, Table, change, bucket_of, set_bucket, lookup_node}

-- The first loop of hashtable_notify_add: whether there is such a notifier.
unfoldable pub has_notifier : Notifier → List Notifier → Bool
has_notifier n [] = false
has_notifier n (f ∷ fs) =
    (f.events == n.events
      && (has_event n.events notify_free
          || (f.user_data == n.user_data && f.callback == n.callback)))
    || has_notifier n fs

abbrev pub with_notifiers : List Notifier → Node → Node
with_notifiers ns n = record n { notifiers = ns }

-- The list of notifiers that a key, or NULL, selects; and a table with that list replaced.
unfoldable pub notifiers_of : Option Node → Option (List Notifier)
notifiers_of none = none
notifiers_of (some n) = some n.notifiers

unfoldable pub selected : Table → Option Key → Option (List Notifier)
unfolding notifiers_of lookup_node
selected t none = some t.notifiers
selected t (some key) = notifiers_of (lookup_node t key)

unfoldable pub reselect : Table → Option Key → List Notifier → Table
unfolding change
reselect t none ns = record t { notifiers = ns }
reselect t (some key) ns = set_bucket t key (change (with_notifiers ns) key (bucket_of t key))

abbrev pub added_notifier : Notifier → List Notifier → List Notifier
added_notifier n fs = if has_event n.events notify_free then fs ++ (n ∷ []) else n ∷ fs

unfoldable pub add_to : Bool → Table → Option Key → Notifier → Option (List Notifier) → Ret × Table
unfolding has_notifier reselect
add_to memory t key n none = (err enoent, t)
add_to memory t key n (some fs) =
    if has_notifier n fs
    then (err eexist, t)
    else if memory
    then (ok 0, reselect t key (added_notifier n fs))
    else (err enomem, t)

-- hashtable_notify_add
unfoldable pub notify_add : Bool → Table → Option Key → Notifier → Ret × Table
unfolding selected add_to
notify_add memory t key n = add_to memory t key n (selected t key)

-- The test of hashtable_notify_del.
abbrev pub deletes : Notifier → Bool → Notifier → Bool
deletes n cmp_userdata f =
    (f.events == n.events && f.callback == n.callback)
    && (not cmp_userdata || f.user_data == n.user_data)

unfoldable pub remaining : Notifier → Bool → List Notifier → List Notifier
remaining n cmp_userdata [] = []
remaining n cmp_userdata (f ∷ fs) =
    if deletes n cmp_userdata f
    then remaining n cmp_userdata fs
    else f ∷ remaining n cmp_userdata fs

unfoldable pub any_deleted : Notifier → Bool → List Notifier → Bool
any_deleted n cmp_userdata [] = false
any_deleted n cmp_userdata (f ∷ fs) = deletes n cmp_userdata f || any_deleted n cmp_userdata fs

unfoldable pub del_from :
    Table → Option Key → Notifier → Bool → Option (List Notifier) → Ret × Table
unfolding remaining any_deleted reselect
del_from t key n cmp_userdata none = (err enoent, t)
del_from t key n cmp_userdata (some fs) =
    if any_deleted n cmp_userdata fs
    then (ok 0, reselect t key (remaining n cmp_userdata fs))
    else (err enoent, t)

-- hashtable_notify_del
unfoldable pub notify_del : Table → Option Key → Notifier → Bool → Ret × Table
unfolding selected del_from
notify_del t key n cmp_userdata = del_from t key n cmp_userdata (selected t key)
