-- ===== src/HashTable/Notify.antt =====
-- What qb_map_notify_del_2 undoes of qb_map_notify_add on a hash table.
use libqb.Prelude.{
  if◌then◌else◌, Bool-cases, update, Errno, enoent, Ret, ok, err, ℕ, ◌≡◌, refl, sym, ap, ◌∙◌, subst,
  inl, inr, Bool, true, false, ◌&&◌, Option, none, some, List, [], ◌∷◌, ◌++◌, arith, eq→beq,
  some-injective,
}
use libqb.Map.{
  map_notify_add, map_notify_del, is_some_key, add_with, del_with, Notifier, has_event, notify_free,
}
use libqb.Map.Keys.{Key, key_eq}
use libqb.HashTable.{Table, Node, find, change, lookup_node, bucket_of, hash_string}
use libqb.HashTable.Notifiers.{
  with_notifiers, has_notifier, added_notifier, add_to, del_from, deletes, remaining, any_deleted,
  notifiers_of, selected, reselect, notify_add, notify_del,
}
use libqb.HashTable.Creation.{hashtable_ops}
use libqb.HashTable.Remaining.{update_twice, update_same, at_self}

-- A list with no such notifier keeps all when the notifier is deleted with its user data.
remaining-all :
    (n : Notifier) (fs : List Notifier) → has_notifier n fs ≡ false → remaining n true fs ≡ fs
unfolding remaining has_notifier
remaining-all n [] h = refl
remaining-all n (f ∷ fs) h = ground (arith, remaining-all n fs)

deletes_self : (n : Notifier) → deletes n true n ≡ true
deletes_self n = ground (
  arith,
  eq→beq n.events n.events refl,
  eq→beq n.callback n.callback refl,
  eq→beq n.user_data n.user_data refl,
)

any_deleted-last : (n : Notifier) (fs : List Notifier) → any_deleted n true (fs ++ (n ∷ [])) ≡ true
unfolding any_deleted
any_deleted-last n [] = ground (arith, deletes_self n)
any_deleted-last n (f ∷ fs) = ground (arith, any_deleted-last n fs)

remaining-last :
    (n : Notifier) (fs : List Notifier)
    → has_notifier n fs ≡ false
    → remaining n true (fs ++ (n ∷ [])) ≡ fs
unfolding remaining has_notifier
remaining-last n [] h = rw (deletes_self n) refl
remaining-last n (f ∷ fs) h = ground (arith, remaining-last n fs)

any_deleted-added :
    (n : Notifier) (fs : List Notifier) → any_deleted n true (added_notifier n fs) ≡ true
unfolding any_deleted
any_deleted-added n fs = elim (Bool-cases (has_event n.events notify_free)) [
  | inl t ↦ rw t (any_deleted-last n fs)
  | inr f ↦ rw f (rw (deletes_self n) refl)
]

remaining-added :
    (n : Notifier) (fs : List Notifier)
    → has_notifier n fs ≡ false
    → remaining n true (added_notifier n fs) ≡ fs
unfolding remaining
remaining-added n fs h = elim (Bool-cases (has_event n.events notify_free)) [
  | inl t ↦ rw t (remaining-last n fs h)
  | inr f ↦ rw f (rw (deletes_self n) (remaining-all n fs h))
]

none_not_some : {A : Type 0} {x : A} → none ≡ some x → ⊥
none_not_some e = cc

list_of : Option (List Notifier) → List Notifier
list_of none = []
list_of (some fs) = fs

-- A node's notifiers replaced and put back.
change-back :
    (k : Key) (fs gs : List Notifier) (ns : List Node)
    → notifiers_of (find k ns) ≡ some fs
    → change (with_notifiers fs) k (change (with_notifiers gs) k ns) ≡ ns
unfolding change find notifiers_of list_of
change-back k fs gs [] e = refl
change-back k fs gs (n ∷ ns) e = elim (Bool-cases (key_eq n.key k)) [
  | inl t ↦
      let now : some n.notifiers ≡ some fs = rw t at e in
      rw t (rw t (ap (λ l. with_notifiers l n ∷ ns) (sym (ap list_of now))))
  | inr f ↦ rw f (rw f (ap (λ xs. n ∷ xs) (change-back k fs gs ns (rw f at e))))
]

notifiers_of-changed :
    (k : Key) (fs gs : List Notifier) (ns : List Node)
    → notifiers_of (find k ns) ≡ some fs
    → notifiers_of (find k (change (with_notifiers gs) k ns)) ≡ some gs
unfolding change find notifiers_of
notifiers_of-changed k fs gs [] e = absurd (none_not_some e)
notifiers_of-changed k fs gs (n ∷ ns) e = elim (Bool-cases (key_eq n.key k)) [
  | inl t ↦ rw t (rw t refl)
  | inr f ↦ rw f (rw f (notifiers_of-changed k fs gs ns (rw f at e)))
]

selected-reselect :
    (t : Table) (key : Option Key) (fs gs : List Notifier)
    → selected t key ≡ some fs
    → selected (reselect t key gs) key ≡ some gs
unfolding selected reselect lookup_node
selected-reselect t none fs gs e = refl
selected-reselect t (some k) fs gs e =
    ap (λ ns. notifiers_of (find k ns))
      (at_self t.hash_buckets (hash_string k t.order)
        (change (with_notifiers gs) k (bucket_of t k)))
    ∙ notifiers_of-changed k fs gs (bucket_of t k) e

reselect-back :
    (t : Table) (key : Option Key) (fs gs : List Notifier)
    → selected t key ≡ some fs
    → reselect (reselect t key gs) key fs ≡ t
unfolding selected reselect lookup_node list_of
reselect-back t none fs gs e = ap (λ l. record t { notifiers = l }) (sym (ap list_of e))
reselect-back t (some k) fs gs e =
    let b = hash_string k t.order in
    let xs = change (with_notifiers gs) k (t.hash_buckets b) in
    let ys = change (with_notifiers fs) k (update t.hash_buckets b xs b) in
    ap (λ f. record t { hash_buckets = f })
      (update_twice t.hash_buckets b xs ys
        ∙ update_same t.hash_buckets b ys (
            ap (change (with_notifiers fs) k) (at_self t.hash_buckets b xs)
            ∙ change-back k fs gs (t.hash_buckets b) e))

err_not_ok : {e : Errno} {v : ℕ} → err e ≡ ok v → ⊥
err_not_ok e = cc

module _ (memory : Bool) (t : Table) (key : Option Key) (n : Notifier) (t' : Table) where
  del-added :
      (fs : List Notifier)
      → selected t key ≡ some fs
      → has_notifier n fs ≡ false
      → notify_del (reselect t key (added_notifier n fs)) key n true ≡ (ok 0, t)
  unfolding notify_del del_from
  del-added fs e new =
      let s = reselect t key (added_notifier n fs) in
      ap (del_from s key n true) (selected-reselect t key fs (added_notifier n fs) e)
      ∙ ap
          (λ v.
            if v
            then (ok 0, reselect s key (remaining n true (added_notifier n fs)))
            else (err enoent, s))
          (any_deleted-added n fs)
      ∙ ap (λ l. (ok 0, reselect s key l)) (remaining-added n fs new)
      ∙ ap (λ r. (ok 0, r)) (reselect-back t key fs (added_notifier n fs) e)

  del-add_to :
      (o : Option (List Notifier))
      → selected t key ≡ o
      → add_to memory t key n o ≡ (ok 0, t')
      → notify_del t' key n true ≡ (ok 0, t)
  unfolding add_to
  del-add_to none e r = absurd (err_not_ok (ap (λ (p : Ret × Table). p.0) r))
  del-add_to (some fs) e r = elim (Bool-cases (has_notifier n fs)) [
    | inl v ↦ absurd (err_not_ok (ap (λ (p : Ret × Table). p.0) (rw v at r)))
    | inr v ↦ elim (Bool-cases memory) [
      | inl m ↦
          let made : (ok 0, reselect t key (added_notifier n fs)) ≡ (ok 0, t') = rw (v, m) at r in
          subst (λ s. notify_del s key n true ≡ (ok 0, t)) (ap (λ (p : Ret × Table). p.1) made)
            (del-added fs e v)
      | inr m ↦ absurd (err_not_ok (ap (λ (p : Ret × Table). p.0) (rw (v, m) at r)))
    ]
  ]

-- When qb_map_notify_add has added a notifier to a table or to one of its keys, qb_map_notify_del_2
-- with the same arguments succeeds and gives the table back as it was before.
pub notify_del-notify_add :
    (memory : Bool) (t : Table) (key : Option Key) (n : Notifier) (t' : Table)
    → map_notify_add hashtable_ops memory t key n ≡ some (ok 0, t')
    → map_notify_del hashtable_ops t' key n true ≡ some (ok 0, t)
unfolding map_notify_add map_notify_del add_with del_with notify_add
notify_del-notify_add memory t key n t' r =
    elim (Bool-cases (is_some_key hashtable_ops key && has_event n.events notify_free)) [
      | inl v ↦ absurd (err_not_ok (ap (λ (p : Ret × Table). p.0) (some-injective (rw v at r))))
      | inr v ↦
          ap some (del-add_to memory t key n t' (selected t key) refl (some-injective (rw v at r)))
    ]
