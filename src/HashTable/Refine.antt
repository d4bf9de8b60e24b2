-- ===== src/HashTable/Refine.antt =====
-- A hash table without iterators is a map.
use libqb.Prelude.{
  if◌then◌else◌, length, update, ℕ, ◌+◌, ◌-◌, ◌%◌, ◌^◌, ◌<◌, ◌≡◌, refl, sym, ap, ap₂, ◌∙◌, subst,
  ◌≢◌, inl, inr, Bool, true, false, Option, none, some, List, [], ◌∷◌, ◌++◌, arith, ℕ_discrete,
  le→ltb, ne→beq, eq→beq,
}
use libqb.Map.Keys.{Key, key_eq, Key-cases, apart}
use libqb.Map.Entries.{
  Entries, lookup, assign, erase, is_some, or_null, IsDistinct, lookup-assign, lookup-erase,
  assign-IsDistinct, erase-IsDistinct, length-assign, length-erase, some_long,
}
use libqb.Map.Interface.{IsMap}
use libqb.Map.Run.{Request, map_run, entries_run, AllSupplied, map_run-entries_run}
use libqb.HashTable.{
  Table, Node, find, change, unlink, hash_string, bucket_of, lookup_node, table_get, value_of,
  table_put, put_node, with_entry, table_rm, rm_node, node_deref, node_destroy, one_less,
}
use libqb.HashTable.Creation.{table_of_order, hashtable_ops}
use libqb.HashTable.Bucket.{
  valued, mapped, IsUnique, AllOnce, find-key, find-AllOnce, find-change, change-IsUnique,
  change-AllOnce, find-append, append-IsUnique, append-AllOnce, find-unlink, unlink-IsUnique,
  unlink-AllOnce, AllAt, change-AllAt, append-AllAt, unlink-AllAt,
}

-- The table has the entries `es`, each key once, and no iterator refers to a node.
pub record Holds (t : Table) (es : Entries) : Type 0 where
  pub unique : (b : ℕ) → IsUnique (t.hash_buckets b)
  pub once : (b : ℕ) → AllOnce (t.hash_buckets b)
  pub placed : (b : ℕ) → AllAt t.order b (t.hash_buckets b)
  pub sized : t.hash_buckets_len ≡ 2 ^ t.order
  pub reads : (q : Key) → valued (find q (bucket_of t q)) ≡ lookup q es
  pub distinct : IsDistinct es
  pub counted : t.count ≡ length es % 18446744073709551616

pick :
    (f : ℕ → List Node) (a b : ℕ) (ns : List Node) (P : List Node → Type 0)
    → P ns
    → P (f b)
    → P (update f a ns b)
pick f a b ns P p q = elim (ℕ_discrete a b) [
  | yes e ↦ subst P (ap (λ v. if v then ns else f b) (sym (eq→beq a b e))) p
  | no n ↦ subst P (ap (λ v. if v then ns else f b) (sym (ne→beq a b n))) q
]

pick_at :
    (order : ℕ) (f : ℕ → List Node) (a b : ℕ) (ns : List Node)
    → AllAt order a ns
    → AllAt order b (f b)
    → AllAt order b (update f a ns b)
pick_at order f a b ns p q = elim (ℕ_discrete a b) [
  | yes e ↦
      subst (λ xs. AllAt order b xs) (ap (λ v. if v then ns else f b) (sym (eq→beq a b e)))
        (subst (λ c. AllAt order c ns) e p)
  | no n ↦ subst (λ xs. AllAt order b xs) (ap (λ v. if v then ns else f b) (sym (ne→beq a b n))) q
]

pick_read :
    (f : ℕ → List Node) (a b : ℕ) (ns : List Node) (q : Key) {o : Option ℕ}
    → (b ≡ a → valued (find q ns) ≡ o)
    → (a ≢ b → valued (find q (f b)) ≡ o)
    → valued (find q (update f a ns b)) ≡ o
pick_read f a b ns q there elsewhere = elim (ℕ_discrete a b) [
  | yes e ↦ ap (λ v. valued (find q (if v then ns else f b))) (eq→beq a b e) ∙ there (sym e)
  | no n ↦ ap (λ v. valued (find q (if v then ns else f b))) (ne→beq a b n) ∙ elsewhere n
]

-- A table whose bucket of `k` was replaced by one that reads right.
module _ (t : Table) (es es' : Entries) (k : Key) (ns : List Node) (h : Holds t es) where
  abbrev replaced : ℕ → List Node
  replaced = update t.hash_buckets (hash_string k t.order) ns

  set_bucket-Holds :
      (t' : Table)
      → t'.hash_buckets ≡ replaced
      → t'.order ≡ t.order
      → t'.hash_buckets_len ≡ t.hash_buckets_len
      → IsUnique ns
      → AllOnce ns
      → AllAt t.order (hash_string k t.order) ns
      → ((q : Key)
          → hash_string q t.order ≡ hash_string k t.order
          → valued (find q ns) ≡ lookup q es')
      → ((q : Key) → k ≢ q → lookup q es' ≡ lookup q es)
      → IsDistinct es'
      → t'.count ≡ length es' % 18446744073709551616
      → Holds t' es'
  set_bucket-Holds t' buckets same len u o at reads others d c = record {
    unique = λ b.
        subst (λ f. IsUnique (f b)) (sym buckets)
          (pick t.hash_buckets (hash_string k t.order) b ns (λ xs. IsUnique xs) u (h.unique b));
    once = λ b.
        subst (λ f. AllOnce (f b)) (sym buckets)
          (pick t.hash_buckets (hash_string k t.order) b ns (λ xs. AllOnce xs) o (h.once b));
    placed = λ b.
        subst (λ r. AllAt r b (t'.hash_buckets b)) (sym same)
          (subst (λ f. AllAt t.order b (f b)) (sym buckets)
            (pick_at t.order t.hash_buckets (hash_string k t.order) b ns at (h.placed b)));
    sized = len ∙ h.sized ∙ ap (λ r. 2 ^ r) (sym same);
    reads = λ q.
        ap₂ (λ f r. valued (find q (f (hash_string q r)))) buckets same
        ∙ pick_read t.hash_buckets (hash_string k t.order) (hash_string q t.order) ns q (reads q)
            (λ n. h.reads q ∙ sym (others q (λ e. n (ap (λ x. hash_string x t.order) e))));
    distinct = d;
    counted = c;
  }

lookup-assign_ne :
    (k q : Key) (v : ℕ) (es : Entries) → k ≢ q → lookup q (assign k v es) ≡ lookup q es
lookup-assign_ne k q v es n = lookup-assign k q v es ∙ rw (apart k q n)

lookup-erase_ne :
    (k q : Key) (es : Entries) → IsDistinct es → k ≢ q → lookup q (erase k es) ≡ lookup q es
lookup-erase_ne k q es d n = lookup-erase k q es d ∙ rw (apart k q n)

valued_if :
    (t : Bool) (o p : Option Node) {a b : Option ℕ}
    → valued o ≡ a
    → valued p ≡ b
    → valued (if t then o else p) ≡ (if t then a else b)
valued_if true o p e f = e
valued_if false o p e f = f

module _ (t : Table) (es : Entries) (h : Holds t es) (k : Key) where
  abbrev ns : List Node
  ns = bucket_of t k

  read_near :
      (q : Key) → hash_string q t.order ≡ hash_string k t.order → valued (find q ns) ≡ lookup q es
  read_near q e = ap (λ b. valued (find q (t.hash_buckets b))) (sym e) ∙ h.reads q

  is_some-length :
      (o : Option ℕ)
      → lookup k es ≡ o
      → (v : ℕ) → length (assign k v es) ≡ (if is_some o then length es else length es + 1)
  is_some-length o e v =
      length-assign k v es ∙ ap (λ p. if is_some p then length es else length es + 1) e

  -- Putting a key that is there.
  replace-Holds :
      (n : Node) (v : ℕ) → find k ns ≡ some n → Holds (put_node true t k v (some n)) (assign k v es)
  unfolding put_node
  replace-Holds n v e =
      let there : lookup k es ≡ some n.value = sym (h.reads k) ∙ ap valued e in
      set_bucket-Holds t es (assign k v es) k (change (with_entry k v) k ns) h
        (put_node true t k v (some n)) refl refl refl
        (change-IsUnique (with_entry k v) k (λ m q. refl) ns (h.unique (hash_string k t.order)))
        (change-AllOnce (with_entry k v) k (λ m q. refl) (λ m. refl) ns
          (h.once (hash_string k t.order)))
        (change-AllAt (with_entry k v) k (λ m q. refl) t.order (hash_string k t.order) ns
          (h.placed (hash_string k t.order)))
        (λ q same.
          ap valued (find-change (with_entry k v) k (λ m q. refl) q ns) ∙ elim (Key-cases k q) [
            | inl (u, w) ↦
                ap (λ b. valued (if b then mapped (with_entry k v) (find q ns) else find q ns)) w
                ∙ ap (λ x. valued (mapped (with_entry k v) (find x ns))) (sym u)
                ∙ ap (λ o. valued (mapped (with_entry k v) o)) e
                ∙ sym (lookup-assign k q v es ∙ ap (λ b. if b then some v else lookup q es) w)
            | inr (u, w) ↦
                ap (λ b. valued (if b then mapped (with_entry k v) (find q ns) else find q ns)) w
                ∙ read_near q same
                ∙ sym (lookup-assign_ne k q v es u)
          ])
        (λ q d. lookup-assign_ne k q v es d) (assign-IsDistinct k v es h.distinct)
        (h.counted
          ∙ ap (λ x. x % 18446744073709551616) (sym (is_some-length (some n.value) there v)))

  -- Putting a new key, when calloc gives a node.
  append-Holds : (v : ℕ) → find k ns ≡ none → Holds (put_node true t k v none) (assign k v es)
  unfolding put_node
  append-Holds v e =
      let fresh : Node = record { value = v; key = k; refcount = 1; notifiers = [] } in
      let missing : lookup k es ≡ none = sym (h.reads k) ∙ ap valued e in
      set_bucket-Holds t es (assign k v es) k (ns ++ (fresh ∷ [])) h (put_node true t k v none) refl
        refl refl (append-IsUnique ns fresh (h.unique (hash_string k t.order)) e)
        (append-AllOnce ns fresh (h.once (hash_string k t.order)) refl)
        (append-AllAt t.order (hash_string k t.order) ns fresh (h.placed (hash_string k t.order))
          refl)
        (λ q same.
          ap valued (find-append q ns fresh e)
          ∙ valued_if (key_eq k q) (some fresh) (find q ns) refl (read_near q same)
          ∙ sym (lookup-assign k q v es))
        (λ q d. lookup-assign_ne k q v es d) (assign-IsDistinct k v es h.distinct)
        (omega (arith, h.counted, is_some-length none missing v))

  put_node-Holds :
      (o : Option Node) (v : ℕ) → find k ns ≡ o → Holds (put_node true t k v o) (assign k v es)
  put_node-Holds none v e = append-Holds v e
  put_node-Holds (some n) v e = replace-Holds n v e

  pub table_put-Holds : (v : ℕ) → Holds (table_put true t k v) (assign k v es)
  unfolding table_put lookup_node
  table_put-Holds v = put_node-Holds (find k ns) v refl

  -- Removing.
  erase-length :
      (v : ℕ) → lookup k es ≡ some v → (length (erase k es) ≡ length es - 1) × (0 < length es)
  erase-length v e = (
    length-erase k es ∙ ap (λ p. if is_some p then length es - 1 else length es) e,
    some_long k es (ap is_some e),
  )

  erase_missing : lookup k es ≡ none → length (erase k es) ≡ length es
  erase_missing e = length-erase k es ∙ ap (λ p. if is_some p then length es - 1 else length es) e

  node_deref-once : (n : Node) → n.refcount ≡ 1 → node_deref t n ≡ node_destroy t n
  unfolding node_deref
  node_deref-once n e =
      rw (le→ltb 0 ((n.refcount + 4294967295) % 4294967296) (omega (arith, e))) refl

  unlinked-Holds :
      (n : Node) → find k ns ≡ some n → Holds (one_less (node_destroy t n)) (erase k es)
  unfolding node_destroy
  unlinked-Holds n e =
      let same : n.key ≡ k = find-key k ns n e in
      let there : lookup k es ≡ some n.value = sym (h.reads k) ∙ ap valued e in
      set_bucket-Holds t es (erase k es) k (unlink k ns) h (one_less (node_destroy t n))
        (ap
          (λ x.
            update t.hash_buckets (hash_string x t.order)
              (unlink x (t.hash_buckets (hash_string x t.order))))
          same)
        refl refl (unlink-IsUnique k ns (h.unique (hash_string k t.order)))
        (unlink-AllOnce k ns (h.once (hash_string k t.order)))
        (unlink-AllAt k t.order (hash_string k t.order) ns (h.placed (hash_string k t.order)))
        (λ q near.
          ap valued (find-unlink k q ns (h.unique (hash_string k t.order)))
          ∙ valued_if (key_eq k q) none (find q ns) refl (read_near q near)
          ∙ sym (lookup-erase k q es h.distinct))
        (λ q d. lookup-erase_ne k q es h.distinct d) (erase-IsDistinct k es h.distinct)
        (omega (arith, h.counted, erase-length n.value there))

  missing-Holds : lookup k es ≡ none → Holds t (erase k es)
  missing-Holds e = record {
    unique = h.unique;
    once = h.once;
    placed = h.placed;
    sized = h.sized;
    reads = λ q.
        h.reads q
        ∙ sym (
            lookup-erase k q es h.distinct ∙ (elim (Key-cases k q) [
              | inl (u, w) ↦
                  ap (λ b. if b then none else lookup q es) w ∙ sym e ∙ ap (λ x. lookup x es) u
              | inr (u, w) ↦ ap (λ b. if b then none else lookup q es) w
            ]));
    distinct = erase-IsDistinct k es h.distinct;
    counted = h.counted ∙ ap (λ x. x % 18446744073709551616) (sym (erase_missing e));
  }

  rm_node-Holds :
      (o : Option Node)
      → find k ns ≡ o
      → (t' : Table) × (rm_node t o ≡ (is_some (lookup k es), t')) × Holds t' (erase k es)
  unfolding rm_node
  rm_node-Holds none e =
      let missing : lookup k es ≡ none = sym (h.reads k) ∙ ap valued e in
      (t, ap (λ o. (is_some o, t)) (sym missing), missing-Holds missing)
  rm_node-Holds (some n) e =
      let there : lookup k es ≡ some n.value = sym (h.reads k) ∙ ap valued e in
      (
        one_less (node_destroy t n),
        ap₂ (λ o d. (is_some o, one_less d)) (sym there)
            (node_deref-once n (find-AllOnce k ns n (h.once (hash_string k t.order)) e)),
        unlinked-Holds n e,
      )

  pub table_rm-Holds :
      (t' : Table) × (table_rm t k ≡ (is_some (lookup k es), t')) × Holds t' (erase k es)
  unfolding table_rm lookup_node
  table_rm-Holds = rm_node-Holds (find k ns) refl

  value_of-null : (o : Option Node) {a : Option ℕ} → valued o ≡ a → value_of o ≡ or_null a
  unfolding value_of
  value_of-null none e = ap or_null e
  value_of-null (some n) e = ap or_null e

  pub table_get-or_null : table_get t k ≡ or_null (lookup k es)
  unfolding table_get lookup_node
  table_get-or_null = value_of-null (find k ns) (h.reads k)

abbrev pub hashtable_IsMap : IsMap hashtable_ops
hashtable_IsMap = record {
  Holds = Holds;
  Supplied = λ calloc. calloc ≡ true;
  distinct = λ m es h. h.distinct;
  put_lem = λ c m es k v h s.
      (table_put true m k v, ap (λ b. some (table_put b m k v)) s, table_put-Holds m es h k v);
  get_lem = λ m es k h. ap some (table_get-or_null m es h k);
  rm_lem = λ m es k h. let (t', e, h') = table_rm-Holds m es h k in (t', ap some e, h');
  count_lem = λ m es h. h.counted;
}

-- While calloc succeeds, no sequence of put, get, rm and count_get tells a hash table, from any
-- state in which no iterator refers to a node, from a map of entries with distinct keys.
pub hashtable_refines :
    (t : Table) (es : Entries)
    → Holds t es
    → (requests : List (Request Bool)) → AllSupplied hashtable_ops hashtable_IsMap requests
    → map_run hashtable_ops t requests ≡ entries_run es requests
hashtable_refines t es h requests s =
    map_run-entries_run hashtable_ops hashtable_IsMap requests t es h s

-- The table that qb_hashtable_create makes has no entries.
pub table_of_order-Holds : (order : ℕ) → Holds (table_of_order order) []
unfolding find lookup
table_of_order-Holds order = record {
  unique = λ b. tt;
  once = λ b. tt;
  placed = λ b. tt;
  sized = refl;
  reads = λ q. refl;
  distinct = tt;
  counted = omega arith;
}
