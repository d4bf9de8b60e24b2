-- ===== src/HashTable/Visited.antt =====
-- The entries that an iterator meets are those of the table.
use libqb.Prelude.{
  Bool-cases, ℕ, zero, suc, ◌+◌, ◌-◌, ◌^◌, ◌≤◌, ◌<◌, ◌≡◌, refl, sym, ap, ◌∙◌, subst, ◌≢◌, inl, inr,
  Option, none, some, List, [], ◌∷◌, ◌++◌, append-nil, arith, ℕ_discrete,
}
use libqb.Map.Keys.{Key, key_eq, Key-cases}
use libqb.Map.Entries.{lookup, IsDistinct}
use libqb.HashTable.{Table, Node, find, hash_string, bucket_of}
use libqb.HashTable.Bucket.{IsUnique, AllAt, valued}
use libqb.HashTable.Hash.{hash_string-lt}
use libqb.HashTable.Remaining.{tag, to_visit, tagged_entries, visited}

abbrev or_else : Option ℕ → Option ℕ → Option ℕ
or_else none b = b
or_else (some a) b = some a

lookup-tag :
    (q : Key) (b : ℕ) (ns : List Node) (rest : List (ℕ × Node))
    → lookup q (tagged_entries (tag b ns ++ rest))
      ≡ or_else (valued (find q ns)) (lookup q (tagged_entries rest))
unfolding lookup find
lookup-tag q b [] rest = refl
lookup-tag q b (n ∷ ns) rest = elim (Bool-cases (key_eq n.key q)) [
  | inl t ↦ rw t refl
  | inr f ↦ rw f (lookup-tag q b ns rest)
]

-- A key is not in the bucket of another hash.
find-elsewhere :
    (order b : ℕ) (q : Key) (ns : List Node)
    → AllAt order b ns
    → hash_string q order ≢ b
    → find q ns ≡ none
unfolding find
find-elsewhere order b q [] a d = refl
find-elsewhere order b q (n ∷ ns) (a, as') d = elim (Key-cases n.key q) [
  | inl (e, t) ↦ absurd (d (ap (λ k. hash_string k order) (sym e) ∙ a))
  | inr (e, f) ↦ rw f (find-elsewhere order b q ns as' d)
]

module _ (t : Table) (placed : (b : ℕ) → AllAt t.order b (t.hash_buckets b)) (q : Key) where
  -- A key whose bucket is behind is not met.
  lookup-past :
      (left b : ℕ)
      → hash_string q t.order < b
      → lookup q (tagged_entries (to_visit t left b (t.hash_buckets b))) ≡ none
  unfolding to_visit lookup
  lookup-past zero b h =
      ap (λ xs. lookup q (tagged_entries xs)) (sym (append-nil (tag b (t.hash_buckets b))))
      ∙ lookup-tag q b (t.hash_buckets b) []
      ∙ ap (λ o. or_else (valued o) none)
          (find-elsewhere t.order b q (t.hash_buckets b) (placed b)
            (λ e. absurd (omega (arith, h, e))))
  lookup-past (suc left) b h =
      lookup-tag q b (t.hash_buckets b) (to_visit t left (b + 1) (t.hash_buckets (b + 1)))
      ∙ ap
          (λ o.
            or_else (valued o)
              (lookup q (tagged_entries (to_visit t left (b + 1) (t.hash_buckets (b + 1))))))
          (find-elsewhere t.order b q (t.hash_buckets b) (placed b)
            (λ e. absurd (omega (arith, h, e))))
      ∙ lookup-past left (b + 1) (omega (arith, h))

  or_else-none : (o : Option ℕ) → or_else o none ≡ o
  or_else-none none = refl
  or_else-none (some v) = refl

  -- A key whose bucket is ahead is met with the value of its node.
  lookup-ahead :
      (left b : ℕ)
      → b ≤ hash_string q t.order
      → hash_string q t.order ≤ b + left
      → lookup q (tagged_entries (to_visit t left b (t.hash_buckets b)))
        ≡ valued (find q (bucket_of t q))
  unfolding to_visit lookup
  lookup-ahead zero b l g =
      let same : b ≡ hash_string q t.order = omega (arith, l, g) in
      ap (λ xs. lookup q (tagged_entries xs)) (sym (append-nil (tag b (t.hash_buckets b))))
      ∙ lookup-tag q b (t.hash_buckets b) []
      ∙ or_else-none (valued (find q (t.hash_buckets b)))
      ∙ ap (λ c. valued (find q (t.hash_buckets c))) same
  lookup-ahead (suc left) b l g = elim (ℕ_discrete b (hash_string q t.order)) [
    | yes e ↦
        lookup-tag q b (t.hash_buckets b) (to_visit t left (b + 1) (t.hash_buckets (b + 1)))
        ∙ ap (or_else (valued (find q (t.hash_buckets b))))
            (lookup-past left (b + 1) (omega (arith, e)))
        ∙ or_else-none (valued (find q (t.hash_buckets b)))
        ∙ ap (λ c. valued (find q (t.hash_buckets c))) e
    | no n ↦
        lookup-tag q b (t.hash_buckets b) (to_visit t left (b + 1) (t.hash_buckets (b + 1)))
        ∙ ap
            (λ o.
              or_else (valued o)
                (lookup q (tagged_entries (to_visit t left (b + 1) (t.hash_buckets (b + 1))))))
            (find-elsewhere t.order b q (t.hash_buckets b) (placed b) (λ e. n (sym e)))
        ∙ lookup-ahead left (b + 1) (omega (arith, n, l)) (omega (arith, g))
  ]

  pub lookup-visited :
      t.hash_buckets_len ≡ 2 ^ t.order → lookup q (visited t) ≡ valued (find q (bucket_of t q))
  unfolding visited
  lookup-visited sized =
      lookup-ahead (t.hash_buckets_len - 1) 0 (omega arith)
        (omega (arith, hash_string-lt q t.order, sized))

  IsDistinct-tag :
      (b : ℕ) (ns : List Node) (rest : List (ℕ × Node))
      → IsUnique ns
      → AllAt t.order b ns
      → ((k : Key) → hash_string k t.order ≡ b → lookup k (tagged_entries rest) ≡ none)
      → IsDistinct (tagged_entries rest)
      → IsDistinct (tagged_entries (tag b ns ++ rest))
  IsDistinct-tag b [] rest u a none_left d = d
  IsDistinct-tag b (n ∷ ns) rest (u, us) (a, as') none_left d = (
    lookup-tag n.key b ns rest
        ∙ ap (λ o. or_else (valued o) (lookup n.key (tagged_entries rest))) u
        ∙ none_left n.key a,
    IsDistinct-tag b ns rest us as' none_left d,
  )

module _ (t : Table) (placed : (b : ℕ) → AllAt t.order b (t.hash_buckets b))
    (unique : (b : ℕ) → IsUnique (t.hash_buckets b)) where
  to_visit-IsDistinct :
      (left b : ℕ) → IsDistinct (tagged_entries (to_visit t left b (t.hash_buckets b)))
  unfolding to_visit lookup
  to_visit-IsDistinct zero b =
      subst (λ xs. IsDistinct (tagged_entries xs)) (append-nil (tag b (t.hash_buckets b)))
        (IsDistinct-tag t placed [] b (t.hash_buckets b) [] (unique b) (placed b) (λ k e. refl) tt)
  to_visit-IsDistinct (suc left) b =
      IsDistinct-tag t placed [] b (t.hash_buckets b)
        (to_visit t left (b + 1) (t.hash_buckets (b + 1))) (unique b) (placed b)
        (λ k e. lookup-past t placed k left (b + 1) (omega (arith, e)))
        (to_visit-IsDistinct left (b + 1))

  pub visited-IsDistinct : IsDistinct (visited t)
  unfolding visited
  visited-IsDistinct = to_visit-IsDistinct (t.hash_buckets_len - 1) 0
