-- ===== src/HashTable/Remaining.antt =====
-- What an iterator of a hash table has before it, and where it stands.
use libqb.Prelude.{
  ltb, if◌then◌else◌, Bool-cases, update, update_self, update_ne, ℕ, zero, suc, ◌+◌, ◌-◌, ◌%◌, ◌≤◌,
  ◌<◌, ◌≡◌, refl, sym, ap, ◌∙◌, subst, fun_ext, ◌≢◌, ◌⊎◌, inl, inr, true, false, Option, none, some,
  List, [], ◌∷◌, ◌++◌, append-nil, arith, ℕ_discrete, lt→ltb, ne→beq, eq→beq, some_ne_none,
}
use libqb.Map.Keys.{Key, key_eq, key_eq_refl, Key-cases, apart}
use libqb.Map.Entries.{Entries}
use libqb.HashTable.{
  Table, Node, find, change, with_refcount, hash_string, bucket_of, set_bucket, lookup_node,
  node_deref, node_destroy,
}
use libqb.HashTable.Iterating.{
  more_references, deref_node, drop_current, hold, after_node, first_live, scan, found_or,
}
use libqb.HashTable.Bucket.{IsUnique, AllOnce}

-- Nodes with the bucket they are in.
abbrev pub tag : ℕ → List Node → List (ℕ × Node)
tag b [] = []
tag b (n ∷ ns) = (b, n) ∷ tag b ns

-- What an iterator has before it: the rest `ns` of bucket `b`, and `left` further buckets.
unfoldable pub to_visit : Table → ℕ → ℕ → List Node → List (ℕ × Node)
to_visit t zero b ns = tag b ns
to_visit t (suc left) b ns = tag b ns ++ to_visit t left (b + 1) (t.hash_buckets (b + 1))

abbrev pub first : List (ℕ × Node) → Option (ℕ × Node)
first [] = none
first (x ∷ xs) = some x

abbrev pub tagged_entries : List (ℕ × Node) → Entries
tagged_entries [] = []
tagged_entries ((b, n) ∷ xs) = (n.key, n.value) ∷ tagged_entries xs

-- The entries of the buckets, in their order.
unfoldable pub visited : Table → Entries
unfolding to_visit
visited t = tagged_entries (to_visit t (t.hash_buckets_len - 1) 0 (t.hash_buckets 0))

-- The lists with one more reference, and back.
pub restored :
    (k : Key) (ns : List Node)
    → AllOnce ns
    → change (with_refcount 1) k (change more_references k ns) ≡ ns
unfolding change
restored k [] h = refl
restored k (n ∷ ns) (h, hs) = elim (Bool-cases (key_eq n.key k)) [
  | inl t ↦ rw t (rw t (ap (λ r. record n { refcount = r } ∷ ns) (sym h)))
  | inr f ↦ rw f (rw f (ap (λ xs. n ∷ xs) (restored k ns hs)))
]

pub swapped :
    (r : ℕ) (j k : Key) (ns : List Node)
    → j ≢ k
    → change (with_refcount r) j (change more_references k ns)
      ≡ change more_references k (change (with_refcount r) j ns)
unfolding change
swapped r j k [] d = refl
swapped r j k (n ∷ ns) d = elim (Key-cases n.key j) [
  | inl (e, t) ↦
      let f : key_eq n.key k ≡ false = apart n.key k (λ q. d (sym e ∙ q)) in ground (arith, t, f)
  | inr (e, f) ↦ elim (Key-cases n.key k) [
    | inl (s, t) ↦ ground (arith, f, t)
    | inr (s, g) ↦ ground (arith, f, g, swapped r j k ns d)
  ]
]

first_live-head :
    (ns : List Node) (b : ℕ) (rest : List (ℕ × Node))
    → AllOnce ns
    → found_or (first_live ns) b (first rest) ≡ first (tag b ns ++ rest)
unfolding first_live
first_live-head [] b rest h = refl
first_live-head (n ∷ ns) b rest (h, hs) = rw (lt→ltb 0 n.refcount (omega (arith, h))) refl

-- The search finds the first of what remains.
pub scan-first :
    (t : Table)
    → ((b : ℕ) → AllOnce (t.hash_buckets b))
    → (left b : ℕ) (ns : List Node) → AllOnce ns
    → scan t left b ns ≡ first (to_visit t left b ns)
unfolding scan to_visit
scan-first t once zero b ns h = first_live-head ns b [] h ∙ ap first (append-nil (tag b ns))
scan-first t once (suc left) b ns h =
    ap (found_or (first_live ns) b)
      (scan-first t once left (b + 1) (t.hash_buckets (b + 1)) (once (b + 1)))
    ∙ first_live-head ns b (to_visit t left (b + 1) (t.hash_buckets (b + 1))) h

-- A reference to a node of a bucket does not show to a search past that bucket.
pub scan-hold :
    (t : Table) (c : ℕ) (n : Node) (left b : ℕ) (ns : List Node)
    → c ≤ b
    → scan (hold t c n) left b ns ≡ scan t left b ns
unfolding scan
scan-hold t c n zero b ns h = refl
scan-hold t c n (suc left) b ns h =
    let unchanged : (hold t c n).hash_buckets (b + 1) ≡ t.hash_buckets (b + 1) =
      update_ne t.hash_buckets c (change more_references n.key (t.hash_buckets c)) (b + 1)
        (λ e. absurd (omega arith)) in
    ap (found_or (first_live ns) b) (
      scan-hold t c n left (b + 1) ((hold t c n).hash_buckets (b + 1)) (omega arith)
      ∙ ap (scan t left (b + 1)) unchanged)

pub not_among :
    (k : Key) (n : Node) (pre post : List Node)
    → key_eq n.key k ≡ true
    → ¬ (find k (pre ++ (n ∷ post)) ≡ none)
unfolding find
not_among k n [] post t e = some_ne_none (rw t at e)
not_among k n (m ∷ pre) post t e = elim (Bool-cases (key_eq m.key k)) [
  | inl s ↦ some_ne_none (rw s at e)
  | inr s ↦ not_among k n pre post t (rw s at e)
]

pub after-change :
    (n : Node) (pre post : List Node)
    → IsUnique (pre ++ (n ∷ post))
    → after_node n.key (change more_references n.key (pre ++ (n ∷ post))) ≡ some post
unfolding after_node change
after-change n [] post u = rw (key_eq_refl n.key) (rw (key_eq_refl n.key) refl)
after-change n (m ∷ pre) post (u, us) = elim (Key-cases m.key n.key) [
  | inl (e, t) ↦ absurd (
      not_among n.key n pre post (key_eq_refl n.key)
        (ap (λ k. find k (pre ++ (n ∷ post))) (sym e) ∙ u))
  | inr (e, f) ↦ rw f (rw f (after-change n pre post us))
]

pub at_self : (f : ℕ → List Node) (b : ℕ) (ns : List Node) → update f b ns b ≡ ns
at_self f b ns = update_self f b ns

nil_cons : {x : ℕ × Node} {xs : List (ℕ × Node)} → [] ≡ x ∷ xs → ⊥
nil_cons e = cc

abbrev pub lowered : Key → List Node → List Node
lowered key ns = change (with_refcount 1) key ns

-- Dropping one of two references to a node, in any table.
pub drop_current-lowered :
    (t : Table) (key : Key) (b : ℕ) (m : Node)
    → hash_string key t.order ≡ b
    → find key (t.hash_buckets b) ≡ some m
    → m.key ≡ key
    → (m.refcount + 4294967295) % 4294967296 ≡ 1
    → drop_current (some key) t
      ≡ some (record t { hash_buckets = update t.hash_buckets b (lowered key (t.hash_buckets b)) })
unfolding drop_current deref_node lookup_node node_deref
drop_current-lowered t key b m home found same left =
    ap (deref_node t) (ap (λ c. find key (t.hash_buckets c)) home ∙ found)
    ∙ ap some (
        ap
          (λ l.
            if ltb 0 l
            then set_bucket t m.key (change (with_refcount l) m.key (bucket_of t m.key))
            else node_destroy t m)
          left
        ∙ ap (λ k. set_bucket t k (lowered k (bucket_of t k))) same
        ∙ ap
            (λ c. record t {
              hash_buckets = update t.hash_buckets c (lowered key (t.hash_buckets c));
            })
            home)

-- Two writes to a bucket, and a write that changes nothing.
pub update_twice :
    (f : ℕ → List Node) (b : ℕ) (xs ys : List Node) → update (update f b xs) b ys ≡ update f b ys
update_twice f b xs ys = fun_ext λ c. elim (ℕ_discrete b c) [
  | yes e ↦
      ap (λ t. if t then ys else update f b xs c) (eq→beq b c e)
      ∙ sym (ap (λ t. if t then ys else f c) (eq→beq b c e))
  | no n ↦
      ap (λ t. if t then ys else if t then xs else f c) (ne→beq b c n)
      ∙ sym (ap (λ t. if t then ys else f c) (ne→beq b c n))
]

pub update_same : (f : ℕ → List Node) (b : ℕ) (xs : List Node) → xs ≡ f b → update f b xs ≡ f
update_same f b xs h = fun_ext λ c. elim (ℕ_discrete b c) [
  | yes e ↦ ap (λ t. if t then xs else f c) (eq→beq b c e) ∙ h ∙ ap f e
  | no n ↦ ap (λ t. if t then xs else f c) (ne→beq b c n)
]

pub update_apart :
    (f : ℕ → List Node) (b c : ℕ) (xs ys : List Node)
    → b ≢ c
    → update (update f b xs) c ys ≡ update (update f c ys) b xs
update_apart f b c xs ys d = fun_ext λ i. ground arith

-- The iterator stands at node `n` of bucket `b`, and `more` is before it.
pub record At (t : Table) (b : ℕ) (n : Node) (more : List (ℕ × Node)) : Type 0 where
  pub before : List Node
  pub after : List Node
  pub here : t.hash_buckets b ≡ before ++ (n ∷ after)
  pub inside : b < t.hash_buckets_len
  pub ahead : more ≡ to_visit t (t.hash_buckets_len - 1 - b) b after

head_eq : {x y : ℕ × Node} {xs ys : List (ℕ × Node)} → x ∷ xs ≡ y ∷ ys → (x ≡ y) × (xs ≡ ys)
head_eq e = (cc, cc)

move_At :
    (t : Table) (b c : ℕ) (m n : Node) (more : List (ℕ × Node)) {rest : List (ℕ × Node)}
    → (b, m) ∷ rest ≡ (c, n) ∷ more
    → At t b m rest
    → At t c n more
move_At t b c m n more {rest} e a =
    let (x, xs) = head_eq e in
    subst (λ l. At t c n l) xs (subst (λ (p : ℕ × Node). At t p.0 p.1 rest) x a)

-- The first of what remains is a place where the iterator can stand.
pub to_visit-At :
    (t : Table) (left b : ℕ) (pre ns : List Node) (c : ℕ) (n : Node) (more : List (ℕ × Node))
    → left + b + 1 ≡ t.hash_buckets_len
    → t.hash_buckets b ≡ pre ++ ns
    → to_visit t left b ns ≡ (c, n) ∷ more
    → At t c n more
unfolding to_visit
to_visit-At t zero b pre [] c n more l h e = absurd (nil_cons e)
to_visit-At t (suc left) b pre [] c n more l h e =
    to_visit-At t left (b + 1) [] (t.hash_buckets (b + 1)) c n more (omega arith) refl e
to_visit-At t zero b pre (m ∷ ms) c n more l h e = move_At t b c m n more e (record {
  before = pre;
  after = ms;
  here = h;
  inside = omega arith;
  ahead = ap (λ k. to_visit t k b ms) (let q : 0 ≡ t.hash_buckets_len - 1 - b = omega arith in q);
})
to_visit-At t (suc left) b pre (m ∷ ms) c n more l h e = move_At t b c m n more e (record {
  before = pre;
  after = ms;
  here = h;
  inside = omega arith;
  ahead =
      ap (λ k. to_visit t k b ms)
        (let q : suc left ≡ t.hash_buckets_len - 1 - b = omega arith in q);
})

-- The first that remains is in this list or in a later bucket.
pub to_visit-head :
    (t : Table) (left b : ℕ) (ns : List Node) (c : ℕ) (m : Node) (more : List (ℕ × Node))
    → to_visit t left b ns ≡ (c, m) ∷ more
    → ((c ≡ b) × (tail : List Node) × (ns ≡ m ∷ tail)) ⊎ (b < c)
unfolding to_visit
to_visit-head t zero b [] c m more e = absurd (nil_cons e)
to_visit-head t (suc left) b [] c m more e =
    elim (to_visit-head t left (b + 1) (t.hash_buckets (b + 1)) c m more e) [
      | inl (q, tail, split) ↦ inr (omega (arith, q))
      | inr q ↦ inr (omega (arith, q))
    ]
to_visit-head t zero b (n ∷ ns) c m more e =
    let same : (b, n) ≡ (c, m) = (head_eq e).0 in
    inl (sym (ap (λ (p : ℕ × Node). p.0) same), ns, ap (λ (p : ℕ × Node). p.1 ∷ ns) same)
to_visit-head t (suc left) b (n ∷ ns) c m more e =
    let same : (b, n) ≡ (c, m) = (head_eq e).0 in
    inl (sym (ap (λ (p : ℕ × Node). p.0) same), ns, ap (λ (p : ℕ × Node). p.1 ∷ ns) same)

pub unique_tail :
    (n : Node) (pre post : List Node) → IsUnique (pre ++ (n ∷ post)) → find n.key post ≡ none
unique_tail n [] post u = u.0
unique_tail n (m ∷ pre) post u = unique_tail n pre post u.1

pub once_tail : (n : Node) (pre post : List Node) → AllOnce (pre ++ (n ∷ post)) → AllOnce post
once_tail n [] post o = o.1
once_tail n (m ∷ pre) post o = once_tail n pre post o.1
