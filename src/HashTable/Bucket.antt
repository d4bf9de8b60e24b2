-- ===== src/HashTable/Bucket.antt =====
-- The lists of the buckets, and how they change.
use libqb.Prelude.{
  if◌then◌else◌, Bool-cases, ℕ, ◌≡◌, refl, sym, ap, ◌∙◌, subst, inl, inr, Bool, true, false, Option,
  none, some, List, [], ◌∷◌, ◌++◌, arith, some_ne_none,
}
use libqb.Map.Keys.{Key, key_eq, Key-cases, apart}
use libqb.HashTable.{Node, find, change, unlink, hash_string}

abbrev pub valued : Option Node → Option ℕ
valued none = none
valued (some n) = some n.value

-- No two nodes of a list have one key.
abbrev pub IsUnique : List Node → Type 0
IsUnique [] = Unit {0}
IsUnique (n ∷ ns) = (find n.key ns ≡ none) × IsUnique ns

-- Every node is referenced by the table alone.
abbrev pub AllOnce : List Node → Type 0
AllOnce [] = Unit {0}
AllOnce (n ∷ ns) = (n.refcount ≡ 1) × AllOnce ns

-- Every node's key has the hash of its bucket.
abbrev pub AllAt : ℕ → ℕ → List Node → Type 0
AllAt order b [] = Unit {0}
AllAt order b (n ∷ ns) = (hash_string n.key order ≡ b) × AllAt order b ns

node_key : Option Node → Key
node_key none = []
node_key (some n) = n.key

node_count : Option Node → ℕ
node_count none = 1
node_count (some n) = n.refcount

pub find-key : (key : Key) (ns : List Node) (n : Node) → find key ns ≡ some n → n.key ≡ key
unfolding find node_key
find-key key [] n e = absurd (some_ne_none (sym e))
find-key key (m ∷ ms) n e = elim (Key-cases m.key key) [
  | inl (s, t) ↦ let same : some m ≡ some n = rw t at e in sym (ap node_key same) ∙ s
  | inr (s, f) ↦ find-key key ms n (rw f at e)
]

pub find-AllOnce :
    (key : Key) (ns : List Node) (n : Node) → AllOnce ns → find key ns ≡ some n → n.refcount ≡ 1
unfolding find node_count
find-AllOnce key [] n o e = absurd (some_ne_none (sym e))
find-AllOnce key (m ∷ ms) n (o, os) e = elim (Bool-cases (key_eq m.key key)) [
  | inl t ↦ let same : some m ≡ some n = rw t at e in sym (ap node_count same) ∙ o
  | inr f ↦ find-AllOnce key ms n os (rw f at e)
]

if_none : {A : Type 0} (t : Bool) → ◌≡◌ {A = Option A} (if t then none else none) none
if_none true = refl
if_none false = refl

abbrev pub mapped : (Node → Node) → Option Node → Option Node
mapped f none = none
mapped f (some n) = some (f n)

-- A changed node keeps its key.
module _ (f : Node → Node) (key : Key) (keeps : (n : Node) → n.key ≡ key → (f n).key ≡ key) where
  pub find-change :
      (q : Key) (ns : List Node)
      → find q (change f key ns) ≡ (if key_eq key q then mapped f (find q ns) else find q ns)
  unfolding find change
  find-change q [] = ground arith
  find-change q (m ∷ ms) = elim (Key-cases m.key key) [
    | inl (s, t) ↦ ground (arith, ap (λ k. key_eq k q) (keeps m s), ap (λ k. key_eq k q) s)
    | inr (s, g) ↦ elim (Key-cases m.key q) [
      | inl (u, v) ↦ ground (arith, apart key q (λ w. s (u ∙ sym w)), find-change q ms)
      | inr (u, v) ↦ ground (arith, find-change q ms)
    ]
  ]

  pub change-IsUnique : (ns : List Node) → IsUnique ns → IsUnique (change f key ns)
  unfolding change
  change-IsUnique [] h = tt
  change-IsUnique (m ∷ ms) (h, hs) = elim (Key-cases m.key key) [
    | inl (s, t) ↦ rw t (subst (λ k. find k ms ≡ none) (s ∙ sym (keeps m s)) h, hs)
    | inr (s, g) ↦ rw g (
      find-change m.key ms
          ∙ ap (λ o. if key_eq key m.key then mapped f o else o) h
          ∙ if_none (key_eq key m.key),
      change-IsUnique ms hs,
    )
  ]

  pub change-AllOnce :
      ((n : Node) → (f n).refcount ≡ n.refcount)
      → (ns : List Node) → AllOnce ns
      → AllOnce (change f key ns)
  unfolding change
  change-AllOnce same [] h = tt
  change-AllOnce same (m ∷ ms) (h, hs) = elim (Bool-cases (key_eq m.key key)) [
    | inl t ↦ rw t (same m ∙ h, hs)
    | inr g ↦ rw g (h, change-AllOnce same ms hs)
  ]

pub change-AllAt :
    (f : Node → Node) (key : Key)
    → ((n : Node) → n.key ≡ key → (f n).key ≡ key)
    → (order b : ℕ) (ns : List Node) → AllAt order b ns
    → AllAt order b (change f key ns)
unfolding change
change-AllAt f key keeps order b [] h = tt
change-AllAt f key keeps order b (m ∷ ms) (h, hs) = elim (Key-cases m.key key) [
  | inl (s, t) ↦ rw t (ap (λ k. hash_string k order) (keeps m s ∙ sym s) ∙ h, hs)
  | inr (s, g) ↦ rw g (h, change-AllAt f key keeps order b ms hs)
]

pub append-AllAt :
    (order b : ℕ) (ns : List Node) (n : Node)
    → AllAt order b ns
    → hash_string n.key order ≡ b
    → AllAt order b (ns ++ (n ∷ []))
append-AllAt order b [] n h e = (e, tt)
append-AllAt order b (m ∷ ms) n (h, hs) e = (h, append-AllAt order b ms n hs e)

pub unlink-AllAt :
    (key : Key) (order b : ℕ) (ns : List Node) → AllAt order b ns → AllAt order b (unlink key ns)
unfolding unlink
unlink-AllAt key order b [] h = tt
unlink-AllAt key order b (m ∷ ms) (h, hs) = elim (Bool-cases (key_eq m.key key)) [
  | inl t ↦ rw t hs
  | inr g ↦ rw g (h, unlink-AllAt key order b ms hs)
]

pub find-append :
    (q : Key) (ns : List Node) (n : Node)
    → find n.key ns ≡ none
    → find q (ns ++ (n ∷ [])) ≡ (if key_eq n.key q then some n else find q ns)
unfolding find
find-append q [] n e = refl
find-append q (m ∷ ms) n e = elim (Key-cases m.key n.key) [
  | inl (s, t) ↦ absurd (some_ne_none (rw t at e))
  | inr (s, g) ↦ elim (Key-cases m.key q) [
    | inl (u, v) ↦ ground (arith, apart n.key q (λ w. s (u ∙ sym w)), find-append q ms n)
    | inr (u, v) ↦ ground (arith, find-append q ms n)
  ]
]

pub append-IsUnique :
    (ns : List Node) (n : Node) → IsUnique ns → find n.key ns ≡ none → IsUnique (ns ++ (n ∷ []))
unfolding find
append-IsUnique [] n h e = (refl, tt)
append-IsUnique (m ∷ ms) n (h, hs) e = elim (Key-cases m.key n.key) [
  | inl (s, t) ↦ absurd (some_ne_none (rw t at e))
  | inr (s, g) ↦
      let later : find n.key ms ≡ none = rw g at e in
      (
        find-append m.key ms n later ∙ rw (apart n.key m.key (λ w. s (sym w))) h,
        append-IsUnique ms n hs later,
      )
]

pub append-AllOnce :
    (ns : List Node) (n : Node) → AllOnce ns → n.refcount ≡ 1 → AllOnce (ns ++ (n ∷ []))
append-AllOnce [] n h e = (e, tt)
append-AllOnce (m ∷ ms) n (h, hs) e = (h, append-AllOnce ms n hs e)

pub find-unlink :
    (key q : Key) (ns : List Node)
    → IsUnique ns
    → find q (unlink key ns) ≡ (if key_eq key q then none else find q ns)
unfolding find unlink
find-unlink key q [] h = ground arith
find-unlink key q (m ∷ ms) (h, hs) = elim (Key-cases m.key key) [
  | inl (s, t) ↦ elim (Key-cases key q) [
    | inl (u, v) ↦ rw (t, v) (ap (λ k. find k ms) (sym (s ∙ u)) ∙ h)
    | inr (u, v) ↦ ground (arith, ap (λ k. key_eq k q) s)
  ]
  | inr (s, g) ↦ elim (Key-cases m.key q) [
    | inl (u, v) ↦ ground (arith, apart key q (λ w. s (u ∙ sym w)), find-unlink key q ms)
    | inr (u, v) ↦ ground (arith, find-unlink key q ms)
  ]
]

pub unlink-IsUnique : (key : Key) (ns : List Node) → IsUnique ns → IsUnique (unlink key ns)
unfolding unlink
unlink-IsUnique key [] h = tt
unlink-IsUnique key (m ∷ ms) (h, hs) = elim (Key-cases m.key key) [
  | inl (s, t) ↦ rw t hs
  | inr (s, g) ↦ rw g (
    find-unlink key m.key ms hs ∙ rw (apart key m.key (λ w. s (sym w))) h,
    unlink-IsUnique key ms hs,
  )
]

pub unlink-AllOnce : (key : Key) (ns : List Node) → AllOnce ns → AllOnce (unlink key ns)
unfolding unlink
unlink-AllOnce key [] h = tt
unlink-AllOnce key (m ∷ ms) (h, hs) = elim (Bool-cases (key_eq m.key key)) [
  | inl t ↦ rw t hs
  | inr g ↦ rw g (h, unlink-AllOnce key ms hs)
]
