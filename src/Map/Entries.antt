-- ===== src/Map/Entries.antt =====
-- What a map promises, on a list of entries with distinct keys: the abstract map.
use libqb.Prelude.{
  if◌then◌else◌, Bool-cases, length, ℕ, ◌+◌, ◌-◌, ◌<◌, ◌≡◌, refl, sym, ap, ◌∙◌, inl, inr, Bool,
  true, false, Option, none, some, List, [], ◌∷◌, arith,
}
use libqb.Map.Keys.{Key, key_eq, key_eq_refl, Key-cases, apart}

abbrev pub Entries : Type 0
Entries = List (Key × ℕ)

unfoldable pub lookup : Key → Entries → Option ℕ
lookup k [] = none
lookup k ((j, v) ∷ es) = if key_eq j k then some v else lookup k es

-- The value of a key is replaced where it stands, and a new key comes last.
unfoldable pub assign : Key → ℕ → Entries → Entries
assign k v [] = (k, v) ∷ []
assign k v ((j, w) ∷ es) = if key_eq j k then (j, v) ∷ es else (j, w) ∷ assign k v es

unfoldable pub erase : Key → Entries → Entries
erase k [] = []
erase k ((j, w) ∷ es) = if key_eq j k then es else (j, w) ∷ erase k es

abbrev pub is_some : Option ℕ → Bool
is_some none = false
is_some (some v) = true

-- NULL for a key that is missing.
abbrev pub or_null : Option ℕ → ℕ
or_null none = 0
or_null (some v) = v

-- No key stands in the list twice.
abbrev pub IsDistinct : Entries → Type 0
IsDistinct [] = Unit {0}
IsDistinct ((j, w) ∷ es) = (lookup j es ≡ none) × IsDistinct es

pub some_long : (k : Key) (es : Entries) → is_some (lookup k es) ≡ true → 0 < length es
unfolding lookup
some_long k [] h = cc
some_long k (e ∷ es) h = omega arith

pub lookup-assign :
    (k q : Key) (v : ℕ) (es : Entries)
    → lookup q (assign k v es) ≡ (if key_eq k q then some v else lookup q es)
unfolding lookup assign
lookup-assign k q v [] = refl
lookup-assign k q v ((j, w) ∷ es) = elim (Key-cases j k) [
  | inl (e, t) ↦ ground (arith, ap (λ x. key_eq x q) e)
  | inr (n, f) ↦ elim (Key-cases j q) [
    | inl (e, t) ↦ ground (arith, lookup-assign k q v es, apart k q (λ s. n (e ∙ sym s)))
    | inr (m, g) ↦ ground (arith, lookup-assign k q v es)
  ]
]

pub lookup-erase :
    (k q : Key) (es : Entries)
    → IsDistinct es
    → lookup q (erase k es) ≡ (if key_eq k q then none else lookup q es)
unfolding lookup erase
lookup-erase k q [] d = ground arith
lookup-erase k q ((j, w) ∷ es) (d, ds) = elim (Key-cases j k) [
  | inl (e, t) ↦ elim (Key-cases k q) [
    | inl (s, u) ↦ rw (t, u) (ap (λ x. lookup x es) (sym (e ∙ s)) ∙ d)
    | inr (m, g) ↦ ground (arith, ap (λ x. key_eq x q) e)
  ]
  | inr (n, f) ↦ elim (Key-cases j q) [
    | inl (e, t) ↦ ground (arith, lookup-erase k q es ds, apart k q (λ s. n (e ∙ sym s)))
    | inr (m, g) ↦ ground (arith, lookup-erase k q es ds)
  ]
]

pub assign-IsDistinct :
    (k : Key) (v : ℕ) (es : Entries) → IsDistinct es → IsDistinct (assign k v es)
unfolding assign lookup
assign-IsDistinct k v [] d = (refl, tt)
assign-IsDistinct k v ((j, w) ∷ es) (d, ds) = elim (Key-cases j k) [
  | inl (e, t) ↦ rw t (d, ds)
  | inr (n, f) ↦
      rw f (lookup-assign k j v es ∙ rw (apart k j (λ s. n (sym s))) d, assign-IsDistinct k v es ds)
]

pub erase-IsDistinct : (k : Key) (es : Entries) → IsDistinct es → IsDistinct (erase k es)
unfolding erase
erase-IsDistinct k [] d = tt
erase-IsDistinct k ((j, w) ∷ es) (d, ds) = elim (Key-cases j k) [
  | inl (e, t) ↦ rw t ds
  | inr (n, f) ↦
      rw f (lookup-erase k j es ds ∙ rw (apart k j (λ s. n (sym s))) d, erase-IsDistinct k es ds)
]

pub length-assign :
    (k : Key) (v : ℕ) (es : Entries)
    → length (assign k v es) ≡ (if is_some (lookup k es) then length es else length es + 1)
unfolding assign lookup
length-assign k v [] = refl
length-assign k v ((j, w) ∷ es) = elim (Bool-cases (key_eq j k)) [
  | inl t ↦ rw t refl
  | inr f ↦ rw f (ground (arith, length-assign k v es))
]

pub length-erase :
    (k : Key) (es : Entries)
    → length (erase k es) ≡ (if is_some (lookup k es) then length es - 1 else length es)
unfolding erase lookup
length-erase k [] = refl
length-erase k ((j, w) ∷ es) = elim (Bool-cases (key_eq j k)) [
  | inl t ↦ rw t (omega arith)
  | inr f ↦ rw f (ground (arith, length-erase k es, some_long k es))
]

without :
    (k : Key) (v : ℕ) (q : Key) (xs ys : Entries)
    → lookup k xs ≡ none
    → IsDistinct ys
    → lookup q ((k, v) ∷ xs) ≡ lookup q ys
    → lookup q xs ≡ lookup q (erase k ys)
unfolding lookup
without k v q xs ys d c h = elim (Key-cases k q) [
  | inl (e, t) ↦ ap (λ x. lookup x xs) (sym e) ∙ d ∙ sym (lookup-erase k q ys c ∙ rw t refl)
  | inr (n, f) ↦
      (let plain : lookup q xs ≡ lookup q ys = rw f at h in plain)
      ∙ sym (lookup-erase k q ys c ∙ rw f refl)
]

-- Lists of entries that are read the same have the same number of entries.
pub same-length :
    (xs ys : Entries)
    → IsDistinct xs
    → IsDistinct ys
    → ((q : Key) → lookup q xs ≡ lookup q ys)
    → length xs ≡ length ys
unfolding lookup
same-length [] [] d c h = refl
same-length [] ((j, w) ∷ ys) d c h = let e : none ≡ some w = h j ∙ rw (key_eq_refl j) refl in cc
same-length ((k, v) ∷ xs) ys (d, ds) c h =
    let there : lookup k ys ≡ some v = sym (h k) ∙ rw (key_eq_refl k) refl in
    let rest : length xs ≡ length (erase k ys) =
      same-length xs (erase k ys) ds (erase-IsDistinct k ys c)
        (λ q. without k v q xs ys d c (h q)) in
    let less : length (erase k ys) ≡ length ys - 1 =
      length-erase k ys ∙ ap (λ o. if is_some o then length ys - 1 else length ys) there in
    omega (arith, rest, less, some_long k ys (ap is_some there))
