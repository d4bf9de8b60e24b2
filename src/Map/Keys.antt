-- ===== src/Map/Keys.antt =====
-- The keys: C strings, as the bytes before the 0.
use libqb.Prelude.{
  ◌==◌, Bool-cases, ℕ, ◌≡◌, refl, ap₂, subst, ◌≢◌, ◌⊎◌, inl, inr, Bool, true, false, ◌&&◌, List, [],
  ◌∷◌, arith, ℕ_discrete, ne→beq, eq→beq,
}

abbrev pub Key : Type 0
Key = List ℕ

-- strcmp(a, b) == 0
abbrev pub key_eq : Key → Key → Bool
key_eq [] [] = true
key_eq [] (b ∷ bs) = false
key_eq (a ∷ as') [] = false
key_eq (a ∷ as') (b ∷ bs) = a == b && key_eq as' bs

pub key_eq_refl : (k : Key) → key_eq k k ≡ true
key_eq_refl [] = refl
key_eq_refl (a ∷ as') = rw (eq→beq a a refl) (key_eq_refl as')

pub key_eq-eq : (a b : Key) → key_eq a b ≡ true → a ≡ b
key_eq-eq [] [] h = refl
key_eq-eq [] (b ∷ bs) h = cc
key_eq-eq (a ∷ as') [] h = cc
key_eq-eq (a ∷ as') (b ∷ bs) h = elim (ℕ_discrete a b) [
  | yes e ↦ ap₂ (λ x xs. x ∷ xs) e (key_eq-eq as' bs (rw (eq→beq a b e) at h))
  | no n ↦ let q : false ≡ true = rw (ne→beq a b n) at h in cc
]

-- To split on two keys.
pub Key-cases : (a b : Key) → ((a ≡ b) × (key_eq a b ≡ true)) ⊎ ((a ≢ b) × (key_eq a b ≡ false))
Key-cases a b = elim (Bool-cases (key_eq a b)) [
  | inl t ↦ inl (key_eq-eq a b t, t)
  | inr f ↦
      inr
        (λ e. let t : key_eq a b ≡ true = subst (λ k. key_eq a k ≡ true) e (key_eq_refl a) in cc, f)
]

pub key_eq-sym : (a b : Key) → key_eq a b ≡ key_eq b a
key_eq-sym [] [] = refl
key_eq-sym [] (b ∷ bs) = refl
key_eq-sym (a ∷ as') [] = refl
key_eq-sym (a ∷ as') (b ∷ bs) = ground (arith, key_eq-sym as' bs)

pub apart : (k q : Key) → k ≢ q → key_eq k q ≡ false
apart k q n = elim (Key-cases k q) [ inl (e, t) ↦ absurd (n e) | inr (m, f) ↦ f ]
