-- ===== src/Map/Order.antt =====
-- strcmp, which compares strings byte by byte as unsigned characters.
use libqb.Prelude.{ltb, if◌then◌else◌, ◌≡◌, refl, sym, ap, ◌∙◌, ◌≢◌, ◌⊎◌, inl, inr, [], ◌∷◌, arith}
use libqb.Map.Keys.{Key}

-- The sign of a comparison.
pub data Order : Type 0 where
  less equal greater : Order

abbrev pub strcmp : Key → Key → Order
strcmp [] [] = equal
strcmp [] (b ∷ bs) = less
strcmp (a ∷ as') [] = greater
strcmp (a ∷ as') (b ∷ bs) =
    let rest = strcmp as' bs in if ltb a b then less else if ltb b a then greater else rest

pub strcmp_refl : (k : Key) → strcmp k k ≡ equal
strcmp_refl [] = refl
strcmp_refl (a ∷ as') = ground (arith, strcmp_refl as')

pub strcmp-eq : (j k : Key) → strcmp j k ≡ equal → j ≡ k
strcmp-eq [] [] h = refl
strcmp-eq [] (b ∷ bs) h = cc
strcmp-eq (a ∷ as') [] h = cc
strcmp-eq (a ∷ as') (b ∷ bs) h = ground (arith, strcmp-eq as' bs)

pub strcmp_trans : (i j k : Key) → strcmp i j ≡ less → strcmp j k ≡ less → strcmp i k ≡ less
strcmp_trans [] [] k h l = cc
strcmp_trans [] (b ∷ bs) [] h l = cc
strcmp_trans [] (b ∷ bs) (c ∷ cs) h l = refl
strcmp_trans (a ∷ as') [] k h l = cc
strcmp_trans (a ∷ as') (b ∷ bs) [] h l = cc
strcmp_trans (a ∷ as') (b ∷ bs) (c ∷ cs) h l = ground (arith, strcmp_trans as' bs cs)

pub strcmp_flip : (j k : Key) → strcmp j k ≡ greater → strcmp k j ≡ less
strcmp_flip [] [] h = cc
strcmp_flip [] (b ∷ bs) h = cc
strcmp_flip (a ∷ as') [] h = refl
strcmp_flip (a ∷ as') (b ∷ bs) h = ground (arith, strcmp_flip as' bs)

-- To split on a comparison.
pub Order-cases : (o : Order) → (o ≡ less) ⊎ ((o ≡ equal) ⊎ (o ≡ greater))
Order-cases less = inl refl
Order-cases equal = inr (inl refl)
Order-cases greater = inr (inr refl)

pub less_ne : (j k : Key) → strcmp j k ≡ less → j ≢ k
less_ne j k h e =
    let q : equal ≡ less = sym (strcmp_refl k) ∙ ap (λ x. strcmp x k) (sym e) ∙ h in cc

pub strcmp_unflip : (j k : Key) → strcmp j k ≡ less → strcmp k j ≡ greater
strcmp_unflip [] [] h = cc
strcmp_unflip [] (b ∷ bs) h = refl
strcmp_unflip (a ∷ as') [] h = cc
strcmp_unflip (a ∷ as') (b ∷ bs) h = ground (arith, strcmp_unflip as' bs)

pub greater_ne : (j k : Key) → strcmp j k ≡ greater → j ≢ k
greater_ne j k h e = less_ne k j (strcmp_flip j k h) (sym e)

pub strcmp-less_greater :
    (i j k : Key) → strcmp j k ≡ less → strcmp i k ≡ greater → strcmp i j ≡ greater
strcmp-less_greater i j k h g = strcmp_unflip j i (strcmp_trans j k i h (strcmp_flip i k g))

pub strcmp-greater_less :
    (i j k : Key) → strcmp i j ≡ greater → strcmp j k ≡ greater → strcmp i k ≡ greater
strcmp-greater_less i j k h g =
    strcmp_unflip k i (strcmp_trans k j i (strcmp_flip j k g) (strcmp_flip i j h))
