-- ===== src/SkipList/Lowering.antt =====
-- The last loop of skiplist_rm, which removes the levels that are not used.
use libqb.Prelude.{
  ltb, Bool-cases, Option-cases, ℕ, zero, suc, ◌+◌, ◌≤◌, ◌≡◌, refl, ap, ◌∙◌, inl, inr, none, some,
  List, [], ◌∷◌, arith, bind-some, some_ne_none,
}
use libqb.SkipList.{SkipList, level_count, forward_at}
use libqb.SkipList.Removing.{lower}
use libqb.SkipList.Items.{Item, first, Forwards, AllReach, AllReach-more}

abbrev pub with_level : SkipList → ℕ → SkipList
with_level s level = record s { level = level }

first-AllReach :
    (level : ℕ) (is : List Item)
    → first level is ≡ none
    → AllReach (level + 1) is
    → AllReach level is
first-AllReach level [] e r = tt
first-AllReach level (i ∷ is) e ((p, q), r) = elim (Bool-cases (ltb level i.reach)) [
  | inl t ↦ absurd (some_ne_none (rw t at e))
  | inr t ↦ ((p, ground arith), first-AllReach level is (rw t at e) r)
]

-- The loop ends at a level that no item reaches above.
pub lower-lem :
    (level : ℕ) (s : SkipList) (items : List Item)
    → Forwards s s.header level_count items
    → level ≤ level_count
    → AllReach level items
    → (l : ℕ) × (lower level (with_level s level) ≡ some (with_level s l))
      × (l ≤ level)
      × AllReach l items
unfolding lower forward_at
lower-lem zero s items fs b r = (zero, refl, omega arith, r)
lower-lem (suc level) s items fs b r = elim (Option-cases (first level items)) [
  | inl e ↦
      let (l, w, p, a) = lower-lem level s items fs (omega arith) (
        first-AllReach level items e
          (AllReach-more (suc level) (level + 1) items (omega arith) r)) in
      (l, bind-some _ (fs level b ∙ ap some e) w, omega (arith, p), a)
  | inr (y, e) ↦ (suc level, bind-some _ (fs level b ∙ ap some e) refl, omega arith, r)
]
