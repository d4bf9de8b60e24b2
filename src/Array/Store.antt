-- ===== src/Array/Store.antt =====
-- A store through the pointer to an element changes that element and no other.
use libqb.Prelude.{
  ◌==◌, if◌then◌else◌, update, update_ne, ℕ, ◌/◌, ◌%◌, ◌<◌, ◌≡◌, sym, ap, ap₂, ◌∙◌, Option, none,
  some, arith, ℕ_discrete, ne→beq, eq→beq,
}
use libqb.Array.{
  Array, Bin, Bins, element, bin_element, element_in, stored, stored_in, stored_in_bin,
}
use libqb.Array.Index.{none≢some, IsWellFormed, element-known}

bin_stored :
    {E : Type 0} (b : Option (Bin E)) (x : E) (i j : ℕ) {e : E}
    → bin_element b i ≡ some e
    → bin_element (stored_in_bin b i x) j ≡ (if i == j then some x else bin_element b j)
bin_stored none x i j at = absurd (none≢some at)
bin_stored (some bin) x i j at = elim (ℕ_discrete i j) [
  | yes q ↦
      ap (λ t. some (if t then x else bin j)) (eq→beq i j q)
      ∙ sym (ap (λ t. if t then some x else some (bin j)) (eq→beq i j q))
  | no q ↦
      ap (λ t. some (if t then x else bin j)) (ne→beq i j q)
      ∙ sym (ap (λ t. if t then some x else some (bin j)) (ne→beq i j q))
]

module _ {E : Type 0} (a : Array E) (w : IsWellFormed a) (i : ℕ) (below : i < a.max_elements)
    (e : E) (at : element a i ≡ some e) where
  abbrev bins : Bins E
  bins = w.bins

  same_place : (j : ℕ) → i / 16 ≡ j / 16 → (i % 16 == j % 16) ≡ (i == j)
  same_place j q = elim (ℕ_discrete i j) [
    | yes s ↦ eq→beq (i % 16) (j % 16) (ap (λ k. k % 16) s) ∙ sym (eq→beq i j s)
    | no s ↦ ne→beq (i % 16) (j % 16) (λ r. s (omega arith)) ∙ sym (ne→beq i j s)
  ]

  -- The entry that was stored, and every other one as it was.
  pub element-stored :
      (x : E) (j : ℕ) → element (stored a i x) j ≡ (if i == j then some x else element a j)
  element-stored x j =
      ap (λ o. element_in (stored_in o i x) (j / 16) (j % 16)) w.has_bins
      ∙ elim (ℕ_discrete (i / 16) (j / 16)) [
        | yes q ↦
            ap
              (λ t.
                bin_element (if t then stored_in_bin (bins (i / 16)) (i % 16) x else bins (j / 16))
                  (j % 16))
              (eq→beq (i / 16) (j / 16) q)
            ∙ bin_stored (bins (i / 16)) x (i % 16) (j % 16) (sym (element-known a w i) ∙ at)
            ∙ ap₂ (λ t o. if t then some x else o) (same_place j q)
                (ap (λ b. bin_element (bins b) (j % 16)) q ∙ sym (element-known a w j))
        | no q ↦
            ap
              (λ t.
                bin_element (if t then stored_in_bin (bins (i / 16)) (i % 16) x else bins (j / 16))
                  (j % 16))
              (ne→beq (i / 16) (j / 16) q)
            ∙ sym (element-known a w j)
            ∙ sym (
                ap (λ t. if t then some x else element a j)
                  (ne→beq i j (λ s. q (ap (λ k. k / 16) s))))
      ]

  pub stored-IsWellFormed : (x : E) → IsWellFormed (stored a i x)
  stored-IsWellFormed x = record {
    bins = update bins (i / 16) (stored_in_bin (bins (i / 16)) (i % 16) x);
    has_bins = ap (λ o. stored_in o i x) w.has_bins;
    bounded = w.bounded;
    enough = w.enough;
    absent = λ b p.
        update_ne bins (i / 16) (stored_in_bin (bins (i / 16)) (i % 16) x) b
          (λ q. absurd (omega (arith, w.enough, below)))
        ∙ w.absent b p;
  }
