-- ===== src/Array/Grow.antt =====
-- qb_array_grow, qb_array_create_2, and what a failed realloc does.
use libqb.Prelude.{
  ltb, if◌then◌else◌, lt_or_ge, enomem, ok, err, ℕ, ◌+◌, ◌/◌, ◌%◌, ◌≤◌, ◌<◌, max, ◌≡◌, refl, sym,
  ap, ◌∙◌, inl, inr, Bool, true, false, Option, none, some, arith, lt→ltb, le→ltb, ne→beq, le→leb,
  lt→leb,
}
use libqb.Array.{
  Array, Bins, Indexed, create_2, index, index_in, index_grown, after_bins, follow, grow,
  grow_bin_array, copied, bins_for, bin_element, element,
}
use libqb.Array.Index.{IsWellFormed, HandsOut, element-known, index_in-HandsOut}

module _ {E : Type 0} where
  -- An array of `n` elements that keeps what it had.
  pub record Grown (a : Array E) (n : ℕ) (a' : Array E) : Type 0 where
    pub well_formed : IsWellFormed a'
    pub elements : a'.max_elements ≡ n
    pub same : (j : ℕ) → element a' j ≡ element a j

  module _ (a : Array E) (w : IsWellFormed a) where
    abbrev wider : ℕ → Bins E → ℕ → Array E
    wider n fresh bins = record a {
      bin = some (λ b. if ltb b a.num_bins then copied a.bin fresh b else none);
      max_elements = n;
      num_bins = bins;
    }

    wider-same : (fresh : Bins E) (bins n j : ℕ) → element (wider n fresh bins) j ≡ element a j
    wider-same fresh bins n j = elim (lt_or_ge (j / 16) a.num_bins) [
      | inl in_block ↦
          ap (λ t. bin_element (if t then copied a.bin fresh (j / 16) else none) (j % 16))
            (lt→ltb (j / 16) a.num_bins in_block)
          ∙ ap (λ o. bin_element (copied o fresh (j / 16)) (j % 16)) w.has_bins
          ∙ sym (element-known a w j)
      | inr outside ↦
          ap (λ t. bin_element (if t then copied a.bin fresh (j / 16) else none) (j % 16))
            (le→ltb (j / 16) a.num_bins outside)
          ∙ sym (element-known a w j ∙ ap (λ o. bin_element o (j % 16)) (w.absent (j / 16) outside))
    ]

    -- qb_array_grow to a size within bounds, when realloc succeeds, returns 0. The array then has
    -- the larger of the two sizes, and every element it had is as it was.
    pub grow-Grown :
        (fresh : Bins E) (n : ℕ)
        → n ≤ 65536
        → (a' : Array E) × (grow (some fresh) a n ≡ (ok 0, a')) × Grown a (max a.max_elements n) a'
    unfolding grow grow_bin_array
    grow-Grown fresh n h = elim (lt_or_ge a.max_elements n) [
      | inr small ↦ (
        a,
        rw (le→ltb 65536 n h, le→leb n a.max_elements small) refl,
        record { well_formed = w; elements = omega arith; same = λ j. refl },
      )
      | inl larger ↦ elim (lt_or_ge a.num_bins (bins_for n)) [
        | inl few ↦ (
          wider n fresh (bins_for n + 1),
          rw (le→ltb 65536 n h, lt→leb n a.max_elements larger, lt→ltb a.num_bins (bins_for n) few)
              refl,
          record {
            well_formed = record {
              bins = λ b. if ltb b a.num_bins then copied a.bin fresh b else none;
              has_bins = refl;
              bounded = h;
              enough = omega arith;
              absent = λ b p.
                  ap (λ t. if t then copied a.bin fresh b else none)
                    (le→ltb b a.num_bins (omega arith));
            };
            elements = omega arith;
            same = wider-same fresh (bins_for n + 1) n;
          },
        )
        | inr many ↦ (
          record a { max_elements = n },
          rw (le→ltb 65536 n h, lt→leb n a.max_elements larger, le→ltb a.num_bins (bins_for n) many)
              refl,
          record {
            well_formed = record {
              bins = w.bins;
              has_bins = w.has_bins;
              bounded = h;
              enough = omega arith;
              absent = w.absent;
            };
            elements = omega arith;
            same = λ j. refl;
          },
        )
      ]
    ]

    -- An index at or past max_elements, of a well-formed array that grows by itself, within the
    -- bounds of any array: when realloc and calloc succeed the array grows to hold it, and it is
    -- handed out as an index in bounds is.
    pub index-autogrows :
        (fresh : Bins E) (realloc : Option (Bins E)) (zeroed : E) (idx : ℕ)
        → a.max_elements ≤ idx
        → idx < 65536
        → 0 < a.autogrow_elements
        → (r : Indexed) × (a' : Array E) × (index (some fresh) realloc true zeroed a idx
            ≡ some (r, a'))
          × HandsOut zeroed a idx r a'
    unfolding index index_grown
    index-autogrows fresh realloc zeroed idx h bound auto =
        let (b, grown, g) = grow-Grown fresh (idx + 1) (omega arith) in
        let (r, a', done, out) =
          index_in-HandsOut zeroed b idx g.well_formed (omega (arith, g.elements)) realloc in
        (
          r,
          a',
          rw
              (
                lt→leb 2147483648 idx (omega arith),
                le→leb a.max_elements idx h,
                ne→beq a.autogrow_elements 0 (λ e. absurd (omega arith)),
                grown,
              )
              done,
          record {
            well_formed = out.well_formed;
            new_bin = out.new_bin;
            at = out.at;
            kept = λ j e p. out.kept j e (g.same j ∙ p);
            zero_if_new = λ p. out.zero_if_new (g.same idx ∙ p);
            no_fewer = omega (arith, out.no_fewer, g.elements);
          },
        )

    -- When realloc fails in a call of qb_array_grow that wants more bins, the call returns -ENOMEM
    -- but has lost the bins the array had: to index any element that was in bounds then follows a
    -- NULL pointer.
    pub grow-loses_bins :
        (n idx : ℕ) (realloc_in_grow realloc : Option (Bins E)) (calloc : Bool) (zeroed : E)
        → n ≤ 65536
        → a.max_elements < n
        → a.num_bins < bins_for n
        → idx < a.max_elements
        → ((grow none a n).0 ≡ err enomem)
          × (index realloc_in_grow realloc calloc zeroed (grow none a n).1 idx ≡ none)
    unfolding grow grow_bin_array index index_in after_bins follow
    grow-loses_bins n idx realloc_in_grow realloc calloc zeroed h larger few q =
        (ground arith, ground (arith, w.enough))

-- For sizes within their bounds and when memory is there, qb_array_create_2 makes an array that is
-- well formed and in which no bin is allocated yet.
create_2-IsWellFormed :
    {E : Type 0} (fresh : Bins E) (max_elements element_size autogrow_elements : ℕ)
    → max_elements ≤ 65536
    → 0 < element_size
    → autogrow_elements ≤ 16
    → (a : Array E) × (create_2 (some fresh) max_elements element_size autogrow_elements ≡ some a)
      × IsWellFormed a
      × ((j : ℕ) → element a j ≡ none)
unfolding create_2 grow_bin_array
create_2-IsWellFormed fresh m s g hm hs hg = (
  record {
    bin = some (λ b. if ltb b 0 then fresh b else none);
    max_elements = m;
    num_bins = bins_for m;
    autogrow_elements = g;
    new_bin_cb = false;
  },
  rw (le→ltb 65536 m hm, le→ltb s 1 hs, le→ltb 16 g hg) refl,
  record {
    bins = λ b. if ltb b 0 then fresh b else none;
    has_bins = refl;
    bounded = hm;
    enough = omega arith;
    absent = λ b p. ground arith;
  },
  λ j. ground arith,
)
