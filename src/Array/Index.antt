-- ===== src/Array/Index.antt =====
-- What a well-formed array promises to those who index it.
use libqb.Prelude.{
  if◌then◌else◌, update, update_self, update_ne, erange, ℕ, ◌*◌, ◌/◌, ◌%◌, ◌≤◌, ◌<◌, ◌≡◌, refl, sym,
  ap, ◌∙◌, subst, ◌≢◌, ◌⊎◌, Bool, true, Option, none, some, arith, ℕ_discrete, lt→leb,
}
use libqb.Array.{
  Array, Bin, Bins, Indexed, element_at, failed, index, index_in, after_bins, follow, fill_bin,
  bin_element, element_in, element,
}

module _ {E : Type 0} where
  -- There is a block of bins, for at least the elements that the array admits. Past its end the
  -- model has NULL pointers.
  pub record IsWellFormed (a : Array E) : Type 0 where
    pub bins : Bins E
    pub has_bins : a.bin ≡ some bins
    pub bounded : a.max_elements ≤ 65536
    pub enough : a.max_elements ≤ 16 * a.num_bins
    pub absent : (b : ℕ) → a.num_bins ≤ b → bins b ≡ none

  -- A call that hands out element `idx`, which no other index is handed: if its bin is new it is
  -- zeroed, and every element that was there is as it was.
  pub record HandsOut (zeroed : E) (a : Array E) (idx : ℕ) (r : Indexed) (a' : Array E)
      : Type 0 where
    pub well_formed : IsWellFormed a'
    pub new_bin : Option ℕ
    pub at : r ≡ element_at (idx / 16) (idx % 16) new_bin
    pub kept : (j : ℕ) (e : E) → element a j ≡ some e → element a' j ≡ some e
    pub zero_if_new : element a idx ≡ none → element a' idx ≡ some zeroed
    pub no_fewer : a.max_elements ≤ a'.max_elements

  pub none≢some : {x : E} → none ≢ some x
  none≢some e = absurd (subst (λ o. elim o [ none ↦ Unit {0} | some y ↦ ⊥ ]) e tt)

  pub element-known :
      (a : Array E) (w : IsWellFormed a) (j : ℕ)
      → element a j ≡ bin_element (w.bins (j / 16)) (j % 16)
  element-known a w j = ap (λ o. element_in o (j / 16) (j % 16)) w.has_bins

  module _ (zeroed : E) (a : Array E) (idx : ℕ) (w : IsWellFormed a)
      (h : idx < a.max_elements) where
    fill_bin-HandsOut :
        (old : Option (Bin E))
        → w.bins (idx / 16) ≡ old
        → (r : Indexed) × (a' : Array E) × (fill_bin true zeroed a (idx / 16) (idx % 16) w.bins old
            ≡ (r, a'))
          × HandsOut zeroed a idx r a'
    unfolding fill_bin
    fill_bin-HandsOut (some old) e = (
      element_at (idx / 16) (idx % 16) none,
      a,
      refl,
      record {
        well_formed = w;
        new_bin = none;
        at = refl;
        kept = λ j x h. h;
        zero_if_new = λ h.
            absurd
              (none≢some (sym h ∙ element-known a w idx ∙ ap (λ o. bin_element o (idx % 16)) e));
        no_fewer = omega arith;
      },
    )
    fill_bin-HandsOut none e = (
      element_at (idx / 16) (idx % 16) (if a.new_bin_cb then some (idx / 16) else none),
      record a { bin = some (update w.bins (idx / 16) (some (λ _. zeroed))) },
      refl,
      record {
        well_formed = record {
          bins = update w.bins (idx / 16) (some (λ _. zeroed));
          has_bins = refl;
          bounded = w.bounded;
          enough = w.enough;
          absent = λ b p.
              update_ne w.bins (idx / 16) (some (λ _. zeroed)) b
                (λ q. absurd (omega (arith, w.enough)))
              ∙ w.absent b p;
        };
        new_bin = if a.new_bin_cb then some (idx / 16) else none;
        at = refl;
        kept = λ j x h. elim (ℕ_discrete (idx / 16) (j / 16)) [
          | yes q ↦
              let missing : element a j ≡ none =
                element-known a w j
                ∙ ap (λ b. bin_element (w.bins b) (j % 16)) (sym q)
                ∙ ap (λ o. bin_element o (j % 16)) e in
              absurd (none≢some (sym missing ∙ h))
          | no q ↦
              ap (λ o. bin_element o (j % 16))
                (update_ne w.bins (idx / 16) (some (λ _. zeroed)) (j / 16) q)
              ∙ sym (element-known a w j)
              ∙ h
        ];
        zero_if_new = λ h.
            ap (λ o. bin_element o (idx % 16)) (update_self w.bins (idx / 16) (some (λ _. zeroed)));
        no_fewer = omega arith;
      },
    )

    index_in-fill :
        (realloc : Option (Bins E)) (calloc : Bool)
        → index_in realloc calloc zeroed a idx
          ≡ some (fill_bin calloc zeroed a (idx / 16) (idx % 16) w.bins (w.bins (idx / 16)))
    unfolding index_in after_bins follow
    index_in-fill realloc calloc =
        rw
          (
            lt→leb 4096 (idx / 16) (omega (arith, w.bounded)),
            lt→leb a.num_bins (idx / 16) (omega (arith, w.enough)),
          )
          (ap (λ o. follow calloc zeroed a (idx / 16) (idx % 16) o) w.has_bins)

    pub index_in-HandsOut :
        (realloc : Option (Bins E))
        → (r : Indexed) × (a' : Array E) × (index_in realloc true zeroed a idx ≡ some (r, a'))
          × HandsOut zeroed a idx r a'
    index_in-HandsOut realloc =
        let (r, a', done, out) = fill_bin-HandsOut (w.bins (idx / 16)) refl in
        (r, a', index_in-fill realloc true ∙ ap some done, out)

    loaded_bin :
        {e : E} (calloc : Bool) (bin : Option (Bin E))
        → bin_element bin (idx % 16) ≡ some e
        → fill_bin calloc zeroed a (idx / 16) (idx % 16) w.bins bin
          ≡ (element_at (idx / 16) (idx % 16) none, a)
    unfolding fill_bin
    loaded_bin calloc (some bin) q = refl
    loaded_bin calloc none q = absurd (none≢some q)

    -- An element that is there is handed out as it is.
    pub index-loaded :
        (e : E)
        → element a idx ≡ some e
        → (realloc_in_grow realloc : Option (Bins E)) (calloc : Bool)
        → index realloc_in_grow realloc calloc zeroed a idx
          ≡ some (element_at (idx / 16) (idx % 16) none, a)
    unfolding index
    index-loaded e at realloc_in_grow realloc calloc =
        rw (lt→leb 2147483648 idx (omega (arith, w.bounded)), lt→leb a.max_elements idx h)
          (index_in-fill realloc calloc
            ∙ ap some (loaded_bin calloc (w.bins (idx / 16)) (sym (element-known a w idx) ∙ at)))

    -- In a well-formed array, an index below max_elements is handed its element when calloc
    -- succeeds: no assertion fails, and nothing that any earlier pointer leads to moves or changes.
    pub index-HandsOut :
        (realloc_in_grow realloc : Option (Bins E))
        → (r : Indexed) × (a' : Array E) × (index realloc_in_grow realloc true zeroed a idx
            ≡ some (r, a'))
          × HandsOut zeroed a idx r a'
    unfolding index
    index-HandsOut realloc_in_grow realloc =
        let (r, a', done, out) = index_in-HandsOut realloc in
        (
          r,
          a',
          rw (lt→leb 2147483648 idx (omega (arith, w.bounded)), lt→leb a.max_elements idx h) done,
          out,
        )

  -- An index at or past max_elements of an array that does not grow by itself is refused with
  -- -ERANGE, and so is a negative one; nothing changes.
  index-erange :
      (zeroed : E) (a : Array E) (idx : ℕ) (realloc_in_grow realloc : Option (Bins E))
      (calloc : Bool)
      → (2147483648 ≤ idx) ⊎ ((a.max_elements ≤ idx) × (a.autogrow_elements ≡ 0))
      → index realloc_in_grow realloc calloc zeroed a idx ≡ some (failed erange, a)
  unfolding index
  index-erange zeroed a idx realloc_in_grow realloc calloc h = ground arith
