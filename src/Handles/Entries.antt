-- ===== src/Handles/Entries.antt =====
-- Reading and writing the entries of a handle database.
use libqb.Prelude.{
  ◌==◌, if◌then◌else◌, ℕ, ◌≤◌, ◌<◌, ◌≡◌, ap, ◌∙◌, some, arith, ℕ_discrete, ne→beq, eq→beq,
}
use libqb.Array.{element}
use libqb.Array.Store.{element-stored, stored-IsWellFormed}
use libqb.Array.Index.{IsWellFormed, index-loaded}
use libqb.Handles.{Hdb, Memory, Entry, entry_at, looked_up, dereferenced, store, zeroed}

-- The entries below handle_count are there.
pub record IsValid (h : Hdb) : Type 0 where
  pub well_formed : IsWellFormed h.handles
  pub counted : h.handle_count ≤ h.handles.max_elements
  pub loaded : (i : ℕ) → i < h.handle_count → (e : Entry) × (element h.handles i ≡ some e)

module _ (h : Hdb) (v : IsValid h) (i : ℕ) (below : i < h.handle_count) (e : Entry)
    (at : element h.handles i ≡ some e) where
  pub entry_at-valid : (m : Memory) → entry_at m h i ≡ some (some e, h)
  unfolding entry_at
  entry_at-valid m =
      ap (looked_up h) (
        index-loaded zeroed h.handles i v.well_formed (omega (arith, v.counted)) e at
          m.realloc_in_grow m.realloc m.calloc)
      ∙ ap (dereferenced h) at

  pub element-store :
      (x : Entry) (j : ℕ)
      → element (store h i x).handles j ≡ (if i == j then some x else element h.handles j)
  element-store = element-stored h.handles v.well_formed i (omega (arith, below, v.counted)) e at

  pub store-IsValid : (x : Entry) → IsValid (store h i x)
  store-IsValid x = record {
    well_formed =
        stored-IsWellFormed h.handles v.well_formed i (omega (arith, below, v.counted)) e at x;
    counted = v.counted;
    loaded = λ j p. elim (ℕ_discrete i j) [
      | yes q ↦ (
        x,
        element-store x j ∙ ap (λ t. if t then some x else element h.handles j) (eq→beq i j q),
      )
      | no q ↦
          let (old, there) = v.loaded j p in
          (
            old,
            element-store x j
                ∙ ap (λ t. if t then some x else element h.handles j) (ne→beq i j q)
                ∙ there,
          )
    ];
  }
