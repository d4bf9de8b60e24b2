-- ===== src/Map/Interface.antt =====
-- What every implementation of the map interface promises its clients.
use libqb.Prelude.{length, ℕ, ◌%◌, ◌≡◌, some}
use libqb.Map.{Ops}
use libqb.Map.Keys.{Key}
use libqb.Map.Entries.{Entries, lookup, assign, erase, is_some, or_null, IsDistinct}

-- `Holds m es`: the map `m` has the entries `es`, and no iterator. `Supplied c` is what a call of
-- `put` relies on.
pub record IsMap {C M I : Type 0} (ops : Ops C M I) : Type 1 where
  pub Holds : M → Entries → Type 0
  pub Supplied : C → Type 0
  pub distinct : (m : M) (es : Entries) → Holds m es → IsDistinct es
  pub put_lem :
      (c : C) (m : M) (es : Entries) (k : Key) (v : ℕ)
      → Holds m es
      → Supplied c
      → (m' : M) × (ops.put c m k v ≡ some m') × Holds m' (assign k v es)
  pub get_lem :
      (m : M) (es : Entries) (k : Key) → Holds m es → ops.get m k ≡ some (or_null (lookup k es))
  pub rm_lem :
      (m : M) (es : Entries) (k : Key)
      → Holds m es
      → (m' : M) × (ops.rm m k ≡ some (is_some (lookup k es), m')) × Holds m' (erase k es)
  pub count_lem :
      (m : M) (es : Entries) → Holds m es → ops.count_get m ≡ length es % 18446744073709551616
