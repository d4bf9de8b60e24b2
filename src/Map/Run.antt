-- ===== src/Map/Run.antt =====
-- What a client can observe of a map over any sequence of calls.
use libqb.Prelude.{length, ℕ, ◌%◌, ◌≡◌, refl, ap, ap₂, ◌∙◌, Bool, Option, none, some, List, [], ◌∷◌}
use libqb.Map.{Ops, map_put, map_get, map_rm, map_count_get}
use libqb.Map.Keys.{Key}
use libqb.Map.Entries.{Entries, lookup, assign, erase, is_some, or_null}
use libqb.Map.Interface.{IsMap}

pub data Request (C : Type 0) : Type 0 where
  put : C → Key → ℕ → Request C
  get rm : Key → Request C
  count : Request C

pub data Reply : Type 0 where
  done : Reply
  value number : ℕ → Reply
  removed : Bool → Reply

-- The replies of a map of entries. The number of entries is a `size_t`.
unfoldable pub entries_run : {C : Type 0} → Entries → List (Request C) → List Reply
entries_run es [] = []
entries_run es (put c k v ∷ rest) = done ∷ entries_run (assign k v es) rest
entries_run es (get k ∷ rest) = value (or_null (lookup k es)) ∷ entries_run es rest
entries_run es (rm k ∷ rest) = removed (is_some (lookup k es)) ∷ entries_run (erase k es) rest
entries_run es (count ∷ rest) = number (length es % 18446744073709551616) ∷ entries_run es rest

module _ {C M I : Type 0} (ops : Ops C M I) where
  after_put : (M → List Reply) → Option M → List Reply
  after_put more none = []
  after_put more (some m) = done ∷ more m

  after_get : List Reply → Option ℕ → List Reply
  after_get more none = []
  after_get more (some v) = value v ∷ more

  after_rm : (M → List Reply) → Option (Bool × M) → List Reply
  after_rm more none = []
  after_rm more (some (r, m)) = removed r ∷ more m

  -- The replies of an implementation; they end where a call fails.
  unfoldable pub map_run : M → List (Request C) → List Reply
  unfolding after_put after_get after_rm
  map_run m [] = []
  map_run m (put c k v ∷ rest) = after_put (λ n. map_run n rest) (map_put ops c m k v)
  map_run m (get k ∷ rest) = after_get (map_run m rest) (map_get ops m k)
  map_run m (rm k ∷ rest) = after_rm (λ n. map_run n rest) (map_rm ops m k)
  map_run m (count ∷ rest) = number (map_count_get ops m) ∷ map_run m rest

module _ {C M I : Type 0} (ops : Ops C M I) (laws : IsMap ops) where
  abbrev pub AllSupplied : List (Request C) → Type 0
  AllSupplied [] = Unit {0}
  AllSupplied (put c k v ∷ rest) = laws.Supplied c × AllSupplied rest
  AllSupplied (get k ∷ rest) = AllSupplied rest
  AllSupplied (rm k ∷ rest) = AllSupplied rest
  AllSupplied (count ∷ rest) = AllSupplied rest

  pub map_run-entries_run :
      (requests : List (Request C)) (m : M) (es : Entries)
      → laws.Holds m es
      → AllSupplied requests
      → map_run ops m requests ≡ entries_run es requests
  unfolding map_run entries_run after_put after_get after_rm
  map_run-entries_run [] m es h s = refl
  map_run-entries_run (put c k v ∷ rest) m es h (s, ss) =
      let (m', e, h') = laws.put_lem c m es k v h s in
      ap (after_put ops (λ n. map_run ops n rest)) e
      ∙ ap (λ xs. done ∷ xs) (map_run-entries_run rest m' (assign k v es) h' ss)
  map_run-entries_run (get k ∷ rest) m es h ss =
      ap (after_get ops (map_run ops m rest)) (laws.get_lem m es k h)
      ∙ ap (λ xs. value (or_null (lookup k es)) ∷ xs) (map_run-entries_run rest m es h ss)
  map_run-entries_run (rm k ∷ rest) m es h ss =
      let (m', e, h') = laws.rm_lem m es k h in
      ap (after_rm ops (λ n. map_run ops n rest)) e
      ∙ ap (λ xs. removed (is_some (lookup k es)) ∷ xs)
          (map_run-entries_run rest m' (erase k es) h' ss)
  map_run-entries_run (count ∷ rest) m es h ss =
      ap₂ (λ c xs. number c ∷ xs) (laws.count_lem m es h) (map_run-entries_run rest m es h ss)
