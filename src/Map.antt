-- ===== src/Map.antt =====
-- lib/map.c and lib/map_int.h: the interface of the maps from strings to pointers, which an
-- implementation fills with its functions. `none` for a whole call is a failed assertion, a freed
-- node that is read, or a loop that does not end.
pub mod Keys
pub mod Order
pub mod Entries
pub mod Interface
pub mod Run
use libqb.Prelude.{
  ◌==◌, if◌then◌else◌, einval, enosys, Ret, err, ℕ, zero, suc, ◌/◌, ◌%◌, Bool, true, false, ◌&&◌,
  Option, none, some, ◌>>=◌,
}
use Keys.{Key}

-- `struct qb_map_notifier`, in a list
pub record Notifier : Type 0 where
  pub callback : ℕ
  pub events : ℕ
  pub user_data : ℕ

-- A call of a notifier's function.
pub record Notification : Type 0 where
  pub function : ℕ
  pub event : ℕ
  pub key : Key
  pub old_value : ℕ
  pub value : ℕ
  pub user_data : ℕ

-- QB_MAP_NOTIFY_DELETED and the other events, which are bits of `events`
abbrev pub notify_deleted : ℕ
notify_deleted = 1

abbrev pub notify_replaced : ℕ
notify_replaced = 2

abbrev pub notify_inserted : ℕ
notify_inserted = 4

abbrev pub notify_free : ℕ
notify_free = 16

abbrev pub has_event : ℕ → ℕ → Bool
has_event events event = events / event % 2 == 1

-- `struct qb_map`, of maps `M` with iterators `I`. `C` is what a call of `put` takes from outside:
-- memory, and where it is used a random level. A NULL function is `none`, and so is a NULL key.
pub record Ops (C M I : Type 0) : Type 0 where
  pub put : C → M → Key → ℕ → Option M
  pub get : M → Key → Option ℕ
  pub rm : M → Key → Option (Bool × M)
  pub count_get : M → ℕ
  pub destroy : M → Option M
  pub iter_create : M → Option Key → Option (I × M)
  pub iter_next : I → M → Option (Option (Key × ℕ) × I × M)
  pub iter_free : I → M → M
  pub notify_add : Option (Bool → M → Option Key → Notifier → Option (Ret × M))
  pub notify_del : Option (M → Option Key → Notifier → Bool → Option (Ret × M))

module _ {C M I : Type 0} (ops : Ops C M I) where
  -- qb_map_put, qb_map_get, qb_map_rm, qb_map_count_get
  abbrev pub map_put : C → M → Key → ℕ → Option M
  map_put = ops.put

  abbrev pub map_get : M → Key → Option ℕ
  map_get = ops.get

  abbrev pub map_rm : M → Key → Option (Bool × M)
  map_rm = ops.rm

  abbrev pub map_count_get : M → ℕ
  map_count_get = ops.count_get

  -- qb_map_destroy, up to the freeing of the map itself
  abbrev pub map_destroy : M → Option M
  map_destroy = ops.destroy

  -- qb_map_iter_create, qb_map_pref_iter_create, qb_map_iter_next, qb_map_iter_free
  abbrev pub map_iter_create : M → Option (I × M)
  map_iter_create m = ops.iter_create m none

  abbrev pub map_pref_iter_create : M → Key → Option (I × M)
  map_pref_iter_create m prefix = ops.iter_create m (some prefix)

  abbrev pub map_iter_next : I → M → Option (Option (Key × ℕ) × I × M)
  map_iter_next = ops.iter_next

  abbrev pub map_iter_free : I → M → M
  map_iter_free = ops.iter_free

  -- What the `for` of qb_map_foreach does with the result of qb_map_iter_next.
  unfoldable pub foreach_with :
      {U : Type 0}
      → (Key → ℕ → U → Bool × U)
      → (U → I → M → Option (U × M))
      → U
      → Option (Option (Key × ℕ) × I × M)
      → Option (U × M)
  foreach_with func more u none = none
  foreach_with func more u (some (none, i, m)) = some (u, map_iter_free i m)
  foreach_with func more u (some (some (key, value), i, m)) =
      let rest = more (func key value u).1 i m in
      if (func key value u).0 then some ((func key value u).1, map_iter_free i m) else rest

  -- The `for` of qb_map_foreach, on fuel, over the state `u` of the function it calls.
  unfoldable pub foreach_loop :
      {U : Type 0} → ℕ → (Key → ℕ → U → Bool × U) → U → I → M → Option (U × M)
  unfolding foreach_with
  foreach_loop zero func u i m = none
  foreach_loop (suc fuel) func u i m =
      foreach_with func (foreach_loop fuel func) u (map_iter_next i m)

  -- qb_map_foreach
  unfoldable pub foreach : {U : Type 0} → ℕ → M → (Key → ℕ → U → Bool × U) → U → Option (U × M)
  unfolding foreach_loop
  foreach fuel m func u = map_iter_create m >>= λ p. foreach_loop fuel func u p.0 p.1

  unfoldable pub is_some_key : Option Key → Bool
  is_some_key none = false
  is_some_key (some key) = true

  unfoldable pub add_with :
      Option (Bool → M → Option Key → Notifier → Option (Ret × M))
      → Bool
      → M
      → Option Key
      → Notifier
      → Option (Ret × M)
  add_with none memory m key n = some (err enosys, m)
  add_with (some notify_add) memory m key n = notify_add memory m key n

  -- qb_map_notify_add. `memory` says whether malloc succeeds.
  unfoldable pub map_notify_add : Bool → M → Option Key → Notifier → Option (Ret × M)
  unfolding is_some_key add_with
  map_notify_add memory m key n =
      if is_some_key key && has_event n.events notify_free
      then some (err einval, m)
      else add_with ops.notify_add memory m key n

  unfoldable pub del_with :
      Option (M → Option Key → Notifier → Bool → Option (Ret × M))
      → M
      → Option Key
      → Notifier
      → Bool
      → Option (Ret × M)
  del_with none m key n cmp_userdata = some (err enosys, m)
  del_with (some notify_del) m key n cmp_userdata = notify_del m key n cmp_userdata

  -- qb_map_notify_del, and qb_map_notify_del_2 where `cmp_userdata` holds
  unfoldable pub map_notify_del : M → Option Key → Notifier → Bool → Option (Ret × M)
  unfolding del_with
  map_notify_del m key n cmp_userdata = del_with ops.notify_del m key n cmp_userdata
