-- ===== src/SkipList/Dropping.antt =====
-- The memory after skiplist_node_deref has freed a node that only the list referred to.
use libqb.Prelude.{
  ltb, ◌==◌, if◌then◌else◌, update, update_self, update_ne, ℕ, ◌≡◌, refl, sym, ap, ◌∙◌, ◌≢◌, Bool,
  true, false, ◌||◌, none, some, List, ◌++◌, ℕ_discrete, bind-some, none_ne_some,
}
use libqb.Map.{Notification, notify_deleted}
use libqb.HashTable.{node_calls, table_calls}
use libqb.SkipList.{SkipList, Node, Forward, forward_at, set_node}
use libqb.SkipList.Nodes.{notify, key_or_empty, free_array, node_destroy, node_deref}
use libqb.SkipList.Writes.{IsMemory, forward_at-backed}

-- The list without the node
abbrev pub without : SkipList → ℕ → Node → Bool → List Notification → SkipList
without s x n freed calls = record s {
  nodes = update (update s.nodes x (some (record n { refcount = 0 }))) x none;
  arrays = if freed then update s.arrays n.forward none else s.arrays;
  calls = calls;
}

-- The calls of notifiers so far, when the node is deleted
abbrev pub told_deleted : SkipList → Node → Node → List Notification
told_deleted s n h =
    s.calls
    ++ (node_calls notify_deleted (key_or_empty n.key) n.value 0 n.notifiers
        ++ table_calls notify_deleted (key_or_empty n.key) n.value 0 h.notifiers)

module _ (s : SkipList) (x : ℕ) (n h : Node) (there : s.nodes x ≡ some n)
    (header_there : s.nodes s.header ≡ some h) (header_ne : x ≢ s.header) (once : n.refcount ≡ 1)
    (f : Forward) (backed : s.arrays n.forward ≡ some f) where
  abbrev unused : Node
  unused = record n { refcount = 0 }

  abbrev told : List Notification
  told = told_deleted s n h

  freeing :
      (b : Bool)
      → (if b
          then free_array
              (record (set_node s x unused) { calls = told })
              n.forward
              (s.arrays n.forward)
          else some (record (set_node s x unused) { calls = told }))
        ≡ some (record (set_node s x unused) {
          calls = told;
          arrays = if b then update s.arrays n.forward none else s.arrays;
        })
  freeing true = ap (free_array (record (set_node s x unused) { calls = told }) n.forward) backed
  freeing false = refl

  pub node_deref-once : node_deref s x ≡ some (without s x n (ltb 0 n.level || s.level == 0) told)
  unfolding node_deref node_destroy notify
  node_deref-once = bind-some _ there (
      rw once (
        bind-some _ (update_self s.nodes x (some unused)) (
          bind-some _ (update_ne s.nodes x (some unused) s.header header_ne ∙ header_there)
            (bind-some _ (freeing (ltb 0 n.level || s.level == 0)) refl))))

-- A node that is freed with its array
module _ (s : SkipList) (mem : IsMemory s) (x : ℕ) (n : Node) (there : s.nodes x ≡ some n)
    (calls : List Notification) where
  abbrev t : SkipList
  t = without s x n true calls

  pub without-back : (y : ℕ) (m : Node) → t.nodes y ≡ some m → (x ≢ y) × (s.nodes y ≡ some m)
  without-back y m e = elim (ℕ_discrete x y) [
    | yes q ↦ absurd (
        none_ne_some (
          sym (update_self (update s.nodes x (some (record n { refcount = 0 }))) x none)
          ∙ ap t.nodes q
          ∙ e))
    | no q ↦ (
      q,
      sym (
            update_ne (update s.nodes x (some (record n { refcount = 0 }))) x none y q
            ∙ update_ne s.nodes x (some (record n { refcount = 0 })) y q)
          ∙ e,
    )
  ]

  pub without-keeps : (y : ℕ) (m : Node) → x ≢ y → s.nodes y ≡ some m → t.nodes y ≡ some m
  without-keeps y m q e =
      update_ne (update s.nodes x (some (record n { refcount = 0 }))) x none y q
      ∙ update_ne s.nodes x (some (record n { refcount = 0 })) y q
      ∙ e

  array-keeps :
      (y : ℕ) (m : Node) → x ≢ y → s.nodes y ≡ some m → t.arrays m.forward ≡ s.arrays m.forward
  array-keeps y m q e =
      update_ne s.arrays n.forward none m.forward (λ p. q (mem.owned x y n m there e p))

  pub without-forward :
      (y l : ℕ) (m : Node) → x ≢ y → s.nodes y ≡ some m → forward_at t y l ≡ forward_at s y l
  without-forward y l m q e =
      let (f, g) = mem.backed y m e in
      forward_at-backed t y l m f (without-keeps y m q e) (array-keeps y m q e ∙ g)
      ∙ sym (forward_at-backed s y l m f e g)

  pub without-IsMemory : IsMemory t
  without-IsMemory = record {
    backed = λ y m e.
        let (q, p) = without-back y m e in
        let (f, g) = mem.backed y m p in (f, array-keeps y m q p ∙ g);
    owned = λ y z m k e e' f. mem.owned y z m k (without-back y m e).1 (without-back z k e').1 f;
    given = λ y m e. mem.given y m (without-back y m e).1;
  }
