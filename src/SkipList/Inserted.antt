-- ===== src/SkipList/Inserted.antt =====
-- skiplist_put of a key that is not there keeps the list in shape.
use libqb.Prelude.{
  ltb, leb, length-append, ℕ, ◌+◌, ◌≤◌, ◌<◌, max, ◌≡◌, refl, ap, ◌∙◌, ◌&&◌, Option, some, List, [],
  ◌∷◌, ◌++◌, arith,
}
use libqb.Map.{Notification}
use libqb.Map.Keys.{Key}
use libqb.SkipList.{SkipList, Node, Forward, Update, level_count, forward_at}
use libqb.SkipList.Items.{
  Item, last_at, Forwards, Links, Stored, AllStored, AllBelow, AllAbove, AllStored-keeps,
  AllStored-parts, AllStored-join, AllReach-parts, AllReach-join, AllReach-more, Links-keeps,
}
use libqb.SkipList.Sorted.{IsSorted-insert}
use libqb.SkipList.Putting.{link_loop}
use libqb.SkipList.Writes.{IsMemory, with_arrays}
use libqb.SkipList.Linking.{Ready, linked_at, link_loop-lem}
use libqb.SkipList.Apart.{
  IsApart, AllApart, keyless-IsApart, fresh-IsApart, sorted-AllApart, last_at-there,
}
use libqb.SkipList.Placing.{place, place-ended, IsLast}
use libqb.SkipList.Added.{
  with_node, node-old, node-new, forward_at-old, forward_at-new, added-IsMemory,
}
use libqb.SkipList.Shape.{Shape, AllEnded, AllEnded-keeps}

-- The node that skiplist_put makes, and its item
abbrev pub node_of : SkipList → Key → ℕ → ℕ → Node
node_of s key value level = record {
  key = some key;
  value = value;
  level = level;
  refcount = 1;
  notifiers = [];
  forward = s.fresh;
}

abbrev pub item_of : SkipList → Key → ℕ → ℕ → Item
item_of s key value level = record { at = s.fresh; key = key; value = value; reach = level }

module _ (s : SkipList) (front rest : List Item) (key : Key) (value level : ℕ)
    (calls : List Notification) (h : Shape s (front ++ rest)) (below : AllBelow key front)
    (above : AllAbove key rest) (some_level : 0 < level) (low : level ≤ level_count)
    (update_ : Update)
    (last : (l : ℕ) → l < level → update_ l ≡ some (last_at l s.header front)) where
  abbrev new_node : Node
  new_node = node_of s key value level

  abbrev new_item : Item
  new_item = item_of s key value level

  abbrev before_put : SkipList
  before_put = with_node s new_node (max s.level level) calls

  abbrev before_ : ℕ → ℕ
  before_ l = last_at l s.header front

  near : AllStored s front
  near = (AllStored-parts s front rest h.stored).0

  before-there : (l : ℕ) → (m : Node) × (s.nodes (before_ l) ≡ some m)
  before-there l = last_at-there s l s.header h.header_node front h.header_there near

  kept : (y : ℕ) (m : Node) → s.nodes y ≡ some m → before_put.nodes y ≡ some m
  kept = node-old s h.memory new_node (max s.level level) calls refl

  ready : (l : ℕ) → l < level → Ready before_put s.fresh before_ update_ l
  ready l p =
      let (m, e) = before-there l in
      (
        last l p,
        (λ q. let (a, b) = h.memory.given (before_ l) m e in omega (arith, q, a)),
        (m, kept (before_ l) m e),
      )

  linked :
      (arrays : ℕ → Option Forward) × (link_loop level 0 s.fresh update_ before_put
        ≡ some (with_arrays before_put arrays))
      × IsMemory (with_arrays before_put arrays)
      × ((y l : ℕ) (m : Node)
          → before_put.nodes y ≡ some m
          → forward_at (with_arrays before_put arrays) y l
            ≡ linked_at before_put s.fresh before_ (leb 0 l && ltb l (0 + level)) y l)
  linked =
      link_loop-lem s.fresh new_node before_ update_ level 0 before_put
        (added-IsMemory s h.memory new_node (max s.level level) calls refl)
        (node-new s h.memory new_node (max s.level level) calls refl) (omega arith)
        (λ l p q. ready l (omega arith))

  abbrev after_put : SkipList
  after_put = with_arrays before_put linked.0

  reads :
      (y l : ℕ) (m : Node)
      → before_put.nodes y ≡ some m
      → forward_at after_put y l ≡ linked_at before_put s.fresh before_ (ltb l level) y l
  reads y l m e =
      linked.3 y l m e ∙ ap (λ b. linked_at before_put s.fresh before_ b y l) (ground arith)

  old_forward :
      (y l : ℕ) (m : Node) → s.nodes y ≡ some m → forward_at before_put y l ≡ forward_at s y l
  old_forward = forward_at-old s h.memory new_node (max s.level level) calls refl

  all_stored : AllStored before_put (front ++ rest)
  all_stored = AllStored-keeps s before_put (front ++ rest) kept h.stored

  forwards : Forwards before_put s.header level_count (front ++ rest)
  forwards l p = old_forward s.header l h.header_node h.header_there ∙ h.forwards l p

  links : Links before_put (front ++ rest)
  links = Links-keeps s before_put (front ++ rest) old_forward h.stored h.links

  is_last : (l : ℕ) → IsLast before_put before_ rest front l s.header
  is_last l = record {
    last = refl;
    forward = forwards l;
    apart =
        keyless-IsApart s s.header h.header_node (front ++ rest) h.header_there h.header_unkeyed
          h.stored;
  }

  apart : AllApart (front ++ rest)
  apart = sorted-AllApart s (front ++ rest) h.stored h.sorted

  new-IsApart : IsApart s.fresh (front ++ rest)
  new-IsApart = fresh-IsApart s (front ++ rest) h.memory h.stored

  new-there : before_put.nodes s.fresh ≡ some new_node
  new-there = node-new s h.memory new_node (max s.level level) calls refl

  placed :
      Forwards after_put s.header level_count (front ++ (new_item ∷ rest))
      × Links after_put (front ++ (new_item ∷ rest))
  placed =
      place before_put after_put new_item rest before_ reads new_node new-there low front s.header
        level_count h.header_node (λ l. s.header) (kept s.header h.header_node h.header_there)
        (omega arith) new-IsApart
        (λ q.
          let (a, b) = h.memory.given s.header h.header_node h.header_there in omega (arith, q, a))
        forwards links all_stored (is_last 0).apart apart is_last (λ l p. refl)

  ended : AllEnded before_put (front ++ rest)
  ended = AllEnded-keeps s before_put (front ++ rest) kept old_forward h.stored h.ended

  ended-after : AllEnded after_put (front ++ (new_item ∷ rest))
  ended-after =
      place-ended before_put after_put new_item rest before_ reads new_node new-there low front
        (λ l. s.header) new-IsApart (AllStored-parts before_put front rest all_stored).0 apart links
        is_last (λ y m e. e)
        (λ l p q. forward_at-new s h.memory new_node (max s.level level) calls refl l q) refl ended

  new-Stored : Stored before_put new_item
  new-Stored = record {
    node = new_node;
    there = new-there;
    keyed = refl;
    valued = refl;
    once = refl;
    reaches = omega arith;
    made = low;
  }

  -- Linking in a new node succeeds and keeps the list in shape.
  pub inserted-Shape :
      (t : SkipList) × (link_loop level 0 s.fresh update_ before_put ≡ some t)
      × Shape t (front ++ (new_item ∷ rest))
      × (t.length ≡ s.length)
  inserted-Shape =
      let (stored_near, stored_far) = AllStored-parts before_put front rest all_stored in
      let (reach_near, reach_far) = AllReach-parts s.level front rest h.reach in
      (
        after_put,
        linked.1,
        record {
          header_node = h.header_node;
          header_there = kept s.header h.header_node h.header_there;
          header_unkeyed = h.header_unkeyed;
          header_once = h.header_once;
          forwards = placed.0;
          links = placed.1;
          stored =
              AllStored-keeps before_put after_put (front ++ (new_item ∷ rest)) (λ y m e. e)
                (AllStored-join before_put front (new_item ∷ rest) stored_near
                  (new-Stored, stored_far));
          sorted = IsSorted-insert new_item front rest h.sorted below above;
          reach =
              AllReach-join (max s.level level) front (new_item ∷ rest)
                (AllReach-more s.level (max s.level level) front (omega arith) reach_near)
                (
                  (some_level, omega arith),
                  AllReach-more s.level (max s.level level) rest (omega arith) reach_far,
                );
          height = omega (arith, h.height);
          ended = ended-after;
          room =
              let e = length-append front rest in
              let f = length-append front (new_item ∷ rest) in omega (arith, h.room);
          memory = linked.2;
        },
        refl,
      )
