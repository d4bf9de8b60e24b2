-- ===== src/SkipList/Shape.antt =====
-- The invariant of a skip list without iterators
use libqb.Prelude.{
  length, ℕ, ◌≤◌, ◌<◌, ◌≡◌, refl, sym, ap, ◌∙◌, subst, inl, inr, none, some, List, [], ◌∷◌, ◌++◌,
}
use libqb.Map.Keys.{Key}
use libqb.Map.Order.{strcmp, strcmp-eq, strcmp_flip, Order-cases}
use libqb.SkipList.{SkipList, Node, level_count, forward_at}
use libqb.SkipList.Writes.{IsMemory}
use libqb.SkipList.Items.{
  Item, Forwards, Links, AllStored, AllBelow, AllAbove, AllReach, IsSorted, AllStored-keeps,
  Links-keeps,
}
use libqb.SkipList.Sorted.{AllAbove-trans}

-- A node has no pointers above its level.
abbrev pub AllEnded : SkipList → List Item → Type 0
AllEnded s [] = Unit {0}
AllEnded s (i ∷ is) =
    ((n : Node)
      → s.nodes i.at ≡ some n
      → (level : ℕ) → n.level ≤ level
      → level < level_count
      → forward_at s i.at level ≡ some none)
    × AllEnded s is

pub AllEnded-keeps :
    (s t : SkipList) (is : List Item)
    → ((y : ℕ) (m : Node) → s.nodes y ≡ some m → t.nodes y ≡ some m)
    → ((y l : ℕ) (m : Node) → s.nodes y ≡ some m → forward_at t y l ≡ forward_at s y l)
    → AllStored s is
    → AllEnded s is
    → AllEnded t is
AllEnded-keeps s t [] keeps same st es = tt
AllEnded-keeps s t (i ∷ is) keeps same (st, sts) (e, es) = (
  λ m q l p r.
      let back : s.nodes i.at ≡ some m = st.there ∙ sym (keeps i.at st.node st.there) ∙ q in
      same i.at l m back ∙ e m back l p r,
  AllEnded-keeps s t is keeps same sts es,
)

pub AllEnded-back :
    (s t : SkipList) (is : List Item)
    → ((y : ℕ) (m : Node)
        → t.nodes y ≡ some m
        → (n : Node) × (s.nodes y ≡ some n) × (n.level ≡ m.level))
    → ((y l : ℕ) (m : Node) → s.nodes y ≡ some m → forward_at t y l ≡ forward_at s y l)
    → AllEnded s is
    → AllEnded t is
AllEnded-back s t [] back same es = tt
AllEnded-back s t (i ∷ is) back same (e, es) = (
  λ m q l p r.
      let (n, there, level) = back i.at m q in
      same i.at l n there ∙ e n there l (subst (λ z. z ≤ l) (sym level) p) r,
  AllEnded-back s t is back same es,
)

pub AllEnded-parts :
    (s : SkipList) (is js : List Item) → AllEnded s (is ++ js) → AllEnded s is × AllEnded s js
AllEnded-parts s [] js h = (tt, h)
AllEnded-parts s (i ∷ is) js (h, hs) = let (a, b) = AllEnded-parts s is js hs in ((h, a), b)

pub AllEnded-join :
    (s : SkipList) (is js : List Item) → AllEnded s is → AllEnded s js → AllEnded s (is ++ js)
AllEnded-join s [] js a b = b
AllEnded-join s (i ∷ is) js (h, a) b = (h, AllEnded-join s is js a b)

-- The nodes of the list are the items, in the order of their keys, and no two nodes share an array
-- of pointers.
pub record Shape (s : SkipList) (items : List Item) : Type 0 where
  pub header_node : Node
  pub header_there : s.nodes s.header ≡ some header_node
  pub header_unkeyed : header_node.key ≡ none
  pub header_once : header_node.refcount ≡ 1
  pub forwards : Forwards s s.header level_count items
  pub links : Links s items
  pub stored : AllStored s items
  pub sorted : IsSorted items
  pub reach : AllReach s.level items
  pub height : s.level ≤ level_count
  pub ended : AllEnded s items
  pub room : length items < s.fresh
  pub memory : IsMemory s

-- Another length, and another level that no item reaches above
pub recount-Shape :
    (t : SkipList) (items : List Item)
    → Shape t items
    → (level n : ℕ) → AllReach level items
    → level ≤ level_count
    → Shape (record t { length = n; level = level }) items
unfolding forward_at
recount-Shape t items h level n r b = record {
  header_node = h.header_node;
  header_there = h.header_there;
  header_unkeyed = h.header_unkeyed;
  header_once = h.header_once;
  forwards = h.forwards;
  links =
      Links-keeps t (record t { length = n; level = level }) items (λ y l m e. refl) h.stored
        h.links;
  stored = AllStored-keeps t (record t { length = n; level = level }) items (λ y m e. e) h.stored;
  sorted = h.sorted;
  reach = r;
  height = b;
  ended =
      AllEnded-keeps t (record t { length = n; level = level }) items (λ y m e. e) (λ y l m e. refl)
        h.stored h.ended;
  room = h.room;
  memory = record { backed = h.memory.backed; owned = h.memory.owned; given = h.memory.given };
}

-- Where a key belongs: after those that are below, and before those that are above, with the item
-- that has it or none between them.
pub data Middle (key : Key) : List Item → Type 0 where
  missing : (rest : List Item) → AllAbove key rest → Middle key rest
  present : (i : Item) (rest : List Item) → i.key ≡ key → AllAbove key rest → Middle key (i ∷ rest)

pub record Cut (key : Key) (items : List Item) : Type 0 where
  pub front : List Item
  pub rest : List Item
  pub whole : items ≡ front ++ rest
  pub below : AllBelow key front
  pub middle : Middle key rest

pub cut : (key : Key) (items : List Item) → IsSorted items → Cut key items
cut key [] so = record { front = []; rest = []; whole = refl; below = tt; middle = missing [] tt }
cut key (i ∷ is) (a, so) = elim (Order-cases (strcmp i.key key)) [
  | inl e ↦
      let c = cut key is so in
      record {
        front = i ∷ c.front;
        rest = c.rest;
        whole = ap (λ xs. i ∷ xs) c.whole;
        below = (e, c.below);
        middle = c.middle;
      }
  | inr (inl e) ↦ record {
    front = [];
    rest = i ∷ is;
    whole = refl;
    below = tt;
    middle =
        present i is (strcmp-eq i.key key e) (subst (λ k. AllAbove k is) (strcmp-eq i.key key e) a);
  }
  | inr (inr e) ↦ record {
    front = [];
    rest = i ∷ is;
    whole = refl;
    below = tt;
    middle = missing (i ∷ is) (e, AllAbove-trans key i.key is (strcmp_flip i.key key e) a);
  }
]
