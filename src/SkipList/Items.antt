-- ===== src/SkipList/Items.antt =====
-- The nodes of a skip list as a sorted list of items, and the pointers that they imply.
use libqb.Prelude.{
  ltb, if◌then◌else◌, ℕ, suc, ◌≤◌, ◌<◌, ◌≡◌, refl, ◌∙◌, ◌⊎◌, inl, inr, Bool, true, false, ◌||◌,
  Option, none, some, List, [], ◌∷◌, ◌++◌, arith,
}
use libqb.Map.Keys.{Key}
use libqb.Map.Order.{less, greater, strcmp}
use libqb.SkipList.{SkipList, Node, level_count, forward_at}

-- A node that is in the list on the levels below `reach`. The reach is at most the level that the
-- node was made with, and can be less.
pub record Item : Type 0 where
  pub at : ℕ
  pub key : Key
  pub value : ℕ
  pub reach : ℕ

-- The first node, the last one, and whether there is one, that is in the list on a level
abbrev pub first : ℕ → List Item → Option ℕ
first level [] = none
first level (i ∷ is) = if ltb level i.reach then some i.at else first level is

abbrev pub last_at : ℕ → ℕ → List Item → ℕ
last_at level x [] = x
last_at level x (i ∷ is) = if ltb level i.reach then last_at level i.at is else last_at level x is

abbrev pub any_at : ℕ → List Item → Bool
any_at level [] = false
any_at level (i ∷ is) = ltb level i.reach || any_at level is

-- The pointers of a node, which stands before `rest`
abbrev pub Forwards : SkipList → ℕ → ℕ → List Item → Type 0
Forwards s x reach rest =
    (level : ℕ) → level < reach → forward_at s x level ≡ some (first level rest)

abbrev pub Links : SkipList → List Item → Type 0
Links s [] = Unit {0}
Links s (i ∷ is) = Forwards s i.at i.reach is × Links s is

-- The node of an item, which the list alone refers to
pub record Stored (s : SkipList) (i : Item) : Type 0 where
  pub node : Node
  pub there : s.nodes i.at ≡ some node
  pub keyed : node.key ≡ some i.key
  pub valued : node.value ≡ i.value
  pub once : node.refcount ≡ 1
  pub reaches : i.reach ≤ node.level
  pub made : node.level ≤ level_count

abbrev pub AllStored : SkipList → List Item → Type 0
AllStored s [] = Unit {0}
AllStored s (i ∷ is) = Stored s i × AllStored s is

-- Keys below, above, and in order
abbrev pub AllBelow : Key → List Item → Type 0
AllBelow key [] = Unit {0}
AllBelow key (i ∷ is) = (strcmp i.key key ≡ less) × AllBelow key is

abbrev pub AllAbove : Key → List Item → Type 0
AllAbove key [] = Unit {0}
AllAbove key (i ∷ is) = (strcmp i.key key ≡ greater) × AllAbove key is

abbrev pub IsSorted : List Item → Type 0
IsSorted [] = Unit {0}
IsSorted (i ∷ is) = AllAbove i.key is × IsSorted is

-- Every item is on level 0, and on none from `level` on.
abbrev pub AllReach : ℕ → List Item → Type 0
AllReach level [] = Unit {0}
AllReach level (i ∷ is) = ((0 < i.reach) × (i.reach ≤ level)) × AllReach level is

pub last_at-none : (l x : ℕ) (is : List Item) → any_at l is ≡ false → last_at l x is ≡ x
last_at-none l x [] e = refl
last_at-none l x (i ∷ is) e = ground (arith, last_at-none l x is)

pub last_at-any :
    (l x y : ℕ) (is : List Item) → any_at l is ≡ true → last_at l x is ≡ last_at l y is
last_at-any l x y [] e = cc
last_at-any l x y (i ∷ is) e = ground (arith, last_at-any l x y is)

pub last_at-cons :
    (l x : ℕ) (i : Item) (is : List Item)
    → (ltb l i.reach ≡ true) ⊎ (any_at l is ≡ true)
    → last_at l x (i ∷ is) ≡ last_at l i.at is
last_at-cons l x i is (inl e) = rw e refl
last_at-cons l x i is (inr e) = ground (arith, last_at-any l x i.at is e)

pub last_at-skip :
    (l x : ℕ) (i : Item) (is : List Item)
    → ltb l i.reach ≡ false
    → last_at l x (i ∷ is) ≡ last_at l x is
last_at-skip l x i is e = rw e refl

pub any_at-suc : (l : ℕ) (is : List Item) → any_at (suc l) is ≡ true → any_at l is ≡ true
any_at-suc l [] e = cc
any_at-suc l (i ∷ is) e = ground (arith, any_at-suc l is)

pub any_at-AllReach : (l : ℕ) (is : List Item) → AllReach l is → any_at l is ≡ false
any_at-AllReach l [] r = refl
any_at-AllReach l (i ∷ is) ((p, q), r) = ground (arith, any_at-AllReach l is r)

pub first-any :
    (l : ℕ) (is js ks : List Item) → any_at l is ≡ true → first l (is ++ js) ≡ first l (is ++ ks)
first-any l [] js ks e = cc
first-any l (i ∷ is) js ks e = ground (arith, first-any l is js ks)

pub first-none : (l : ℕ) (is js : List Item) → any_at l is ≡ false → first l (is ++ js) ≡ first l js
first-none l [] js e = refl
first-none l (i ∷ is) js e = ground (arith, first-none l is js)

-- What holds of a list holds of its parts.
pub AllStored-parts :
    (s : SkipList) (is js : List Item) → AllStored s (is ++ js) → AllStored s is × AllStored s js
AllStored-parts s [] js h = (tt, h)
AllStored-parts s (i ∷ is) js (h, hs) = let (a, b) = AllStored-parts s is js hs in ((h, a), b)

pub AllStored-join :
    (s : SkipList) (is js : List Item) → AllStored s is → AllStored s js → AllStored s (is ++ js)
AllStored-join s [] js a b = b
AllStored-join s (i ∷ is) js (h, a) b = (h, AllStored-join s is js a b)

pub AllReach-parts :
    (l : ℕ) (is js : List Item) → AllReach l (is ++ js) → AllReach l is × AllReach l js
AllReach-parts l [] js h = (tt, h)
AllReach-parts l (i ∷ is) js (h, hs) = let (a, b) = AllReach-parts l is js hs in ((h, a), b)

pub AllReach-join :
    (l : ℕ) (is js : List Item) → AllReach l is → AllReach l js → AllReach l (is ++ js)
AllReach-join l [] js a b = b
AllReach-join l (i ∷ is) js (h, a) b = (h, AllReach-join l is js a b)

pub AllReach-more : (l m : ℕ) (is : List Item) → l ≤ m → AllReach l is → AllReach m is
AllReach-more l m [] h a = tt
AllReach-more l m (i ∷ is) h ((p, q), as') = ((p, omega arith), AllReach-more l m is h as')

-- Items whose nodes another state keeps
module _ (s t : SkipList) where
  pub AllStored-keeps :
      (is : List Item)
      → ((y : ℕ) (m : Node) → s.nodes y ≡ some m → t.nodes y ≡ some m)
      → AllStored s is
      → AllStored t is
  AllStored-keeps [] keeps st = tt
  AllStored-keeps (i ∷ is) keeps (st, sts) = (
    record {
      node = st.node;
      there = keeps i.at st.node st.there;
      keyed = st.keyed;
      valued = st.valued;
      once = st.once;
      reaches = st.reaches;
      made = st.made;
    },
    AllStored-keeps is keeps sts,
  )

  pub Links-keeps :
      (is : List Item)
      → ((y l : ℕ) (m : Node) → s.nodes y ≡ some m → forward_at t y l ≡ forward_at s y l)
      → AllStored s is
      → Links s is
      → Links t is
  Links-keeps [] keeps st ls = tt
  Links-keeps (i ∷ is) keeps (st, sts) (l, ls) =
      (λ k h. keeps i.at k st.node st.there ∙ l k h, Links-keeps is keeps sts ls)
