-- ===== src/SkipList/Kept.antt =====
-- Items at some of the addresses, whose nodes another state keeps, and items that reach less.
use libqb.Prelude.{
  length, ℕ, suc, ◌≤◌, ◌<◌, min, ◌≡◌, refl, sym, ap, ◌∙◌, none, some, List, [], ◌∷◌, arith,
}
use libqb.Map.Keys.{Key}
use libqb.SkipList.{SkipList, Node, forward_at}
use libqb.SkipList.Items.{Item, first, Links, AllStored, AllAbove, AllReach, IsSorted}
use libqb.SkipList.Reading.{entries_of}
use libqb.SkipList.Shape.{AllEnded}

abbrev pub AllAt : (ℕ → Type 0) → List Item → Type 0
AllAt P [] = Unit {0}
AllAt P (i ∷ is) = P i.at × AllAt P is

module _ (s t : SkipList) (P : ℕ → Type 0) where
  pub AllStored-at :
      (is : List Item)
      → ((y : ℕ) (m : Node) → P y → s.nodes y ≡ some m → t.nodes y ≡ some m)
      → AllAt P is
      → AllStored s is
      → AllStored t is
  AllStored-at [] keeps a st = tt
  AllStored-at (i ∷ is) keeps (q, a) (st, sts) = (
    record {
      node = st.node;
      there = keeps i.at st.node q st.there;
      keyed = st.keyed;
      valued = st.valued;
      once = st.once;
      reaches = st.reaches;
      made = st.made;
    },
    AllStored-at is keeps a sts,
  )

  pub Links-at :
      (is : List Item)
      → ((y l : ℕ) (m : Node) → P y → s.nodes y ≡ some m → forward_at t y l ≡ forward_at s y l)
      → AllAt P is
      → AllStored s is
      → Links s is
      → Links t is
  Links-at [] same a st ls = tt
  Links-at (i ∷ is) same (q, a) (st, sts) (l, ls) =
      (λ k h. same i.at k st.node q st.there ∙ l k h, Links-at is same a sts ls)

  pub AllEnded-at :
      (is : List Item)
      → ((y : ℕ) (m : Node) → P y → t.nodes y ≡ some m → s.nodes y ≡ some m)
      → ((y l : ℕ) (m : Node) → P y → s.nodes y ≡ some m → forward_at t y l ≡ forward_at s y l)
      → AllAt P is
      → AllEnded s is
      → AllEnded t is
  AllEnded-at [] back same a es = tt
  AllEnded-at (i ∷ is) back same (q, a) (e, es) = (
    λ m w l p r. same i.at l m q (back i.at m q w) ∙ e m (back i.at m q w) l p r,
    AllEnded-at is back same a es,
  )

-- Items that are in the list below `top` alone
abbrev pub capped : ℕ → List Item → List Item
capped top [] = []
capped top (i ∷ is) = record i { reach = min i.reach top } ∷ capped top is

pub first-capped_low : (top l : ℕ) (is : List Item) → l < top → first l (capped top is) ≡ first l is
first-capped_low top l [] h = refl
first-capped_low top l (i ∷ is) h = ground (arith, first-capped_low top l is h)

pub first-capped_high : (top l : ℕ) (is : List Item) → top ≤ l → first l (capped top is) ≡ none
first-capped_high top l [] h = refl
first-capped_high top l (i ∷ is) h = ground (arith, first-capped_high top l is h)

pub capped-Links : (s : SkipList) (top : ℕ) (is : List Item) → Links s is → Links s (capped top is)
capped-Links s top [] ls = tt
capped-Links s top (i ∷ is) (l, ls) = (
  λ k h. l k (omega arith) ∙ ap some (sym (first-capped_low top k is (omega arith))),
  capped-Links s top is ls,
)

pub capped-AllStored :
    (s : SkipList) (top : ℕ) (is : List Item) → AllStored s is → AllStored s (capped top is)
capped-AllStored s top [] st = tt
capped-AllStored s top (i ∷ is) (st, sts) = (
  record {
    node = st.node;
    there = st.there;
    keyed = st.keyed;
    valued = st.valued;
    once = st.once;
    reaches = omega (arith, st.reaches);
    made = st.made;
  },
  capped-AllStored s top is sts,
)

pub capped-AllEnded :
    (s : SkipList) (top : ℕ) (is : List Item) → AllEnded s is → AllEnded s (capped top is)
capped-AllEnded s top [] es = tt
capped-AllEnded s top (i ∷ is) (e, es) = (e, capped-AllEnded s top is es)

capped-AllAbove : (k : Key) (top : ℕ) (is : List Item) → AllAbove k is → AllAbove k (capped top is)
capped-AllAbove k top [] a = tt
capped-AllAbove k top (i ∷ is) (h, a) = (h, capped-AllAbove k top is a)

pub capped-IsSorted : (top : ℕ) (is : List Item) → IsSorted is → IsSorted (capped top is)
capped-IsSorted top [] so = tt
capped-IsSorted top (i ∷ is) (a, so) = (capped-AllAbove i.key top is a, capped-IsSorted top is so)

pub capped-AllReach :
    (top level : ℕ) (is : List Item) → 0 < top → AllReach level is → AllReach level (capped top is)
capped-AllReach top level [] h r = tt
capped-AllReach top level (i ∷ is) h ((p, q), r) =
    ((omega arith, omega arith), capped-AllReach top level is h r)

pub entries_of-capped : (top : ℕ) (is : List Item) → entries_of (capped top is) ≡ entries_of is
entries_of-capped top [] = refl
entries_of-capped top (i ∷ is) = ap (λ es. (i.key, i.value) ∷ es) (entries_of-capped top is)

pub length-capped : (top : ℕ) (is : List Item) → length (capped top is) ≡ length is
length-capped top [] = refl
length-capped top (i ∷ is) = ap suc (length-capped top is)
