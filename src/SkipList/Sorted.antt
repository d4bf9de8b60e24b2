-- ===== src/SkipList/Sorted.antt =====
-- The order of the items, and what changes when one is put in, taken out, or gets another value.
use libqb.Prelude.{ℕ, ◌≡◌, refl, ap, ◌∙◌, some, List, [], ◌∷◌, ◌++◌, arith}
use libqb.Map.Keys.{Key}
use libqb.Map.Order.{less, strcmp, strcmp-less_greater, strcmp_unflip}
use libqb.SkipList.{SkipList}
use libqb.SkipList.Items.{Item, first, Links, AllBelow, AllAbove, IsSorted}

pub AllAbove-trans :
    (j k : Key) (is : List Item) → strcmp j k ≡ less → AllAbove k is → AllAbove j is
AllAbove-trans j k [] h a = tt
AllAbove-trans j k (i ∷ is) h (a, as') =
    (strcmp-less_greater i.key j k h a, AllAbove-trans j k is h as')

pub AllAbove-join :
    (k : Key) (is js : List Item) → AllAbove k is → AllAbove k js → AllAbove k (is ++ js)
AllAbove-join k [] js a b = b
AllAbove-join k (i ∷ is) js (h, a) b = (h, AllAbove-join k is js a b)

pub AllAbove-parts :
    (k : Key) (is js : List Item) → AllAbove k (is ++ js) → AllAbove k is × AllAbove k js
AllAbove-parts k [] js h = (tt, h)
AllAbove-parts k (i ∷ is) js (h, hs) = let (a, b) = AllAbove-parts k is js hs in ((h, a), b)

pub IsSorted-insert :
    (j : Item) (front rest : List Item)
    → IsSorted (front ++ rest)
    → AllBelow j.key front
    → AllAbove j.key rest
    → IsSorted (front ++ (j ∷ rest))
IsSorted-insert j [] rest so b a = (a, so)
IsSorted-insert j (i ∷ is) rest (h, so) (l, b) a =
    let (p, q) = AllAbove-parts i.key is rest h in
    (
      AllAbove-join i.key is (j ∷ rest) p (strcmp_unflip i.key j.key l, q),
      IsSorted-insert j is rest so b a,
    )

pub IsSorted-remove :
    (j : Item) (front rest : List Item) → IsSorted (front ++ (j ∷ rest)) → IsSorted (front ++ rest)
IsSorted-remove j [] rest (a, so) = so
IsSorted-remove j (i ∷ is) rest (h, so) =
    let (p, (q, r)) = AllAbove-parts i.key is (j ∷ rest) h in
    (AllAbove-join i.key is rest p r, IsSorted-remove j is rest so)

-- An item with another value
abbrev pub revalued : Item → ℕ → Item
revalued i value = record i { value = value }

pub first-revalued :
    (l : ℕ) (i : Item) (v : ℕ) (is js : List Item)
    → first l (is ++ (i ∷ js)) ≡ first l (is ++ (revalued i v ∷ js))
first-revalued l i v [] js = refl
first-revalued l i v (k ∷ is) js = ground (arith, first-revalued l i v is js)

pub Links-revalued :
    (s : SkipList) (i : Item) (v : ℕ) (is js : List Item)
    → Links s (is ++ (i ∷ js))
    → Links s (is ++ (revalued i v ∷ js))
Links-revalued s i v [] js ls = ls
Links-revalued s i v (k ∷ is) js (l, ls) =
    (λ m h. l m h ∙ ap some (first-revalued m i v is js), Links-revalued s i v is js ls)

pub IsSorted-revalued :
    (i : Item) (v : ℕ) (is js : List Item)
    → IsSorted (is ++ (i ∷ js))
    → IsSorted (is ++ (revalued i v ∷ js))
IsSorted-revalued i v [] js so = so
IsSorted-revalued i v (k ∷ is) js (h, so) =
    let (p, q) = AllAbove-parts k.key is (i ∷ js) h in
    (AllAbove-join k.key is (revalued i v ∷ js) p q, IsSorted-revalued i v is js so)
