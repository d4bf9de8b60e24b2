-- ===== src/SkipList/Placing.antt =====
-- The pointers after a new item has been linked in between two parts of the list.
use libqb.Prelude.{
  ltb, if◌then◌else◌, Bool-cases, ℕ, ◌≤◌, ◌<◌, ◌≡◌, refl, sym, ap, ◌∙◌, subst, ◌≢◌, inl, inr, true,
  none, some, List, [], ◌∷◌, ◌++◌, arith, lt→ltb, le→ltb, some-injective,
}
use libqb.SkipList.{SkipList, Node, level_count, forward_at}
use libqb.SkipList.Items.{
  Item, first, last_at, any_at, Forwards, Links, Stored, AllStored, last_at-none, last_at-cons,
  last_at-skip, first-any, first-none,
}
use libqb.SkipList.Shape.{AllEnded}
use libqb.SkipList.Apart.{IsApart, AllApart}
use libqb.SkipList.Linking.{linked_at, linked_at-else, linked_at-before, linked_at-new}

pub last_at-IsApart :
    (l x d : ℕ) (is js : List Item) → IsApart x (is ++ js) → any_at l is ≡ true → last_at l d is ≢ x
last_at-IsApart l x d [] js a e = cc
last_at-IsApart l x d (i ∷ is) js (n, a) e = elim (Bool-cases (any_at l is)) [
  | inl t ↦ λ q. last_at-IsApart l x i.at is js a t (sym (last_at-cons l d i is (inr t)) ∙ q)
  | inr t ↦
      λ q. n (sym q ∙ last_at-cons l d i is (inl (ground (arith, t))) ∙ last_at-none l i.at is t)
]

pub last_at-ne : (l x d : ℕ) (is js : List Item) → d ≢ x → IsApart x (is ++ js) → last_at l d is ≢ x
last_at-ne l x d [] js n a = n
last_at-ne l x d (i ∷ is) js n (p, a) = elim (Bool-cases (ltb l i.reach)) [
  | inl t ↦ rw t (last_at-ne l x i.at is js (λ q. p (sym q)) a)
  | inr t ↦ rw t (last_at-ne l x d is js n a)
]

-- `d` is the last node so far that is in the list on level `l`.
pub record IsLast (s : SkipList) (before_ : ℕ → ℕ) (rest front : List Item) (l d : ℕ) : Type 0 where
  pub last : before_ l ≡ last_at l d front
  pub forward : l < level_count → forward_at s d l ≡ some (first l (front ++ rest))
  pub apart : IsApart d (front ++ rest)

module _ (s : SkipList) (before_ : ℕ → ℕ) (rest : List Item) where
  pub step-IsLast :
      (i : Item) (is : List Item) (l d : ℕ)
      → Forwards s i.at i.reach (is ++ rest)
      → IsApart i.at (is ++ rest)
      → IsLast s before_ rest (i ∷ is) l d
      → IsLast s before_ rest is l (if ltb l i.reach then i.at else d)
  step-IsLast i is l d fs a h = elim (Bool-cases (ltb l i.reach)) [
    | inl t ↦
        rw t (record { last = h.last ∙ rw t refl; forward = λ p. fs l (ground arith); apart = a })
    | inr t ↦ rw t (record {
      last = h.last ∙ rw t refl;
      forward = λ p. h.forward p ∙ rw t refl;
      apart = h.apart.1;
    })
  ]

  -- A node is not the last one on a level above its own.
  pub ends :
      (i : Item) (is : List Item) (v d : ℕ) (st : Stored s i)
      → IsApart i.at (is ++ rest)
      → IsLast s before_ rest (i ∷ is) v d
      → before_ v ≡ i.at
      → st.node.level ≤ v
      → ⊥
  ends i is v d st a il z p = elim (Bool-cases (ltb v i.reach)) [
    | inl t ↦ let b : v < i.reach = ground arith in omega (arith, st.reaches, p, b)
    | inr t ↦
        last_at-ne v i.at d is rest il.apart.0 a (sym (last_at-skip v d i is t) ∙ sym il.last ∙ z)
  ]

module _ (s t : SkipList) (j : Item) (rest : List Item) (before_ : ℕ → ℕ)
    (reads : (y l : ℕ) (m : Node)
      → s.nodes y ≡ some m
      → forward_at t y l ≡ linked_at s j.at before_ (ltb l j.reach) y l)
    (nn : Node) (there : s.nodes j.at ≡ some nn) (low : j.reach ≤ level_count) where
  place-rest :
      (is : List Item)
      → ((l : ℕ) → IsApart (before_ l) is)
      → IsApart j.at is
      → AllStored s is
      → Links s is
      → Links t is
  place-rest [] b a st ls = tt
  place-rest (i ∷ is) b (n, a) (st, sts) (l, ls) = (
    λ k h.
        reads i.at k st.node st.there
        ∙ linked_at-else s j.at before_ i.at k (ltb k j.reach) n (b k).0
        ∙ l k h,
    place-rest is (λ k. (b k).1) a sts ls,
  )

  -- The pointers of one node before the new item
  place-one :
      (front : List Item) (x r : ℕ) (m : Node)
      → s.nodes x ≡ some m
      → j.at ≢ x
      → r ≤ level_count
      → Forwards s x r (front ++ rest)
      → IsApart x (front ++ rest)
      → ((l : ℕ) → l < r → before_ l ≡ last_at l x front)
      → Forwards t x r (front ++ (j ∷ rest))
  place-one front x r m e n b fs a u l h = elim (Bool-cases (any_at l front)) [
    | inl v ↦
        reads x l m e
        ∙ linked_at-else s j.at before_ x l (ltb l j.reach) n
            (λ q. last_at-IsApart l x x front rest a v (sym (u l h) ∙ q))
        ∙ fs l h
        ∙ ap some (first-any l front rest (j ∷ rest) v)
    | inr v ↦ elim (Bool-cases (ltb l j.reach)) [
      | inl w ↦
          reads x l m e
          ∙ ap (λ b. linked_at s j.at before_ b x l) w
          ∙ linked_at-before s j.at before_ x l n (u l h ∙ last_at-none l x front v)
          ∙ sym (ap some (first-none l front (j ∷ rest) v ∙ rw w refl))
      | inr w ↦
          reads x l m e
          ∙ ap (λ b. linked_at s j.at before_ b x l) w
          ∙ fs l h
          ∙ ap some (first-none l front rest v ∙ sym (first-none l front (j ∷ rest) v ∙ rw w refl))
    ]
  ]

  -- The pointers of the new node
  place-new : ((l : ℕ) → IsLast s before_ rest [] l (before_ l)) → Forwards t j.at j.reach rest
  place-new d l h =
      reads j.at l nn there
      ∙ ap (λ b. linked_at s j.at before_ b j.at l) (lt→ltb l j.reach h)
      ∙ linked_at-new s j.at before_ j.at l refl
      ∙ (d l).forward (omega arith)

  -- The pointers of all the nodes from one on
  pub place :
      (front : List Item) (x r : ℕ) (m : Node) (d : ℕ → ℕ)
      → s.nodes x ≡ some m
      → r ≤ level_count
      → IsApart j.at (front ++ rest)
      → j.at ≢ x
      → Forwards s x r (front ++ rest)
      → Links s (front ++ rest)
      → AllStored s (front ++ rest)
      → IsApart x (front ++ rest)
      → AllApart (front ++ rest)
      → ((l : ℕ) → IsLast s before_ rest front l (d l))
      → ((l : ℕ) → l < r → d l ≡ x)
      → Forwards t x r (front ++ (j ∷ rest)) × Links t (front ++ (j ∷ rest))
  place [] x r m d e b na n fs ls st a as' dl dx =
      let is_last : (l : ℕ) → IsLast s before_ rest [] l (before_ l) =
        λ l. subst (λ z. IsLast s before_ rest [] l z) (sym (dl l).last) (dl l) in
      (
        place-one [] x r m e n b fs a (λ l h. (dl l).last ∙ dx l h),
        (place-new is_last, place-rest rest (λ l. (is_last l).apart) na st ls),
      )
  place (i ∷ is) x r m d e b (ni, na) n fs (l, ls) (st, sts) (a, ax) (ai, as') dl dx = (
    place-one (i ∷ is) x r m e n b fs (a, ax)
        (λ k h. (dl k).last ∙ ap (λ z. last_at k z (i ∷ is)) (dx k h)),
    place is i.at i.reach st.node (λ k. if ltb k i.reach then i.at else d k) st.there
        (omega (arith, st.reaches, st.made)) na ni l ls sts ai as'
        (λ k. step-IsLast s before_ rest i is k (d k) l ai (dl k)) (λ k h. ground arith),
  )

  ended-rest :
      (is : List Item)
      → ((l : ℕ) → IsApart (before_ l) is)
      → IsApart j.at is
      → ((y : ℕ) (m : Node) → t.nodes y ≡ some m → s.nodes y ≡ some m)
      → AllEnded s is
      → AllEnded t is
  ended-rest [] b a k e = tt
  ended-rest (i ∷ is) b (n, a) k (e, es) = (
    λ m q l p r.
        reads i.at l m (k i.at m q)
        ∙ linked_at-else s j.at before_ i.at l (ltb l j.reach) n (b l).0
        ∙ e m (k i.at m q) l p r,
    ended-rest is (λ l. (b l).1) a k es,
  )

  -- No node gets a pointer above its level.
  pub place-ended :
      (front : List Item) (d : ℕ → ℕ)
      → IsApart j.at (front ++ rest)
      → AllStored s front
      → AllApart (front ++ rest)
      → Links s (front ++ rest)
      → ((l : ℕ) → IsLast s before_ rest front l (d l))
      → ((y : ℕ) (m : Node) → t.nodes y ≡ some m → s.nodes y ≡ some m)
      → ((l : ℕ) → j.reach ≤ l → l < level_count → forward_at s j.at l ≡ some none)
      → nn.level ≡ j.reach
      → AllEnded s (front ++ rest)
      → AllEnded t (front ++ (j ∷ rest))
  place-ended [] d na st ax ls dl k new made es = (
    λ m q l p r.
        let same : m ≡ nn = some-injective (sym (k j.at m q) ∙ there) in
        let over : j.reach ≤ l = subst (λ z. z ≤ l) (ap (λ (z : Node). z.level) same ∙ made) p in
        reads j.at l m (k j.at m q)
        ∙ ap (λ b. linked_at s j.at before_ b j.at l) (le→ltb l j.reach over)
        ∙ new l over r,
    ended-rest rest (λ l. subst (λ z. IsApart z rest) (sym (dl l).last) (dl l).apart) na k es,
  )
  place-ended (i ∷ is) d (ni, na) (st, sts) (ai, ax) (l, ls) dl k new made (e, es) = (
    λ m q v p r.
        reads i.at v m (k i.at m q)
        ∙ linked_at-else s j.at before_ i.at v (ltb v j.reach) ni (λ z.
          ends s before_ rest i is v (d v) st ai (dl v) z
            (subst (λ (n : Node). n.level ≤ v) (some-injective (sym (k i.at m q) ∙ st.there)) p))
        ∙ e m (k i.at m q) v p r,
    place-ended is (λ k. if ltb k i.reach then i.at else d k) na sts ax ls
        (λ k. step-IsLast s before_ rest i is k (d k) l ai (dl k)) k new made es,
  )
