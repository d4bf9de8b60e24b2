-- ===== src/SkipList/Unlinking.antt =====
-- The pointers after an item has been spliced out of the list.
use libqb.Prelude.{
  ltb, if◌then◌else◌, Bool-cases, ℕ, ◌≤◌, ◌<◌, ◌≡◌, refl, sym, ap, ◌∙◌, subst, ◌≢◌, inl, inr, Bool,
  true, some, List, [], ◌∷◌, ◌++◌, arith, some-injective,
}
use libqb.SkipList.{SkipList, Node, forward_at}
use libqb.SkipList.Items.{
  Item, last_at, any_at, Forwards, Links, AllStored, last_at-none, first-any, first-none,
}
use libqb.SkipList.Apart.{IsApart, AllApart}
use libqb.SkipList.Shape.{AllEnded}
use libqb.SkipList.Splicing.{spliced_at}
use libqb.SkipList.Placing.{IsLast, step-IsLast, ends, last_at-IsApart}

spliced_at-else :
    (s : SkipList) (x : ℕ) (before_ : ℕ → ℕ) (inside : Bool) (y l : ℕ)
    → before_ l ≢ y
    → spliced_at s x before_ inside y l ≡ forward_at s y l
spliced_at-else s x before_ inside y l n = ground (arith, n)

spliced_at-before :
    (s : SkipList) (x : ℕ) (before_ : ℕ → ℕ) (y l : ℕ)
    → before_ l ≡ y
    → spliced_at s x before_ true y l ≡ forward_at s x l
spliced_at-before s x before_ y l n = ground (arith, n)

module _ (s t : SkipList) (j : Item) (rest : List Item) (before_ : ℕ → ℕ)
    (reads : (y l : ℕ) (m : Node)
      → s.nodes y ≡ some m
      → forward_at t y l ≡ spliced_at s j.at before_ (ltb l j.reach) y l)
    (behind : Forwards s j.at j.reach rest) where
  unlink-rest :
      (is : List Item)
      → ((l : ℕ) → IsApart (before_ l) is)
      → AllStored s is
      → Links s is
      → Links t is
  unlink-rest [] b st ls = tt
  unlink-rest (i ∷ is) b (st, sts) (l, ls) = (
    λ k h.
        reads i.at k st.node st.there
        ∙ spliced_at-else s j.at before_ (ltb k j.reach) i.at k (b k).0
        ∙ l k h,
    unlink-rest is (λ k. (b k).1) sts ls,
  )

  unlink-one :
      (front : List Item) (x r : ℕ) (m : Node)
      → s.nodes x ≡ some m
      → Forwards s x r (front ++ (j ∷ rest))
      → IsApart x (front ++ (j ∷ rest))
      → ((l : ℕ) → l < r → before_ l ≡ last_at l x front)
      → Forwards t x r (front ++ rest)
  unlink-one front x r m e fs a u l h = elim (Bool-cases (any_at l front)) [
    | inl v ↦
        reads x l m e
        ∙ spliced_at-else s j.at before_ (ltb l j.reach) x l
            (λ q. last_at-IsApart l x x front (j ∷ rest) a v (sym (u l h) ∙ q))
        ∙ fs l h
        ∙ ap some (first-any l front (j ∷ rest) rest v)
    | inr v ↦ elim (Bool-cases (ltb l j.reach)) [
      | inl w ↦
          reads x l m e
          ∙ ap (λ b. spliced_at s j.at before_ b x l) w
          ∙ spliced_at-before s j.at before_ x l (u l h ∙ last_at-none l x front v)
          ∙ behind l (ground arith)
          ∙ sym (ap some (first-none l front rest v))
      | inr w ↦
          reads x l m e
          ∙ ap (λ b. spliced_at s j.at before_ b x l) w
          ∙ fs l h
          ∙ ap some (first-none l front (j ∷ rest) v ∙ rw w refl ∙ sym (first-none l front rest v))
    ]
  ]

  -- The pointers of all the nodes from one on
  pub unlink :
      (front : List Item) (x r : ℕ) (m : Node) (d : ℕ → ℕ)
      → s.nodes x ≡ some m
      → Forwards s x r (front ++ (j ∷ rest))
      → Links s (front ++ (j ∷ rest))
      → AllStored s (front ++ (j ∷ rest))
      → IsApart x (front ++ (j ∷ rest))
      → AllApart (front ++ (j ∷ rest))
      → ((l : ℕ) → IsLast s before_ (j ∷ rest) front l (d l))
      → ((l : ℕ) → l < r → d l ≡ x)
      → Forwards t x r (front ++ rest) × Links t (front ++ rest)
  unlink [] x r m d e fs (l, ls) (st, sts) a ax dl dx = (
    unlink-one [] x r m e fs a (λ k h. (dl k).last ∙ dx k h),
    unlink-rest rest (λ k. subst (λ z. IsApart z rest) (sym (dl k).last) (dl k).apart.1) sts ls,
  )
  unlink (i ∷ is) x r m d e fs (l, ls) (st, sts) a (ai, ax) dl dx = (
    unlink-one (i ∷ is) x r m e fs a (λ k h. (dl k).last ∙ ap (λ z. last_at k z (i ∷ is)) (dx k h)),
    unlink is i.at i.reach st.node (λ k. if ltb k i.reach then i.at else d k) st.there l ls sts ai
        ax (λ k. step-IsLast s before_ (j ∷ rest) i is k (d k) l ai (dl k)) (λ k h. ground arith),
  )

  ended-rest :
      (is : List Item)
      → ((l : ℕ) → IsApart (before_ l) is)
      → ((y : ℕ) (m : Node) → t.nodes y ≡ some m → s.nodes y ≡ some m)
      → AllEnded s is
      → AllEnded t is
  ended-rest [] b k e = tt
  ended-rest (i ∷ is) b k (e, es) = (
    λ m q l p r.
        reads i.at l m (k i.at m q)
        ∙ spliced_at-else s j.at before_ (ltb l j.reach) i.at l (b l).0
        ∙ e m (k i.at m q) l p r,
    ended-rest is (λ l. (b l).1) k es,
  )

  -- No node gets a pointer above its level.
  pub unlink-ended :
      (front : List Item) (d : ℕ → ℕ)
      → AllStored s front
      → AllApart (front ++ (j ∷ rest))
      → Links s (front ++ (j ∷ rest))
      → ((l : ℕ) → IsLast s before_ (j ∷ rest) front l (d l))
      → ((y : ℕ) (m : Node) → t.nodes y ≡ some m → s.nodes y ≡ some m)
      → AllEnded s (front ++ (j ∷ rest))
      → AllEnded t (front ++ rest)
  unlink-ended [] d st ax ls dl k (e, es) =
      ended-rest rest (λ l. subst (λ z. IsApart z rest) (sym (dl l).last) (dl l).apart.1) k es
  unlink-ended (i ∷ is) d (st, sts) (ai, ax) (l, ls) dl k (e, es) = (
    λ m q v p r.
        reads i.at v m (k i.at m q)
        ∙ spliced_at-else s j.at before_ (ltb v j.reach) i.at v (λ z.
          ends s before_ (j ∷ rest) i is v (d v) st ai (dl v) z
            (subst (λ (n : Node). n.level ≤ v) (some-injective (sym (k i.at m q) ∙ st.there)) p))
        ∙ e m (k i.at m q) v p r,
    unlink-ended is (λ k. if ltb k i.reach then i.at else d k) sts ax ls
        (λ k. step-IsLast s before_ (j ∷ rest) i is k (d k) l ai (dl k)) k es,
  )
