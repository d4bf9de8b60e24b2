-- ===== src/SkipList/Spliced.antt =====
-- skiplist_rm of a key that is there, up to the loop that splices its node out.
use libqb.Prelude.{
  ltb, leb, if◌then◌else◌, Bool-cases, ℕ, ◌+◌, ◌≤◌, ◌<◌, ◌≡◌, refl, ap, ◌∙◌, inl, inr, false, ◌&&◌,
  Option, none, some, List, [], ◌∷◌, ◌++◌, arith, lt→ltb, ne→beq, eq→beq,
}
use libqb.SkipList.{SkipList, Node, Forward, Update, level_count, no_update, forward_at}
use libqb.SkipList.Removing.{is_node, splice_loop}
use libqb.SkipList.Items.{
  Item, first, last_at, Forwards, Links, Stored, AllStored, AllStored-parts, AllReach-parts,
}
use libqb.SkipList.Writes.{IsMemory, with_arrays}
use libqb.SkipList.Apart.{
  IsApart, AllApart, keyless-IsApart, sorted-AllApart, last_at-there, AllApart-from,
}
use libqb.SkipList.Shape.{Shape, AllEnded}
use libqb.SkipList.Searching.{updates, updates-at}
use libqb.SkipList.Placing.{IsLast}
use libqb.SkipList.Splicing.{Ready, spliced_at, splice_loop-lem}
use libqb.SkipList.Unlinking.{unlink, unlink-ended}

pub last_at-forward :
    (s : SkipList) (l x : ℕ) (is js : List Item)
    → forward_at s x l ≡ some (first l (is ++ js))
    → Links s (is ++ js)
    → forward_at s (last_at l x is) l ≡ some (first l js)
last_at-forward s l x [] js e ls = e
last_at-forward s l x (i ∷ is) js e (k, ls) = elim (Bool-cases (ltb l i.reach)) [
  | inl t ↦ rw t (last_at-forward s l i.at is js (k l (ground arith)) ls)
  | inr t ↦ rw t (last_at-forward s l x is js (rw t at e) ls)
]

is_node-IsApart : (x l : ℕ) (is : List Item) → IsApart x is → is_node x (first l is) ≡ false
is_node-IsApart x l [] a = refl
is_node-IsApart x l (i ∷ is) (n, a) = elim (Bool-cases (ltb l i.reach)) [
  | inl t ↦ rw t (ne→beq x i.at n)
  | inr t ↦ rw t (is_node-IsApart x l is a)
]

within :
    (level reach l : ℕ)
    → reach ≤ level
    → ((leb 0 l && ltb l (0 + level)) && ltb l reach) ≡ ltb l reach
within level reach l h = ground arith

-- The pointers of the nodes from one on
Links-here :
    (s : SkipList) (i : Item) (is js : List Item)
    → Links s (is ++ (i ∷ js))
    → Forwards s i.at i.reach js
Links-here s i [] js (l, ls) = l
Links-here s i (k ∷ is) js (l, ls) = Links-here s i is js ls

module _ (s : SkipList) (front rest : List Item) (i : Item)
    (h : Shape s (front ++ (i ∷ rest))) where
  abbrev before_ : ℕ → ℕ
  before_ l = last_at l s.header front

  abbrev pub all_updates : Update
  all_updates = updates s.level s.header front no_update

  near : AllStored s front
  near = (AllStored-parts s front (i ∷ rest) h.stored).0

  pub here : Stored s i
  here = (AllStored-parts s front (i ∷ rest) h.stored).1.0

  apart : AllApart (front ++ (i ∷ rest))
  apart = sorted-AllApart s (front ++ (i ∷ rest)) h.stored h.sorted

  pub header-IsApart : IsApart s.header (front ++ (i ∷ rest))
  header-IsApart =
      keyless-IsApart s s.header h.header_node (front ++ (i ∷ rest)) h.header_there h.header_unkeyed
        h.stored

  next-here : (l : ℕ) → is_node i.at (first l (i ∷ rest)) ≡ ltb l i.reach
  next-here l = elim (Bool-cases (ltb l i.reach)) [
    | inl t ↦ rw t (eq→beq i.at i.at refl)
    | inr t ↦ rw t (is_node-IsApart i.at l rest (AllApart-from i front rest apart).1)
  ]

  ready : (l : ℕ) → l < s.level → Ready s i.at before_ (λ k. ltb k i.reach) all_updates l
  ready l p = (
    updates-at s.level l s.header front no_update
        ∙ ap (λ b. if b then some (before_ l) else none) (lt→ltb l s.level p),
    last_at-there s l s.header h.header_node front h.header_there near,
    (
      first l (i ∷ rest),
      last_at-forward s l s.header front (i ∷ rest) (h.forwards l (omega (arith, h.height)))
          h.links,
      next-here l,
    ),
  )

  spliced :
      (arrays : ℕ → Option Forward) × (splice_loop s.level 0 i.at all_updates s
        ≡ some (with_arrays s arrays))
      × IsMemory (with_arrays s arrays)
      × ((y l : ℕ) (m : Node)
          → s.nodes y ≡ some m
          → forward_at (with_arrays s arrays) y l
            ≡ spliced_at s i.at before_ ((leb 0 l && ltb l (0 + s.level)) && ltb l i.reach) y l)
  spliced =
      splice_loop-lem i.at here.node before_ (λ k. ltb k i.reach) all_updates s.level 0 s h.memory
        here.there (omega (arith, h.height)) (λ l p q. ready l (omega arith))

  is_last : (l : ℕ) → IsLast s before_ (i ∷ rest) front l s.header
  is_last l = record { last = refl; forward = h.forwards l; apart = header-IsApart }

  -- What the loop leaves: the pointers go past the node, and its own stay.
  pub record Past (t : SkipList) : Type 0 where
    pub memory : IsMemory t
    pub linked : Forwards t s.header level_count (front ++ rest) × Links t (front ++ rest)
    pub ended : AllEnded t (front ++ rest)
    pub own : (l : ℕ) → forward_at t i.at l ≡ forward_at s i.at l

  past :
      (arrays : ℕ → Option Forward)
      → IsMemory (with_arrays s arrays)
      → ((y l : ℕ) (m : Node)
          → s.nodes y ≡ some m
          → forward_at (with_arrays s arrays) y l
            ≡ spliced_at s i.at before_ ((leb 0 l && ltb l (0 + s.level)) && ltb l i.reach) y l)
      → Past (with_arrays s arrays)
  past arrays mem r =
      let (a, (b, c)) = AllReach-parts s.level front (i ∷ rest) h.reach in
      let (p, q) = b in
      let links_here = Links-here s i front rest h.links in
      let reads : (y l : ℕ) (m : Node)
          → s.nodes y ≡ some m
          → forward_at (with_arrays s arrays) y l ≡ spliced_at s i.at before_ (ltb l i.reach) y l =
        λ y l m e.
          r y l m e ∙ ap (λ b. spliced_at s i.at before_ b y l) (within s.level i.reach l q) in
      record {
        memory = mem;
        linked =
            unlink s (with_arrays s arrays) i rest before_ reads links_here front s.header
              level_count h.header_node (λ l. s.header) h.header_there h.forwards h.links h.stored
              header-IsApart apart is_last (λ l p. refl);
        ended =
            unlink-ended s (with_arrays s arrays) i rest before_ reads links_here front
              (λ l. s.header) near apart h.links is_last (λ y m e. e) h.ended;
        own = λ l. reads i.at l here.node here.there ∙ ground arith;
      }

  -- The loop succeeds.
  pub splice_loop-Past :
      (arrays : ℕ → Option Forward) × (splice_loop s.level 0 i.at all_updates s
        ≡ some (with_arrays s arrays))
      × Past (with_arrays s arrays)
  splice_loop-Past = let (arrays, e, mem, r) = spliced in (arrays, e, past arrays mem r)
