-- ===== src/Loop/Places.antt =====
-- Where an item stands on the list of its level, and how running the levels brings it nearer.
use libqb.Prelude.{
  if◌then◌else◌, lt_or_ge, length, get_elem?, ℕ, zero, suc, ◌-◌, ◌≤◌, ◌<◌, max, ◌≡◌, refl, sym, ap,
  ◌∙◌, subst, ◌≢◌, ◌⊎◌, inl, inr, Bool, true, false, Option, none, some, List, [], ◌∷◌, ◌++◌, arith,
  ℕ_discrete, ne→beq, le→leb, lt→leb,
}
use libqb.Loop.{
  count_off, int_add, Loop, Item, Call, set_level, calls, dispatch_first, take_first, run_items,
  run_level, run_levels,
}
use libqb.Loop.Order.{
  AllKeep, Longer, same-Longer, Longer-trans, at_level, calls-Longer, Served, run_level-Served,
}

-- An item in a list.
abbrev pub Among : Item → List Item → Type 0
Among item xs = (j : ℕ) × (get_elem? xs j ≡ some item)

get_elem?-append_left :
    (xs ys : List Item) (k : ℕ) {x : Item}
    → get_elem? xs k ≡ some x
    → get_elem? (xs ++ ys) k ≡ some x
get_elem?-append_left [] ys k e = cc
get_elem?-append_left (z ∷ xs) ys zero e = e
get_elem?-append_left (z ∷ xs) ys (suc k) e = get_elem?-append_left xs ys k e

pub Among-append_left : (item : Item) (xs ys : List Item) → Among item xs → Among item (xs ++ ys)
Among-append_left item xs ys (j, e) = (j, get_elem?-append_left xs ys j e)

pub Among-append_right : (item : Item) (xs ys : List Item) → Among item ys → Among item (xs ++ ys)
Among-append_right item [] ys a = a
Among-append_right item (z ∷ xs) ys a = let (j, e) = Among-append_right item xs ys a in (suc j, e)

-- An item of two lists is in the first, or so much further on in the second.
append-cases :
    (xs ys : List Item) (k : ℕ) {x : Item}
    → get_elem? (xs ++ ys) k ≡ some x
    → Among x xs ⊎ ((length xs ≤ k) × (get_elem? ys (k - length xs) ≡ some x))
append-cases [] ys k e =
    inr (omega arith, ap (λ i. get_elem? ys i) (let q : k - 0 ≡ k = omega arith in q) ∙ e)
append-cases (z ∷ xs) ys zero e = inl (0, e)
append-cases (z ∷ xs) ys (suc k) e = elim (append-cases xs ys k e) [
  | inl (j, q) ↦ inl (suc j, q)
  | inr (l, q) ↦ inr (
    omega (arith, l),
    ap (λ i. get_elem? ys i) (let s : suc k - suc (length xs) ≡ k - length xs = omega arith in s)
        ∙ q,
  )
]

-- What a step of the loop does to an item at place `k` of the list of level `p`: it comes to a stop,
-- or dispatches the item, or leaves it at a place from `k` down, and below `k` if `closer` holds.
abbrev pub Moved : ℕ → ℕ → Item → Type 0 → List Item → Loop → Type 0
Moved p k item closer called l =
    (l.stop_requested ≡ true)
    ⊎ (Among item called
        ⊎ ((j : ℕ) × (get_elem? (l.level p).job_head j ≡ some item) × (j ≤ k) × (closer → j < k)))

weaker :
    (p k : ℕ) (item : Item) (C : Type 0) (called : List Item) (l : Loop)
    → Moved p k item Unit called l
    → Moved p k item C called l
weaker p k item C called l (inl s) = inl s
weaker p k item C called l (inr (inl a)) = inr (inl a)
weaker p k item C called l (inr (inr (j, at, near, nearer))) =
    inr (inr (j, at, near, λ c. nearer tt))

pub kept_place :
    (p k : ℕ) (item : Item) (l l' : Loop)
    → Longer p l l'
    → get_elem? (l.level p).job_head k ≡ some item
    → get_elem? (l'.level p).job_head k ≡ some item
kept_place p k item l l' (added, e) at =
    ap (λ xs. get_elem? xs k) e ∙ get_elem?-append_left (l.level p).job_head added k at

nowhere : {x : Item} (j : ℕ) → get_elem? [] j ≡ some x → ⊥
nowhere j e = cc

if-Longer :
    (p : ℕ) (l : Loop) (t : Bool) (r s : List Item × Loop)
    → Longer p l r.1
    → Longer p l s.1
    → Longer p l (if t then r else s).1
if-Longer p l true r s a b = a
if-Longer p l false r s a b = b

module _ (dispatch : Item → Loop → List Call)
    (keep : (i : Item) (l : Loop) → AllKeep (dispatch i l)) where
  -- What another level dispatches takes nothing off the list of level `p`.
  dispatch_first-Longer :
      (p q : ℕ) (l : Loop) (item : Item) (rest : List Item)
      → q ≢ p
      → Longer p l (dispatch_first dispatch l q item rest)
  unfolding dispatch_first
  dispatch_first-Longer p q l item rest d =
      let off : Loop = set_level l q (record (l.level q) { job_head = rest }) in
      let back : Loop = calls (dispatch item off) off in
      let same : (off.level p).job_head ≡ (l.level p).job_head =
        ap (λ t. (if t then record (l.level q) { job_head = rest } else l.level p).job_head)
          (ne→beq q p d) in
      Longer-trans p l off (set_level back q (count_off (back.level q))) (same-Longer p l off same)
        (Longer-trans p off back (set_level back q (count_off (back.level q)))
          (calls-Longer (dispatch item off) off p (keep item off))
          (same-Longer p back (set_level back q (count_off (back.level q)))
            (at_level back p q (count_off (back.level q)) refl)))

  take_first-Longer :
      (p q : ℕ) (more : Loop → List Item × Loop) (l : Loop) (items : List Item)
      → q ≢ p
      → ((m : Loop) → Longer p m (more m).1)
      → Longer p l (take_first dispatch more l q items).1
  unfolding take_first
  take_first-Longer p q more l [] d m = same-Longer p l l refl
  take_first-Longer p q more l (item ∷ rest) d m =
      let after : Loop = dispatch_first dispatch l q item rest in
      if-Longer p l after.stop_requested (item ∷ [], after) (item ∷ (more after).0, (more after).1)
        (dispatch_first-Longer p q l item rest d)
        (Longer-trans p l after (more after).1 (dispatch_first-Longer p q l item rest d) (m after))

  run_items-Longer : (p q left : ℕ) (l : Loop) → q ≢ p → Longer p l (run_items dispatch left l q).1
  unfolding run_items
  run_items-Longer p q zero l d = same-Longer p l l refl
  run_items-Longer p q (suc left) l d =
      take_first-Longer p q (λ m. run_items dispatch left m q) l (l.level q).job_head d
        (λ m. run_items-Longer p q left m d)

  -- Running the item's level dispatches it or brings it nearer.
  run_level-Moved :
      (p k : ℕ) (item : Item) (l : Loop)
      → get_elem? (l.level p).job_head k ≡ some item
      → Moved p k item Unit (run_level dispatch l p).0 (run_level dispatch l p).1
  run_level-Moved p k item l at =
      let s : Served (max (l.level p).to_process 1) p l (run_level dispatch l p).0
          (run_level dispatch l p).1 =
        run_level-Served dispatch keep p l in
      elim (append-cases (run_level dispatch l p).0 ((run_level dispatch l p).1.level p).job_head k
        (sym (ap (λ xs. get_elem? xs k) s.in_order)
          ∙ get_elem?-append_left (l.level p).job_head s.added k at)) [
            | inl a ↦ inr (inl a)
            | inr (l_, there) ↦ elim s.worked [
              | inl stopped ↦ inl stopped
              | inr (inl full) ↦ inr (
                  inr (
                    k - length (run_level dispatch l p).0,
                    there,
                    omega arith,
                    λ u. omega (arith, full, l_),
                  ))
              | inr (inr gone) ↦ absurd (
                  nowhere (k - length (run_level dispatch l p).0) (
                    ap (λ xs. get_elem? xs (k - length (run_level dispatch l p).0)) (sym gone)
                    ∙ there))
            ]
          ]

  -- What the levels below `q` do to an item, as a result of run_levels.
  abbrev pub LevelsMoved : ℕ → ℕ → Item → ℕ → ℕ → List Item × Option ℕ × Loop → Type 0
  LevelsMoved p k item p_stop q r = Moved p k item ((p < q) × (p_stop ≤ p)) r.0 r.2

  -- Level `q` has run, or not, and left the item at place `j`; then the levels below it run.
  then_levels :
      (p k j : ℕ) (item : Item) (p_stop q : ℕ) (called : List Item)
      (r : List Item × Option ℕ × Loop)
      → j ≤ k
      → ((q ≡ p) → p_stop ≤ p → j < k)
      → LevelsMoved p j item p_stop q r
      → LevelsMoved p k item p_stop (suc q) (called ++ r.0, r.1, r.2)
  then_levels p k j item p_stop q called r l g (inl s) = inl s
  then_levels p k j item p_stop q called r l g (inr (inl a)) =
      inr (inl (Among-append_right item called r.0 a))
  then_levels p k j item p_stop q called r l g (inr (inr (i, at, near, nearer))) = inr (
      inr (
        i,
        at,
        omega (arith, near, l),
        λ (below, stop_). elim (ℕ_discrete q p) [
          | yes e ↦ omega (arith, g e stop_, near)
          | no d ↦ omega (arith, nearer (omega (arith, below, d), stop_), l)
        ],
      ))

  after_level :
      (p k : ℕ) (item : Item) (p_stop q : ℕ) (b : Bool) (called : List Item) (after : Loop)
      (r : List Item × Option ℕ × Loop)
      → after.stop_requested ≡ b
      → Moved p k item (q ≡ p) called after
      → ((j : ℕ)
          → get_elem? (after.level p).job_head j ≡ some item
          → LevelsMoved p j item p_stop q r)
      → LevelsMoved p k item p_stop
          (suc q)
          (if b then (called, none, after) else (called ++ r.0, r.1, r.2))
  after_level p k item p_stop q true called after r e m more = inl e
  after_level p k item p_stop q false called after r e (inl s) more =
      let no : true ≡ false = sym s ∙ e in cc
  after_level p k item p_stop q false called after r e (inr (inl a)) more =
      inr (inl (Among-append_left item called r.0 a))
  after_level p k item p_stop q false called after r e (inr (inr (j, at, near, nearer))) more =
      then_levels p k j item p_stop q called r near (λ s stop_. nearer s) (more j at)

  level_ran :
      (p k q : ℕ) (item : Item) (l : Loop)
      → get_elem? (l.level p).job_head k ≡ some item
      → Moved p k item (q ≡ p) (run_level dispatch l q).0 (run_level dispatch l q).1
  unfolding run_level
  level_ran p k q item l at = elim (ℕ_discrete q p) [
    | yes e ↦
        subst (λ c. Moved p k item (c ≡ p) (run_level dispatch l c).0 (run_level dispatch l c).1)
          (sym e)
          (weaker p k item (p ≡ p) (run_level dispatch l p).0 (run_level dispatch l p).1
            (run_level-Moved p k item l at))
    | no d ↦ inr (
        inr (
          k,
          kept_place p k item l (run_level dispatch l q).1
              (run_items-Longer p q (max (l.level q).to_process 1) l d) at,
          omega arith,
          λ e. absurd (d e),
        ))
  ]

  pub levels-LevelsMoved :
      (p : ℕ) (item : Item) (p_stop q remaining k : ℕ) (l : Loop)
      → get_elem? (l.level p).job_head k ≡ some item
      → LevelsMoved p k item p_stop q (run_levels dispatch q p_stop remaining l)
  unfolding run_levels
  levels-LevelsMoved p item p_stop zero remaining k l at =
      inr (inr (k, at, omega arith, λ (b, s). absurd (omega (arith, b))))
  levels-LevelsMoved p item p_stop (suc q) remaining k l at =
      let ran : List Item × Loop = run_level dispatch l q in
      elim (lt_or_ge q p_stop) [
        | inl below ↦ rw (lt→leb p_stop q below) (
            then_levels p k k item p_stop q []
              (run_levels dispatch q p_stop (int_add remaining (l.level q).todo) l) (omega arith)
              (λ e s. absurd (omega (arith, below, e, s)))
              (levels-LevelsMoved p item p_stop q (int_add remaining (l.level q).todo) k l at))
        | inr run_ ↦ rw (le→leb p_stop q run_) (
            after_level p k item p_stop q ran.1.stop_requested ran.0 ran.1
              (run_levels dispatch q p_stop (int_add remaining (ran.1.level q).todo) ran.1) refl
              (level_ran p k q item l at)
              (λ j there.
                levels-LevelsMoved p item p_stop q (int_add remaining (ran.1.level q).todo) j ran.1
                  there))
      ]

  levels-stops :
      (b : Bool) (called : List Item) (after : Loop) (r : List Item × Option ℕ × Loop)
      → after.stop_requested ≡ b
      → ((r.1 ≡ none) → r.2.stop_requested ≡ true)
      → (let s : List Item × Option ℕ × Loop =
            if b then (called, none, after) else (called ++ r.0, r.1, r.2) in
          (s.1 ≡ none) → s.2.stop_requested ≡ true)
  levels-stops true called after r e m q = e
  levels-stops false called after r e m q = m q

  pub run_levels-stops :
      (q p_stop remaining : ℕ) (l : Loop)
      → (run_levels dispatch q p_stop remaining l).1 ≡ none
      → (run_levels dispatch q p_stop remaining l).2.stop_requested ≡ true
  unfolding run_levels
  run_levels-stops zero p_stop remaining l = λ e. cc
  run_levels-stops (suc q) p_stop remaining l = elim (lt_or_ge q p_stop) [
    | inl below ↦
        rw (lt→leb p_stop q below)
          (run_levels-stops q p_stop (int_add remaining (l.level q).todo) l)
    | inr run_ ↦ rw (le→leb p_stop q run_) (
        let ran : List Item × Loop = run_level dispatch l q in
        levels-stops ran.1.stop_requested ran.0 ran.1
          (run_levels dispatch q p_stop (int_add remaining (ran.1.level q).todo) ran.1) refl
          (run_levels-stops q p_stop (int_add remaining (ran.1.level q).todo) ran.1))
  ]
