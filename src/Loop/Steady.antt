-- ===== src/Loop/Steady.antt =====
-- What calls of the loop's interface keep: the lists of the levels, their counts, and at which level
-- the item of a source stands.
use libqb.Prelude.{
  ltb, ◌==◌, if◌then◌else◌, Bool-cases, length, length-append, update, update_ne, einval, Ret, err,
  ℕ, zero, suc, ◌+◌, ◌%◌, ◌≡◌, refl, sym, ap, ◌∙◌, subst, inl, inr, Bool, true, false, Option, none,
  some, List, [], ◌∷◌, ◌++◌, arith, ℕ_discrete, ne→beq, some-injective, none_ne_some,
}
use libqb.Loop.{
  Loop, Level, Item, Call, add_job, del_job, add_item, del_item, stop, set_level, remove_first,
  matches, level_item_add, level_item_del, job_add, job_del, del_from_job_head, call, calls,
  qb_loop_high, queue_job, del_from_wait_head, count_off, is_at, unlinked, unlink_item, unlink_or,
  unlink_below, count_off_if,
}

abbrev pub Each : (Item → Type 0) → List Item → Type 0
Each P [] = Unit {0}
Each P (item ∷ items) = P item × Each P items

-- The search took one item off, if any, and the others are as they were.
abbrev Removed : (Item → Type 0) → List Item → Option (List Item) → Type 0
Removed P xs none = Unit {0}
Removed P xs (some left) = (length xs ≡ length left + 1) × Each P left

module _ (P : Item → Type 0) where
  keep_head :
      (item : Item) (rest : List Item) (o : Option (List Item))
      → P item
      → Removed P rest o
      → Removed P (item ∷ rest) (elim o [ none ↦ none | some left ↦ some (item ∷ left) ])
  keep_head item rest none p h = tt
  keep_head item rest (some left) p (e, each) = (omega (arith, e), (p, each))

  remove_first-Removed :
      (test : Item → Bool) (xs : List Item) → Each P xs → Removed P xs (remove_first test xs)
  remove_first-Removed test [] each = tt
  remove_first-Removed test (item ∷ rest) (p, each) = elim (Bool-cases (test item)) [
    | inl t ↦ rw t (omega arith, each)
    | inr f ↦
        rw f (keep_head item rest (remove_first test rest) p (remove_first-Removed test rest each))
  ]

  pub Each-append : (xs ys : List Item) → Each P xs → Each P ys → Each P (xs ++ ys)
  Each-append [] ys h k = k
  Each-append (x ∷ xs) ys (p, h) k = (p, Each-append xs ys h k)

  remove_first-none :
      (address : ℕ) (xs : List Item)
      → Each P xs
      → ((item : Item) → P item → ¬ (item.address ≡ address))
      → remove_first (is_at address) xs ≡ none
  remove_first-none address [] each other_address = refl
  remove_first-none address (item ∷ rest) (p, each) other_address =
      rw
        (
          ne→beq item.address address (other_address item p),
          remove_first-none address rest each other_address,
        )
        refl

update_at : (f : ℕ → Level) (p : ℕ) (v : Level) (q : ℕ) → p ≡ q → update f p v q ≡ v
update_at f p v q e = ground arith

-- `home` gives the level of the source's entry whose item stands at an address; jobs have no such
-- level.
module _ (home : ℕ → Option ℕ) where
  -- An item that has a level is on the list of that level.
  abbrev pub AtHome : ℕ → Item → Type 0
  AtHome q item = (p : ℕ) → home item.address ≡ some p → p ≡ q

  abbrev pub Homeless : Item → Type 0
  Homeless item = home item.address ≡ none

  -- `todo` counts, as an `int32_t`, the items of the list and `k` that are being dispatched.
  pub record LevelOk (q k : ℕ) (v : Level) : Type 0 where
    pub counts : v.todo ≡ (length v.job_head + k) % 4294967296
    pub listed : Each (AtHome q) v.job_head
    pub waiting : Each Homeless v.wait_head

  abbrev pub Steady : (ℕ → ℕ) → Loop → Type 0
  Steady extra l = (q : ℕ) → LevelOk q (extra q) (l.level q)

  -- A call adds or deletes the item of a source at the level of its entry.
  abbrev pub CallAtHome : Call → Type 0
  CallAtHome (add_job none p user_data fn) = Unit {0}
  CallAtHome (add_job (some address) p user_data fn) = home address ≡ none
  CallAtHome (del_job p user_data fn) = Unit {0}
  CallAtHome (add_item p item) = home item.address ≡ some p
  CallAtHome (del_item p item) = home item.address ≡ some p
  CallAtHome stop = Unit {0}

  abbrev pub CallsAtHome : List Call → Type 0
  CallsAtHome [] = Unit {0}
  CallsAtHome (c ∷ cs) = CallAtHome c × CallsAtHome cs

  pub Homeless-AtHome : (q : ℕ) (xs : List Item) → Each Homeless xs → Each (AtHome q) xs
  Homeless-AtHome q [] h = tt
  Homeless-AtHome q (x ∷ xs) (n, h) =
      ((λ p e. absurd (none_ne_some (sym n ∙ e))), Homeless-AtHome q xs h)

  -- A level is replaced by one that is right, and the others were.
  replaced-Steady :
      (extra : ℕ → ℕ) (l : Loop) (p : ℕ) (v : Level)
      → ((q : ℕ) → ¬ (p ≡ q) → LevelOk q (extra q) (l.level q))
      → LevelOk p (extra p) v
      → Steady extra (set_level l p v)
  replaced-Steady extra l p v others at q = elim (ℕ_discrete p q) [
    | yes e ↦
        subst (λ w. LevelOk q (extra q) w) (sym (update_at l.level p v q e))
          (subst (λ r. LevelOk r (extra r) v) e at)
    | no ne ↦ subst (λ w. LevelOk q (extra q) w) (sym (update_ne l.level p v q ne)) (others q ne)
  ]

  pub set_level-Steady :
      (extra : ℕ → ℕ) (l : Loop) (p : ℕ) (v : Level)
      → Steady extra l
      → LevelOk p (extra p) v
      → Steady extra (set_level l p v)
  set_level-Steady extra l p v s at = replaced-Steady extra l p v (λ q ne. s q) at

  -- One item more is being dispatched, at level `p`.
  abbrev pub plus_one : (ℕ → ℕ) → ℕ → ℕ → ℕ
  plus_one extra p q = if p == q then extra q + 1 else extra q

  more_extra : (q j k : ℕ) (v : Level) → j ≡ k → LevelOk q j v → LevelOk q k v
  more_extra q j k v e h = subst (λ i. LevelOk q i v) e h

  plus_one_at : (extra : ℕ → ℕ) (p : ℕ) → extra p + 1 ≡ plus_one extra p p
  plus_one_at extra p = ground arith

  plus_one_ne : (extra : ℕ → ℕ) (p q : ℕ) → ¬ (p ≡ q) → extra q ≡ plus_one extra p q
  plus_one_ne extra p q ne = rw (ne→beq p q ne) refl

  pub one_more-Steady :
      (extra : ℕ → ℕ) (l : Loop) (p : ℕ) (v : Level)
      → Steady extra l
      → LevelOk p (extra p + 1) v
      → Steady (plus_one extra p) (set_level l p v)
  one_more-Steady extra l p v s at =
      replaced-Steady (plus_one extra p) l p v
        (λ q ne.
          more_extra q (extra q) (plus_one extra p q) (l.level q) (plus_one_ne extra p q ne) (s q))
        (more_extra p (extra p + 1) (plus_one extra p p) v (plus_one_at extra p) at)

  pub count_off-Steady :
      (extra : ℕ → ℕ) (l : Loop) (p : ℕ)
      → Steady (plus_one extra p) l
      → Steady extra (set_level l p (count_off (l.level p)))
  count_off-Steady extra l p s =
      let v : LevelOk p (plus_one extra p p) (l.level p) = s p in
      replaced-Steady extra l p (count_off (l.level p))
        (λ q ne.
          more_extra q (plus_one extra p q) (extra q) (l.level q) (sym (plus_one_ne extra p q ne))
            (s q))
        (record {
          counts = omega (arith, v.counts, plus_one_at extra p);
          listed = v.listed;
          waiting = v.waiting;
        })

  module _ (extra : ℕ → ℕ) where
    guarded :
        (t u : Bool) (l : Loop) (r : Ret × Loop)
        → Steady extra l
        → Steady extra r.1
        → Steady extra (if t then (err einval, l) else if u then (err einval, l) else r).1
    guarded true u l r c d = c
    guarded false true l r c d = c
    guarded false false l r c d = d

    job_add-Steady :
        (fresh : Option ℕ) (l : Loop) (p d f : ℕ)
        → CallAtHome (add_job fresh p d f)
        → Steady extra l
        → Steady extra (job_add fresh l p d f).1
    unfolding job_add queue_job
    job_add-Steady none l p d f h s =
        guarded (f == 0) (ltb qb_loop_high p) l (queue_job none l p d f) s s
    job_add-Steady (some address) l p d f h s =
        guarded (f == 0) (ltb qb_loop_high p) l (queue_job (some address) l p d f) s (
          set_level-Steady extra l p _ s (record {
            counts = (s p).counts;
            listed = (s p).listed;
            waiting = Each-append Homeless (l.level p).wait_head _ (s p).waiting (h, tt);
          }))

    -- Of a level that counts right, the item that a search finds is taken off the list.
    taken :
        (p k : ℕ) (v : Level) (left : List Item)
        → LevelOk p k v
        → Removed (AtHome p) v.job_head (some left)
        → LevelOk p (k + 1) (record v { job_head = left })
    taken p k v left h (e, each) = record {
      counts = omega (arith, h.counts, e);
      listed = each;
      waiting = h.waiting;
    }

    taken_counted :
        (p k : ℕ) (v : Level) (left : List Item)
        → LevelOk p k v
        → Removed (AtHome p) v.job_head (some left)
        → LevelOk p k (count_off (record v { job_head = left }))
    taken_counted p k v left h (e, each) = record {
      counts = omega (arith, h.counts, e);
      listed = each;
      waiting = h.waiting;
    }

    del_from_job_head-Steady :
        (l : Loop) (p : ℕ) (o : Option (List Item))
        → Steady extra l
        → Removed (AtHome p) (l.level p).job_head o
        → Steady extra (del_from_job_head l p o).1
    unfolding del_from_job_head
    del_from_job_head-Steady l p none s h = s
    del_from_job_head-Steady l p (some left) s h =
        set_level-Steady extra l p _ s (taken_counted p (extra p) (l.level p) left (s p) h)

    del_from_wait_head-Steady :
        (l : Loop) (p : ℕ) (test : Item → Bool) (o : Option (List Item))
        → Steady extra l
        → Removed Homeless (l.level p).wait_head o
        → Steady extra (del_from_wait_head l p test o).1
    unfolding del_from_wait_head
    del_from_wait_head-Steady l p test (some left) s (e, each) =
        set_level-Steady extra l p _ s
          (record { counts = (s p).counts; listed = (s p).listed; waiting = each })
    del_from_wait_head-Steady l p test none s h =
        del_from_job_head-Steady l p (remove_first test (l.level p).job_head) s
          (remove_first-Removed (AtHome p) test (l.level p).job_head (s p).listed)

    job_del-Steady : (l : Loop) (p d f : ℕ) → Steady extra l → Steady extra (job_del l p d f).1
    unfolding job_del
    job_del-Steady l p d f s =
        let test : Item → Bool = matches d f in
        let waiting : Option (List Item) = remove_first test (l.level p).wait_head in
        guarded (f == 0) (ltb qb_loop_high p) l (del_from_wait_head l p test waiting) s (
          del_from_wait_head-Steady l p test waiting s
            (remove_first-Removed Homeless test (l.level p).wait_head (s p).waiting))

    abbrev Unlinked : ℕ → Option Loop → Type 0
    Unlinked p none = Unit {0}
    Unlinked p (some m) = Steady (plus_one extra p) m

    unlinked-here :
        (l : Loop) (p n : ℕ) (rest : Option Loop) (o : Option (List Item))
        → p ≡ n
        → Steady extra l
        → Unlinked p rest
        → Removed (AtHome n) (l.level n).job_head o
        → Unlinked p (unlink_or l n rest (unlinked (l.level n) o none))
    unfolding unlink_or unlinked
    unlinked-here l p n rest none e s u r = u
    unlinked-here l p n rest (some left) e s u r =
        subst
          (λ q. Steady (plus_one extra q) (set_level l n (record (l.level n) { job_head = left })))
          (sym e) (one_more-Steady extra l n _ s (taken n (extra n) (l.level n) left (s n) r))

    -- An item is found at its own level only.
    unlink_below-Unlinked :
        (n address : ℕ) (l : Loop) (p : ℕ)
        → home address ≡ some p
        → Steady extra l
        → Unlinked p (unlink_below n address l)
    unfolding unlink_below unlink_item unlink_or unlinked
    unlink_below-Unlinked zero address l p h s = tt
    unlink_below-Unlinked (suc n) address l p h s =
        let rest : Unlinked p (unlink_below n address l) =
          unlink_below-Unlinked n address l p h s in
        let no_job =
          remove_first-none Homeless address (l.level n).wait_head (s n).waiting
            (λ i w e. none_ne_some (sym w ∙ ap home e ∙ h)) in
        elim (ℕ_discrete p n) [
          | yes e ↦ rw no_job (
              unlinked-here l p n (unlink_below n address l) _ e s rest
                (remove_first-Removed (AtHome n) (is_at address) (l.level n).job_head (s n).listed))
          | no ne ↦
              let elsewhere =
                remove_first-none (AtHome n) address (l.level n).job_head (s n).listed
                  (λ i w e. ne (w p (ap home e ∙ h))) in
              rw (elsewhere, no_job) rest
        ]

    count_off_if-Steady :
        (l : Loop) (p : ℕ) (o : Option Loop)
        → Steady extra l
        → Unlinked p o
        → Steady extra (count_off_if l p o)
    unfolding count_off_if
    count_off_if-Steady l p none s u = s
    count_off_if-Steady l p (some m) s u = count_off-Steady extra m p u

    call-Steady : (c : Call) (l : Loop) → CallAtHome c → Steady extra l → Steady extra (call c l)
    unfolding call level_item_add level_item_del
    call-Steady (add_job fresh p d f) l h s = job_add-Steady fresh l p d f h s
    call-Steady (del_job p d f) l h s = job_del-Steady l p d f s
    call-Steady (add_item p item) l h s = set_level-Steady extra l p _ s (record {
      counts = omega (arith, (s p).counts, length-append (l.level p).job_head (item ∷ []));
      listed =
          Each-append (AtHome p) (l.level p).job_head (item ∷ []) (s p).listed
            ((λ r e. some-injective (sym e ∙ h)), tt);
      waiting = (s p).waiting;
    })
    call-Steady (del_item p item) l h s =
        count_off_if-Steady l p (unlink_below 3 item.address l) s
          (unlink_below-Unlinked 3 item.address l p h s)
    call-Steady stop l h s = s

    pub calls-Steady :
        (cs : List Call) (l : Loop) → CallsAtHome cs → Steady extra l → Steady extra (calls cs l)
    unfolding calls
    calls-Steady [] l h s = s
    calls-Steady (c ∷ cs) l (h, hs) s = calls-Steady cs (call c l) hs (call-Steady c l h s)
