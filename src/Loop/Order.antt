-- ===== src/Loop/Order.antt =====
-- In which order a level dispatches its items.
use libqb.Prelude.{
  ltb, ◌==◌, if◌then◌else◌, length, length-append, einval, Ret, err, ℕ, zero, suc, ◌+◌, ◌≤◌, max,
  ◌≡◌, refl, sym, ap, ◌∙◌, subst, ◌⊎◌, inl, inr, Bool, true, false, Option, none, some, List, [],
  ◌∷◌, ◌++◌, append-nil, append_assoc, arith, ℕ_discrete, ne→beq, eq→beq,
}
use libqb.Loop.{
  count_off, Loop, Level, Item, Call, add_job, del_job, add_item, del_item, stop, set_level,
  level_item_add, job_add, queue_job, move_jobs, get_more_jobs, call, calls, dispatch_first,
  take_first, run_items, run_level, qb_loop_high,
}

-- A call that takes nothing off a list.
abbrev pub Keeps : Call → Type 0
Keeps (del_job p user_data fn) = ⊥
Keeps (del_item p item) = ⊥
Keeps c = Unit {0}

abbrev pub AllKeep : List Call → Type 0
AllKeep [] = Unit {0}
AllKeep (c ∷ cs) = Keeps c × AllKeep cs

-- The list of level `p`, with nothing gone from it and something added behind.
abbrev pub Longer : ℕ → Loop → Loop → Type 0
Longer p l l' = (added : List Item) × ((l'.level p).job_head ≡ (l.level p).job_head ++ added)

pub same-Longer :
    (p : ℕ) (l l' : Loop) → (l'.level p).job_head ≡ (l.level p).job_head → Longer p l l'
same-Longer p l l' e = ([], e ∙ sym (append-nil (l.level p).job_head))

pub Longer-trans : (p : ℕ) (l m n : Loop) → Longer p l m → Longer p m n → Longer p l n
Longer-trans p l m n (xs, e) (ys, f) =
    (xs ++ ys, f ∙ ap (λ zs. zs ++ ys) e ∙ append_assoc (l.level p).job_head xs ys)

pub at_level :
    (l : Loop) (p q : ℕ) (v : Level)
    → v.job_head ≡ (l.level q).job_head
    → ((set_level l q v).level p).job_head ≡ (l.level p).job_head
at_level l p q v e = elim (ℕ_discrete q p) [
  | yes s ↦
      ap (λ t. (if t then v else l.level p).job_head) (eq→beq q p s)
      ∙ e
      ∙ ap (λ k. (l.level k).job_head) s
  | no n ↦ ap (λ t. (if t then v else l.level p).job_head) (ne→beq q p n)
]

queue_job-same :
    (fresh : Option ℕ) (l : Loop) (p q d f : ℕ)
    → (((queue_job fresh l q d f).1).level p).job_head ≡ (l.level p).job_head
unfolding queue_job
queue_job-same none l p q d f = refl
queue_job-same (some address) l p q d f = at_level l p q _ refl

guarded-same :
    (t u : Bool) (l : Loop) (r : Ret × Loop) (p : ℕ)
    → ((r.1).level p).job_head ≡ (l.level p).job_head
    → (((if t then (err einval, l) else if u then (err einval, l) else r).1).level p).job_head
      ≡ (l.level p).job_head
guarded-same true u l r p e = refl
guarded-same false true l r p e = refl
guarded-same false false l r p e = e

item_added :
    (l : Loop) (p q : ℕ) (item : Item)
    → Longer p l (set_level l q (level_item_add (l.level q) item))
unfolding level_item_add
item_added l p q item = elim (ℕ_discrete q p) [
  | yes s ↦ (
    item ∷ [],
    ap (λ t. (if t then level_item_add (l.level q) item else l.level p).job_head) (eq→beq q p s)
        ∙ ap (λ k. (l.level k).job_head ++ (item ∷ [])) s,
  )
  | no n ↦
      same-Longer p l (set_level l q (level_item_add (l.level q) item)) (
        ap (λ t. (if t then level_item_add (l.level q) item else l.level p).job_head)
          (ne→beq q p n))
]

call-Longer : (c : Call) (l : Loop) (p : ℕ) → Keeps c → Longer p l (call c l)
unfolding call job_add
call-Longer (add_job fresh q d f) l p k = same-Longer p l (job_add fresh l q d f).1 (
    guarded-same (f == 0) (ltb qb_loop_high q) l (queue_job fresh l q d f) p
      (queue_job-same fresh l p q d f))
call-Longer (del_job q d f) l p k = absurd k
call-Longer (add_item q item) l p k = item_added l p q item
call-Longer (del_item q item) l p k = absurd k
call-Longer stop l p k = same-Longer p l (record l { stop_requested = true }) refl

pub calls-Longer : (cs : List Call) (l : Loop) (p : ℕ) → AllKeep cs → Longer p l (calls cs l)
unfolding calls
calls-Longer [] l p k = same-Longer p l l refl
calls-Longer (c ∷ cs) l p (k, ks) =
    Longer-trans p l (call c l) (calls cs (call c l)) (call-Longer c l p k)
      (calls-Longer cs (call c l) p ks)

-- What a level that may take `left` items dispatches from its list.
pub record Served (left p : ℕ) (l : Loop) (called : List Item) (l' : Loop) : Type 0 where
  pub added : List Item
  pub in_order : (l.level p).job_head ++ added ≡ called ++ (l'.level p).job_head
  pub bounded : length called ≤ left
  pub worked : (l'.stop_requested ≡ true) ⊎ ((length called ≡ left) ⊎ ((l'.level p).job_head ≡ []))

module _ (dispatch : Item → Loop → List Call)
    (keep : (i : Item) (l : Loop) → AllKeep (dispatch i l)) (p : ℕ) where
  dispatch_first-added :
      (l : Loop) (item : Item) (rest : List Item)
      → (added : List Item) × (((dispatch_first dispatch l p item rest).level p).job_head
          ≡ rest ++ added)
  unfolding dispatch_first
  dispatch_first-added l item rest =
      let off : Loop = set_level l p (record (l.level p) { job_head = rest }) in
      let back : Loop = calls (dispatch item off) off in
      let (added, e) = calls-Longer (dispatch item off) off p (keep item off) in
      (
        added,
        at_level back p p (count_off (back.level p)) refl
            ∙ e
            ∙ ap
                (λ t.
                  (if t then record (l.level p) { job_head = rest } else l.level p).job_head
                  ++ added)
                (eq→beq p p refl),
      )

  chosen :
      (t : Bool) (left : ℕ) (l after : Loop) (item : Item) (rest : List Item)
      (next : List Item × Loop)
      → (l.level p).job_head ≡ item ∷ rest
      → (added : List Item) × ((after.level p).job_head ≡ rest ++ added)
      → after.stop_requested ≡ t
      → Served left p after next.0 next.1
      → (let r : List Item × Loop = if t then (item ∷ [], after) else (item ∷ next.0, next.1) in
          Served (suc left) p l r.0 r.1)
  chosen true left l after item rest next e (added, f) stopped s = record {
    added = added;
    in_order = ap (λ xs. xs ++ added) e ∙ ap (λ xs. item ∷ xs) (sym f);
    bounded = omega arith;
    worked = inl stopped;
  }
  chosen false left l after item rest next e (added, f) stopped s = record {
    added = added ++ s.added;
    in_order =
        ap (λ xs. xs ++ (added ++ s.added)) e
        ∙ ap (λ xs. item ∷ xs)
            (sym (append_assoc rest added s.added) ∙ ap (λ xs. xs ++ s.added) (sym f) ∙ s.in_order);
    bounded = omega (arith, s.bounded);
    worked = elim s.worked [
      | inl q ↦ inl q
      | inr (inl q) ↦ inr (inl (omega (arith, q)))
      | inr (inr q) ↦ inr (inr q)
    ];
  }

  take_first-Served :
      (left : ℕ) (more : Loop → List Item × Loop) (l : Loop) (items : List Item)
      → ((m : Loop) → Served left p m (more m).0 (more m).1)
      → (l.level p).job_head ≡ items
      → Served
          (suc left)
          p
          l
          (take_first dispatch more l p items).0
          (take_first dispatch more l p items).1
  unfolding take_first
  take_first-Served left more l [] s e = record {
    added = [];
    in_order = append-nil (l.level p).job_head;
    bounded = omega arith;
    worked = inr (inr e);
  }
  take_first-Served left more l (item ∷ rest) s e =
      let after : Loop = dispatch_first dispatch l p item rest in
      chosen after.stop_requested left l after item rest (more after) e
        (dispatch_first-added l item rest) refl (s after)

  run_items-Served :
      (left : ℕ) (l : Loop)
      → Served left p l (run_items dispatch left l p).0 (run_items dispatch left l p).1
  unfolding run_items
  run_items-Served zero l = record {
    added = [];
    in_order = append-nil (l.level p).job_head;
    bounded = omega arith;
    worked = inr (inl refl);
  }
  run_items-Served (suc left) l =
      take_first-Served left (λ m. run_items dispatch left m p) l (l.level p).job_head
        (run_items-Served left) refl

  -- When no dispatched function takes items off a list, qb_loop_run_level serves its list first
  -- come, first served: the items dispatched and then those left are the items there were and then
  -- those added. It takes at most to_process of them (one, if that is 0), and fewer only when the
  -- list is empty or a stop was requested.
  pub run_level-Served :
      (l : Loop)
      → Served
          (max (l.level p).to_process 1)
          p
          l
          (run_level dispatch l p).0
          (run_level dispatch l p).1
  unfolding run_level
  run_level-Served l = run_items-Served (max (l.level p).to_process 1) l

abbrev pub MovedAt : Loop → ℕ → Type 0
MovedAt l p =
    (((get_more_jobs l).1.level p).job_head ≡ (l.level p).job_head ++ (l.level p).wait_head)
    × (((get_more_jobs l).1.level p).wait_head ≡ [])

three : (p : ℕ) → p ≤ 2 → (p ≡ 0) ⊎ ((p ≡ 1) ⊎ (p ≡ 2))
three p h = omega arith

-- get_more_jobs appends the jobs that wait at each of the three levels to the list of that level,
-- in their order, and leaves none waiting. It returns how many the lists have grown by.
pub get_more_jobs-moves :
    (l : Loop)
    → ((p : ℕ)
        → p ≤ 2
        → (((get_more_jobs l).1.level p).job_head ≡ (l.level p).job_head ++ (l.level p).wait_head)
          × (((get_more_jobs l).1.level p).wait_head ≡ []))
      × ((get_more_jobs l).0
            + length (l.level 0).job_head
            + length (l.level 1).job_head
            + length (l.level 2).job_head
          ≡ length (((get_more_jobs l).1).level 0).job_head
            + length (((get_more_jobs l).1).level 1).job_head
            + length (((get_more_jobs l).1).level 2).job_head)
unfolding get_more_jobs move_jobs
get_more_jobs-moves l = (
  λ p h. elim (three p h) [
    | inl e ↦ subst (λ k. MovedAt l k) (sym e) (refl, refl)
    | inr (inl e) ↦ subst (λ k. MovedAt l k) (sym e) (refl, refl)
    | inr (inr e) ↦ subst (λ k. MovedAt l k) (sym e) (refl, refl)
  ],
  omega (
    arith,
    length-append (l.level 0).job_head (l.level 0).wait_head,
    length-append (l.level 1).job_head (l.level 1).wait_head,
    length-append (l.level 2).job_head (l.level 2).wait_head,
  ),
)
