-- ===== src/SkipList/Writes.antt =====
-- Writes of forward pointers, and the reads that follow.
use libqb.Prelude.{
  ◌==◌, if◌then◌else◌, update, update_self, update_ne, ℕ, ◌<◌, ◌≡◌, sym, ap, ◌∙◌, subst, ◌&&◌,
  Option, some, arith, ℕ_discrete, ◌>>=◌,
}
use libqb.SkipList.{SkipList, Node, Forward, level_count, inside, forward_at, set_forward}

-- Every node has an array of pointers, and shares it with no other; malloc gives addresses that are
-- new.
pub record IsMemory (s : SkipList) : Type 0 where
  pub backed :
      (x : ℕ) (n : Node) → s.nodes x ≡ some n → (f : Forward) × (s.arrays n.forward ≡ some f)
  pub owned :
      (x y : ℕ) (m n : Node)
      → s.nodes x ≡ some m
      → s.nodes y ≡ some n
      → m.forward ≡ n.forward
      → x ≡ y
  pub given : (x : ℕ) (n : Node) → s.nodes x ≡ some n → (x < s.fresh) × (n.forward < s.fresh)

abbrev pub with_arrays : SkipList → (ℕ → Option Forward) → SkipList
with_arrays s arrays = record s { arrays = arrays }

pub forward_at-backed :
    (s : SkipList) (x level : ℕ) (n : Node) (f : Forward)
    → s.nodes x ≡ some n
    → s.arrays n.forward ≡ some f
    → forward_at s x level ≡ inside level (f level)
unfolding forward_at
forward_at-backed s x level n f e g =
    ap (λ m. m >>= λ n. s.arrays n.forward >>= λ f. inside level (f level)) e
    ∙ ap (λ m. m >>= λ f. inside level (f level)) g

pub inside-some : {A : Type 0} (level : ℕ) (v : A) → level < level_count → inside level v ≡ some v
inside-some level v h = ground arith

pub forward_at-some :
    (s : SkipList) (x level : ℕ) (n : Node)
    → IsMemory s
    → s.nodes x ≡ some n
    → level < level_count
    → (v : Option ℕ) × (forward_at s x level ≡ some v)
forward_at-some s x level n mem e h =
    let (f, g) = mem.backed x n e in
    (f level, forward_at-backed s x level n f e g ∙ inside-some level (f level) h)

module _ (s : SkipList) (mem : IsMemory s) (x level : ℕ) (v : Option ℕ) (n : Node)
    (there : s.nodes x ≡ some n) (low : level < level_count) where
  abbrev f : Forward
  f = (mem.backed x n there).0

  abbrev written : ℕ → Option Forward
  written = update s.arrays n.forward (some (update f level v))

  read_self :
      (l : ℕ)
      → forward_at (with_arrays s written) x l
        ≡ (if x == x && level == l then some v else forward_at s x l)
  read_self l =
      forward_at-backed (with_arrays s written) x l n (update f level v) there
        (update_self s.arrays n.forward (some (update f level v)))
      ∙ (elim (ℕ_discrete level l) [
        | yes e ↦ ground (arith, e)
        | no q ↦
            ap (inside l) (update_ne f level v l q)
            ∙ sym (forward_at-backed s x l n f there (mem.backed x n there).1)
            ∙ ground (arith, q)
      ])

  read_after :
      (y l : ℕ) (m : Node)
      → s.nodes y ≡ some m
      → forward_at (with_arrays s written) y l
        ≡ (if x == y && level == l then some v else forward_at s y l)
  read_after y l m e = elim (ℕ_discrete x y) [
    | yes q ↦
        subst
          (λ z.
            forward_at (with_arrays s written) z l
            ≡ (if x == z && level == l then some v else forward_at s z l))
          q (read_self l)
    | no q ↦
        forward_at-backed (with_arrays s written) y l m (mem.backed y m e).0 e (
          update_ne s.arrays n.forward (some (update f level v)) m.forward
            (λ p. q (mem.owned x y n m there e p))
          ∙ (mem.backed y m e).1)
        ∙ sym (forward_at-backed s y l m (mem.backed y m e).0 e (mem.backed y m e).1)
        ∙ ground (arith, q)
  ]

  written-IsMemory : IsMemory (with_arrays s written)
  written-IsMemory = record {
    backed = λ y m e. elim (ℕ_discrete n.forward m.forward) [
      | yes p ↦ (update f level v, ground (arith, p))
      | no p ↦ (
        (mem.backed y m e).0,
        update_ne s.arrays n.forward (some (update f level v)) m.forward p ∙ (mem.backed y m e).1,
      )
    ];
    owned = mem.owned;
    given = mem.given;
  }

  -- A write succeeds, and shows at its node and level alone.
  pub set_forward-lem :
      (arrays : ℕ → Option Forward) × (set_forward s x level v ≡ some (with_arrays s arrays))
      × IsMemory (with_arrays s arrays)
      × ((y l : ℕ) (m : Node)
          → s.nodes y ≡ some m
          → forward_at (with_arrays s arrays) y l
            ≡ (if x == y && level == l then some v else forward_at s y l))
  unfolding set_forward
  set_forward-lem = (
    written,
    ap
          (λ m. m >>= λ n. s.arrays n.forward >>= λ f.
            inside level (with_arrays s (update s.arrays n.forward (some (update f level v)))))
          there
        ∙ ap
            (λ m. m >>= λ f.
              inside level (with_arrays s (update s.arrays n.forward (some (update f level v)))))
            (mem.backed x n there).1
        ∙ inside-some level (with_arrays s written) low,
    written-IsMemory,
    read_after,
  )
