-- ===== src/SkipList/Added.antt =====
-- The memory after skiplist_put has made a node, before it is linked in.
use libqb.Prelude.{
  update, update_self, update_ne, ℕ, ◌+◌, ◌<◌, ◌≡◌, sym, ap, ◌∙◌, ◌≢◌, ◌⊎◌, inl, inr, none, some,
  List, arith, ℕ_discrete, some-injective,
}
use libqb.Map.{Notification}
use libqb.SkipList.{SkipList, Node, level_count, forward_at}
use libqb.SkipList.Nodes.{zeroed}
use libqb.SkipList.Writes.{IsMemory, forward_at-backed, inside-some}

-- The list with one more node and its array, at the next address.
abbrev pub with_node : SkipList → Node → ℕ → List Notification → SkipList
with_node s n level calls = record s {
  level = level;
  nodes = update s.nodes s.fresh (some n);
  arrays = update s.arrays s.fresh (some zeroed);
  fresh = s.fresh + 1;
  calls = calls;
}

module _ (s : SkipList) (mem : IsMemory s) (n : Node) (level : ℕ) (calls : List Notification)
    (own : n.forward ≡ s.fresh) where
  abbrev pub added : SkipList
  added = with_node s n level calls

  pub node-old : (y : ℕ) (m : Node) → s.nodes y ≡ some m → added.nodes y ≡ some m
  node-old y m e =
      update_ne s.nodes s.fresh (some n) y
        (λ q. let (b, c) = mem.given y m e in omega (arith, q, b))
      ∙ e

  pub node-new : added.nodes s.fresh ≡ some n
  node-new = update_self s.nodes s.fresh (some n)

  pub node-cases :
      (y : ℕ) (m : Node)
      → added.nodes y ≡ some m
      → ((y ≡ s.fresh) × (m ≡ n)) ⊎ ((y ≢ s.fresh) × (s.nodes y ≡ some m))
  node-cases y m e = elim (ℕ_discrete s.fresh y) [
    | yes q ↦
        inl
          (sym q, some-injective (sym e ∙ ap (update s.nodes s.fresh (some n)) (sym q) ∙ node-new))
    | no q ↦ inr (λ p. q (sym p), sym (update_ne s.nodes s.fresh (some n) y q) ∙ e)
  ]

  pub forward_at-old :
      (y l : ℕ) (m : Node) → s.nodes y ≡ some m → forward_at added y l ≡ forward_at s y l
  forward_at-old y l m e =
      let (f, g) = mem.backed y m e in
      let (p, q) = mem.given y m e in
      forward_at-backed added y l m f (node-old y m e)
        (update_ne s.arrays s.fresh (some zeroed) m.forward (λ z. omega (arith, z, q)) ∙ g)
      ∙ sym (forward_at-backed s y l m f e g)

  pub forward_at-new : (l : ℕ) → l < level_count → forward_at added s.fresh l ≡ some none
  forward_at-new l h =
      forward_at-backed added s.fresh l n zeroed node-new (
        ap (update s.arrays s.fresh (some zeroed)) own ∙ update_self s.arrays s.fresh (some zeroed))
      ∙ inside-some l none h

  pub added-IsMemory : IsMemory added
  added-IsMemory = record {
    backed = λ y m e. elim (node-cases y m e) [
      | inl (p, q) ↦ (
        zeroed,
        ap (update s.arrays s.fresh (some zeroed)) (ap (λ (z : Node). z.forward) q ∙ own)
            ∙ update_self s.arrays s.fresh (some zeroed),
      )
      | inr (p, q) ↦
          let (f, g) = mem.backed y m q in
          (
            f,
            update_ne s.arrays s.fresh (some zeroed) m.forward
                  (λ z. let (a, b) = mem.given y m q in omega (arith, z, b))
                ∙ g,
          )
    ];
    owned = λ x y m k e f g. elim (node-cases x m e) [
      | inl (p, q) ↦ elim (node-cases y k f) [
        | inl (p', q') ↦ p ∙ sym p'
        | inr (p', q') ↦
            let (a, b) = mem.given y k q' in
            let z = ap (λ (z : Node). z.forward) q ∙ own in omega (arith, z, b, g)
      ]
      | inr (p, q) ↦ elim (node-cases y k f) [
        | inl (p', q') ↦
            let (a, b) = mem.given x m q in
            let z = ap (λ (z : Node). z.forward) q' ∙ own in omega (arith, z, b, g)
        | inr (p', q') ↦ mem.owned x y m k q q' g
      ]
    ];
    given = λ y m e. elim (node-cases y m e) [
      | inl (p, q) ↦
          let z = ap (λ (z : Node). z.forward) q ∙ own in (omega (arith, p), omega (arith, z))
      | inr (p, q) ↦ let (a, b) = mem.given y m q in (omega arith, omega arith)
    ];
  }
