-- ===== src/Timers/Swap.antt =====
-- The exchange of two entries that both sift loops of include/tlist.h make.
use libqb.Prelude.{
  ◌>>=◌, ◌==◌, if◌then◌else◌, update, ℕ, ◌<◌, ◌≡◌, refl, sym, ap, ◌∙◌, ◌≢◌, Option, some, arith,
}
use libqb.Timers.{TimerList, Timer, entry_set, entry_get}

abbrev pub key : TimerList → ℕ → ℕ
key l i = (l.timers (l.heap_entries i)).expire_time

-- Each entry's timer knows its place.
abbrev pub Consistent : TimerList → Type 0
Consistent l = (i : ℕ) → i < l.size → (l.timers (l.heap_entries i)).heap_pos ≡ i

-- The timer has a place in the heap, and stands there.
abbrev pub In : TimerList → ℕ → Type 0
In l t = ((l.timers t).heap_pos < l.size) × (l.heap_entries (l.timers t).heap_pos ≡ t)

-- All of a timer but its place.
abbrev pub contents : TimerList → ℕ → Timer
contents l t = record (l.timers t) { heap_pos = 0 }

-- The same timers stand in both heaps, in other places perhaps, and nothing else has changed.
pub record Rearranged (l l' : TimerList) : Type 0 where
  pub size : l'.size ≡ l.size
  pub allocated : l'.allocated ≡ l.allocated
  pub handles : l'.handles ≡ l.handles
  pub same : (t : ℕ) → contents l' t ≡ contents l t
  pub consistent : Consistent l'
  pub into : (t : ℕ) → In l t → In l' t
  pub back : (t : ℕ) → In l' t → In l t

pub Rearranged-refl : (l : TimerList) → Consistent l → Rearranged l l
Rearranged-refl l c = record {
  size = refl;
  allocated = refl;
  handles = refl;
  same = λ t. refl;
  consistent = c;
  into = λ t p. p;
  back = λ t p. p;
}

pub Rearranged-trans : {l m k : TimerList} → Rearranged l m → Rearranged m k → Rearranged l k
Rearranged-trans r s = record {
  size = s.size ∙ r.size;
  allocated = s.allocated ∙ r.allocated;
  handles = s.handles ∙ r.handles;
  same = λ t. s.same t ∙ r.same t;
  consistent = s.consistent;
  into = λ t p. s.into t (r.into t p);
  back = λ t p. r.back t (s.back t p);
}

pub Rearranged-time :
    {l l' : TimerList}
    → Rearranged l l'
    → (t : ℕ) → (l'.timers t).expire_time ≡ (l.timers t).expire_time
Rearranged-time r t = ap (λ x. x.expire_time) (r.same t)

pub entry_get-in : (l : TimerList) (i : ℕ) → i < l.size → entry_get l i ≡ some (l.heap_entries i)
unfolding entry_get
entry_get-in l i h = ground arith

abbrev pub swap_entries : TimerList → ℕ → ℕ → TimerList
swap_entries l a b =
    let ta = l.heap_entries a in
    let tb = l.heap_entries b in
    let half = update l.timers tb (record (l.timers tb) { heap_pos = a }) in
    record l {
      heap_entries = update (update l.heap_entries a tb) b ta;
      timers = update half ta (record (half ta) { heap_pos = b });
    }

module _ (l : TimerList) (a b : ℕ) (c : Consistent l) (ha : a < l.size) (hb : b < l.size)
    (ne : a ≢ b) where
  pub sets-swap :
      {B : Type 0} (next : TimerList → Option B)
      → (entry_set l a (l.heap_entries b) >>= λ l1. entry_set l1 b (l.heap_entries a) >>= next)
        ≡ next (swap_entries l a b)
  unfolding entry_set
  sets-swap next = ground arith

  distinct : l.heap_entries a ≢ l.heap_entries b
  distinct e = ne (sym (c a ha) ∙ (ap (λ t. (l.timers t).heap_pos) e ∙ c b hb))

  same_contents : (t : ℕ) → contents (swap_entries l a b) t ≡ contents l t
  same_contents t = ground arith

  pub key-swap :
      (k : ℕ)
      → key (swap_entries l a b) k
        ≡ (if b == k then key l a else if a == k then key l b else key l k)
  key-swap k =
      ap (λ x. x.expire_time) (same_contents ((swap_entries l a b).heap_entries k)) ∙ ground arith

  swap-Consistent : Consistent (swap_entries l a b)
  swap-Consistent k hk = ground (arith, c a ha, c b hb, c k hk, distinct)

  swap-into : (t : ℕ) → In l t → In (swap_entries l a b) t
  swap-into t (p, q) = ground (arith, c a ha, c b hb, distinct)

  swap-back : (t : ℕ) → In (swap_entries l a b) t → In l t
  swap-back t (p, q) = ground (arith, c a ha, c b hb, distinct)

  pub swap-Rearranged : Rearranged l (swap_entries l a b)
  swap-Rearranged = record {
    size = refl;
    allocated = refl;
    handles = refl;
    same = same_contents;
    consistent = swap-Consistent;
    into = swap-into;
    back = swap-back;
  }
