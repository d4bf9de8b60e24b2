-- ===== src/Strings/Bounds.antt =====
-- What strlcpy and strlcat write, and where.
use libqb.Prelude.{
  lt_or_ge, length, get_elem?, update, update_self, update_ne, ℕ, zero, suc, ◌+◌, ◌-◌, ◌%◌, ◌≤◌,
  ◌<◌, min, ◌≡◌, refl, sym, ap, ◌∙◌, subst, ◌≢◌, ◌⊎◌, inl, inr, some, List, [], ◌∷◌, arith, lt→ltb,
  ne→beq,
}
use libqb.Strings.{Bytes, take, memcpy, strlcpy, strlcat}

-- The first `n` bytes of a string were written to place `at`, with a NUL behind them, and nothing
-- else was.
pub record Copied (dest : Bytes) (at : ℕ) (src : List ℕ) (n : ℕ) (dest' : Bytes) : Type 0 where
  pub inside : (i : ℕ) → i < n → get_elem? src i ≡ some (dest' (at + i))
  pub ended : dest' (at + n) ≡ 0
  pub before : (j : ℕ) → j < at → dest' j ≡ dest j
  pub behind : (j : ℕ) → at + n < j → dest' j ≡ dest j

-- strlen: the buffer has `n` bytes before its first NUL.
pub record IsStrlen (dest : Bytes) (n : ℕ) : Type 0 where
  pub ended : dest n ≡ 0
  pub nonzero : (i : ℕ) → i < n → dest i ≢ 0

abbrev pub AllNonzero : List ℕ → Type 0
AllNonzero bs = (i b : ℕ) → get_elem? bs i ≡ some b → b ≢ 0

length-take : (n : ℕ) (bs : List ℕ) → n ≤ length bs → length (take n bs) ≡ n
length-take zero bs h = refl
length-take (suc n) [] h = absurd (omega arith)
length-take (suc n) (b ∷ bs) h = ap suc (length-take n bs (omega arith))

get_elem?-take : (n i : ℕ) (bs : List ℕ) → i < n → get_elem? (take n bs) i ≡ get_elem? bs i
get_elem?-take zero i bs h = absurd (omega arith)
get_elem?-take (suc n) i [] h = refl
get_elem?-take (suc n) zero (b ∷ bs) h = refl
get_elem?-take (suc n) (suc i) (b ∷ bs) h = get_elem?-take n i bs (omega arith)

memcpy-outside :
    (bs : List ℕ) (dest : Bytes) (at j : ℕ)
    → (j < at) ⊎ (at + length bs ≤ j)
    → memcpy dest at bs j ≡ dest j
unfolding memcpy
memcpy-outside [] dest at j h = refl
memcpy-outside (b ∷ bs) dest at j h =
    memcpy-outside bs (update dest at b) (at + 1) j (omega arith)
    ∙ update_ne dest at b j (λ e. absurd (omega arith))

memcpy-inside :
    (bs : List ℕ) (dest : Bytes) (at i : ℕ)
    → i < length bs
    → get_elem? bs i ≡ some (memcpy dest at bs (at + i))
unfolding memcpy
memcpy-inside [] dest at i h = absurd (omega arith)
memcpy-inside (b ∷ bs) dest at zero h = sym (
    ap some (
      memcpy-outside bs (update dest at b) (at + 1) (at + 0) (inl (omega arith))
      ∙ ap (update dest at b) (let e : at + 0 ≡ at = omega arith in e)
      ∙ update_self dest at b))
memcpy-inside (b ∷ bs) dest at (suc i) h =
    memcpy-inside bs (update dest at b) (at + 1) i (omega arith)
    ∙ ap (λ j. some (memcpy (update dest at b) (at + 1) bs j))
        (let e : at + 1 + i ≡ at + suc i = omega arith in e)

strlcpy-Copied :
    (dest : Bytes) (at : ℕ) (src : List ℕ) (maxlen : ℕ)
    → 0 < maxlen
    → Copied dest at src (min (maxlen - 1) (length src)) (strlcpy dest at src maxlen).1
unfolding strlcpy
strlcpy-Copied dest at src maxlen pos =
    let n : ℕ = min (maxlen - 1) (length src) in
    let part : List ℕ = take n src in
    let whole : length part ≡ n = length-take n src (omega arith) in
    let copied : Bytes = memcpy dest at part in
    rw (ne→beq maxlen 0 (λ e. absurd (omega arith))) (record {
      inside = λ i h.
          sym (get_elem?-take n i src h)
          ∙ memcpy-inside part dest at i (omega (arith, h, whole))
          ∙ ap some
              (sym (update_ne copied (at + n) 0 (at + i) (λ e. absurd (omega (arith, e, h)))));
      ended = update_self copied (at + n) 0;
      before = λ j h.
          update_ne copied (at + n) 0 j (λ e. absurd (omega (arith, e, h)))
          ∙ memcpy-outside part dest at j (inl h);
      behind = λ j h.
          update_ne copied (at + n) 0 j (λ e. absurd (omega (arith, e, h)))
          ∙ memcpy-outside part dest at j (inr (omega (arith, whole, h)));
    })

-- Where a string was and another was written behind it there is their concatenation.
appended-IsStrlen :
    (dest : Bytes) (at : ℕ) (src : List ℕ) (n : ℕ) (dest' : Bytes)
    → IsStrlen dest at
    → AllNonzero src
    → Copied dest at src n dest'
    → IsStrlen dest' (at + n)
appended-IsStrlen dest at src n dest' s nz c = record {
  ended = c.ended;
  nonzero = λ i h. elim (lt_or_ge i at) [
    | inl early ↦ λ z. s.nonzero i early (sym (c.before i early) ∙ z)
    | inr late ↦
        let place : at + (i - at) ≡ i = omega (arith, late) in
        let read : get_elem? src (i - at) ≡ some (dest' i) =
          c.inside (i - at) (omega (arith, h, late)) ∙ ap (λ k. some (dest' k)) place in
        nz (i - at) (dest' i) read
  ];
}

start-IsStrlen :
    (dest : Bytes) (src : List ℕ) (n : ℕ) (dest' : Bytes)
    → AllNonzero src
    → Copied dest 0 src n dest'
    → IsStrlen dest' n
start-IsStrlen dest src n dest' nz c = record {
  ended = ap dest' (let e : n ≡ 0 + n = omega arith in e) ∙ c.ended;
  nonzero = λ i h.
      nz i (dest' i)
        (c.inside i h ∙ ap (λ k. some (dest' k)) (let e : 0 + i ≡ i = omega arith in e));
}

-- strlcpy returns the length of the string. For a size that is not 0 it writes as much of the
-- string as fits before a NUL, which is then the end of the string in the buffer, and nothing at or
-- behind the size; for the size 0 it writes nothing.
pub strlcpy-bounded :
    (dest : Bytes) (src : List ℕ) (maxlen : ℕ)
    → AllNonzero src
    → (let r = strlcpy dest 0 src maxlen in
        (r.0 ≡ length src)
        × ((j : ℕ) → maxlen ≤ j → r.1 j ≡ dest j)
        × ((0 < maxlen)
            → Copied dest 0 src (min (maxlen - 1) (length src)) r.1
              × IsStrlen r.1 (min (maxlen - 1) (length src))))
unfolding strlcpy
strlcpy-bounded dest src zero nz = (refl, λ j h. refl, λ h. absurd (omega arith))
strlcpy-bounded dest src (suc m) nz =
    let c : Copied dest 0 src (min (suc m - 1) (length src)) (strlcpy dest 0 src (suc m)).1 =
      strlcpy-Copied dest 0 src (suc m) (omega arith) in
    (
      refl,
      λ j h. c.behind j (omega (arith, h)),
      λ h. (
        c,
        start-IsStrlen dest src (min (suc m - 1) (length src)) (strlcpy dest 0 src (suc m)).1 nz c,
      ),
    )

-- strlcat to a string that ends before the size returns the sum of the lengths, and appends as much
-- of the other string as fits before a NUL, which is then the end of the string in the buffer. It
-- writes nothing at or behind the size.
pub strlcat-bounded :
    (dest : Bytes) (curlen : ℕ) (src : List ℕ) (maxlen : ℕ)
    → IsStrlen dest curlen
    → AllNonzero src
    → curlen < maxlen
    → maxlen < 18446744073709551616
    → curlen + length src < 18446744073709551616
    → (let r = strlcat dest curlen src maxlen in
        (r.0 ≡ curlen + length src)
        × Copied dest curlen src (min (maxlen - curlen - 1) (length src)) r.1
        × IsStrlen r.1 (curlen + min (maxlen - curlen - 1) (length src))
        × ((j : ℕ) → maxlen ≤ j → r.1 j ≡ dest j))
unfolding strlcat
strlcat-bounded dest curlen src maxlen s nz room small sum =
    let appendlen : (maxlen + 18446744073709551616 - curlen) % 18446744073709551616
        ≡ maxlen - curlen =
      omega (arith, room, small) in
    let c : Copied dest curlen src (min (maxlen - curlen - 1) (length src))
        (strlcpy dest curlen src (maxlen - curlen)).1 =
      strlcpy-Copied dest curlen src (maxlen - curlen) (omega (arith, room)) in
    rw appendlen (
      rw (lt→ltb 0 (maxlen - curlen) (omega (arith, room))) (
        omega (arith, sum),
        c,
        appended-IsStrlen dest curlen src (min (maxlen - curlen - 1) (length src))
            (strlcpy dest curlen src (maxlen - curlen)).1 s nz c,
        λ j h. c.behind j (omega (arith, h, room)),
      ))

-- strlcat to a string that is longer than the size does not stop there, when the two lengths
-- together are a `size_t`: `maxlen - curlen` wraps around, and the whole other string is written
-- behind the first one, past the size.
pub strlcat-overruns :
    (dest : Bytes) (curlen : ℕ) (src : List ℕ) (maxlen : ℕ)
    → maxlen < curlen
    → curlen + length src < 18446744073709551616
    → Copied dest curlen src (length src) (strlcat dest curlen src maxlen).1
unfolding strlcat
strlcat-overruns dest curlen src maxlen over sum =
    let appendlen : (maxlen + 18446744073709551616 - curlen) % 18446744073709551616
        ≡ maxlen + 18446744073709551616 - curlen =
      omega (arith, over, sum) in
    let most : min (maxlen + 18446744073709551616 - curlen - 1) (length src) ≡ length src =
      omega (arith, over, sum) in
    rw appendlen (
      rw (lt→ltb 0 (maxlen + 18446744073709551616 - curlen) (omega (arith, over, sum))) (
        subst
          (λ n.
            Copied dest curlen src n
              (strlcpy dest curlen src (maxlen + 18446744073709551616 - curlen)).1)
          most
          (strlcpy-Copied dest curlen src (maxlen + 18446744073709551616 - curlen)
            (omega (arith, over, sum)))))
