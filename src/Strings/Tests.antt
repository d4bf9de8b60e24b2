-- ===== src/Strings/Tests.antt =====
-- Tests of the string functions, in a buffer that holds "ab".
use libqb.Prelude.{
  ◌==◌, if◌then◌else◌, ℕ, zero, suc, ◌≤◌, ◌<◌, ◌≡◌, refl, ap, ◌∙◌, Option, some, List, [], ◌∷◌,
  arith,
}
use libqb.Strings.{Bytes, strlcpy, strlcat, strchrnul}
use libqb.Strings.Bounds.{
  Copied, IsStrlen, AllNonzero, strlcpy-bounded, strlcat-bounded, strlcat-overruns,
}

abbrev buffer : Bytes
buffer i = if i == 0 then 97 else if i == 1 then 98 else 0

abbrev text : List ℕ
text = 99 ∷ 100 ∷ 101 ∷ []

text-AllNonzero : AllNonzero text
text-AllNonzero zero b e = λ z. let q : ◌≡◌ {A = Option ℕ} (some 99) (some 0) = e ∙ ap some z in cc
text-AllNonzero (suc zero) b e =
    λ z. let q : ◌≡◌ {A = Option ℕ} (some 100) (some 0) = e ∙ ap some z in cc
text-AllNonzero (suc (suc zero)) b e =
    λ z. let q : ◌≡◌ {A = Option ℕ} (some 101) (some 0) = e ∙ ap some z in cc
text-AllNonzero (suc (suc (suc i))) b e = cc

buffer-IsStrlen : IsStrlen buffer 2
buffer-IsStrlen = record { ended = refl; nonzero = λ i h. ground arith }

strchrnul-finds : (strchrnul text 356 ≡ 1) × (strchrnul text 120 ≡ 3)
unfolding strchrnul
strchrnul-finds = (refl, refl)

strlcpy-bounded_example :
    (let r = strlcpy buffer 0 text 3 in
      (r.0 ≡ 3)
      × ((j : ℕ) → 3 ≤ j → r.1 j ≡ buffer j)
      × ((0 < 3) → Copied buffer 0 text 2 r.1 × IsStrlen r.1 2))
strlcpy-bounded_example = strlcpy-bounded buffer text 3 text-AllNonzero

strlcat-bounded_example :
    (let r = strlcat buffer 2 text 5 in
      (r.0 ≡ 5)
      × Copied buffer 2 text 2 r.1
      × IsStrlen r.1 4
      × ((j : ℕ) → 5 ≤ j → r.1 j ≡ buffer j))
strlcat-bounded_example =
    strlcat-bounded buffer 2 text 5 buffer-IsStrlen text-AllNonzero (omega arith) (omega arith)
      (omega arith)

strlcat-overruns_example : Copied buffer 2 text 3 (strlcat buffer 2 text 1).1
strlcat-overruns_example = strlcat-overruns buffer 2 text 1 (omega arith) (omega arith)
