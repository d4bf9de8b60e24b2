-- ===== src/Strings.antt =====
-- lib/strlcpy.c, lib/strlcat.c and lib/strchrnul.c: the string functions for systems whose C library
-- has none. A `const char *` that is only read is the list of its bytes before the NUL, and a buffer
-- is memory that starts at the pointer. strlen and memcpy are the C library's: the length of the
-- string in a buffer is an argument.
pub mod Bounds
mod Tests
use libqb.Prelude.{
  ltb, ◌==◌, if◌then◌else◌, length, update, ℕ, zero, suc, ◌+◌, ◌-◌, ◌%◌, min, List, [], ◌∷◌,
}

-- Memory from a pointer on.
abbrev pub Bytes : Type 0
Bytes = ℕ → ℕ

abbrev pub take : ℕ → List ℕ → List ℕ
take zero bs = []
take (suc n) [] = []
take (suc n) (b ∷ bs) = b ∷ take n bs

-- What memcpy does: the bytes are written one after the other, from place `at` on.
unfoldable pub memcpy : Bytes → ℕ → List ℕ → Bytes
memcpy dest at [] = dest
memcpy dest at (b ∷ bs) = memcpy (update dest at b) (at + 1) bs

-- strlcpy to the place `at` of `dest`
unfoldable pub strlcpy : Bytes → ℕ → List ℕ → ℕ → ℕ × Bytes
unfolding memcpy
strlcpy dest at src maxlen =
    let srclen = length src in
    let len2cpy = min (maxlen - 1) srclen in
    (
      srclen,
      if maxlen == 0 then dest else update (memcpy dest at (take len2cpy src)) (at + len2cpy) 0,
    )

-- strlcat, where `curlen` is strlen(dest)
unfoldable pub strlcat : Bytes → ℕ → List ℕ → ℕ → ℕ × Bytes
unfolding strlcpy
strlcat dest curlen src maxlen =
    let addlen = length src in
    let appendlen = (maxlen + 18446744073709551616 - curlen) % 18446744073709551616 in
    (
      (curlen + addlen) % 18446744073709551616,
      if ltb 0 appendlen then (strlcpy dest curlen src appendlen).1 else dest,
    )

-- The `while` of strchrnul: how far it goes.
unfoldable pub strchrnul_loop : ℕ → List ℕ → ℕ
strchrnul_loop c [] = 0
strchrnul_loop c (b ∷ bs) = let rest = strchrnul_loop c bs in if b == c then 0 else suc rest

-- strchrnul, as the distance from `s` to the pointer it returns
unfoldable pub strchrnul : List ℕ → ℕ → ℕ
unfolding strchrnul_loop
strchrnul s c_in = strchrnul_loop (c_in % 256) s
