-- ===== src/Prelude/Return.antt =====
-- What the C functions return: a count, or one of the error numbers they negate.
use Prim.Native.Nat.{ℕ}
use mathlib.Core.Path.{◌≡◌, ap, ◌∙◌}
use mathlib.Core.Option.{Option, none, some}

pub data Errno : Type 0 where
  einval eagain ebadmsg enobufs enotsup etimedout eidrm enoent enomem erange ebadf eexist enosys :
      Errno
  other : ℕ → Errno

-- An `int32_t` or `ssize_t` that is negative exactly when it reports an error.
pub data Ret : Type 0 where
  ok : ℕ → Ret
  err : Errno → Ret

-- A call that fails ends what follows it.
infixl 5 ◌>>=◌
abbrev pub ◌>>=◌ : {A B : Type 0} → Option A → (A → Option B) → Option B
none >>= f = none
some a >>= f = f a

pub bind-some :
    {A B : Type 0} {m : Option A} {a : A} {o : Option B} (f : A → Option B)
    → m ≡ some a
    → f a ≡ o
    → (m >>= f) ≡ o
bind-some f e h = ap (λ m. m >>= f) e ∙ h

some_or : {A : Type 0} → A → Option A → A
some_or a none = a
some_or a (some b) = b

pub some-injective : {A : Type 0} {a b : A} → some a ≡ some b → a ≡ b
unfolding some_or
some-injective {a = a} e = ap (some_or a) e

pub some_ne_none : {A : Type 0} {x : A} → some x ≡ none → ⊥
some_ne_none e = cc

pub none_ne_some : {A : Type 0} {x : A} → none ≡ some x → ⊥
none_ne_some e = cc
