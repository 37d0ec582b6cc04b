-- ===== src/Common/TextLaws.antt =====
-- Laws of the C string functions on a text that is put together from parts.
use lwsip.Common.Tests.{◌==◌, ==_refl, Bool-cases}
use lwsip.Common.Text.{Bytes, break_at, strchr, str_eq}
use Prim.Native.Nat.{ℕ}
use mathlib.Core.Path.{◌≡◌, refl}
use mathlib.Core.Logic.{inl, inr}
use mathlib.Core.Bool.{Bool, true, false}
use mathlib.Core.Option.{none, some}
use mathlib.Core.List.{[], ◌∷◌, ◌++◌}
use native.Mathlib.Omega.{arith}

-- No byte of the text passes the test.
abbrev pub Avoids : (ℕ → Bool) → Bytes → Type 0
Avoids stop [] = Unit
Avoids stop (c ∷ s) = (stop c ≡ false) × Avoids stop s

abbrev pub is_byte : ℕ → ℕ → Bool
is_byte b c = c == b

pub Avoids-append :
    (stop : ℕ → Bool) (xs ys : Bytes) → Avoids stop xs → Avoids stop ys → Avoids stop (xs ++ ys)
Avoids-append stop [] ys h k = k
Avoids-append stop (c ∷ xs) ys h k = (h.0, Avoids-append stop xs ys h.1 k)

pub strchr-append :
    (b : ℕ) (xs ys : Bytes) → Avoids (is_byte b) xs → strchr b (xs ++ b ∷ ys) ≡ some (xs, ys)
unfolding strchr
strchr-append b [] ys h = rw (==_refl b)
strchr-append b (c ∷ xs) ys h = rw (h.0, strchr-append b xs ys h.1)

pub strchr-Avoids : (b : ℕ) (xs : Bytes) → Avoids (is_byte b) xs → strchr b xs ≡ none
unfolding strchr
strchr-Avoids b [] h = refl
strchr-Avoids b (c ∷ xs) h = rw (h.0, strchr-Avoids b xs h.1)

-- A text stops at the first byte that passes the test, or at its end.
abbrev pub Stops : (ℕ → Bool) → Bytes → Type 0
Stops stop [] = Unit
Stops stop (c ∷ s) = stop c ≡ true

pub break_at-append :
    (stop : ℕ → Bool) (xs ys : Bytes)
    → Avoids stop xs
    → Stops stop ys
    → break_at stop (xs ++ ys) ≡ (xs, ys)
unfolding break_at
break_at-append stop [] [] h k = refl
break_at-append stop [] (y ∷ ys) h k = rw k
break_at-append stop (c ∷ xs) ys h k = rw (h.0, break_at-append stop xs ys h.1 k)

pub str_eq_refl : (s : Bytes) → str_eq s s ≡ true
unfolding str_eq
str_eq_refl [] = refl
str_eq_refl (c ∷ s) = rw (==_refl c) (str_eq_refl s)

pub str_eq→eq : (s t : Bytes) → str_eq s t ≡ true → s ≡ t
unfolding str_eq
str_eq→eq [] [] h = refl
str_eq→eq [] (y ∷ t) h = cc
str_eq→eq (x ∷ s) [] h = cc
str_eq→eq (x ∷ s) (y ∷ t) h = elim (Bool-cases (x == y)) [
  | inl e ↦ let first : x ≡ y = ground arith in ground (arith, str_eq→eq s t)
  | inr ne ↦ ground arith
]
