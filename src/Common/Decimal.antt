-- ===== src/Common/Decimal.antt =====
-- Decimal numbers as `printf` writes them and as a loop over digits reads them.
use Prim.Native.Nat.{ℕ, zero, suc, ◌+◌, ◌-◌, ◌*◌, ◌/◌, ◌%◌, ◌^◌, ◌≤◌, ◌<◌}
use mathlib.Core.Path.{◌≡◌, refl, ap, ◌∙◌}
use mathlib.Core.Logic.{inl, inr}
use native.Mathlib.Nat.{pow-suc}
use mathlib.Core.Bool.{Bool, true, false, ◌&&◌}
use mathlib.Core.List.{[], ◌∷◌, ◌++◌, append_assoc}
use native.Mathlib.Omega.{arith}
use lwsip.Common.Tests.{Bool-cases, ltb, leb, if◌then◌else◌}
use lwsip.Common.Lists.{length, length-append}
use lwsip.Common.Text.{Bytes, is_empty}

abbrev pub is_digit : ℕ → Bool
is_digit c = leb b'0' c && leb c b'9'

-- The decimal digits of `n`, at most `fuel` of them.
unfoldable pub decimal_fuel : ℕ → ℕ → Bytes
decimal_fuel zero n = []
decimal_fuel (suc fuel) n =
    let more = decimal_fuel fuel (n / 10) ++ ((b'0' + n % 10) ∷ []) in
    if ltb n 10 then (b'0' + n) ∷ [] else more

-- `%u` and `%d` of a number below 10^10.
unfoldable pub decimal : ℕ → Bytes
unfolding decimal_fuel
decimal n = decimal_fuel 10 n

-- `while (*p >= '0' && *p <= '9') { n = n * 10 + (*p - '0'); p++; }`
unfoldable pub read_digits : ℕ → Bytes → ℕ
read_digits n [] = n
read_digits n (c ∷ s) =
    let rest = read_digits (n * 10 + (c - b'0')) s in if is_digit c then rest else n

-- The text does not go on with a digit.
abbrev pub EndsNumber : Bytes → Type 0
EndsNumber [] = Unit
EndsNumber (c ∷ s) = is_digit c ≡ false

read_digits-end : (n : ℕ) (s : Bytes) → EndsNumber s → read_digits n s ≡ n
unfolding read_digits
read_digits-end n [] h = refl
read_digits-end n (c ∷ s) h = ground arith

read_digits-last :
    (n d : ℕ) (s : Bytes) → d < 10 → read_digits n ((b'0' + d) ∷ s) ≡ read_digits (n * 10 + d) s
unfolding read_digits
read_digits-last n d s h = ground arith

read_digits-decimal_fuel :
    (fuel n : ℕ) (s : Bytes)
    → n < 10 ^ fuel
    → read_digits 0 (decimal_fuel fuel n ++ s) ≡ read_digits n s
unfolding decimal_fuel
read_digits-decimal_fuel zero n s h = let e : n ≡ 0 = omega arith in rw e
read_digits-decimal_fuel (suc fuel) n s h =
    let bound : n < 10 ^ fuel * 10 = rw (pow-suc 10 fuel) at h in
    elim (Bool-cases (ltb n 10)) [
      | inl small ↦
          rw small (read_digits-last 0 n s (ground arith) ∙ ap (λ k. read_digits k s) (omega arith))
      | inr large ↦
          rw (large, append_assoc)
            (read_digits-decimal_fuel fuel (n / 10) ((b'0' + n % 10) ∷ s) (omega arith)
              ∙ read_digits-last (n / 10) (n % 10) s (omega arith)
              ∙ ap (λ k. read_digits k s) (omega arith))
    ]

-- Reading what `%u` wrote gives the number back, if no digit follows.
pub read_digits-decimal :
    (n : ℕ) (s : Bytes) → n < 10 ^ 10 → EndsNumber s → read_digits 0 (decimal n ++ s) ≡ n
unfolding decimal
read_digits-decimal n s h e = read_digits-decimal_fuel 10 n s h ∙ read_digits-end n s e

-- Every byte that `%u` writes is a digit.
abbrev pub Digits : Bytes → Type 0
Digits [] = Unit
Digits (c ∷ s) = (is_digit c ≡ true) × Digits s

Digits-append : (xs ys : Bytes) → Digits xs → Digits ys → Digits (xs ++ ys)
Digits-append [] ys h k = k
Digits-append (c ∷ xs) ys h k = (h.0, Digits-append xs ys h.1 k)

Digits-decimal_fuel : (fuel n : ℕ) → Digits (decimal_fuel fuel n)
unfolding decimal_fuel
Digits-decimal_fuel zero n = tt
Digits-decimal_fuel (suc fuel) n = elim (Bool-cases (ltb n 10)) [
  | inl small ↦ rw small (ground arith, tt)
  | inr large ↦ rw large (
      Digits-append (decimal_fuel fuel (n / 10)) ((b'0' + n % 10) ∷ [])
        (Digits-decimal_fuel fuel (n / 10)) (ground arith, tt))
]

pub Digits-decimal : (n : ℕ) → Digits (decimal n)
unfolding decimal
Digits-decimal n = Digits-decimal_fuel 10 n

is_empty-snoc : (xs : Bytes) (c : ℕ) → is_empty (xs ++ c ∷ []) ≡ false
is_empty-snoc [] c = refl
is_empty-snoc (x ∷ xs) c = refl

-- `%u` writes at least one digit.
pub is_empty-decimal : (n : ℕ) → is_empty (decimal n) ≡ false
unfolding decimal decimal_fuel
is_empty-decimal n = elim (Bool-cases (ltb n 10)) [
  | inl small ↦ rw small refl
  | inr large ↦ rw large (is_empty-snoc (decimal_fuel 9 (n / 10)) (b'0' + n % 10))
]

length-decimal_fuel : (fuel n : ℕ) → length (decimal_fuel fuel n) ≤ fuel
unfolding decimal_fuel
length-decimal_fuel zero n = omega arith
length-decimal_fuel (suc fuel) n =
    let shorter = length-decimal_fuel fuel (n / 10) in
    let one = length-append (decimal_fuel fuel (n / 10)) ((b'0' + n % 10) ∷ []) in
    ground (arith, shorter, one)

-- `%u` writes at most ten digits.
pub length-decimal : (n : ℕ) → length (decimal n) ≤ 10
unfolding decimal
length-decimal n = length-decimal_fuel 10 n
