-- ===== src/Common/Text.antt =====
-- C strings: the bytes before the terminating zero, as a list of numbers.
use Prim.Native.Nat.{ℕ, ◌-◌}
use Prim.Native.Char.{code}
use Prim.Native.String.{String}
use mathlib.Core.Bool.{Bool, true, false, ◌&&◌}
use mathlib.Core.Option.{Option, none, some}
use mathlib.Core.List.{List, [], ◌∷◌}
use lwsip.Common.Tests.{◌==◌, if◌then◌else◌}
use lwsip.Common.Lists.{take}

abbrev pub Bytes : Type 0
Bytes = List ℕ

-- The bytes of an ASCII literal.
abbrev pub codes : String → Bytes
codes String.[] = []
codes (String.◌∷◌ c s) = code c ∷ codes s

-- `strcmp(a, b) == 0`
unfoldable pub str_eq : Bytes → Bytes → Bool
str_eq [] [] = true
str_eq [] (y ∷ ys) = false
str_eq (x ∷ xs) [] = false
str_eq (x ∷ xs) (y ∷ ys) = (x == y) && str_eq xs ys

-- `s[0] == '\0'`
abbrev pub is_empty : Bytes → Bool
is_empty [] = true
is_empty (x ∷ xs) = false

-- A C string parameter: `none` is NULL.
abbrev pub CString : Type 0
CString = Option Bytes

-- What a loop `while (*p && !stop(*p)) p++` passes, and where it ends.
unfoldable pub break_at : (ℕ → Bool) → Bytes → Bytes × Bytes
break_at stop [] = ([], [])
break_at stop (c ∷ s) =
    let rest = break_at stop s in if stop c then ([], c ∷ s) else (c ∷ rest.0, rest.1)

-- `strchr(s, c)`: what stands before the first `c`, and what stands behind it.
unfoldable pub strchr : ℕ → Bytes → Option (Bytes × Bytes)
strchr c [] = none
strchr c (x ∷ s) =
    let rest = strchr c s in
    if x == c then some ([], s) else elim rest [ none ↦ none | some (a, b) ↦ some (x ∷ a, b) ]

-- `strncmp(s, prefix, strlen(prefix)) == 0`, and what follows the prefix.
unfoldable pub strip_prefix : Bytes → Bytes → Option Bytes
strip_prefix [] s = some s
strip_prefix (p ∷ ps) [] = none
strip_prefix (p ∷ ps) (c ∷ s) = let rest = strip_prefix ps s in if p == c then rest else none

-- `strstr(s, needle)`, and what follows the needle there.
unfoldable pub strstr_after : Bytes → Bytes → Option Bytes
unfolding strip_prefix
strstr_after needle [] = strip_prefix needle []
strstr_after needle (c ∷ s) =
    let rest = strstr_after needle s in
    elim (strip_prefix needle (c ∷ s)) [ some r ↦ some r | none ↦ rest ]

-- `snprintf(buf, size, ...)` of a text that it prints: the bytes that fit, with the terminating
-- zero behind them. The return value is the length of the text.
abbrev pub snprintf : ℕ → Bytes → Bytes
snprintf size text = take (size - 1) text

-- `strncpy(buf, s, size - 1)` into an array of `size` bytes whose last one is zero.
abbrev pub strncpy : ℕ → Bytes → Bytes
strncpy size s = take (size - 1) s
