-- ===== src/Common/Memory.antt =====
-- Memory as a list of bytes: what memcpy writes and where a byte lies afterwards.
use lwsip.Common.Tests.{ltb, leb, if◌then◌else◌}
use lwsip.Common.Lists.{length, take, drop, length-append, length-take, length-drop}
use lwsip.Common.Text.{Bytes}
use Prim.Native.Nat.{ℕ, zero, suc, ◌+◌, ◌-◌, ◌≤◌, ◌<◌}
use mathlib.Core.Path.{◌≡◌, refl, ap}
use mathlib.Core.Bool.{◌&&◌}
use mathlib.Core.List.{[], ◌∷◌, ◌++◌}
use native.Mathlib.Omega.{arith}

-- `memcpy(buf + offset, bytes, length bytes)`
unfoldable pub write_at : ℕ → Bytes → Bytes → Bytes
write_at offset bytes buf = take offset buf ++ (bytes ++ drop (offset + length bytes) buf)

pub length-write_at :
    (offset : ℕ) (bytes buf : Bytes)
    → offset + length bytes ≤ length buf
    → length (write_at offset bytes buf) ≡ length buf
unfolding write_at
length-write_at offset bytes buf h =
    let head = length-append (take offset buf) (bytes ++ drop (offset + length bytes) buf) in
    let tail = length-append bytes (drop (offset + length bytes) buf) in
    let first = length-take offset buf in
    let last = length-drop (offset + length bytes) buf in omega arith

-- `memcpy(out, buf + offset, n)`
abbrev pub read_at : ℕ → ℕ → Bytes → Bytes
read_at offset n buf = take n (drop offset buf)

-- The byte at an index, 0 behind the end.
unfoldable pub get_or : Bytes → ℕ → ℕ
get_or [] i = 0
get_or (x ∷ xs) zero = x
get_or (x ∷ xs) (suc i) = get_or xs i

pub get_or-drop : (n : ℕ) (xs : Bytes) (i : ℕ) → get_or (drop n xs) i ≡ get_or xs (n + i)
unfolding get_or
get_or-drop zero xs i = ap (get_or xs) (omega arith)
get_or-drop (suc n) [] i = refl
get_or-drop (suc n) (x ∷ xs) i = ground (arith, get_or-drop n xs i)

pub get_or-take : (n : ℕ) (xs : Bytes) (i : ℕ) → i < n → get_or (take n xs) i ≡ get_or xs i
unfolding get_or
get_or-take zero xs i h = absurd (omega arith)
get_or-take (suc n) [] i h = refl
get_or-take (suc n) (x ∷ xs) zero h = refl
get_or-take (suc n) (x ∷ xs) (suc i) h = get_or-take n xs i (omega arith)

pub get_or-append :
    (xs ys : Bytes) (i : ℕ)
    → get_or (xs ++ ys) i ≡ (if ltb i (length xs) then get_or xs i else get_or ys (i - length xs))
unfolding get_or
get_or-append [] ys i = ground arith
get_or-append (x ∷ xs) ys zero = ground arith
get_or-append (x ∷ xs) ys (suc i) = ground (arith, get_or-append xs ys i)

pub get_or-write_at :
    (offset : ℕ) (bytes buf : Bytes) (i : ℕ)
    → offset + length bytes ≤ length buf
    → get_or (write_at offset bytes buf) i ≡ (
        if leb offset i && ltb i (offset + length bytes)
        then get_or bytes (i - offset)
        else get_or buf i)
unfolding write_at
get_or-write_at offset bytes buf i h =
    let rest = drop (offset + length bytes) buf in
    ground (
      arith,
      get_or-append (take offset buf) (bytes ++ rest) i,
      get_or-append bytes rest (i - length (take offset buf)),
      length-take offset buf,
      get_or-take offset buf i,
      get_or-drop (offset + length bytes) buf (i - length (take offset buf) - length bytes),
    )

-- Two texts of one length with the same bytes are equal.
pub eq_of_get_or :
    (xs ys : Bytes)
    → length xs ≡ length ys
    → ((i : ℕ) → i < length xs → get_or xs i ≡ get_or ys i)
    → xs ≡ ys
unfolding get_or
eq_of_get_or [] [] h p = refl
eq_of_get_or [] (y ∷ ys) h p = absurd (omega arith)
eq_of_get_or (x ∷ xs) [] h p = absurd (omega arith)
eq_of_get_or (x ∷ xs) (y ∷ ys) h p =
    let first : x ≡ y = p 0 (omega arith) in
    let rest = eq_of_get_or xs ys (omega arith) (λ i lt. p (suc i) (omega arith)) in cc
