-- ===== src/Common/Int.antt =====
-- The `int` results of the C functions, under the library's names over the native numbers.
use Prim.Native.Nat.{ℕ, suc}
use mathlib.Core.Bool.{Bool, true, false}

-- `negsuc n` is -(n + 1).
pub data ℤ : Type 0 where
  pos : ℕ → ℤ
  negsuc : ℕ → ℤ

-- The magnitude of a value that is known not to be negative.
abbrev pub pos_part : ℤ → ℕ
pos_part (pos n) = n
pos_part (negsuc n) = 0

-- `ret < 0`
abbrev pub is_neg : ℤ → Bool
is_neg (pos n) = false
is_neg (negsuc n) = true

-- `ret != 0`
abbrev pub is_nonzero : ℤ → Bool
is_nonzero (pos ℕ.zero) = false
is_nonzero (pos (suc n)) = true
is_nonzero (negsuc n) = true

-- `ret > 0`
abbrev pub is_pos : ℤ → Bool
is_pos (pos ℕ.zero) = false
is_pos (pos (suc n)) = true
is_pos (negsuc n) = false

-- The results of include/lws_defs.h that the operations return.
abbrev pub lws_ok : ℤ
lws_ok = pos 0

abbrev pub lws_error : ℤ
lws_error = negsuc 0

abbrev pub lws_einval : ℤ
lws_einval = negsuc 1

abbrev pub lws_enotconn : ℤ
lws_enotconn = negsuc 4

abbrev pub lws_enotsup : ℤ
lws_enotsup = negsuc 8
