-- ===== src/Trans/Buffer.antt =====
-- Writing into the receive buffer of src/lws_trans_mqtt.c, and its tests.
use lwsip.Common.{
  ◌≡◌, refl, sym, ap, ◌∙◌, ℕ, zero, suc, ◌+◌, ◌≤◌, true, List, [], ◌∷◌, ◌++◌, ltb, leb, arith,
  Bytes, take, drop, length, length-take, length-append, is_empty, not,
}
use mathlib.Core.List.{append_assoc}
use lwsip.Common.Memory.{write_at}

pub le→leb : (a b : ℕ) → a ≤ b → leb a b ≡ true
le→leb a b h = ground arith

pub ltb-length : (s : Bytes) → ltb 0 (length s) ≡ not (is_empty s)
ltb-length [] = refl
ltb-length (c ∷ s) = ground arith

pub take-append : {A : Type 0} (n : ℕ) (xs ys : List A) → n ≡ length xs → take n (xs ++ ys) ≡ xs
take-append zero [] ys h = refl
take-append zero (x ∷ xs) ys h = absurd (omega arith)
take-append (suc n) [] ys h = absurd (omega arith)
take-append (suc n) (x ∷ xs) ys h = ap (λ t. x ∷ t) (take-append n xs ys (omega arith))

-- What was written lies behind what was there.
pub take-write_at :
    (offset : ℕ) (bytes buf : Bytes)
    → offset ≤ length buf
    → take (offset + length bytes) (write_at offset bytes buf) ≡ take offset buf ++ bytes
unfolding write_at
take-write_at offset bytes buf h =
    let first = length-take offset buf in
    let both = length-append (take offset buf) bytes in
    ap (λ s. take (offset + length bytes) s)
      (sym (append_assoc (take offset buf) bytes (drop (offset + length bytes) buf)))
    ∙ take-append (offset + length bytes) (take offset buf ++ bytes)
        (drop (offset + length bytes) buf) (omega arith)
