-- ===== src/Sess/Attribute.antt =====
-- What src/lws_sess.c reads from an attribute of a remote SDP.
use lwsip.Common.{
  ◌≡◌, ◌≤◌, zero, suc, ℕ, ◌==◌, Option-cases, inl, inr, Bool-cases, none, some, [], ◌∷◌, ◌++◌,
  arith, Bytes, codes, strchr, strstr_after, length, take, length-take,
}
use lwsip.Common.TextLaws.{Avoids, is_byte}
use lwsip.Sess.Sdp.{line_of, parse_sdp_attribute}

found-Avoids :
    (b c : ℕ) (s : Bytes) (r : Bytes × Bytes)
    → strchr b s ≡ some r
    → Avoids (is_byte c) s
    → Avoids (is_byte c) r.0
unfolding strchr
found-Avoids b c [] r e h = cc
found-Avoids b c (x ∷ s) r e (h, k) = elim (Bool-cases (x == b)) [
  | inl here ↦ ground arith
  | inr there ↦ elim (Option-cases (strchr b s)) [
    | inl nothing ↦ ground arith
    | inr (q, f) ↦ ground (arith, found-Avoids b c s q f k)
  ]
]

before-Avoids :
    (b : ℕ) (s : Bytes) (r : Bytes × Bytes) → strchr b s ≡ some r → Avoids (is_byte b) r.0
unfolding strchr
before-Avoids b [] r e = cc
before-Avoids b (x ∷ s) r e = elim (Bool-cases (x == b)) [
  | inl here ↦ ground arith
  | inr there ↦ elim (Option-cases (strchr b s)) [
    | inl nothing ↦ ground arith
    | inr (q, f) ↦ ground (arith, before-Avoids b s q f)
  ]
]

absent-Avoids : (b : ℕ) (s : Bytes) → strchr b s ≡ none → Avoids (is_byte b) s
unfolding strchr
absent-Avoids b [] e = tt
absent-Avoids b (x ∷ s) e = elim (Bool-cases (x == b)) [
  | inl here ↦ ground arith
  | inr there ↦ elim (Option-cases (strchr b s)) [
    | inl nothing ↦ (there, absent-Avoids b s nothing)
    | inr (q, f) ↦ ground arith
  ]
]

take-Avoids : (b n : ℕ) (s : Bytes) → Avoids (is_byte b) s → Avoids (is_byte b) (take n s)
take-Avoids b zero s h = tt
take-Avoids b (suc n) [] h = tt
take-Avoids b (suc n) (x ∷ s) (h, k) = (h, take-Avoids b n s k)

line_of-Avoids : (s : Bytes) → Avoids (is_byte 13) (line_of s)
unfolding line_of
line_of-Avoids s = elim (Option-cases (strchr 13 s)) [
  | inr (r, e) ↦ rw (e, line_of) (before-Avoids 13 s r e)
  | inl no_cr ↦ elim (Option-cases (strchr 10 s)) [
    | inr (r, e) ↦
        rw (no_cr, line_of) (rw (e, line_of) (found-Avoids 10 13 s r e (absent-Avoids 13 s no_cr)))
    | inl no_lf ↦ rw (no_cr, line_of) (rw (no_lf, line_of) (absent-Avoids 13 s no_cr))
  ]
]

-- Whatever the remote SDP holds: the value of an attribute fits the array that receives it, with its
-- terminating zero, and holds no carriage return.
pub parse_attribute_bound :
    (sdp attr value : Bytes) (value_size : ℕ)
    → parse_sdp_attribute sdp attr (suc value_size) ≡ some value
    → (length value ≤ value_size) × Avoids (is_byte 13) value
unfolding parse_sdp_attribute
parse_attribute_bound sdp attr value value_size h =
    elim (Option-cases (strstr_after (codes "a=" ++ attr ++ codes ":") sdp)) [
      | inl missing ↦ ground arith
      | inr (behind, e) ↦
          let line = line_of behind in
          let fits = length-take value_size line in
          let free = take-Avoids 13 value_size line (line_of-Avoids behind) in
          ground (arith, fits, free)
    ]
