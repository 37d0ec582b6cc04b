-- ===== src/Auth/Challenge.antt =====
-- The fields of a parsed challenge (src/lws_auth.c).
use lwsip.Common.{
  ◌≡◌, ◌≤◌, Option-cases, inl, inr, ℕ, suc, false, some, [], ◌∷◌, arith, Bytes, codes, is_empty,
  length, length-take, strstr_after,
}
use lwsip.Auth.{
  AuthChallenge, skip_equals, value_at, parse_digest_param, or_else, lws_auth_parse_challenge,
}

-- A parameter that is found fits its array and is not empty.
param_bound :
    (challenge param : Bytes) (n : ℕ) (value : Bytes)
    → parse_digest_param challenge param (suc (suc n)) ≡ some value
    → (length value ≤ suc n) × (is_empty value ≡ false)
unfolding parse_digest_param
param_bound challenge param n value h = elim (Option-cases (strstr_after param challenge)) [
  | inl missing ↦ ground arith
  | inr (behind, e) ↦ elim (Option-cases (value_at (skip_equals behind))) [
    | inl open_quote ↦ ground arith
    | inr ([], f) ↦ ground arith
    | inr (c ∷ s, f) ↦ let fits = length-take n s in ground (arith, fits)
  ]
]

or_else_bound :
    (challenge param default : Bytes) (n : ℕ)
    → length default ≤ suc n
    → length (or_else (parse_digest_param challenge param (suc (suc n))) default) ≤ suc n
or_else_bound challenge param default n h =
    elim (Option-cases (parse_digest_param challenge param (suc (suc n)))) [
      | inl missing ↦ rw missing h
      | inr (value, e) ↦ rw e (param_bound challenge param n value e).0
    ]

-- Every field fits its array with the terminating zero, and realm and nonce are not empty.
pub record IsParsed (c : AuthChallenge) : Type 0 where
  pub realm_fits : length c.realm ≤ 255
  pub realm_given : is_empty c.realm ≡ false
  pub nonce_fits : length c.nonce ≤ 255
  pub nonce_given : is_empty c.nonce ≡ false
  pub algorithm_fits : length c.algorithm ≤ 15
  pub qop_fits : length c.qop ≤ 63
  pub opaque_fits : length c.opaque ≤ 255

-- Whatever a server sends: a challenge that is accepted has every field within its array, with the
-- terminating zero, and a realm and a nonce that are not empty.
pub parse_challenge-IsParsed :
    (challenge : Bytes) (c : AuthChallenge)
    → lws_auth_parse_challenge challenge ≡ some c
    → IsParsed c
unfolding lws_auth_parse_challenge
parse_challenge-IsParsed challenge c h =
    let algorithm = or_else_bound challenge (codes "algorithm") (codes "MD5") 14 (omega arith) in
    let qop = or_else_bound challenge (codes "qop") [] 62 (omega arith) in
    let opaque = or_else_bound challenge (codes "opaque") [] 254 (omega arith) in
    elim (Option-cases (parse_digest_param challenge (codes "realm") 256)) [
      | inl missing ↦ ground arith
      | inr (realm, e) ↦ elim (Option-cases (parse_digest_param challenge (codes "nonce") 256)) [
        | inl missing ↦ ground arith
        | inr (nonce, f) ↦
            let r = param_bound challenge (codes "realm") 254 realm e in
            let n = param_bound challenge (codes "nonce") 254 nonce f in
            ground (arith, r, n, algorithm, qop, opaque)
      ]
    ]
