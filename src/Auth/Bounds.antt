-- ===== src/Auth/Bounds.antt =====
-- The header of an answered challenge fits the buffer of src/lws_agent.c.
use lwsip.Common.{
  ◌≡◌, ℕ, ◌+◌, ◌≤◌, some, [], ◌∷◌, Bytes, is_empty, length, length-append, length-take, arith,
  Bool-cases, inl, inr,
}
use lwsip.Auth.{AuthChallenge}
use lwsip.Auth.Response.{AuthCredentials, AuthResponse, basic_response, filled_response}
use lwsip.Auth.Digest.{length-hex_fixed, length-generate_cnonce, length-calculate_md5}
use lwsip.Auth.Header.{
  built, quoted, digest_part, qop_part, opaque_part, full_header, length-full_header,
  lws_auth_build_authorization_header, build_header-full_header,
}

length-quoted : (s : Bytes) → length (quoted s) ≡ length s + 2
length-quoted s = let l = length-append s (b'"' ∷ []) in omega arith

length-digest_part :
    (r : AuthResponse) (username : Bytes)
    → length (digest_part r username)
      ≡ length username
        + length r.realm
        + length r.nonce
        + length r.uri
        + length r.response
        + length r.algorithm
        + 71
length-digest_part r username = simp length-append (
    omega (
      arith,
      length-append username (b'"' ∷ []),
      length-append r.realm (b'"' ∷ []),
      length-append r.nonce (b'"' ∷ []),
      length-append r.uri (b'"' ∷ []),
      length-append r.response (b'"' ∷ []),
    ))

length-qop_part : (r : AuthResponse) → length (qop_part r) ≤ length r.qop + length r.cnonce + 33
unfolding qop_part
length-qop_part r = elim (Bool-cases (is_empty r.qop)) [
  | inl without ↦ rw without (omega arith)
  | inr offered ↦ rw offered (
      simp length-append
        (omega (arith, length-append r.cnonce (b'"' ∷ []), length-hex_fixed 8 r.nc)))
]

length-opaque_part : (r : AuthResponse) → length (opaque_part r) ≤ length r.opaque + 11
length-opaque_part r = elim (Bool-cases (is_empty r.opaque)) [
  | inl without ↦ rw without (omega arith)
  | inr given ↦ rw given (omega (arith, length-append r.opaque (b'"' ∷ [])))
]

filled_response-fits :
    (md5 : Bytes → Bytes) (rand : ℕ → ℕ) (c : AuthChallenge) (credentials : AuthCredentials)
    (method uri : Bytes)
    → ((s : Bytes) → length (md5 s) ≡ 16)
    → let r = filled_response md5 rand c credentials method uri in
      (length r.realm + length r.nonce + length r.uri ≤ 1021)
      × (length r.response ≡ 32)
      × (length r.algorithm + length r.qop + length r.cnonce + length r.opaque ≤ 365)
unfolding filled_response basic_response
filled_response-fits md5 rand c credentials method uri whole =
    let realm = length-take 255 c.realm in
    let nonce = length-take 255 c.nonce in
    let target = length-take 511 uri in
    let algorithm = length-take 15 c.algorithm in
    let qop = length-take 63 c.qop in
    let opaque = length-take 255 c.opaque in
    let cnonce = length-generate_cnonce rand 0 32 in
    (
      omega arith,
      length-calculate_md5 md5 whole _,
      elim (Bool-cases (is_empty c.qop)) [
        | inl without ↦ rw without (omega arith)
        | inr offered ↦ rw offered (omega arith)
      ],
    )

-- Whatever MD5 (with digests of 16 bytes) and `rand_r` give, for any challenge, credentials, method
-- and URI, and a user name of at most 63 bytes: the header of the response fits the 2048 bytes that
-- the agent has for it, so that the whole text is built, with the result 0.
pub build_header-agent_buffer :
    (md5 : Bytes → Bytes) (rand : ℕ → ℕ) (c : AuthChallenge) (credentials : AuthCredentials)
    (method uri username old : Bytes)
    → ((s : Bytes) → length (md5 s) ≡ 16)
    → length username ≤ 63
    → let r = filled_response md5 rand c credentials method uri in
      lws_auth_build_authorization_header (some r) (some username) (some old) 2048
      ≡ built (some (full_header r username))
build_header-agent_buffer md5 rand c credentials method uri username old whole short =
    let r = filled_response md5 rand c credentials method uri in
    let sum = length-full_header r username in
    let first = length-digest_part r username in
    let second = length-qop_part r in
    let third = length-opaque_part r in
    let fields = filled_response-fits md5 rand c credentials method uri whole in
    build_header-full_header r username old 2048 (omega (arith, fields))
