-- ===== src/Auth/Response.antt =====
-- Answering a challenge: md5_to_hex, calculate_md5, generate_cnonce and lws_auth_generate_response of
-- src/lws_auth.c. MD5 is a parameter that gives the bytes of the digest, and `rand_r` a sequence.
use lwsip.Common.{
  ℕ, zero, suc, ◌+◌, ◌-◌, ◌/◌, ◌%◌, Option, some, [], ◌∷◌, ◌++◌, if◌then◌else◌, ltb, ℤ, pos, negsuc,
  Bytes, CString, is_empty, strncpy, snprintf,
}
use lwsip.Auth.{AuthChallenge}

pub record AuthCredentials : Type 0 where
  pub username : Bytes
  pub password : Bytes

pub record AuthResponse : Type 0 where
  pub realm : Bytes
  pub nonce : Bytes
  pub uri : Bytes
  pub response : Bytes
  pub algorithm : Bytes
  pub qop : Bytes
  pub cnonce : Bytes
  pub nc : ℕ
  pub opaque : Bytes

-- `"0123456789abcdef"[n]`
abbrev pub hex_digit : ℕ → ℕ
hex_digit n = if ltb n 10 then b'0' + n else b'a' + n - 10

-- `%02x` of a byte and `%08x` of a 32-bit number: as many digits as the number can have.
unfoldable pub hex_fixed : (digits : ℕ) → ℕ → Bytes
hex_fixed zero n = []
hex_fixed (suc digits) n = hex_fixed digits (n / 16) ++ (hex_digit (n % 16) ∷ [])

unfoldable pub md5_to_hex : Bytes → Bytes
unfolding hex_fixed
md5_to_hex [] = []
md5_to_hex (b ∷ digest) = hex_fixed 2 b ++ md5_to_hex digest

unfoldable pub calculate_md5 : (md5 : Bytes → Bytes) → Bytes → Bytes
unfolding md5_to_hex
calculate_md5 md5 input = md5_to_hex (md5 input)

-- `count` is `len - 1`; `rand k` is the k-th result of `rand_r`.
unfoldable pub generate_cnonce : (rand : ℕ → ℕ) → (k count : ℕ) → Bytes
generate_cnonce rand k zero = []
generate_cnonce rand k (suc count) = hex_digit (rand k % 16) ∷ generate_cnonce rand (suc k) count

-- What is copied from the challenge, and the nonces.
unfoldable pub basic_response : (rand : ℕ → ℕ) → AuthChallenge → Bytes → AuthResponse
unfolding generate_cnonce
basic_response rand c uri = record {
  realm = strncpy 256 c.realm;
  nonce = strncpy 256 c.nonce;
  uri = strncpy 512 uri;
  response = [];
  algorithm = strncpy 16 c.algorithm;
  qop = if is_empty c.qop then [] else strncpy 64 c.qop;
  cnonce = if is_empty c.qop then [] else generate_cnonce rand 0 32;
  nc = if is_empty c.qop then 0 else 1;
  opaque = strncpy 256 c.opaque;
}

-- What is hashed in the end.
unfoldable pub response_input : AuthChallenge → AuthResponse → (ha1 ha2 : Bytes) → Bytes
unfolding hex_fixed
response_input c r ha1 ha2 =
    if is_empty c.qop
    then snprintf 1024 (ha1 ++ b':' ∷ (c.nonce ++ b':' ∷ ha2))
    else snprintf 1024 (
        ha1
        ++ b':'
          ∷ (c.nonce
              ++ b':' ∷ (hex_fixed 8 r.nc ++ b':' ∷ (r.cnonce ++ b':' ∷ (r.qop ++ b':' ∷ ha2)))))

unfoldable pub filled_response :
    (md5 : Bytes → Bytes) (rand : ℕ → ℕ)
    → AuthChallenge
    → AuthCredentials
    → (method uri : Bytes) → AuthResponse
unfolding calculate_md5 basic_response response_input
filled_response md5 rand c credentials method uri =
    let ha1 =
      calculate_md5 md5
        (snprintf 512 (credentials.username ++ b':' ∷ (c.realm ++ b':' ∷ credentials.password))) in
    let ha2 = calculate_md5 md5 (snprintf 512 (method ++ b':' ∷ uri)) in
    let r = basic_response rand c uri in
    record r { response = calculate_md5 md5 (response_input c r ha1 ha2) }

-- The argument `response` is `none` for NULL, as the others are.
unfoldable pub lws_auth_generate_response :
    (md5 : Bytes → Bytes) (rand : ℕ → ℕ)
    → Option AuthChallenge
    → Option AuthCredentials
    → (method uri : CString) → Option AuthResponse
    → Option AuthResponse × ℤ
unfolding filled_response
lws_auth_generate_response md5 rand (some c) (some credentials) (some method) (some uri)
      (some old) =
    (some (filled_response md5 rand c credentials method uri), pos 0)
lws_auth_generate_response md5 rand c credentials method uri response = (response, negsuc 0)
