-- ===== src/Auth/Digest.antt =====
-- The digest of RFC 2617, section 3.2.2, and what src/lws_auth.c makes of it.
use lwsip.Common.{
  ◌≡◌, refl, ap, ◌∙◌, ℕ, zero, suc, ◌+◌, ◌*◌, ◌/◌, ◌%◌, ◌≤◌, some, List, [], ◌∷◌, ◌++◌,
  if◌then◌else◌, pos, Bytes, codes, strncpy, is_empty, length, length-append, take_all, arith,
  snprintf, Bool-cases, inl, inr,
}
use lwsip.Auth.{AuthChallenge, lws_auth_parse_challenge}
use lwsip.Auth.Challenge.{IsParsed, parse_challenge-IsParsed}
use lwsip.Auth.Response.{
  AuthCredentials, AuthResponse, hex_digit, hex_fixed, md5_to_hex, calculate_md5, generate_cnonce,
  basic_response, response_input, filled_response, lws_auth_generate_response,
}

-- Texts with colons between them.
unfoldable pub with_colons : Bytes → List Bytes → Bytes
with_colons s [] = s
with_colons s (t ∷ ts) = s ++ b':' ∷ with_colons t ts

-- The `qop` of a challenge: none, or the one value `auth`.
pub data Quality : Type 0 where
  absent auth : Quality

abbrev pub qop_text : Quality → Bytes
qop_text absent = []
qop_text auth = codes "auth"

-- A challenge for MD5 that offers that quality and no other.
pub record Asks (quality : Quality) (c : AuthChallenge) : Type 0 where
  pub with_md5 : c.algorithm ≡ codes "MD5"
  pub with_qop : c.qop ≡ qop_text quality

module _ (hash : Bytes → Bytes) where
  -- `KD(secret, data) = H(concat(secret, ":", data))`
  unfoldable pub keyed_digest : (secret : Bytes) → List Bytes → Bytes
  unfolding with_colons
  keyed_digest secret parts = hash (with_colons secret parts)

  -- `request-digest` for the algorithm MD5, under each quality of protection that leaves the body out.
  unfoldable pub request_digest :
      Quality → (realm nonce : Bytes) → AuthCredentials → (method uri nc cnonce : Bytes) → Bytes
  unfolding keyed_digest with_colons
  request_digest quality realm nonce credentials method uri nc cnonce =
      let a1 = with_colons credentials.username (realm ∷ credentials.password ∷ []) in
      let a2 = with_colons method (uri ∷ []) in
      elim quality [
        | absent ↦ keyed_digest (hash a1) (nonce ∷ hash a2 ∷ [])
        | auth ↦ keyed_digest (hash a1) (nonce ∷ nc ∷ cnonce ∷ codes "auth" ∷ hash a2 ∷ [])
      ]

pub length-hex_fixed : (digits n : ℕ) → length (hex_fixed digits n) ≡ digits
unfolding hex_fixed
length-hex_fixed zero n = refl
length-hex_fixed (suc digits) n =
    let more = length-append (hex_fixed digits (n / 16)) (hex_digit (n % 16) ∷ []) in
    omega (arith, length-hex_fixed digits (n / 16))

length-md5_to_hex : (digest : Bytes) → length (md5_to_hex digest) ≡ length digest * 2
unfolding md5_to_hex
length-md5_to_hex [] = refl
length-md5_to_hex (b ∷ digest) =
    let more = length-append (hex_fixed 2 b) (md5_to_hex digest) in
    omega (arith, length-hex_fixed 2 b, length-md5_to_hex digest)

pub length-generate_cnonce :
    (rand : ℕ → ℕ) (k count : ℕ) → length (generate_cnonce rand k count) ≡ count
unfolding generate_cnonce
length-generate_cnonce rand k zero = refl
length-generate_cnonce rand k (suc count) = ap suc (length-generate_cnonce rand (suc k) count)

length-with_colons :
    (s t : Bytes) (ts : List Bytes)
    → length (with_colons s (t ∷ ts)) ≡ length s + 1 + length (with_colons t ts)
unfolding with_colons
length-with_colons s t ts = let l = length-append s (b':' ∷ with_colons t ts) in omega arith

-- The texts that are hashed first are not cut off.
pub record IsShort (c : AuthChallenge) (credentials : AuthCredentials) (method uri : Bytes)
    : Type 0 where
  pub a1_fits : length credentials.username + length c.realm + length credentials.password ≤ 509
  pub a2_fits : length method + length uri ≤ 510

module _ (md5 : Bytes → Bytes) (rand : ℕ → ℕ) (c : AuthChallenge) (credentials : AuthCredentials)
    (method uri : Bytes) where
  abbrev a1 : Bytes
  a1 = credentials.username ++ b':' ∷ (c.realm ++ b':' ∷ credentials.password)

  abbrev a2 : Bytes
  a2 = method ++ b':' ∷ uri

  a1_whole : IsShort c credentials method uri → snprintf 512 a1 ≡ a1
  a1_whole s =
      let outer =
        length-append credentials.username (b':' ∷ (c.realm ++ b':' ∷ credentials.password)) in
      let inner = length-append c.realm (b':' ∷ credentials.password) in
      take_all 511 a1 (omega (arith, s.a1_fits))

  a2_whole : IsShort c credentials method uri → snprintf 512 a2 ≡ a2
  a2_whole s =
      let outer = length-append method (b':' ∷ uri) in take_all 511 a2 (omega (arith, s.a2_fits))

-- With two hashes of 32 digits the last text fits.
input_whole :
    (c : AuthChallenge) (ha1 ha2 nc cnonce : Bytes)
    → length ha1 ≡ 32
    → length ha2 ≡ 32
    → length nc ≡ 8
    → length cnonce ≡ 32
    → IsParsed c
    → let short = with_colons ha1 (c.nonce ∷ ha2 ∷ []) in
      let long = with_colons ha1 (c.nonce ∷ nc ∷ cnonce ∷ c.qop ∷ ha2 ∷ []) in
      (snprintf 1024 short ≡ short) × (snprintf 1024 long ≡ long)
unfolding with_colons
input_whole c ha1 ha2 nc cnonce h1 h2 h3 h4 v =
    let l1 = length-with_colons ha1 c.nonce (ha2 ∷ []) in
    let l2 = length-with_colons c.nonce ha2 [] in
    let m1 = length-with_colons ha1 c.nonce (nc ∷ cnonce ∷ c.qop ∷ ha2 ∷ []) in
    let m2 = length-with_colons c.nonce nc (cnonce ∷ c.qop ∷ ha2 ∷ []) in
    let m3 = length-with_colons nc cnonce (c.qop ∷ ha2 ∷ []) in
    let m4 = length-with_colons cnonce c.qop (ha2 ∷ []) in
    let m5 = length-with_colons c.qop ha2 [] in
    (
      take_all 1023 (with_colons ha1 (c.nonce ∷ ha2 ∷ [])) (omega (arith, v.nonce_fits)),
      take_all 1023 (with_colons ha1 (c.nonce ∷ nc ∷ cnonce ∷ c.qop ∷ ha2 ∷ []))
          (omega (arith, v.nonce_fits, v.qop_fits)),
    )

pub length-calculate_md5 :
    (md5 : Bytes → Bytes)
    → ((s : Bytes) → length (md5 s) ≡ 16)
    → (s : Bytes) → length (calculate_md5 md5 s) ≡ 32
unfolding calculate_md5
length-calculate_md5 md5 whole s = omega (arith, length-md5_to_hex (md5 s), whole s)

-- What is hashed in the end is not cut off either.
response_input-with_colons :
    (rand : ℕ → ℕ) (c : AuthChallenge) (uri ha1 ha2 : Bytes)
    → length ha1 ≡ 32
    → length ha2 ≡ 32
    → IsParsed c
    → response_input c (basic_response rand c uri) ha1 ha2 ≡ (
        if is_empty c.qop
        then with_colons ha1 (c.nonce ∷ ha2 ∷ [])
        else with_colons ha1
            (c.nonce ∷ hex_fixed 8 1 ∷ generate_cnonce rand 0 32 ∷ c.qop ∷ ha2 ∷ []))
unfolding response_input basic_response with_colons
response_input-with_colons rand c uri ha1 ha2 h1 h2 v =
    let whole =
      input_whole c ha1 ha2 (hex_fixed 8 1) (generate_cnonce rand 0 32) h1 h2 (length-hex_fixed 8 1)
        (length-generate_cnonce rand 0 32) v in
    let qop = take_all 63 c.qop v.qop_fits in
    elim (Bool-cases (is_empty c.qop)) [
      | inl without ↦ rw without whole.0
      | inr offered ↦ rw (offered, qop) whole.1
    ]

request_digest-with_colons :
    (hash : Bytes → Bytes) (quality : Quality) (c : AuthChallenge) (credentials : AuthCredentials)
    (method uri nc cnonce : Bytes)
    → Asks quality c
    → let ha1 = hash (with_colons credentials.username (c.realm ∷ credentials.password ∷ [])) in
      let ha2 = hash (with_colons method (uri ∷ [])) in
      hash (
        if is_empty c.qop
        then with_colons ha1 (c.nonce ∷ ha2 ∷ [])
        else with_colons ha1 (c.nonce ∷ nc ∷ cnonce ∷ c.qop ∷ ha2 ∷ []))
      ≡ request_digest hash quality c.realm c.nonce credentials method uri nc cnonce
unfolding request_digest keyed_digest
request_digest-with_colons hash absent c credentials method uri nc cnonce asks =
    let q : c.qop ≡ [] = asks.with_qop in rw q refl
request_digest-with_colons hash auth c credentials method uri nc cnonce asks =
    let q : c.qop ≡ codes "auth" = asks.with_qop in rw q refl

copied_qop :
    (rand : ℕ → ℕ) (quality : Quality) (c : AuthChallenge) (uri : Bytes)
    → Asks quality c
    → (basic_response rand c uri).qop ≡ qop_text quality
unfolding basic_response
copied_qop rand absent c uri asks = let q : c.qop ≡ [] = asks.with_qop in rw q refl
copied_qop rand auth c uri asks = let q : c.qop ≡ codes "auth" = asks.with_qop in rw q refl

-- Whatever MD5 and `rand_r` give: an answer to a challenge that was accepted, asks for MD5 and offers
-- no quality of protection or `auth` alone, with credentials, a method and a URI that fit the texts to
-- be hashed, succeeds and repeats the algorithm and the quality; its response is the request digest
-- of RFC 2617 in 32 hexadecimal digits, with the nonce count 00000001 and a client nonce of 32
-- digits where there is a quality.
pub generate_response-request_digest :
    (md5 : Bytes → Bytes) (rand : ℕ → ℕ) (challenge : Bytes) (quality : Quality) (c : AuthChallenge)
    (credentials : AuthCredentials) (method uri : Bytes) (old : AuthResponse)
    → ((s : Bytes) → length (md5 s) ≡ 16)
    → lws_auth_parse_challenge challenge ≡ some c
    → Asks quality c
    → IsShort c credentials method uri
    → let r = filled_response md5 rand c credentials method uri in
      (lws_auth_generate_response md5 rand
          (some c)
          (some credentials)
          (some method)
          (some uri)
          (some old)
        ≡ (some r, pos 0))
      × (r.response
          ≡ request_digest
              (calculate_md5 md5)
              quality
              c.realm
              c.nonce
              credentials
              method
              uri
              (hex_fixed 8 1)
              (generate_cnonce rand 0 32))
      × (length r.response ≡ 32)
      × (r.algorithm ≡ codes "MD5")
      × (r.qop ≡ qop_text quality)
unfolding lws_auth_generate_response filled_response with_colons basic_response
generate_response-request_digest md5 rand challenge quality c credentials method uri old whole
      accepted asks s =
    let ha1 = calculate_md5 md5 (a1 md5 rand c credentials method uri) in
    let ha2 = calculate_md5 md5 (a2 md5 rand c credentials method uri) in
    let input =
      response_input-with_colons rand c uri ha1 ha2
        (length-calculate_md5 md5 whole (a1 md5 rand c credentials method uri))
        (length-calculate_md5 md5 whole (a2 md5 rand c credentials method uri))
        (parse_challenge-IsParsed challenge c accepted) in
    let hash = calculate_md5 md5 in
    let base = basic_response rand c uri in
    let cut1 = a1_whole md5 rand c credentials method uri s in
    let cut2 = a2_whole md5 rand c credentials method uri s in
    let short2 = snprintf 512 (a2 md5 rand c credentials method uri) in
    (
      refl,
      ap (λ x. hash (response_input c base (hash x) (hash short2))) cut1
          ∙ ap (λ x. hash (response_input c base ha1 (hash x))) cut2
          ∙ ap hash input
          ∙ request_digest-with_colons hash quality c credentials method uri (hex_fixed 8 1)
              (generate_cnonce rand 0 32) asks,
      length-calculate_md5 md5 whole _,
      ap (λ t. strncpy 16 t) asks.with_md5,
      copied_qop rand quality c uri asks,
    )
