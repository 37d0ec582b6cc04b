-- ===== src/Auth/Examples.antt =====
-- A challenge as a server sends it.
use lwsip.Common.{
  ◌≡◌, refl, [], ◌∷◌, ◌+◌, ◌%◌, map, pos, length, arith, some, Bytes, codes, strstr_after,
  strip_prefix, strchr, break_at,
}
use lwsip.Auth.{AuthChallenge, skip_equals, value_at, parse_digest_param, lws_auth_parse_challenge}
use lwsip.Auth.Response.{
  AuthCredentials, AuthResponse, hex_fixed, generate_cnonce, calculate_md5, filled_response,
  lws_auth_generate_response,
}
use lwsip.Auth.Digest.{auth, request_digest, generate_response-request_digest}
use lwsip.Auth.Header.{
  built, overrun, full_header, qop_part, lws_auth_build_authorization_header, build_header-overrun,
}
use lwsip.Auth.Bounds.{build_header-agent_buffer}
use lwsip.Auth.Challenge.{IsParsed, parse_challenge-IsParsed}

abbrev offer : Bytes
offer = codes "Digest realm=\"x.org\", nonce=\"ab12\", qop=\"auth,auth-int\", algorithm=MD5"

abbrev parsed : AuthChallenge
parsed = record {
  realm = codes "x.org";
  nonce = codes "ab12";
  algorithm = codes "MD5";
  qop = codes "auth,auth-int";
  opaque = [];
}

offer_accepted : lws_auth_parse_challenge offer ≡ some parsed
unfolding lws_auth_parse_challenge parse_digest_param skip_equals value_at strstr_after strip_prefix
    strchr break_at
offer_accepted = refl

parse_challenge-IsParsed_example : IsParsed parsed
parse_challenge-IsParsed_example = parse_challenge-IsParsed offer parsed offer_accepted

-- A hash of 16 bytes, and random numbers that count.
abbrev folded : Bytes → Bytes
folded s =
    map (λ k. (length s + k) % 256)
      (0 ∷ 1 ∷ 2 ∷ 3 ∷ 4 ∷ 5 ∷ 6 ∷ 7 ∷ 8 ∷ 9 ∷ 10 ∷ 11 ∷ 12 ∷ 13 ∷ 14 ∷ 15 ∷ [])

abbrev al : AuthCredentials
al = record { username = codes "al"; password = codes "pw" }

abbrev blank : AuthResponse
blank = record {
  realm = [];
  nonce = [];
  uri = [];
  response = [];
  algorithm = [];
  qop = [];
  cnonce = [];
  nc = 0;
  opaque = [];
}

abbrev auth_offer : Bytes
auth_offer = codes "Digest realm=\"x.org\", nonce=\"ab12\", qop=\"auth\""

abbrev asked : AuthChallenge
asked = record parsed { qop = codes "auth" }

auth_offer_accepted : lws_auth_parse_challenge auth_offer ≡ some asked
unfolding lws_auth_parse_challenge parse_digest_param skip_equals value_at strstr_after strip_prefix
    strchr break_at
auth_offer_accepted = refl

generate_response-request_digest_example :
    let r = filled_response folded (λ k. k) asked al (codes "REGISTER") (codes "sip:x.org") in
    (lws_auth_generate_response folded
        (λ k. k)
        (some asked)
        (some al)
        (some (codes "REGISTER"))
        (some (codes "sip:x.org"))
        (some blank)
      ≡ (some r, pos 0))
    × (r.response
        ≡ request_digest
            (calculate_md5 folded)
            auth
            (codes "x.org")
            (codes "ab12")
            al
            (codes "REGISTER")
            (codes "sip:x.org")
            (hex_fixed 8 1)
            (generate_cnonce (λ k. k) 0 32))
    × (length r.response ≡ 32)
    × (r.algorithm ≡ codes "MD5")
    × (r.qop ≡ codes "auth")
generate_response-request_digest_example =
    generate_response-request_digest folded (λ k. k) auth_offer auth asked al (codes "REGISTER")
      (codes "sip:x.org") blank (λ s. refl) auth_offer_accepted
      (record { with_md5 = refl; with_qop = refl })
      (record { a1_fits = omega arith; a2_fits = omega arith })

abbrev reply : AuthResponse
reply = record blank { realm = codes "x.org"; qop = codes "auth"; opaque = codes "o" }

header_overrun :
    lws_auth_build_authorization_header (some reply) (some (codes "al")) (some []) 100 ≡ overrun
unfolding qop_part hex_fixed
header_overrun = build_header-overrun reply (codes "al") [] 100 (omega arith) (omega arith) refl

build_header-agent_buffer_example :
    let r = filled_response folded (λ k. k) parsed al (codes "REGISTER") (codes "sip:x.org") in
    lws_auth_build_authorization_header (some r) (some (codes "al")) (some []) 2048
    ≡ built (some (full_header r (codes "al")))
build_header-agent_buffer_example =
    build_header-agent_buffer folded (λ k. k) parsed al (codes "REGISTER") (codes "sip:x.org")
      (codes "al") [] (λ s. refl) (omega arith)
