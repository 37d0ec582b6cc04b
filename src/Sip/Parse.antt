-- ===== src/Sip/Parse.antt =====
-- The bounds that lws_sip_parse_uri of src/lws_agent.c keeps on every input.
use lwsip.Common.{
  ◌<◌, ◌≡◌, refl, Bool-cases, Option-cases, inl, inr, none, some, [], ◌∷◌, arith, Bytes, length,
  take, length-take, ltb, ◌&&◌, ◌==◌, strchr, break_at, strip_prefix, codes, if◌then◌else◌,
}
use lwsip.Sip.{
  SipAddr, cleared, max_nickname_len, max_username_len, max_domain_len, parse_port, parse_user,
  parse_quoted, parse_unquoted, parse_name, lws_sip_parse_uri, trim_end, skip_blanks_and_bracket,
  skip_blanks, ends_domain,
}

-- Every field fits its array, terminating zero included, and the port fits 16 bits.
pub record IsFitting (addr : SipAddr) : Type 0 where
  pub nickname_fits : length addr.nickname < max_nickname_len
  pub username_fits : length addr.username < max_username_len
  pub domain_fits : length addr.domain < max_domain_len
  pub port_fits : addr.port < 65536

parse_port_bound : (s : Bytes) → parse_port s < 65536
unfolding parse_port
parse_port_bound [] = omega arith
parse_port_bound (c ∷ s) = ground arith

parse_user-IsFitting :
    (addr : SipAddr) (p : Bytes) → IsFitting addr → IsFitting (parse_user addr p).0
unfolding parse_user
parse_user-IsFitting addr p f =
    let after_sips : Bytes = elim (strip_prefix (codes "sips:") p) [ some r ↦ r | none ↦ p ] in
    let q : Bytes = elim (strip_prefix (codes "sip:") p) [ some r ↦ r | none ↦ after_sips ] in
    elim (Option-cases (strchr b'@' q)) [
      | inl missing ↦ rw (missing, parse_user) f
      | inr (found, e) ↦
          let (user, rest) = found in
          let d = break_at ends_domain rest in
          rw (e, parse_user)
            (record {
              nickname_fits = f.nickname_fits;
              username_fits = omega (arith, length-take 63 user);
              domain_fits = omega (arith, length-take 255 d.0);
              port_fits = parse_port_bound d.1;
            })
    ]

parse_quoted-IsFitting : (p : Bytes) → IsFitting (parse_quoted p).0
unfolding parse_quoted
parse_quoted-IsFitting p = elim (Option-cases (strchr b'"' p)) [
  | inl missing ↦ rw (missing, parse_quoted) (omega arith)
  | inr (found, e) ↦
      let (name, rest) = found in
      rw (e, parse_quoted)
        (parse_user-IsFitting (record cleared { nickname = take 63 name })
          (skip_blanks_and_bracket rest) (omega (arith, length-take 63 name)))
]

IsFitting-name :
    (name : Bytes)
    → IsFitting (
        if ltb 0 (length name) && ltb (length name) max_nickname_len
        then record cleared { nickname = name }
        else cleared)
IsFitting-name name = ground arith

parse_unquoted-IsFitting : (p : Bytes) → IsFitting (parse_unquoted p).0
unfolding parse_unquoted
parse_unquoted-IsFitting p = elim (Option-cases (strchr b'<' p)) [
  | inl missing ↦ rw (missing, parse_unquoted) (parse_user-IsFitting cleared p (omega arith))
  | inr (found, e) ↦
      let (before, rest) = found in
      rw (e, parse_unquoted) (parse_user-IsFitting _ rest (IsFitting-name (trim_end before)))
]

parse_name-IsFitting : (p : Bytes) → IsFitting (parse_name p).0
parse_name-IsFitting [] = parse_unquoted-IsFitting []
parse_name-IsFitting (c ∷ s) = elim (Bool-cases (c == b'"')) [
  | inl quoted ↦ rw quoted (parse_quoted-IsFitting s)
  | inr plain ↦ rw plain (parse_unquoted-IsFitting (c ∷ s))
]

-- Whatever the URI holds, the parser writes within the arrays of the address and a port of 16 bits,
-- also where it fails.
pub parse-IsFitting :
    (uri : Bytes) (old : SipAddr)
    → (addr : SipAddr) × ((lws_sip_parse_uri (some uri) (some old)).0 ≡ some addr) × IsFitting addr
unfolding lws_sip_parse_uri
parse-IsFitting uri old =
    ((parse_name (skip_blanks uri)).0, refl, parse_name-IsFitting (skip_blanks uri))
