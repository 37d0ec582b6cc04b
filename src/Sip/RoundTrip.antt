-- ===== src/Sip/RoundTrip.antt =====
-- Parsing what lws_sip_addr_to_string wrote.
use lwsip.Common.{
  ap, sym, ℕ, ◌<◌, ◌≡◌, refl, true, false, Bool-cases, inl, inr, some, [], ◌∷◌, ◌++◌, arith, Bytes,
  length, take_all, is_empty, codes, if◌then◌else◌, strip_prefix, lws_ok,
}
use mathlib.Core.List.{append_assoc}
use lwsip.Common.Decimal.{decimal, EndsNumber, read_digits-decimal, Digits, Digits-decimal}
use lwsip.Common.TextLaws.{
  Avoids, is_byte, Avoids-append, strchr-append, strchr-Avoids, Stops, break_at-append,
}
use lwsip.Sip.{
  SipAddr, cleared, ends_domain, max_username_len, max_domain_len, parse_port, parse_user,
  parse_quoted, parse_unquoted, parse_name, skip_blanks, skip_blanks_and_bracket, lws_sip_parse_uri,
  has_port, lws_sip_addr_to_string,
}
use lwsip.Sip.Parse.{IsFitting}
use lwsip.Sip.Print.{optional_port, closing, full_text, print-full_text}

-- The parts hold none of the bytes that end them, and no bracket.
pub record IsPlain (addr : SipAddr) : Type 0 where
  pub fits : IsFitting addr
  pub nickname_plain : Avoids (is_byte b'"') addr.nickname
  pub username_plain : Avoids (is_byte b'@') addr.username
  pub username_open : Avoids (is_byte b'<') addr.username
  pub domain_plain : Avoids ends_domain addr.domain
  pub domain_open : Avoids (is_byte b'<') addr.domain

-- The address that the text stands for: the default port is not written.
abbrev pub written : SipAddr → SipAddr
written addr = record addr { port = if has_port addr then addr.port else 0 }

parse_user-text :
    (addr : SipAddr) (user dom tail : Bytes)
    → length user < max_username_len
    → length dom < max_domain_len
    → Avoids (is_byte b'@') user
    → Avoids ends_domain dom
    → Stops ends_domain tail
    → parse_user addr (codes "sip:" ++ (user ++ (codes "@" ++ (dom ++ tail))))
      ≡ (record addr { username = user; domain = dom; port = parse_port tail }, lws_ok)
unfolding parse_user strip_prefix
parse_user-text addr user dom tail fu fd pu pd stop =
    rw (strchr-append b'@' user (dom ++ tail) pu, parse_user)
      (rw (
        break_at-append ends_domain dom tail pd stop,
        take_all 63 user (omega arith),
        take_all 255 dom (omega arith),
      ))

abbrev tail_text : SipAddr → Bytes
tail_text addr = optional_port addr ++ closing addr

tail-Stops : (addr : SipAddr) → Stops ends_domain (tail_text addr)
tail-Stops addr = elim (Bool-cases (has_port addr)) [
  | inl ported ↦ rw ported refl
  | inr portless ↦ rw portless (ground arith)
]

closing-EndsNumber : (addr : SipAddr) → EndsNumber (closing addr)
closing-EndsNumber addr = ground arith

parse_port-tail :
    (addr : SipAddr)
    → addr.port < 65536
    → parse_port (tail_text addr) ≡ (if has_port addr then addr.port else 0)
unfolding parse_port
parse_port-tail addr h = elim (Bool-cases (has_port addr)) [
  | inl ported ↦ rw ported (
      rw (read_digits-decimal addr.port (closing addr) (omega arith) (closing-EndsNumber addr))
        (ground arith))
  | inr portless ↦ rw portless (ground arith)
]

quoted_text :
    (addr : SipAddr)
    → is_empty addr.nickname ≡ false
    → full_text addr
      ≡ codes "\""
        ++ (addr.nickname
            ++ (codes "\"<"
                ++ (codes "sip:"
                    ++ (addr.username ++ (codes "@" ++ (addr.domain ++ tail_text addr))))))
unfolding full_text
quoted_text addr named = rw named (simp append_assoc)

bare_text :
    (addr : SipAddr)
    → is_empty addr.nickname ≡ true
    → full_text addr
      ≡ codes "sip:" ++ (addr.username ++ (codes "@" ++ (addr.domain ++ tail_text addr)))
unfolding full_text
bare_text addr bare = rw bare (simp append_assoc)

Digits-open : (s : Bytes) → Digits s → Avoids (is_byte b'<') s
Digits-open [] h = tt
Digits-open (c ∷ s) h = (ground (arith, h.0), Digits-open s h.1)

tail_open : (addr : SipAddr) → Avoids (is_byte b'<') (tail_text addr)
tail_open addr =
    Avoids-append (is_byte b'<') (optional_port addr) (closing addr)
      (elim (Bool-cases (has_port addr)) [
        | inl ported ↦ rw ported (refl, Digits-open (decimal addr.port) (Digits-decimal addr.port))
        | inr portless ↦ rw portless tt
      ])
      (ground arith)

parse_written :
    (base addr : SipAddr)
    → IsPlain addr
    → base.nickname ≡ addr.nickname
    → parse_user base
        (codes "sip:" ++ (addr.username ++ (codes "@" ++ (addr.domain ++ tail_text addr))))
      ≡ (written addr, lws_ok)
parse_written base addr p e = rw (
  parse_user-text base addr.username addr.domain (tail_text addr) p.fits.username_fits
      p.fits.domain_fits p.username_plain p.domain_plain (tail-Stops addr),
  parse_port-tail addr p.fits.port_fits,
  e,
)

bare-RoundTrip :
    (addr : SipAddr)
    → IsPlain addr
    → addr.nickname ≡ []
    → parse_name (skip_blanks (full_text addr)) ≡ (written addr, lws_ok)
unfolding parse_unquoted skip_blanks
bare-RoundTrip addr p e =
    let open_text : Avoids (is_byte b'<')
        (addr.username ++ (codes "@" ++ (addr.domain ++ tail_text addr))) =
      Avoids-append (is_byte b'<') addr.username _ p.username_open
        (refl, Avoids-append (is_byte b'<') addr.domain _ p.domain_open (tail_open addr)) in
    let whole = codes "sip:" ++ (addr.username ++ (codes "@" ++ (addr.domain ++ tail_text addr))) in
    rw (bare_text addr (ap is_empty e)) (
      rw (strchr-Avoids b'<' whole (refl, (refl, (refl, (refl, open_text)))), parse_unquoted)
        (parse_written cleared addr p (sym e)))

quoted-RoundTrip :
    (addr : SipAddr)
    → IsPlain addr
    → is_empty addr.nickname ≡ false
    → parse_name (skip_blanks (full_text addr)) ≡ (written addr, lws_ok)
unfolding parse_quoted skip_blanks skip_blanks_and_bracket
quoted-RoundTrip addr p named = rw (quoted_text addr named) (
    rw (strchr-append b'"' addr.nickname _ p.nickname_plain, parse_quoted)
      (rw (take_all 63 addr.nickname (omega (arith, p.fits.nickname_fits)))
        (parse_written (record cleared { nickname = addr.nickname }) addr p refl)))

full-RoundTrip :
    (addr : SipAddr)
    → IsPlain addr
    → parse_name (skip_blanks (full_text addr)) ≡ (written addr, lws_ok)
full-RoundTrip addr p = elim (Bool-cases (is_empty addr.nickname)) [
  | inl bare ↦ bare-RoundTrip addr p (ground arith)
  | inr named ↦ quoted-RoundTrip addr p named
]

-- An address whose parts fit their arrays and hold none of the separators is read back from what
-- was written into a buffer that is large enough; only the default port 5060 comes back as 0.
pub parse-print :
    (addr old : SipAddr) (buf : Bytes) (size : ℕ)
    → IsPlain addr
    → length (full_text addr) < size
    → lws_sip_parse_uri (lws_sip_addr_to_string (some addr) (some buf) size).0 (some old)
      ≡ (some (written addr), lws_ok)
unfolding lws_sip_parse_uri
parse-print addr old buf size p room =
    rw (print-full_text addr buf size room) (rw (full-RoundTrip addr p))
