-- ===== src/Sip.antt =====
-- SIP addresses: lws_sip_parse_uri, lws_sip_addr_to_string and lws_agent_get_uri of
-- src/lws_agent.c. An out parameter is `none` where the caller passes NULL; the array behind it
-- holds at most `size - 1` bytes and the terminating zero.
pub mod Parse
pub mod Print
pub mod RoundTrip
mod Examples
use lwsip.Common.{
  ℕ, zero, suc, ◌+◌, ◌-◌, ◌≤◌, ◌<◌, Bool, true, false, not, Option, none, some, List, [], ◌∷◌, ◌++◌,
  ◌&&◌, ◌||◌, ltb, leb, ◌==◌, if◌then◌else◌, ℤ, pos, negsuc, Bytes, CString, codes, is_empty,
  break_at, strchr, strip_prefix, take, drop, length, lws_ok, lws_error, lws_einval, snprintf,
}
use lwsip.Common.Decimal.{decimal, read_digits}

abbrev pub max_nickname_len : ℕ
max_nickname_len = 64

abbrev pub max_username_len : ℕ
max_username_len = 64

abbrev pub max_domain_len : ℕ
max_domain_len = 256

pub record SipAddr : Type 0 where
  pub nickname : Bytes
  pub username : Bytes
  pub domain : Bytes
  pub port : ℕ

-- `memset(addr, 0, sizeof(lws_sip_addr_t))`
abbrev pub cleared : SipAddr
cleared = record { nickname = []; username = []; domain = []; port = 0 }

abbrev pub is_blank : ℕ → Bool
is_blank c = (c == b' ') || (c == 9)

unfoldable pub skip_blanks : Bytes → Bytes
skip_blanks [] = []
skip_blanks (c ∷ s) = let rest = skip_blanks s in if is_blank c then rest else c ∷ s

-- `while (*p && (*p == ' ' || *p == '\t' || *p == '<')) p++;`
unfoldable pub skip_blanks_and_bracket : Bytes → Bytes
skip_blanks_and_bracket [] = []
skip_blanks_and_bracket (c ∷ s) =
    let rest = skip_blanks_and_bracket s in if is_blank c || (c == b'<') then rest else c ∷ s

-- The name without the blanks at its end.
unfoldable pub trim_end : Bytes → Bytes
trim_end [] = []
trim_end (c ∷ s) = let rest = trim_end s in if is_empty rest && is_blank c then [] else c ∷ rest

abbrev pub ends_domain : ℕ → Bool
ends_domain c = (c == b':') || (c == b'>') || (c == b';') || (c == b' ')

-- The port behind the domain; 0 where there is none, or none in range.
unfoldable pub parse_port : Bytes → ℕ
parse_port [] = 0
parse_port (c ∷ s) =
    let port = read_digits 0 s in if (c == b':') && (ltb 0 port && leb port 65535) then port else 0

-- From the user name on: `p` stands behind the display name and the bracket.
unfoldable pub parse_user : SipAddr → Bytes → SipAddr × ℤ
parse_user addr p =
    let after_sips : Bytes = elim (strip_prefix (codes "sips:") p) [ some r ↦ r | none ↦ p ] in
    let q : Bytes = elim (strip_prefix (codes "sip:") p) [ some r ↦ r | none ↦ after_sips ] in
    elim (strchr b'@' q) [
      | none ↦ (addr, lws_einval)
      | some (user, rest) ↦
          let d = break_at ends_domain rest in
          (
            record addr {
              username = take (max_username_len - 1) user;
              domain = take (max_domain_len - 1) d.0;
              port = parse_port d.1;
            },
            lws_ok,
          )
    ]

-- The display name in quotes: `p` stands behind the opening quote.
unfoldable pub parse_quoted : Bytes → SipAddr × ℤ
parse_quoted p = elim (strchr b'"' p) [
  | none ↦ (cleared, lws_einval)
  | some (name, rest) ↦
      parse_user (record cleared { nickname = take (max_nickname_len - 1) name })
        (skip_blanks_and_bracket rest)
]

-- A display name before a bracket; one that is too long is dropped.
unfoldable pub parse_unquoted : Bytes → SipAddr × ℤ
parse_unquoted p = elim (strchr b'<' p) [
  | none ↦ parse_user cleared p
  | some (before, rest) ↦
      let name = trim_end before in
      parse_user
        (if ltb 0 (length name) && ltb (length name) max_nickname_len
          then record cleared { nickname = name }
          else cleared)
        rest
]

abbrev pub parse_name : Bytes → SipAddr × ℤ
parse_name [] = parse_unquoted []
parse_name (c ∷ s) = if c == b'"' then parse_quoted s else parse_unquoted (c ∷ s)

unfoldable pub lws_sip_parse_uri : CString → Option SipAddr → Option SipAddr × ℤ
lws_sip_parse_uri none addr = (addr, lws_einval)
lws_sip_parse_uri (some uri) none = (none, lws_einval)
lws_sip_parse_uri (some uri) (some _) = let r = parse_name (skip_blanks uri) in (some r.0, r.1)

abbrev pub address_text : SipAddr → Bytes
address_text addr =
    if is_empty addr.nickname
    then codes "sip:" ++ (addr.username ++ (codes "@" ++ addr.domain))
    else codes "\""
      ++ (addr.nickname ++ (codes "\"<sip:" ++ (addr.username ++ (codes "@" ++ addr.domain))))

abbrev pub port_text : SipAddr → Bytes
port_text addr = codes ":" ++ decimal addr.port

abbrev pub has_port : SipAddr → Bool
has_port addr = not (addr.port == 0) && not (addr.port == 5060)

-- The bracket that closes what a display name opened.
abbrev pub close_bracket : ℕ → SipAddr → Bytes → Bytes × ℤ
close_bracket size addr text =
    if is_empty addr.nickname
    then (text, pos (length text))
    else if leb size (length text + 1)
    then (text, lws_error)
    else (text ++ codes ">", pos (length text + 1))

-- The buffer afterwards, and the return value.
unfoldable pub print_addr : ℕ → SipAddr → Bytes × ℤ
print_addr size addr =
    let text = address_text addr in
    if leb size (length text)
    then (snprintf size text, lws_error)
    else if has_port addr
    then (if leb size (length text + length (port_text addr))
        then (text ++ snprintf (size - length text) (port_text addr), lws_error)
        else close_bracket size addr (text ++ port_text addr))
    else close_bracket size addr text

-- `buf` is the text that it holds before the call.
unfoldable pub lws_sip_addr_to_string : Option SipAddr → Option Bytes → ℕ → Option Bytes × ℤ
lws_sip_addr_to_string none buf size = (buf, lws_einval)
lws_sip_addr_to_string (some addr) none size = (none, lws_einval)
lws_sip_addr_to_string (some addr) (some old) size =
    if size == 0 then (some old, lws_einval) else (let r = print_addr size addr in (some r.0, r.1))
