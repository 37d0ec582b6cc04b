-- ===== src/Trans/Address.antt =====
-- lws_addr_to_string, lws_addr_from_string and lws_addr_equals of src/lws_trans.c.
use mathlib.Core.Path.{subst}
use mathlib.Core.List.{append-nil}
use lwsip.Common.{
  ◌≡◌, refl, ap, ◌∙◌, ℕ, zero, suc, ◌-◌, ◌%◌, ◌^◌, ◌<◌, Bool, true, false, Option, none, some, [],
  ◌∷◌, ◌++◌, ◌&&◌, ◌||◌, ◌==◌, leb, arith, if◌then◌else◌, ℤ, pos, negsuc, Bytes, CString, is_empty,
  str_eq, strncpy, snprintf, break_at, take_all, length, lws_ok, lws_einval, ==_refl,
}
use lwsip.Common.Decimal.{
  decimal, is_digit, read_digits, Digits, Digits-decimal, read_digits-decimal, is_empty-decimal,
}
use lwsip.Common.TextLaws.{Avoids, is_byte, break_at-append, str_eq_refl}
use lwsip.Trans.Types.{Addr, max_ip_len}

-- AF_INET of the system.
abbrev pub af_inet : ℕ
af_inet = 2

abbrev pub addr_text : Addr → Bytes
addr_text addr = addr.ip ++ b':' ∷ decimal addr.port

-- What the buffer holds afterwards, and the result.
unfoldable pub lws_addr_to_string :
    (addr : Option Addr) → (buf : CString) → (size : ℕ) → CString × ℕ
lws_addr_to_string none buf size = (buf, 0)
lws_addr_to_string (some addr) none size = (none, 0)
lws_addr_to_string (some addr) (some old) size =
    if size == 0
    then (some old, 0)
    else (some (snprintf size (addr_text addr)), length (addr_text addr))

-- `isspace`
abbrev pub is_space : ℕ → Bool
is_space c = (c == 32) || (leb 9 c && leb c 13)

unfoldable pub skip_space : Bytes → Bytes
skip_space [] = []
skip_space (c ∷ s) = let rest = skip_space s in if is_space c then rest else c ∷ s

abbrev pub scan_digits : Bytes → Option ℕ
scan_digits [] = none
scan_digits (c ∷ s) = if is_digit c then some (read_digits 0 (c ∷ s)) else none

abbrev pub negated : ℕ → ℤ
negated zero = pos 0
negated (suc n) = negsuc n

unfoldable pub scan_signed : Bytes → Option ℤ
scan_signed [] = none
scan_signed (c ∷ s) =
    let minus : Option ℤ = elim (scan_digits s) [ none ↦ none | some n ↦ some (negated n) ] in
    let plus : Option ℤ = elim (scan_digits s) [ none ↦ none | some n ↦ some (pos n) ] in
    let bare : Option ℤ = elim (scan_digits (c ∷ s)) [ none ↦ none | some n ↦ some (pos n) ] in
    if c == b'-' then minus else if c == b'+' then plus else bare

-- `%d` of sscanf. A number beyond int, which C leaves undefined, keeps its value here.
unfoldable pub scan_int : Bytes → Option ℤ
unfolding scan_signed skip_space
scan_int s = scan_signed (skip_space s)

-- `(uint16_t)port`
abbrev pub to_uint16 : ℤ → ℕ
to_uint16 (pos n) = n % 2 ^ 16
to_uint16 (negsuc n) = 2 ^ 16 - 1 - n % 2 ^ 16

-- `overrun` is a text that sscanf writes behind the end of `ip`.
pub data Parsed : Type 0 where
  overrun : Parsed
  returned : Option Addr → ℤ → Parsed

-- `"%[^:]:%d"`: the text before the colon, and the number behind it where there is one.
unfoldable pub scan_ip_port : Bytes → Bytes × Option ℤ
unfolding break_at scan_int
scan_ip_port str =
    let parts = break_at (is_byte b':') str in
    (parts.0, if is_empty parts.0 then none else elim parts.1 [ [] ↦ none | c ∷ s ↦ scan_int s ])

-- `"%s"`
unfoldable pub scan_word : Bytes → Bytes
unfolding break_at skip_space
scan_word str = (break_at is_space (skip_space str)).0

abbrev pub inet_addr : Bytes → ℕ → Addr
inet_addr ip port = record { ip = strncpy max_ip_len ip; port = port; family = some af_inet }

-- `memset(addr, 0, sizeof(*addr))`
abbrev pub cleared_addr : Addr
cleared_addr = record { ip = []; port = 0; family = some 0 }

-- From the second sscanf on.
unfoldable pub parse_word : Bytes → Parsed
parse_word word =
    if is_empty word
    then returned (some cleared_addr) lws_einval
    else if leb max_ip_len (length word)
    then overrun
    else returned (some (inet_addr word 0)) lws_ok

unfoldable pub lws_addr_from_string : CString → Option Addr → Parsed
unfolding scan_ip_port scan_word parse_word
lws_addr_from_string none addr = returned addr lws_einval
lws_addr_from_string (some str) none = returned none lws_einval
lws_addr_from_string (some str) (some old) =
    let scanned = scan_ip_port str in
    let word = parse_word (scan_word str) in
    if leb max_ip_len (length scanned.0) then overrun else elim scanned.1 [
      | none ↦ word
      | some port ↦ returned (some (inet_addr scanned.0 (to_uint16 port))) lws_ok
    ]

unfoldable pub lws_addr_equals : Option Addr → Option Addr → Bool
unfolding str_eq
lws_addr_equals none addr2 = false
lws_addr_equals (some addr1) none = false
lws_addr_equals (some addr1) (some addr2) = str_eq addr1.ip addr2.ip && (addr1.port == addr2.port)

-- An address of the form that the transports use.
pub record IsPlain (addr : Addr) : Type 0 where
  pub named : is_empty addr.ip ≡ false
  pub short : length addr.ip < max_ip_len
  pub plain : Avoids (is_byte b':') addr.ip
  pub ranged : addr.port < 2 ^ 16

scan_int-Digits :
    (s : Bytes) → is_empty s ≡ false → Digits s → scan_int s ≡ some (pos (read_digits 0 s))
unfolding scan_int scan_signed skip_space
scan_int-Digits [] h d = cc
scan_int-Digits (c ∷ s) h d = ground arith

pub scan_int-decimal : (n : ℕ) → n < 10 ^ 10 → scan_int (decimal n) ≡ some (pos n)
scan_int-decimal n h =
    scan_int-Digits (decimal n) (is_empty-decimal n) (Digits-decimal n)
    ∙ ap (λ k. some (pos k))
        (subst (λ s. read_digits 0 s ≡ n) (append-nil (decimal n)) (read_digits-decimal n [] h tt))

to_string-addr_text :
    (addr : Addr) (buf : Bytes) (size : ℕ)
    → length (addr_text addr) < size
    → (lws_addr_to_string (some addr) (some buf) size).0 ≡ some (addr_text addr)
unfolding lws_addr_to_string
to_string-addr_text addr buf size room =
    ground (arith, take_all (size - 1) (addr_text addr) (omega arith))

scan-addr_text :
    (addr : Addr) → IsPlain addr → scan_ip_port (addr_text addr) ≡ (addr.ip, some (pos addr.port))
unfolding scan_ip_port
scan-addr_text addr v =
    rw
      (
        break_at-append (is_byte b':') addr.ip (b':' ∷ decimal addr.port) v.plain refl,
        v.named,
        scan_int-decimal addr.port (omega (arith, v.ranged)),
      )
      refl

from_string-scanned :
    (str ip : Bytes) (port : ℕ) (old : Addr)
    → scan_ip_port str ≡ (ip, some (pos port))
    → length ip < max_ip_len
    → lws_addr_from_string (some str) (some old)
      ≡ returned (some (inet_addr ip (port % 2 ^ 16))) lws_ok
unfolding lws_addr_from_string
from_string-scanned str ip port old e h = ground arith

-- An address whose text is not empty, shorter than its array and without a colon, and whose port
-- has 16 bits, is read back from what `lws_addr_to_string` leaves in a buffer with room, as an
-- IPv4 address that `lws_addr_equals` finds equal.
pub from_string-to_string :
    (addr old : Addr) (buf : Bytes) (size : ℕ)
    → IsPlain addr
    → length (addr_text addr) < size
    → let read : Addr = record addr { family = some af_inet } in
      (lws_addr_from_string (lws_addr_to_string (some addr) (some buf) size).0 (some old)
        ≡ returned (some read) lws_ok)
      × (lws_addr_equals (some addr) (some read) ≡ true)
unfolding lws_addr_equals
from_string-to_string addr old buf size v room =
    let short = take_all 63 addr.ip (omega (arith, v.short)) in
    let narrow : addr.port % 2 ^ 16 ≡ addr.port = omega (arith, v.ranged) in
    (
      rw (to_string-addr_text addr buf size room) (
          from_string-scanned (addr_text addr) addr.ip addr.port old (scan-addr_text addr v) v.short
          ∙ rw (short, narrow) refl),
      rw (str_eq_refl addr.ip, ==_refl addr.port) refl,
    )
