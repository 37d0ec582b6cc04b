-- ===== src/Auth/Header.antt =====
-- lws_auth_build_authorization_header of src/lws_auth.c.
use lwsip.Common.{
  ◌==◌, ℕ, ◌+◌, ◌-◌, ◌<◌, ◌≡◌, refl, true, false, Option, none, some, [], ◌∷◌, ◌++◌, if◌then◌else◌,
  ltb, leb, Bytes, CString, codes, is_empty, snprintf, take_all, length, length-append, arith,
}
use mathlib.Core.List.{append-nil}
use lwsip.Auth.Response.{AuthResponse, hex_fixed}

-- `failed` is the result -1 and `built` the result 0, with what the buffer holds; `overrun` is a
-- write behind the end of the buffer.
pub data Header : Type 0 where
  failed built : CString → Header
  overrun : Header

abbrev pub quoted : Bytes → Bytes
quoted s = b'"' ∷ s ++ b'"' ∷ []

abbrev pub digest_part : AuthResponse → Bytes → Bytes
digest_part r username =
    codes "Digest username="
    ++ quoted username
    ++ codes ", realm="
    ++ quoted r.realm
    ++ codes ", nonce="
    ++ quoted r.nonce
    ++ codes ", uri="
    ++ quoted r.uri
    ++ codes ", response="
    ++ quoted r.response
    ++ codes ", algorithm="
    ++ r.algorithm

unfoldable pub qop_part : AuthResponse → Bytes
unfolding hex_fixed
qop_part r =
    if is_empty r.qop
    then []
    else codes ", qop="
      ++ r.qop
      ++ codes ", nc="
      ++ hex_fixed 8 r.nc
      ++ codes ", cnonce="
      ++ quoted r.cnonce

abbrev pub opaque_part : AuthResponse → Bytes
opaque_part r = if is_empty r.opaque then [] else codes ", opaque=" ++ quoted r.opaque

-- A part printed behind the `written` bytes that were counted: `header_len - written` is a size_t,
-- which wraps around where more was counted than there is room for. Only the last part meets that.
unfoldable pub append_part : (header_len written : ℕ) (text part : Bytes) → Header
append_part header_len written text part =
    if is_empty part
    then built (some text)
    else if ltb header_len written
    then overrun
    else built (some (text ++ snprintf (header_len - written) part))

unfoldable pub lws_auth_build_authorization_header :
    Option AuthResponse → (username header : CString) → (header_len : ℕ) → Header
unfolding append_part digest_part qop_part
lws_auth_build_authorization_header none username header header_len = failed header
lws_auth_build_authorization_header (some r) none header header_len = failed header
lws_auth_build_authorization_header (some r) (some username) none header_len = failed none
lws_auth_build_authorization_header (some r) (some username) (some old) header_len =
    let first = digest_part r username in
    let text = first ++ snprintf (header_len - length first) (qop_part r) in
    if leb header_len (length first)
    then failed (if header_len == 0 then some old else some (snprintf header_len first))
    else append_part header_len (length first + length (qop_part r)) text (opaque_part r)

-- The whole text.
abbrev pub full_header : AuthResponse → Bytes → Bytes
full_header r username = (digest_part r username ++ qop_part r) ++ opaque_part r

pub length-full_header :
    (r : AuthResponse) (username : Bytes)
    → length (full_header r username)
      ≡ length (digest_part r username) + length (qop_part r) + length (opaque_part r)
length-full_header r username =
    let outer = length-append (digest_part r username ++ qop_part r) (opaque_part r) in
    let inner = length-append (digest_part r username) (qop_part r) in omega arith

append_part-whole :
    (header_len written : ℕ) (text part : Bytes)
    → written + length part < header_len
    → append_part header_len written text part ≡ built (some (text ++ part))
unfolding append_part
append_part-whole header_len written text [] h = rw (append-nil text) refl
append_part-whole header_len written text (b ∷ part) h =
    let room : ltb header_len written ≡ false = ground arith in
    rw (room, take_all (header_len - written - 1) (b ∷ part) (omega arith)) refl

-- A buffer with room for the whole text and the terminating zero receives it, with the result 0.
pub build_header-full_header :
    (r : AuthResponse) (username old : Bytes) (header_len : ℕ)
    → length (full_header r username) < header_len
    → lws_auth_build_authorization_header (some r) (some username) (some old) header_len
      ≡ built (some (full_header r username))
unfolding lws_auth_build_authorization_header
build_header-full_header r username old header_len h =
    let sum = length-full_header r username in
    let first = digest_part r username in
    let fits : leb header_len (length first) ≡ false = ground arith in
    rw (fits, take_all (header_len - length first - 1) (qop_part r) (omega arith))
      (append_part-whole header_len (length first + length (qop_part r)) (first ++ qop_part r)
        (opaque_part r) (omega arith))

-- Where the first part fits the buffer, the part with the quality of protection ends behind it, and
-- there is an opaque value, the last part is written behind the end of the buffer.
pub build_header-overrun :
    (r : AuthResponse) (username old : Bytes) (header_len : ℕ)
    → length (digest_part r username) < header_len
    → header_len < length (digest_part r username) + length (qop_part r)
    → is_empty r.opaque ≡ false
    → lws_auth_build_authorization_header (some r) (some username) (some old) header_len ≡ overrun
unfolding lws_auth_build_authorization_header append_part
build_header-overrun r username old header_len h k given =
    let fits : leb header_len (length (digest_part r username)) ≡ false = ground arith in
    let past : ltb header_len (length (digest_part r username) + length (qop_part r)) ≡ true =
      ground arith in
    rw (fits, given, past) refl
