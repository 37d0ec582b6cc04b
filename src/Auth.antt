-- ===== src/Auth.antt =====
-- Parsing a digest challenge (parse_digest_param and lws_auth_parse_challenge of src/lws_auth.c).
use lwsip.Common.{
  ℕ, ◌-◌, Bool, true, false, Option, none, some, [], ◌∷◌, ◌||◌, ◌==◌, if◌then◌else◌, Bytes, codes,
  is_empty, break_at, strchr, strstr_after, take,
}
pub mod Challenge
pub mod Response
pub mod Header
pub mod Digest
pub mod Bounds
mod Examples

pub record AuthChallenge : Type 0 where
  pub realm : Bytes
  pub nonce : Bytes
  pub algorithm : Bytes
  pub qop : Bytes
  pub opaque : Bytes

-- What follows the spaces and equal signs.
unfoldable pub skip_equals : Bytes → Bytes
skip_equals [] = []
skip_equals (c ∷ s) = let rest = skip_equals s in if (c == b' ') || (c == b'=') then rest else c ∷ s

-- The value up to its end; `none` is a quote that is never closed.
unfoldable pub value_at : Bytes → Option Bytes
value_at [] = some []
value_at (c ∷ s) =
    if c == b'"'
    then elim (strchr b'"' s) [ none ↦ none | some (before, behind) ↦ some before ]
    else some (break_at (λ x. (x == b',') || (x == b' ')) (c ∷ s)).0

-- What `value` receives; `none` is the return value -1.
unfoldable pub parse_digest_param : (challenge param : Bytes) → (value_len : ℕ) → Option Bytes
parse_digest_param challenge param value_len = elim (strstr_after param challenge) [
  | none ↦ none
  | some behind ↦ elim (value_at (skip_equals behind)) [
    | none ↦ none
    | some value ↦ if is_empty value then none else some (take (value_len - 1) value)
  ]
]

abbrev pub or_else : Option Bytes → Bytes → Bytes
or_else none default = default
or_else (some value) default = value

-- `none` is the return value -1.
unfoldable pub lws_auth_parse_challenge : Bytes → Option AuthChallenge
lws_auth_parse_challenge challenge = elim (parse_digest_param challenge (codes "realm") 256) [
  | none ↦ none
  | some realm ↦ elim (parse_digest_param challenge (codes "nonce") 256) [
    | none ↦ none
    | some nonce ↦ some (record {
      realm = realm;
      nonce = nonce;
      algorithm = or_else (parse_digest_param challenge (codes "algorithm") 16) (codes "MD5");
      qop = or_else (parse_digest_param challenge (codes "qop") 64) [];
      opaque = or_else (parse_digest_param challenge (codes "opaque") 256) [];
    })
  ]
]
