-- ===== src/Agent/Transport.antt =====
-- How the agent sends and receives messages: sip_transport_via, sip_transport_send, sip_uas_send and
-- trans_on_data of src/lws_agent.c.
use lwsip.Common.{
  ◌%◌, ◌^◌, ltb, ℕ, ◌-◌, is_nonzero, Bool, not, Option, none, some, List, [], ◌∷◌, ◌++◌, ◌==◌,
  if◌then◌else◌, ℤ, pos, negsuc, is_neg, is_pos, Bytes, codes, is_empty, is_some, strchr,
  strip_prefix, snprintf, take,
}
use lwsip.Common.Decimal.{decimal}
use lwsip.Trans.Types.{Addr, Trans, Effect, max_ip_len}
use lwsip.Trans.Api.{TransEnv, lws_trans_send, lws_trans_get_local_addr}
use lwsip.Trans.Address.{scan_int, to_uint16}

pub record AgentConfig : Type 0 where
  pub username : Bytes
  pub password : Bytes
  pub nickname : Bytes
  pub domain : Bytes
  pub registrar : Bytes
  pub registrar_port : ℕ
  pub auto_register : Bool
  pub register_expires : ℕ
  pub user_agent : Bytes

-- `atoi`. A number beyond int, which C leaves undefined, keeps its value here.
unfoldable pub atoi : Bytes → ℤ
unfolding scan_int
atoi s = elim (scan_int s) [ none ↦ pos 0 | some n ↦ n ]

-- The family is never written.
abbrev pub peer_addr : Bytes → ℕ → Addr
peer_addr ip port = record { ip = ip; port = port; family = none }

abbrev pub port_or_default : ℕ → ℕ
port_or_default port = if port == 0 then 5060 else port

abbrev pub registrar_addr : AgentConfig → Addr
registrar_addr config =
    peer_addr (snprintf max_ip_len config.registrar) (port_or_default config.registrar_port)

-- The address of the server that requests go to.
unfoldable pub request_peer : AgentConfig → Addr
unfolding strchr atoi
request_peer config = elim (strchr b':' config.registrar) [
  | none ↦ registrar_addr config
  | some (host, port) ↦ peer_addr (take (max_ip_len - 1) host) (to_uint16 (atoi port))
]

abbrev pub sent_result : ℤ → ℤ
sent_result sent = if is_neg sent then negsuc 0 else pos 0

-- The cast of a `size_t` to `int`, which keeps the low 32 bits.
unfoldable pub to_int : ℕ → ℤ
to_int n = let w = n % 2 ^ 32 in if ltb w (2 ^ 31) then pos w else negsuc (2 ^ 32 - w - 1)

-- `answer` is what the system or lwIP returns.
unfoldable pub sip_transport_send :
    TransEnv → (answer : ℤ) → Trans → AgentConfig → (bytes : Bytes) (n : ℕ) → ℤ × List Effect
unfolding request_peer lws_trans_send
sip_transport_send env answer trans config bytes n =
    let sent =
      lws_trans_send env answer (some trans) (some bytes) (to_int n) (some (request_peer config)) in
    (sent_result sent.0, sent.1)

-- `strrchr(s, c)`: what stands before the last `c`, and what stands behind it.
unfoldable pub strrchr : ℕ → Bytes → Option (Bytes × Bytes)
strrchr c [] = none
strrchr c (x ∷ s) =
    let rest = strrchr c s in
    let here : Option (Bytes × Bytes) = if x == c then some ([], s) else none in
    elim rest [ none ↦ here | some (a, b) ↦ some (x ∷ a, b) ]

-- `*(colon - 1)`, where `below` is the byte in front of the array.
unfoldable pub last_byte : (below : ℕ) → Bytes → ℕ
last_byte below [] = below
last_byte below (c ∷ s) = last_byte c s

-- A `cstring_t` with a text; `none` is NULL or an empty one.
abbrev pub given_cstring : Option Bytes → Option Bytes
given_cstring none = none
given_cstring (some s) = if is_empty s then none else some s

abbrev pub host_port : Bytes → Addr
unfolding strrchr atoi
host_port start = elim (strrchr b':' start) [
  | none ↦ peer_addr (snprintf max_ip_len start) 5060
  | some (host, port) ↦ peer_addr (snprintf max_ip_len host) (to_uint16 (atoi port))
]

-- The host and the port in the URL of libsip.
unfoldable pub url_peer : (below : ℕ) → Bytes → Addr
unfolding strchr strrchr last_byte host_port
url_peer below url =
    let url_str = snprintf 256 url in
    let start : Bytes = elim (strchr b'@' url_str) [ none ↦ url_str | some (a, b) ↦ b ] in
    elim (strchr b':' url_str) [
      | none ↦ peer_addr (snprintf max_ip_len url) 5060
      | some (front, back) ↦
          if last_byte below front == b'/'
          then peer_addr (snprintf max_ip_len url) 5060
          else host_port start
    ]

-- The address that a response goes to.
unfoldable pub response_peer :
    AgentConfig → (below : ℕ) → (url via_received : Option Bytes) → (rport : ℤ) → Addr
unfolding url_peer
response_peer config below url via_received rport = elim (given_cstring via_received) [
  | some ip ↦ peer_addr (snprintf max_ip_len ip) (if is_pos rport then to_uint16 rport else 5060)
  | none ↦ elim (given_cstring url) [ some u ↦ url_peer below u | none ↦ registrar_addr config ]
]

unfoldable pub sip_uas_send :
    TransEnv
    → (answer : ℤ) (below : ℕ) → Trans
    → AgentConfig
    → (url via_received : Option Bytes) → (rport : ℤ) → (bytes : Bytes) → (n : ℤ) → ℤ × List Effect
unfolding response_peer lws_trans_send
sip_uas_send env answer below trans config url via_received rport bytes n =
    let to = response_peer config below url via_received rport in
    let sent = lws_trans_send env answer (some trans) (some bytes) n (some to) in
    (sent_result sent.0, sent.1)

abbrev pub local_text : Addr → Bytes
unfolding decimal
local_text addr = snprintf 128 (addr.ip ++ b':' ∷ decimal addr.port)

-- The protocol, and the local address that is written twice. `name` is what `getsockname` finds.
unfoldable pub sip_transport_via :
    TransEnv → (name : Option (ℕ × ℕ)) → (uninitialised : Addr) → Trans → Bytes × Bytes × Bytes
unfolding lws_trans_get_local_addr local_text
sip_transport_via env name uninitialised trans =
    let found = lws_trans_get_local_addr env name (some trans) (some uninitialised) in
    let known : Bytes = elim found.0 [ none ↦ [] | some addr ↦ local_text addr ] in
    let local = if is_nonzero found.1 then codes "0.0.0.0:5060" else known in
    (codes "UDP", local, local)

-- What libhttp and libsip are asked to do with a message.
pub data MessageCall : Type 0 where
  parser_create : (is_response : Bool) → MessageCall
  parser_input : Bytes → MessageCall
  parser_destroy : MessageCall
  message_create : (is_response : Bool) → MessageCall
  message_load message_destroy : MessageCall
  set_rport : Bytes → ℕ → MessageCall
  agent_input : MessageCall

-- What they answer.
pub record MessageEnv : Type 0 where
  pub has_parser : Bool
  pub input_ret : ℤ
  pub has_message : Bool
  pub load_ret : ℤ

abbrev pub is_reply : Bytes → Bool
unfolding strip_prefix
is_reply bytes = is_some (strip_prefix (codes "SIP/2.0") bytes)

unfoldable pub load_message : MessageEnv → Bool → Addr → List MessageCall
load_message env is_response from =
    if not env.has_message
    then message_create is_response ∷ parser_destroy ∷ []
    else message_create is_response
      ∷ message_load
      ∷ (if is_neg env.load_ret
          then message_destroy ∷ parser_destroy ∷ []
          else set_rport from.ip from.port ∷ agent_input ∷ parser_destroy ∷ [])

unfoldable pub trans_on_data : MessageEnv → Bytes → Addr → List MessageCall
unfolding load_message is_reply
trans_on_data env bytes from =
    let loaded = load_message env (is_reply bytes) from in
    parser_create (is_reply bytes)
    ∷ (if not env.has_parser
        then []
        else parser_input bytes ∷ (if is_neg env.input_ret then parser_destroy ∷ [] else loaded))
