-- ===== src/Cli/Server.antt =====
-- The server address and the configuration of the agent in init_lwsip of src/cmd/lwsip-cli.c.
use lwsip.Common.{
  ◌+◌, ◌&&◌, ◌||◌, leb, map, str_eq, ◌≡◌, ap, ◌∙◌, ℕ, ◌<◌, ◌%◌, ◌^◌, true, Option, none, some, ◌++◌,
  arith, Bytes, codes, strchr, strip_prefix, strncpy, take, take_all, if◌then◌else◌,
}
use lwsip.Common.Decimal.{decimal}
use lwsip.Common.TextLaws.{strchr-append, strchr-Avoids}
use lwsip.Trans.Address.{IsPlain, addr_text, to_uint16}
use lwsip.Trans.Types.{Addr}
use lwsip.Agent.Transport.{
  AgentConfig, atoi, strrchr, port_or_default, request_peer, registrar_addr, peer_addr,
}
use lwsip.Agent.Delivery.{atoi-decimal}
use lwsip.Dev.Timestamp.{AudioFormat, pcm_s16le, pcma}
use lwsip.Cli.{App}

abbrev pub to_lower : ℕ → ℕ
to_lower c = if leb b'A' c && leb c b'Z' then c + 32 else c

-- The registrar and the port.
unfoldable pub parse_server : Bytes → Bytes × ℕ
unfolding strip_prefix strchr atoi
parse_server server_addr =
    let server_str : Bytes = elim (strip_prefix (codes "sip:") server_addr) [
      | none ↦ server_addr
      | some behind ↦ behind
    ] in
    elim (strchr b':' server_str) [
      | none ↦ (strncpy 256 server_str, 5060)
      | some (host, port) ↦ (take 255 host, to_uint16 (atoi port))
    ]

unfoldable pub cli_agent_config : App → AgentConfig
unfolding parse_server
cli_agent_config app =
    let server = parse_server app.server_addr in
    record {
      username = strncpy 64 app.username;
      password = strncpy 64 app.password;
      nickname = strncpy 64 app.username;
      domain = strncpy 256 (strncpy 256 server.0);
      registrar = strncpy 256 server.0;
      registrar_port = server.1;
      auto_register = true;
      register_expires = 3600;
      user_agent = codes "lwsip-cli/1.0";
    }

parse-addr_text :
    (addr : Addr)
    → IsPlain addr
    → parse_server (codes "sip:" ++ addr_text addr) ≡ (addr.ip, addr.port)
unfolding parse_server strip_prefix
parse-addr_text addr v =
    let found = strchr-append b':' addr.ip (decimal addr.port) v.plain in
    let short = take_all 255 addr.ip (omega (arith, v.short)) in
    let port = atoi-decimal addr.port (omega (arith, v.ranged)) in
    let narrow : addr.port % 2 ^ 16 ≡ addr.port = omega (arith, v.ranged) in ground arith

request_peer-registrar_addr :
    (config : AgentConfig)
    → strchr b':' config.registrar ≡ none
    → request_peer config ≡ registrar_addr config
unfolding request_peer
request_peer-registrar_addr config h = ground arith

given_port : (port : ℕ) → 0 < port → port_or_default port ≡ port
given_port port h = ground arith

-- A server that is given as `sip:host:port`, with a host that is not empty, shorter than 64 bytes
-- and without a colon, and a port from 1 to 65535, is the host and port that the agent's requests
-- go to.
pub request_peer-agent_config :
    (app : App) (addr : Addr)
    → IsPlain addr
    → 0 < addr.port
    → app.server_addr ≡ codes "sip:" ++ addr_text addr
    → request_peer (cli_agent_config app) ≡ peer_addr addr.ip addr.port
unfolding cli_agent_config
request_peer-agent_config app addr v h e =
    let server = ap parse_server e ∙ parse-addr_text addr v in
    let short = take_all 255 addr.ip (omega (arith, v.short)) in
    let fits = take_all 63 addr.ip (omega (arith, v.short)) in
    let bare =
      ap (λ s. strchr b':' (take 255 s.0)) server
      ∙ ap (λ s. strchr b':' s) short
      ∙ strchr-Avoids b':' addr.ip v.plain in
    request_peer-registrar_addr (cli_agent_config app) bare
    ∙ ap (λ s. peer_addr (take 63 (take 255 s.0)) (port_or_default s.1)) server
    ∙ ap (λ s. peer_addr (take 63 s) (port_or_default addr.port)) short
    ∙ ap (λ s. peer_addr s (port_or_default addr.port)) fits
    ∙ ap (peer_addr addr.ip) (given_port addr.port h)

-- `strrchr(filepath, '.')`, and up to 15 bytes behind it in lower case.
unfoldable pub lower_extension : Bytes → Option Bytes
unfolding strrchr
lower_extension filepath = elim (strrchr b'.' filepath) [
  | none ↦ none
  | some (before, ext) ↦ some (map to_lower (take 15 ext))
]

-- The format, the sample rate and the channels; `none` is the result -1.
unfoldable pub detect_audio_file_format : Bytes → Option (AudioFormat × ℕ × ℕ)
unfolding lower_extension str_eq
detect_audio_file_format filepath = elim (lower_extension filepath) [
  | none ↦ none
  | some ext ↦
      if str_eq ext (codes "wav")
      then some (pcm_s16le, 8000, 1)
      else if str_eq ext (codes "mp4") || str_eq ext (codes "m4a")
      then some (pcma, 8000, 1)
      else none
]
