-- ===== src/Agent/Delivery.antt =====
-- Where the messages of src/lws_agent.c go, down to the socket.
use lwsip.Common.{
  ◌≡◌, ap, ◌∙◌, ℕ, suc, ◌^◌, ◌<◌, Option, none, some, List, [], ◌∷◌, arith, ℤ, pos, negsuc, Bytes,
  strchr, take, take_all,
}
use lwsip.Common.Decimal.{decimal}
use lwsip.Common.TextLaws.{strchr-append}
use lwsip.Trans.Types.{Addr, UdpImpl, udp_trans, Effect, sendto}
use lwsip.Trans.Udp.{udp_send, lws_trans_parse_addr}
use lwsip.Trans.Api.{TransEnv, lws_trans_send}
use lwsip.Trans.Address.{IsPlain, addr_text, scan_int-decimal}
use lwsip.Agent.Transport.{
  AgentConfig, atoi, request_peer, sent_result, to_int, peer_addr, sip_transport_send,
}

pub atoi-decimal : (n : ℕ) → n < 10 ^ 10 → atoi (decimal n) ≡ pos n
unfolding atoi
atoi-decimal n h = ground (arith, scan_int-decimal n h)

-- A registrar that is given as the text of an address is the peer of the requests.
request_peer-addr_text :
    (config : AgentConfig) (addr : Addr)
    → IsPlain addr
    → config.registrar ≡ addr_text addr
    → request_peer config ≡ peer_addr addr.ip addr.port
unfolding request_peer
request_peer-addr_text config addr v e =
    let found =
      ap (λ s. strchr b':' s) e ∙ strchr-append b':' addr.ip (decimal addr.port) v.plain in
    let short = take_all 63 addr.ip (omega (arith, v.short)) in
    let port = atoi-decimal addr.port (omega (arith, v.ranged)) in ground (arith, v.ranged)

-- `none` is an address that the system cannot read.
abbrev pub delivered : ℤ → Option ℕ → ℤ → Bytes → ℕ → ℤ × List Effect
delivered answer none fd bytes port = (negsuc 0, [])
delivered answer (some ip) fd bytes port = (sent_result answer, sendto fd bytes ip port ∷ [])

to_int_small : (n : ℕ) → n < 2 ^ 31 → to_int n ≡ pos n
unfolding to_int
to_int_small n h = ground arith

-- What `sip_transport_send` makes of the length that it passes on.
sent_as : TransEnv → ℤ → UdpImpl → AgentConfig → Bytes → ℤ → ℤ × List Effect
sent_as env answer u config bytes len =
    let sent =
      lws_trans_send env answer (some (udp_trans u)) (some bytes) len
        (some (request_peer config)) in
    (sent_result sent.0, sent.1)

sent_as-delivered :
    (env : TransEnv) (answer : ℤ) (u : UdpImpl) (config : AgentConfig) (addr : Addr) (bytes : Bytes)
    (n : ℕ)
    → IsPlain addr
    → config.registrar ≡ addr_text addr
    → sent_as env answer u config bytes (pos (suc n))
      ≡ delivered answer
          (lws_trans_parse_addr env.sockets.inet_pton (some addr.ip))
          u.fd
          (take (suc n) bytes)
          addr.port
unfolding sent_as lws_trans_send udp_send
sent_as-delivered env answer u config addr bytes n v e =
    ground (arith, request_peer-addr_text config addr v e)

-- Where the registrar is the text of an address, `host:port` with a host that is not empty,
-- shorter than its array and without a colon, a message of at least one and less than 2^31 bytes goes with one datagram
-- from the agent's socket to that host and port, and the result is 0 exactly where the socket took
-- it; a host that the system cannot read as an address makes the result -1, and nothing is sent.
pub transport_send-delivered :
    (env : TransEnv) (answer : ℤ) (u : UdpImpl) (config : AgentConfig) (addr : Addr) (bytes : Bytes)
    (n : ℕ)
    → IsPlain addr
    → config.registrar ≡ addr_text addr
    → suc n < 2 ^ 31
    → sip_transport_send env answer (udp_trans u) config bytes (suc n)
      ≡ delivered answer
          (lws_trans_parse_addr env.sockets.inet_pton (some addr.ip))
          u.fd
          (take (suc n) bytes)
          addr.port
unfolding sip_transport_send sent_as
transport_send-delivered env answer u config addr bytes n v e short =
    ap (sent_as env answer u config bytes) (to_int_small (suc n) short)
    ∙ sent_as-delivered env answer u config addr bytes n v e
