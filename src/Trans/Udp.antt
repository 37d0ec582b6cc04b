-- ===== src/Trans/Udp.antt =====
-- src/lws_trans_udp.c, with the socket helpers of src/lws_trans.c. The answers of the system calls
-- are parameters; `inet_pton` and `inet_ntop` relate a dotted text and an address in network order.
use lwsip.Common.{
  ℕ, zero, suc, Bool, true, false, Option, none, some, List, [], ◌∷◌, ◌++◌, if◌then◌else◌, ◌||◌, ℤ,
  pos, negsuc, is_neg, is_pos, not, pos_part, Bytes, CString, codes, is_empty, str_eq, strncpy,
  take, lws_ok, lws_error, lws_einval, lws_enotsup,
}
use lwsip.Trans.Types.{
  Addr, TransHandler, TransConfig, UdpImpl, trans_memory, impl_memory, sock_fd, Effect, acquired,
  released, set_flags, set_reuseaddr, bind_call, sendto, on_data_call, on_error_call, max_ip_len,
  when,
}

-- The comparison with -1.
abbrev pub is_minus_one : ℤ → Bool
is_minus_one (pos n) = false
is_minus_one (negsuc zero) = true
is_minus_one (negsuc (suc n)) = false

-- `getfl` and `setfl` are the results of the two calls of `fcntl`.
unfoldable pub lws_trans_set_nonblocking : (getfl setfl fd : ℤ) → ℤ × List Effect
lws_trans_set_nonblocking getfl setfl fd =
    if is_minus_one getfl
    then (lws_error, [])
    else (if is_minus_one setfl then lws_error else lws_ok, set_flags fd getfl ∷ [])

-- `ret` is the result of `setsockopt`.
unfoldable pub lws_trans_set_reuseaddr : (ret fd : ℤ) → Bool → ℤ × List Effect
lws_trans_set_reuseaddr ret fd reuse =
    (if is_neg ret then lws_error else lws_ok, set_reuseaddr fd reuse ∷ [])

-- The address in network order; `none` is LWS_EINVAL. INADDR_ANY is 0.
unfoldable pub lws_trans_parse_addr : (inet_pton : Bytes → Option ℕ) → CString → Option ℕ
lws_trans_parse_addr inet_pton none = some 0
lws_trans_parse_addr inet_pton (some text) =
    if is_empty text || str_eq text (codes "0.0.0.0") then some 0 else inet_pton text

-- What the system answers while a transport is made.
pub record SocketEnv : Type 0 where
  pub has_trans : Bool
  pub has_impl : Bool
  pub socket : ℤ
  pub getfl : ℤ
  pub setfl : ℤ
  pub setsockopt : ℤ
  pub bind : ℤ
  pub inet_pton : Bytes → Option ℕ

abbrev pub no_handler : TransHandler
no_handler = record { on_data = false; on_connected = false; on_error = false }

abbrev pub given_handler : Option TransHandler → TransHandler
given_handler none = no_handler
given_handler (some h) = h

abbrev pub initial_impl : TransConfig → Option TransHandler → UdpImpl
initial_impl config handler = record {
  fd = negsuc 0;
  bind_addr = strncpy max_ip_len config.sock.bind_addr;
  bind_port = config.sock.bind_port;
  handler = given_handler handler;
}

abbrev pub give_back : ℤ → List Effect
give_back fd = released (sock_fd fd) ∷ released impl_memory ∷ released trans_memory ∷ []

-- From the address to the end.
unfoldable pub bind_socket : SocketEnv → UdpImpl → List Effect × Option UdpImpl
bind_socket env u = elim (lws_trans_parse_addr env.inet_pton (some u.bind_addr)) [
  | none ↦ (give_back u.fd, none)
  | some addr ↦
      if is_neg env.bind
      then (bind_call u.fd addr u.bind_port ∷ give_back u.fd, none)
      else (bind_call u.fd addr u.bind_port ∷ [], some u)
]

-- From the flags of the socket on.
unfoldable pub configure_socket :
    SocketEnv → (reuse_addr : Bool) → UdpImpl → List Effect × Option UdpImpl
unfolding lws_trans_set_nonblocking lws_trans_set_reuseaddr bind_socket
configure_socket env reuse_addr u =
    let nonblocking = lws_trans_set_nonblocking env.getfl env.setfl u.fd in
    let reuse = (if reuse_addr then (lws_trans_set_reuseaddr env.setsockopt u.fd true).1 else []) in
    let bound = bind_socket env u in
    if is_neg nonblocking.0
    then (nonblocking.1 ++ give_back u.fd, none)
    else (nonblocking.1 ++ (reuse ++ bound.0), bound.1)

-- `none` is the result NULL.
unfoldable pub lws_trans_udp_create :
    SocketEnv → Option TransConfig → Option TransHandler → List Effect × Option UdpImpl
unfolding configure_socket
lws_trans_udp_create env none handler = ([], none)
lws_trans_udp_create env (some config) handler =
    let made =
      (configure_socket env config.sock.reuse_addr
        (record (initial_impl config handler) { fd = env.socket })) in
    let memory = acquired trans_memory ∷ acquired impl_memory ∷ [] in
    if not env.has_trans
    then ([], none)
    else if not env.has_impl
    then (acquired trans_memory ∷ released trans_memory ∷ [], none)
    else if is_neg env.socket
    then (memory ++ (released impl_memory ∷ released trans_memory ∷ []), none)
    else (memory ++ (acquired (sock_fd env.socket) ∷ made.0), made.1)

-- The argument is `none` where the transport is NULL, and the inner one where its `impl` is.
unfoldable pub udp_destroy : Option (Option UdpImpl) → List Effect
udp_destroy none = []
udp_destroy (some none) = released trans_memory ∷ []
udp_destroy (some (some u)) =
    (if is_neg u.fd then [] else released (sock_fd u.fd) ∷ [])
    ++ (released impl_memory ∷ released trans_memory ∷ [])

unfoldable pub udp_connect : Option UdpImpl → CString → ℕ → ℤ
udp_connect trans addr port = lws_enotsup

-- `sent` is the result of `sendto`, which is not called on the error paths.
unfoldable pub udp_send :
    (inet_pton : Bytes → Option ℕ)
    → (sent : ℤ) → Option UdpImpl
    → CString
    → ℤ
    → Option Addr
    → ℤ × List Effect
unfolding lws_trans_parse_addr
udp_send inet_pton sent none data_ptr len to = (lws_einval, [])
udp_send inet_pton sent (some u) none len to = (lws_einval, [])
udp_send inet_pton sent (some u) (some bytes) len none = (lws_einval, [])
udp_send inet_pton sent (some u) (some bytes) len (some to) =
    if not (is_pos len)
    then (lws_einval, [])
    else elim (lws_trans_parse_addr inet_pton (some to.ip)) [
      | none ↦ (lws_einval, [])
      | some addr ↦ (sent, sendto u.fd (take (pos_part len) bytes) addr to.port ∷ [])
    ]

-- The answer of `poll`; `readable` is POLLIN in `revents`.
pub data PollAnswer : Type 0 where
  poll_failed : (is_interrupted : Bool) → PollAnswer
  poll_timeout : PollAnswer
  poll_ready : (readable : Bool) → PollAnswer

-- The answer of `recvfrom`, with the sender's address and port; `no_data` is the result 0.
pub data RecvAnswer : Type 0 where
  received : Bytes → ℕ → ℕ → RecvAnswer
  no_data : RecvAnswer
  recv_failed : (would_block : Bool) → RecvAnswer

abbrev pub recv_buffer_size : ℕ
recv_buffer_size = 2048

-- What follows `recvfrom`. The family of the sender is never written.
unfoldable pub handle_readable :
    (inet_ntop : ℕ → Bytes) → RecvAnswer → TransHandler → ℤ × List Effect
handle_readable inet_ntop (received [] addr port) h = (lws_ok, [])
handle_readable inet_ntop (received (b ∷ bytes) addr port) h =
    let from : Addr = record { ip = inet_ntop addr; port = port; family = none } in
    (lws_ok, when h.on_data (on_data_call (take recv_buffer_size (b ∷ bytes)) from))
handle_readable inet_ntop no_data h = (lws_ok, [])
handle_readable inet_ntop (recv_failed would_block) h =
    if would_block
    then (lws_ok, [])
    else (lws_error, when h.on_error (on_error_call lws_error (codes "recvfrom failed")))

unfoldable pub udp_loop :
    (inet_ntop : ℕ → Bytes) → PollAnswer → RecvAnswer → Option UdpImpl → ℤ × List Effect
unfolding handle_readable
udp_loop inet_ntop poll recvfrom none = (lws_einval, [])
udp_loop inet_ntop (poll_failed is_interrupted) recvfrom (some u) =
    if is_neg u.fd then (lws_error, []) else (if is_interrupted then lws_ok else lws_error, [])
udp_loop inet_ntop poll_timeout recvfrom (some u) =
    if is_neg u.fd then (lws_error, []) else (lws_ok, [])
udp_loop inet_ntop (poll_ready readable) recvfrom (some u) =
    let handled = handle_readable inet_ntop recvfrom u.handler in
    if is_neg u.fd then (lws_error, []) else if readable then handled else (lws_ok, [])

unfoldable pub udp_get_fd : Option UdpImpl → ℤ
udp_get_fd none = negsuc 0
udp_get_fd (some u) = u.fd

-- `name` is what `getsockname` finds, `none` its failure. The family is left as it was.
unfoldable pub udp_get_local_addr :
    (inet_ntop : ℕ → Bytes)
    → (name : Option (ℕ × ℕ)) → Option UdpImpl
    → Option Addr
    → Option Addr × ℤ
udp_get_local_addr inet_ntop name none addr = (addr, lws_einval)
udp_get_local_addr inet_ntop name (some u) none = (none, lws_einval)
udp_get_local_addr inet_ntop none (some u) (some addr) = (some addr, lws_error)
udp_get_local_addr inet_ntop (some (a, port)) (some u) (some addr) =
    (some (record addr { ip = inet_ntop a; port = port }), lws_ok)
