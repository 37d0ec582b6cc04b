-- ===== src/Trans/Api.antt =====
-- The calls of src/lws_trans.c that go through the operation table, and the configurations.
use lwsip.Common.{
  ℕ, Bool, true, false, Option, none, some, List, [], ◌∷◌, if◌then◌else◌, ltb, ℤ, negsuc, Bytes,
  CString, codes, strncpy, snprintf, ◌++◌, lws_einval, lws_enotsup,
}
use mathlib.Core.Option as Option
use lwsip.Common.Decimal.{decimal}
use lwsip.Trans.Types.{
  udp, mqtt, Addr, TransHandler, TransConfig, Trans, udp_trans, mqtt_trans, bare, trans_memory,
  Effect, released,
}
use lwsip.Trans.Udp.{
  SocketEnv, lws_trans_udp_create, udp_destroy, udp_connect, udp_send, PollAnswer, RecvAnswer,
  udp_loop, udp_get_fd, udp_get_local_addr,
}
use lwsip.Trans.Mqtt.{
  MqttEnv, lws_trans_mqtt_create, mqtt_destroy, mqtt_connect, mqtt_send, mqtt_loop, mqtt_get_fd,
  mqtt_get_local_addr,
}

-- What stands outside: the answers of the sockets and of lwIP. `trans_mqtt` tells whether
-- TRANS_MQTT is defined.
pub record TransEnv : Type 0 where
  pub trans_mqtt : Bool
  pub sockets : SocketEnv
  pub lwip : MqttEnv
  pub inet_ntop : ℕ → Bytes

unfoldable pub lws_trans_create :
    TransEnv → Option TransConfig → Option TransHandler → List Effect × Option Trans
unfolding lws_trans_udp_create lws_trans_mqtt_create
lws_trans_create env none handler = ([], none)
lws_trans_create env (some config) handler = elim config.type [
  | udp ↦
      let made = lws_trans_udp_create env.sockets (some config) handler in
      (made.0, Option.map udp_trans made.1)
  | mqtt ↦
      let made = lws_trans_mqtt_create env.lwip (some config) handler in
      if env.trans_mqtt then (made.0, Option.map mqtt_trans made.1) else ([], none)
  | _ ↦ ([], none)
]

unfoldable pub lws_trans_destroy : Option Trans → List Effect
unfolding udp_destroy mqtt_destroy
lws_trans_destroy none = []
lws_trans_destroy (some (udp_trans u)) = udp_destroy (some (some u))
lws_trans_destroy (some (mqtt_trans m)) = mqtt_destroy (some m)
lws_trans_destroy (some bare) = released trans_memory ∷ []

-- `err` is the answer of `mqtt_client_connect`.
unfoldable pub lws_trans_connect :
    TransEnv → (err : ℤ) → Option Trans → CString → ℕ → Option Trans × ℤ × List Effect
unfolding udp_connect mqtt_connect
lws_trans_connect env err none addr port = (none, lws_enotsup, [])
lws_trans_connect env err (some (udp_trans u)) addr port =
    (some (udp_trans u), udp_connect (some u) addr port, [])
lws_trans_connect env err (some (mqtt_trans m)) addr port =
    let made = mqtt_connect env.lwip.ipaddr_aton err (some m) addr port in
    (Option.map mqtt_trans made.0, made.1, made.2)
lws_trans_connect env err (some bare) addr port = (some bare, lws_enotsup, [])

-- `answer` is what `sendto` or `mqtt_publish` returns.
unfoldable pub lws_trans_send :
    TransEnv → (answer : ℤ) → Option Trans → CString → (len : ℤ) → Option Addr → ℤ × List Effect
unfolding udp_send mqtt_send
lws_trans_send env answer none data_ptr len to = (lws_einval, [])
lws_trans_send env answer (some (udp_trans u)) data_ptr len to =
    udp_send env.sockets.inet_pton answer (some u) data_ptr len to
lws_trans_send env answer (some (mqtt_trans m)) data_ptr len to =
    mqtt_send answer (some m) data_ptr len to
lws_trans_send env answer (some bare) data_ptr len to = (lws_einval, [])

unfoldable pub lws_trans_loop :
    TransEnv → PollAnswer → RecvAnswer → Option Trans → (timeout_ms : ℤ) → ℤ × List Effect
unfolding udp_loop mqtt_loop
lws_trans_loop env poll recvfrom none timeout_ms = (lws_einval, [])
lws_trans_loop env poll recvfrom (some (udp_trans u)) timeout_ms =
    udp_loop env.inet_ntop poll recvfrom (some u)
lws_trans_loop env poll recvfrom (some (mqtt_trans m)) timeout_ms =
    (mqtt_loop (some m) timeout_ms, [])
lws_trans_loop env poll recvfrom (some bare) timeout_ms = (lws_einval, [])

unfoldable pub lws_trans_get_fd : Option Trans → ℤ
unfolding udp_get_fd mqtt_get_fd
lws_trans_get_fd none = negsuc 0
lws_trans_get_fd (some (udp_trans u)) = udp_get_fd (some u)
lws_trans_get_fd (some (mqtt_trans m)) = mqtt_get_fd (some m)
lws_trans_get_fd (some bare) = negsuc 0

-- `name` is what `getsockname` finds.
unfoldable pub lws_trans_get_local_addr :
    TransEnv → (name : Option (ℕ × ℕ)) → Option Trans → Option Addr → Option Addr × ℤ
unfolding udp_get_local_addr mqtt_get_local_addr
lws_trans_get_local_addr env name none addr = (addr, lws_einval)
lws_trans_get_local_addr env name (some (udp_trans u)) addr =
    udp_get_local_addr env.inet_ntop name (some u) addr
lws_trans_get_local_addr env name (some (mqtt_trans m)) addr = mqtt_get_local_addr (some m) addr
lws_trans_get_local_addr env name (some bare) addr = (addr, lws_einval)

-- `memset(config, 0, sizeof(*config))`
abbrev pub cleared_config : TransConfig
cleared_config = record {
  type = udp;
  sock = record {
    bind_addr = [];
    bind_port = 0;
    reuse_addr = false;
    reuse_port = false;
    enable_ipv6 = false;
  };
  mqtt_options = record {
    broker = [];
    port = 0;
    client_id = [];
    username = [];
    password = [];
    topic_prefix = [];
  };
  nonblock = false;
  recv_buf_size = 0;
  send_buf_size = 0;
}

unfoldable pub lws_trans_init_udp_config : Option TransConfig → (port : ℕ) → Option TransConfig
lws_trans_init_udp_config none port = none
lws_trans_init_udp_config (some config) port = some (record cleared_config {
  type = udp;
  sock = record {
    bind_addr = [];
    bind_port = port;
    reuse_addr = true;
    reuse_port = false;
    enable_ipv6 = false;
  };
  nonblock = true;
})

abbrev pub text_or : CString → Bytes → Bytes
text_or none default = default
text_or (some s) default = s

-- `now` is `time(NULL)`, below 10^10.
unfoldable pub lws_trans_init_mqtt_config :
    (now : ℕ) → Option TransConfig → CString → (port : ℕ) → CString → Option TransConfig
unfolding decimal
lws_trans_init_mqtt_config now none broker port client_id = none
lws_trans_init_mqtt_config now (some config) broker port client_id = some (record cleared_config {
  type = mqtt;
  mqtt_options = record {
    broker = strncpy 256 (text_or broker []);
    port = if ltb 0 port then port else 1883;
    client_id = snprintf 128 (text_or client_id (codes "lwsip_" ++ decimal now));
    username = [];
    password = [];
    topic_prefix = codes "lwsip";
  };
  nonblock = true;
})
