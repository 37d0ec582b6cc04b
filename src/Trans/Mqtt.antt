-- ===== src/Trans/Mqtt.antt =====
-- src/lws_trans_mqtt.c. The answers of lwIP are parameters: an `err_t` is a number, 0 for ERR_OK.
-- A function gets `none` where the transport, its `impl` or the callback's argument is NULL.
use lwsip.Common.{
  ◌%◌, ◌^◌, ℕ, zero, suc, Bool, true, false, Option, none, some, List, [], ◌∷◌, ◌++◌, if◌then◌else◌,
  ◌||◌, ltb, ℤ, pos, negsuc, is_nonzero, is_pos, not, pos_part, Bytes, CString, codes, is_empty,
  strncpy, snprintf, take, lws_ok, lws_error, lws_einval, lws_enotconn,
}
use lwsip.Trans.Types.{
  mqtt, Addr, TransHandler, TransConfig, MqttImpl, Trans, mqtt_trans, trans_memory, impl_memory,
  mqtt_client, Effect, acquired, released, set_inpub_callback, mqtt_disconnect, mqtt_client_connect,
  mqtt_subscribe_call, mqtt_unsubscribe_call, mqtt_publish, max_ip_len, TransType,
}
use lwsip.Trans.Udp.{given_handler}

abbrev pub recv_buf_size : ℕ
recv_buf_size = 4096

-- The broker as the sender of a message, and as the local address.
abbrev pub broker_addr : MqttImpl → Addr
broker_addr m = record { ip = strncpy max_ip_len m.broker; port = m.port; family = some 0 }

-- The argument is `none` where the transport or its `impl` is NULL.
unfoldable pub mqtt_destroy : Option MqttImpl → List Effect
mqtt_destroy none = []
mqtt_destroy (some m) =
    (if m.client then mqtt_disconnect ∷ released mqtt_client ∷ [] else [])
    ++ (released impl_memory ∷ released trans_memory ∷ [])

-- The broker and the port that a call of connect leaves.
abbrev pub with_broker : CString → MqttImpl → MqttImpl
with_broker none m = m
with_broker (some addr) m = record m { broker = strncpy 256 addr }

abbrev pub with_port : ℕ → MqttImpl → MqttImpl
with_port port m = if ltb 0 port then record m { port = port } else m

-- `none` is NULL.
abbrev pub given_text : Bytes → CString
given_text s = if is_empty s then none else some s

-- `err` is the result of `mqtt_client_connect`, which is not called for an invalid address.
unfoldable pub mqtt_connect :
    (ipaddr_aton : Bytes → Option ℕ)
    → (err : ℤ) → Option MqttImpl
    → CString
    → ℕ
    → Option MqttImpl × ℤ × List Effect
mqtt_connect ipaddr_aton err none addr port = (none, lws_einval, [])
mqtt_connect ipaddr_aton err (some old) addr port =
    let m : MqttImpl = with_port port (with_broker addr old) in
    elim (ipaddr_aton m.broker) [
      | none ↦ (some m, lws_einval, [])
      | some ip ↦ (
        some (record m { broker_ip = some ip }),
        if is_nonzero err then lws_error else lws_ok,
        mqtt_client_connect ip m.port m.client_id (given_text m.username) (given_text m.password)
            ∷ [],
      )
    ]

-- `err` is the result of `mqtt_publish`, which is not called on the error paths. The length is a
-- `u16_t` of lwIP.
unfoldable pub mqtt_send :
    (err : ℤ) → Option MqttImpl → CString → (len : ℤ) → Option Addr → ℤ × List Effect
mqtt_send err none data_ptr len to = (lws_einval, [])
mqtt_send err (some m) none len to = (lws_einval, [])
mqtt_send err (some m) (some bytes) len to =
    let count = pos_part len % 2 ^ 16 in
    let published = mqtt_publish m.topic_send (take count bytes) (pos count) ∷ [] in
    if not (is_pos len)
    then (lws_einval, [])
    else if not m.connected
    then (lws_enotconn, [])
    else (if is_nonzero err then lws_error else len, published)

unfoldable pub mqtt_loop : Option MqttImpl → (timeout_ms : ℤ) → ℤ
mqtt_loop trans timeout_ms = pos 0

unfoldable pub mqtt_get_fd : Option MqttImpl → ℤ
mqtt_get_fd trans = negsuc 0

unfoldable pub mqtt_get_local_addr : Option MqttImpl → Option Addr → Option Addr × ℤ
mqtt_get_local_addr none addr = (addr, lws_einval)
mqtt_get_local_addr (some m) none = (none, lws_einval)
mqtt_get_local_addr (some m) (some addr) = (some (broker_addr m), lws_ok)

-- What the system and lwIP answer while a transport is made.
pub record MqttEnv : Type 0 where
  pub has_trans : Bool
  pub has_impl : Bool
  pub has_client : Bool
  pub ipaddr_aton : Bytes → Option ℕ
  pub connect_err : ℤ

abbrev pub zeros : ℕ → Bytes
zeros zero = []
zeros (suc n) = 0 ∷ zeros n

abbrev pub mqtt_port : ℕ
mqtt_port = 1883

-- The arrays of the topics have 256 + 16 bytes.
abbrev pub topic_of : Bytes → Bytes → Bytes
topic_of prefix suffix = snprintf 272 (prefix ++ suffix)

-- From the configuration that is copied to the topics.
unfoldable pub new_impl : TransConfig → Option TransHandler → MqttImpl
new_impl config handler =
    let o = config.mqtt_options in
    record {
      client = true;
      broker = strncpy 256 o.broker;
      port = if ltb 0 o.port then o.port else mqtt_port;
      client_id = strncpy 128 o.client_id;
      username = strncpy 64 o.username;
      password = strncpy 64 o.password;
      topic_prefix = strncpy 256 o.topic_prefix;
      topic_send = topic_of (strncpy 256 o.topic_prefix) (codes "/send");
      topic_recv = topic_of (strncpy 256 o.topic_prefix) (codes "/recv");
      connected = false;
      subscribed = false;
      recv_buf = zeros recv_buf_size;
      recv_len = 0;
      recv_complete = false;
      handler = given_handler handler;
      broker_ip = none;
    }

abbrev pub is_mqtt : TransType → Bool
is_mqtt mqtt = true
is_mqtt _ = false

-- From the allocated structures on; the last call connects, and destroys the transport again
-- where that fails.
unfoldable pub finish_create : MqttEnv → MqttImpl → List Effect × Option MqttImpl
unfolding mqtt_connect mqtt_destroy
finish_create env m =
    let made = mqtt_connect env.ipaddr_aton env.connect_err (some m) none 0 in
    if is_nonzero made.1
    then (set_inpub_callback ∷ (made.2 ++ mqtt_destroy made.0), none)
    else (set_inpub_callback ∷ made.2, made.0)

unfoldable pub lws_trans_mqtt_create :
    MqttEnv → Option TransConfig → Option TransHandler → List Effect × Option MqttImpl
unfolding finish_create new_impl
lws_trans_mqtt_create env none handler = ([], none)
lws_trans_mqtt_create env (some config) handler =
    let made = finish_create env (new_impl config handler) in
    let memory = acquired trans_memory ∷ acquired impl_memory ∷ [] in
    if not (is_mqtt config.type) || not env.has_trans
    then ([], none)
    else if not env.has_impl
    then (acquired trans_memory ∷ released trans_memory ∷ [], none)
    else if not env.has_client
    then (memory ++ (released impl_memory ∷ released trans_memory ∷ []), none)
    else (memory ++ (acquired mqtt_client ∷ made.0), made.1)

unfoldable pub lws_trans_mqtt_set_topic : Option Trans → (topic : CString) → Option Trans × ℤ
lws_trans_mqtt_set_topic (some (mqtt_trans m)) (some topic) = (
  some (
      mqtt_trans (record m {
        topic_prefix = strncpy 256 topic;
        topic_send = topic_of topic (codes "/send");
        topic_recv = topic_of topic (codes "/recv");
      })),
  lws_ok,
)
lws_trans_mqtt_set_topic trans topic = (trans, lws_einval)

-- `err` is the result of `mqtt_subscribe`.
unfoldable pub lws_trans_mqtt_subscribe :
    (err : ℤ) → Option Trans → (topic : CString) → ℤ × List Effect
lws_trans_mqtt_subscribe err (some (mqtt_trans m)) (some topic) =
    if not m.connected
    then (lws_enotconn, [])
    else (if is_nonzero err then lws_error else lws_ok, mqtt_subscribe_call topic ∷ [])
lws_trans_mqtt_subscribe err trans topic = (lws_einval, [])

unfoldable pub lws_trans_mqtt_unsubscribe :
    (err : ℤ) → Option Trans → (topic : CString) → ℤ × List Effect
lws_trans_mqtt_unsubscribe err (some (mqtt_trans m)) (some topic) =
    if not m.connected
    then (lws_enotconn, [])
    else (if is_nonzero err then lws_error else lws_ok, mqtt_unsubscribe_call topic ∷ [])
lws_trans_mqtt_unsubscribe err trans topic = (lws_einval, [])
