-- ===== src/Trans/Calls.antt =====
-- Sequences of calls of one transport: those of the application and the callbacks of lwIP
-- (src/lws_trans.c and src/lws_trans_mqtt.c).
use lwsip.Common.{ℕ, Bool, Option, none, some, List, [], ◌∷◌, ◌++◌, ℤ, Bytes, CString}
use lwsip.Trans.Types.{Addr, Trans, udp_trans, mqtt_trans, bare, MqttImpl, Effect}
use lwsip.Trans.Udp.{PollAnswer, RecvAnswer}
use lwsip.Trans.Mqtt.{
  lws_trans_mqtt_set_topic, lws_trans_mqtt_subscribe, lws_trans_mqtt_unsubscribe,
}
use lwsip.Trans.Callbacks.{
  ConnectionStatus, mqtt_connection_cb, mqtt_incoming_publish_cb, mqtt_incoming_data_cb,
  mqtt_subscribe_cb,
}
use lwsip.Trans.Api.{TransEnv, lws_trans_connect, lws_trans_send, lws_trans_loop}

-- A call with the answers that it meets outside.
pub data Call : Type 0 where
  connect : (err : ℤ) → CString → ℕ → Call
  send : (answer : ℤ) → CString → (len : ℤ) → Option Addr → Call
  loop : PollAnswer → RecvAnswer → (timeout_ms : ℤ) → Call
  set_topic : CString → Call
  subscribe : (err : ℤ) → CString → Call
  unsubscribe : (err : ℤ) → CString → Call
  connection : ConnectionStatus → Call
  incoming_publish : (topic : Bytes) (tot_len : ℕ) → Call
  incoming_data : (bytes : Bytes) (last : Bool) → Call
  subscribed_answer : (err : ℤ) → Call

-- lwIP calls back for an MQTT transport only.
abbrev pub callback :
    (Option MqttImpl → Option MqttImpl × List Effect) → Trans → Trans × List Effect
callback f (udp_trans u) = (udp_trans u, [])
callback f bare = (bare, [])
callback f (mqtt_trans m) = elim (f (some m)).0 [
  | none ↦ (mqtt_trans m, [])
  | some m' ↦ (mqtt_trans m', (f (some m)).1)
]

abbrev pub kept : Trans → Option Trans → Trans
kept t none = t
kept t (some t') = t'

unfoldable pub step : TransEnv → Call → Trans → Trans × List Effect
unfolding lws_trans_connect lws_trans_send lws_trans_loop lws_trans_mqtt_set_topic
    lws_trans_mqtt_subscribe lws_trans_mqtt_unsubscribe mqtt_connection_cb mqtt_incoming_publish_cb
    mqtt_incoming_data_cb mqtt_subscribe_cb
step env (connect err addr port) t =
    let r = lws_trans_connect env err (some t) addr port in (kept t r.0, r.2)
step env (send answer bytes len to) t = (t, (lws_trans_send env answer (some t) bytes len to).1)
step env (loop poll recvfrom timeout_ms) t =
    (t, (lws_trans_loop env poll recvfrom (some t) timeout_ms).1)
step env (set_topic topic) t = (kept t (lws_trans_mqtt_set_topic (some t) topic).0, [])
step env (subscribe err topic) t = (t, (lws_trans_mqtt_subscribe err (some t) topic).1)
step env (unsubscribe err topic) t = (t, (lws_trans_mqtt_unsubscribe err (some t) topic).1)
step env (connection status) t = callback (mqtt_connection_cb status) t
step env (incoming_publish topic tot_len) t =
    callback (λ m. (mqtt_incoming_publish_cb topic tot_len m, [])) t
step env (incoming_data bytes last) t = callback (mqtt_incoming_data_cb bytes last) t
step env (subscribed_answer err) t = callback (λ m. (mqtt_subscribe_cb err m, [])) t

unfoldable pub steps : TransEnv → List Call → Trans → Trans × List Effect
unfolding step
steps env [] t = (t, [])
steps env (c ∷ cs) t =
    let now = step env c t in let later = steps env cs now.0 in (later.0, now.1 ++ later.1)
