-- ===== src/Trans/Connected.antt =====
-- When src/lws_trans_mqtt.c publishes, and where to.
use mathlib.Core.Path.{subst}
use lwsip.Common.{
  ◌%◌, ◌^◌, ◌≡◌, refl, ℕ, suc, Bool, true, false, Option, none, some, List, [], ◌∷◌, ◌++◌, arith,
  if◌then◌else◌, pos, Bytes, codes, take, snprintf, lws_enotconn,
}
use lwsip.Trans.Types.{MqttImpl, Addr, Trans, udp_trans, mqtt_trans, bare, mqtt_publish}
use lwsip.Trans.Mqtt.{
  mqtt_send, mqtt_connect, lws_trans_mqtt_set_topic, lws_trans_mqtt_subscribe,
  lws_trans_mqtt_unsubscribe,
}
use lwsip.Trans.Callbacks.{
  accepted, not_accepted, mqtt_connection_cb, mqtt_incoming_publish_cb, mqtt_incoming_data_cb,
  mqtt_subscribe_cb,
}
use lwsip.Trans.Api.{TransEnv, lws_trans_connect, lws_trans_send, lws_trans_loop}
use lwsip.Trans.Calls.{
  Call, connect, send, loop, set_topic, subscribe, unsubscribe, connection, incoming_publish,
  incoming_data, subscribed_answer, step, steps,
}

-- Whether the last status that lwIP reported was the accepted one.
unfoldable pub is_accepted : Bool → List Call → Bool
is_accepted b [] = b
is_accepted b (connection accepted ∷ cs) = is_accepted true cs
is_accepted b (connection (not_accepted status) ∷ cs) = is_accepted false cs
is_accepted b (_ ∷ cs) = is_accepted b cs

-- The topic that follows from the last prefix that was set.
unfoldable pub topic_after : Bytes → List Call → Bytes
topic_after topic [] = topic
topic_after topic (set_topic (some prefix) ∷ cs) =
    topic_after (snprintf 272 (prefix ++ codes "/send")) cs
topic_after topic (_ ∷ cs) = topic_after topic cs

abbrev pub Publishes : Bool → Bytes → Trans → Type 0
Publishes b topic (mqtt_trans m) = (m.connected ≡ b) × (m.topic_send ≡ topic)
Publishes b topic _ = ⊥

step-Publishes :
    (env : TransEnv) (c : Call) (b : Bool) (topic : Bytes) (t : Trans)
    → Publishes b topic t
    → Publishes (is_accepted b (c ∷ [])) (topic_after topic (c ∷ [])) (step env c t).0
unfolding step is_accepted topic_after lws_trans_connect lws_trans_send lws_trans_loop
    lws_trans_mqtt_set_topic lws_trans_mqtt_subscribe lws_trans_mqtt_unsubscribe mqtt_connection_cb
    mqtt_incoming_publish_cb mqtt_incoming_data_cb mqtt_subscribe_cb mqtt_connect
step-Publishes env c b topic (udp_trans u) h = absurd h
step-Publishes env c b topic bare h = absurd h
step-Publishes env (connect err addr port) b topic (mqtt_trans m) h = ground arith
step-Publishes env (send answer bytes len to) b topic (mqtt_trans m) h = ground arith
step-Publishes env (loop poll recvfrom timeout_ms) b topic (mqtt_trans m) h = ground arith
step-Publishes env (set_topic none) b topic (mqtt_trans m) h = ground arith
step-Publishes env (set_topic (some prefix)) b topic (mqtt_trans m) h = ground arith
step-Publishes env (subscribe err prefix) b topic (mqtt_trans m) h = ground arith
step-Publishes env (unsubscribe err prefix) b topic (mqtt_trans m) h = ground arith
step-Publishes env (connection accepted) b topic (mqtt_trans m) h = ground arith
step-Publishes env (connection (not_accepted status)) b topic (mqtt_trans m) h = ground arith
step-Publishes env (incoming_publish prefix tot_len) b topic (mqtt_trans m) h = ground arith
step-Publishes env (incoming_data bytes last) b topic (mqtt_trans m) h = ground arith
step-Publishes env (subscribed_answer err) b topic (mqtt_trans m) h = ground arith

is_accepted-cons :
    (b : Bool) (c : Call) (cs : List Call)
    → is_accepted (is_accepted b (c ∷ [])) cs ≡ is_accepted b (c ∷ cs)
unfolding is_accepted
is_accepted-cons b c cs = ground arith

topic_after-cons :
    (topic : Bytes) (c : Call) (cs : List Call)
    → topic_after (topic_after topic (c ∷ [])) cs ≡ topic_after topic (c ∷ cs)
unfolding topic_after
topic_after-cons topic c cs = ground arith

steps-Publishes :
    (env : TransEnv) (cs : List Call) (b : Bool) (topic : Bytes) (t : Trans)
    → Publishes b topic t
    → Publishes (is_accepted b cs) (topic_after topic cs) (steps env cs t).0
unfolding steps is_accepted topic_after
steps-Publishes env [] b topic t h = h
steps-Publishes env (c ∷ cs) b topic t h =
    let first = step-Publishes env c b topic t h in
    let rest =
      steps-Publishes env cs (is_accepted b (c ∷ [])) (topic_after topic (c ∷ [])) (step env c t).0
        first in
    let last = steps env cs (step env c t).0 in
    subst (λ a. Publishes a (topic_after topic (c ∷ cs)) last.0) (is_accepted-cons b c cs)
      (subst (λ s. Publishes (is_accepted (is_accepted b (c ∷ [])) cs) s last.0)
        (topic_after-cons topic c cs) rest)

send-Publishes :
    (env : TransEnv) (b : Bool) (topic : Bytes) (t : Trans)
    → Publishes b topic t
    → (bytes : Bytes) (n : ℕ) (to : Option Addr)
    → lws_trans_send env (pos 0) (some t) (some bytes) (pos (suc n)) to ≡ (
        if b
        then (
          pos (suc n),
          mqtt_publish topic (take (suc n % 2 ^ 16) bytes) (pos (suc n % 2 ^ 16)) ∷ [],
        )
        else (lws_enotconn, []))
unfolding lws_trans_send mqtt_send
send-Publishes env b topic (mqtt_trans m) h bytes n to = ground arith
send-Publishes env b topic (udp_trans u) h bytes n to = absurd h
send-Publishes env b topic bare h bytes n to = absurd h

-- After any calls and callbacks of an MQTT transport, sending at least one byte, where lwIP takes
-- the message, publishes it under the topic of the last prefix that was set and returns the number
-- of its bytes, if the last status that lwIP reported was the accepted one; otherwise nothing is
-- published and the result is LWS_ENOTCONN. What is published are as many of the bytes as their
-- number modulo 65536, so all of them only where they are fewer than 65536.
pub send-steps :
    (env : TransEnv) (cs : List Call) (m : MqttImpl) (bytes : Bytes) (n : ℕ) (to : Option Addr)
    → lws_trans_send env
        (pos 0)
        (some (steps env cs (mqtt_trans m)).0)
        (some bytes)
        (pos (suc n))
        to
      ≡ (if is_accepted m.connected cs
          then (
            pos (suc n),
            mqtt_publish
                  (topic_after m.topic_send cs)
                  (take (suc n % 2 ^ 16) bytes)
                  (pos (suc n % 2 ^ 16))
                ∷ [],
          )
          else (lws_enotconn, []))
send-steps env cs m bytes n to =
    send-Publishes env (is_accepted m.connected cs) (topic_after m.topic_send cs)
      (steps env cs (mqtt_trans m)).0
      (steps-Publishes env cs m.connected m.topic_send (mqtt_trans m) (refl, refl)) bytes n to
