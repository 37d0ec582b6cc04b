-- ===== src/Trans/Ownership.antt =====
-- What a transport holds between its creation and its destruction (src/lws_trans.c,
-- src/lws_trans_udp.c and src/lws_trans_mqtt.c).
use lwsip.Common.{
  ◌≡◌, refl, ◌∙◌, Bool, true, false, Option, none, some, List, [], ◌∷◌, ◌++◌, arith, is_neg,
  if◌then◌else◌, Option-cases, inl, inr,
}
use lwsip.Trans.Types.{
  UdpImpl, MqttImpl, TransConfig, TransHandler, Trans, udp_trans, mqtt_trans, bare, Effect,
}
use lwsip.Trans.Udp.{
  SocketEnv, initial_impl, lws_trans_udp_create, configure_socket, bind_socket,
  lws_trans_set_nonblocking, lws_trans_set_reuseaddr, udp_destroy, udp_connect, udp_send,
  handle_readable, udp_loop,
}
use lwsip.Trans.Mqtt.{
  MqttEnv, lws_trans_mqtt_create, finish_create, mqtt_destroy, mqtt_connect, mqtt_send,
  lws_trans_mqtt_set_topic, lws_trans_mqtt_subscribe, lws_trans_mqtt_unsubscribe, mqtt_loop,
  new_impl,
}
use lwsip.Trans.Callbacks.{
  mqtt_connection_cb, mqtt_incoming_publish_cb, mqtt_incoming_data_cb, mqtt_subscribe_cb,
}
use lwsip.Trans.Api.{
  TransEnv, lws_trans_create, lws_trans_destroy, lws_trans_connect, lws_trans_send, lws_trans_loop,
}
use lwsip.Trans.Ledger.{Held, nothing, same_int_refl, take_step, take_steps, take_steps-append}
use lwsip.Trans.Calls.{
  Call, connect, send, loop, set_topic, subscribe, unsubscribe, connection, incoming_publish,
  incoming_data, subscribed_answer, step, steps,
}

-- What a transport holds while it lives.
abbrev pub holding : Trans → Held
holding (udp_trans u) = record {
  has_trans = true;
  has_impl = true;
  has_client = false;
  fd = if is_neg u.fd then none else some u.fd;
}
holding (mqtt_trans m) = record {
  has_trans = true;
  has_impl = true;
  has_client = m.client;
  fd = none;
}
holding bare = record { has_trans = true; has_impl = false; has_client = false; fd = none }

abbrev pub held_by : Option Trans → Held
held_by none = nothing
held_by (some t) = holding t

pub destroy-Held : (t : Option Trans) → take_steps (lws_trans_destroy t) (held_by t) ≡ some nothing
unfolding lws_trans_destroy udp_destroy mqtt_destroy take_steps take_step
destroy-Held none = refl
destroy-Held (some (udp_trans u)) = ground (arith, same_int_refl u.fd)
destroy-Held (some (mqtt_trans m)) = ground arith
destroy-Held (some bare) = refl

abbrev pub lift_udp : Option UdpImpl → Option Trans
lift_udp none = none
lift_udp (some u) = some (udp_trans u)

abbrev pub lift_mqtt : Option MqttImpl → Option Trans
lift_mqtt none = none
lift_mqtt (some m) = some (mqtt_trans m)

bind_socket-Held :
    (env : SocketEnv) (u : UdpImpl)
    → is_neg u.fd ≡ false
    → let made = bind_socket env u in
      take_steps made.0 (holding (udp_trans u)) ≡ some (held_by (lift_udp made.1))
unfolding bind_socket take_steps take_step
bind_socket-Held env u h = ground (arith, same_int_refl u.fd)

configure_socket-Held :
    (env : SocketEnv) (reuse_addr : Bool) (u : UdpImpl)
    → is_neg u.fd ≡ false
    → let made = configure_socket env reuse_addr u in
      take_steps made.0 (holding (udp_trans u)) ≡ some (held_by (lift_udp made.1))
unfolding configure_socket lws_trans_set_nonblocking lws_trans_set_reuseaddr take_steps take_step
configure_socket-Held env reuse_addr u h =
    ground (arith, same_int_refl u.fd, bind_socket-Held env u h)

udp_create-Held :
    (env : SocketEnv) (config : TransConfig) (handler : Option TransHandler)
    → let made = lws_trans_udp_create env (some config) handler in
      take_steps made.0 nothing ≡ some (held_by (lift_udp made.1))
unfolding lws_trans_udp_create take_steps take_step
udp_create-Held env config handler =
    let u = record (initial_impl config handler) { fd = env.socket } in
    ground (arith, configure_socket-Held env config.sock.reuse_addr u)

finish_create-Held :
    (env : MqttEnv) (m : MqttImpl)
    → let made = finish_create env m in
      take_steps made.0 (holding (mqtt_trans m)) ≡ some (held_by (lift_mqtt made.1))
unfolding finish_create mqtt_connect mqtt_destroy take_steps take_step
finish_create-Held env m = ground arith

mqtt_create-Held :
    (env : MqttEnv) (config : TransConfig) (handler : Option TransHandler)
    → let made = lws_trans_mqtt_create env (some config) handler in
      take_steps made.0 nothing ≡ some (held_by (lift_mqtt made.1))
unfolding lws_trans_mqtt_create new_impl take_steps take_step
mqtt_create-Held env config handler =
    ground (arith, finish_create-Held env (new_impl config handler))

pub create-Held :
    (env : TransEnv) (config : Option TransConfig) (handler : Option TransHandler)
    → let made = lws_trans_create env config handler in
      take_steps made.0 nothing ≡ some (held_by made.1)
unfolding lws_trans_create take_steps take_step
create-Held env none handler = refl
create-Held env (some config) handler =
    ground
      (arith, udp_create-Held env.sockets config handler, mqtt_create-Held env.lwip config handler)

-- The resources of a transport are the same after a call, which takes and gives back none.
abbrev pub Kept : Trans → Trans × List Effect → Type 0
Kept t r = (take_steps r.1 (holding t) ≡ some (holding r.0)) × (holding r.0 ≡ holding t)

step-Kept : (env : TransEnv) (c : Call) (t : Trans) → Kept t (step env c t)
unfolding step take_steps take_step lws_trans_connect lws_trans_send lws_trans_loop
    lws_trans_mqtt_set_topic lws_trans_mqtt_subscribe lws_trans_mqtt_unsubscribe mqtt_connection_cb
    mqtt_incoming_publish_cb mqtt_incoming_data_cb mqtt_subscribe_cb udp_connect mqtt_connect
    udp_send mqtt_send udp_loop mqtt_loop handle_readable
step-Kept env (connect err addr port) t = ground arith
step-Kept env (send answer bytes len to) t = ground arith
step-Kept env (loop poll recvfrom timeout_ms) t = ground arith
step-Kept env (set_topic topic) t = ground arith
step-Kept env (subscribe err topic) t = ground arith
step-Kept env (unsubscribe err topic) t = ground arith
step-Kept env (connection status) t = ground arith
step-Kept env (incoming_publish topic tot_len) t = ground arith
step-Kept env (incoming_data bytes last) t = ground arith
step-Kept env (subscribed_answer err) t = ground arith

pub steps-Kept : (env : TransEnv) (cs : List Call) (t : Trans) → Kept t (steps env cs t)
unfolding steps take_steps
steps-Kept env [] t = (refl, refl)
steps-Kept env (c ∷ cs) t =
    let first = step-Kept env c t in
    let rest = steps-Kept env cs (step env c t).0 in
    let joined =
      take_steps-append (step env c t).1 (steps env cs (step env c t).0).1 (holding t)
        (holding (step env c t).0) first.0 in
    (joined ∙ rest.0, rest.1 ∙ first.1)

-- A transport from the call that makes it over calls and callbacks to its destruction.
unfoldable pub lifetime :
    TransEnv → Option TransConfig → Option TransHandler → List Call → List Effect
unfolding lws_trans_create steps lws_trans_destroy
lifetime env config handler cs =
    let made = lws_trans_create env config handler in
    elim made.1 [
      | none ↦ made.0
      | some t ↦ let used = steps env cs t in made.0 ++ (used.1 ++ lws_trans_destroy (some used.0))
    ]

-- For every configuration, all answers of the system and of lwIP, and any calls and callbacks in
-- between: making a transport takes each resource once, and what was taken is given back exactly
-- once, by the failed creation itself or by the destruction; no call in between takes or gives
-- back any.
pub lifetime-nothing :
    (env : TransEnv) (config : Option TransConfig) (handler : Option TransHandler) (cs : List Call)
    → take_steps (lifetime env config handler cs) nothing ≡ some nothing
unfolding lifetime
lifetime-nothing env config handler cs =
    let made = lws_trans_create env config handler in
    let created = create-Held env config handler in
    elim (Option-cases made.1) [
      | inl e ↦ ground arith
      | inr (t, e) ↦
          let used = steps env cs t in
          let kept = steps-Kept env cs t in
          let later =
            take_steps-append used.1 (lws_trans_destroy (some used.0)) (holding t) (holding used.0)
              kept.0 in
          let all =
            take_steps-append made.0 (used.1 ++ lws_trans_destroy (some used.0)) nothing
              (held_by made.1) created in
          ground (arith, destroy-Held (some used.0))
    ]
