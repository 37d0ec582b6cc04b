-- ===== src/Trans/Reassembly.antt =====
-- The receive buffer of src/lws_trans_mqtt.c refines the assembly of fragments in Assembly.
use lwsip.Common.{
  ◌≡◌, refl, sym, ap, ◌∙◌, ℕ, ◌+◌, ◌≤◌, ◌<◌, Bool, true, false, List, [], ◌∷◌, ◌++◌, leb, arith,
  Bool-cases, inl, inr, Bytes, take, length, length-take, length-append, is_empty, not,
}
use mathlib.Core.Path.{subst}
use mathlib.Core.List.{append_assoc, append-nil}
use lwsip.Trans.Types.{MqttImpl, Trans, udp_trans, mqtt_trans, bare, Effect, on_data_call, when}
use lwsip.Trans.Mqtt.{
  recv_buf_size, mqtt_send, mqtt_connect, mqtt_loop, lws_trans_mqtt_set_topic,
  lws_trans_mqtt_subscribe, lws_trans_mqtt_unsubscribe,
}
use lwsip.Trans.Callbacks.{
  mqtt_connection_cb, mqtt_incoming_publish_cb, mqtt_incoming_data_cb, mqtt_subscribe_cb,
}
use lwsip.Trans.Api.{TransEnv, lws_trans_connect, lws_trans_send, lws_trans_loop}
use lwsip.Trans.Calls.{
  Call, connect, send, loop, set_topic, subscribe, unsubscribe, connection, incoming_publish,
  incoming_data, subscribed_answer, step, steps,
}
use lwsip.Trans.Buffer.{le→leb, ltb-length, take-write_at}
use lwsip.Common.Memory.{length-write_at}
use lwsip.Trans.Assembly.{accept, react, assemble}

-- The array has its size, what is in use lies in it, and the application takes data.
pub record IsReceiving (m : MqttImpl) : Type 0 where
  pub whole : length m.recv_buf ≡ recv_buf_size
  pub bounded : m.recv_len ≤ recv_buf_size
  pub listening : m.handler.on_data ≡ true

-- The fragments that wait for the last one.
abbrev pub pending : MqttImpl → Bytes
pending m = take m.recv_len m.recv_buf

-- The messages that were handed to the application.
unfoldable pub messages : List Effect → List Bytes
messages [] = []
messages (on_data_call bytes from ∷ es) = bytes ∷ messages es
messages (_ ∷ es) = messages es

messages-append : (es fs : List Effect) → messages (es ++ fs) ≡ messages es ++ messages fs
unfolding messages
messages-append [] fs = refl
messages-append (e ∷ es) fs = let rest = messages-append es fs in ground arith

-- An MQTT transport that is ready to receive, with these bytes pending.
abbrev pub Awaits : Bytes → Trans → Type 0
Awaits p (mqtt_trans m) = IsReceiving m × (pending m ≡ p)
Awaits p _ = ⊥

-- A call changes the pending bytes and hands on messages as the specification says.
abbrev pub Reacts : Bytes → Call → Trans × List Effect → Type 0
Reacts p c r = let spec = react recv_buf_size p c in Awaits spec.0 r.0 × (messages r.1 ≡ spec.1)

length-pending : (m : MqttImpl) → IsReceiving m → length (pending m) ≡ m.recv_len
length-pending m v =
    let l = length-take m.recv_len m.recv_buf in ground (arith, l, v.whole, v.bounded)

fragment-Reacts :
    (env : TransEnv) (bytes : Bytes) (last : Bool) (m : MqttImpl)
    → IsReceiving m
    → Reacts
        (pending m)
        (incoming_data bytes last)
        (step env (incoming_data bytes last) (mqtt_trans m))
unfolding step react accept messages mqtt_incoming_data_cb
fragment-Reacts env bytes last m v =
    let total = m.recv_len + length bytes in
    let written = take-write_at m.recv_len bytes m.recv_buf (rw v.whole v.bounded) in
    let joined = length-append (pending m) bytes in
    let waiting = length-pending m v in
    let some_bytes = ltb-length (pending m ++ bytes) in
    elim (Bool-cases (leb total recv_buf_size)) [
      | inl fits ↦
          let kept = length-write_at m.recv_len bytes m.recv_buf (ground (arith, v.whole)) in
          ground (arith, v.whole, v.bounded, v.listening)
      | inr full ↦ ground (arith, v.whole, v.bounded, v.listening)
    ]

step-Reacts :
    (env : TransEnv) (c : Call) (m : MqttImpl)
    → IsReceiving m
    → Reacts (pending m) c (step env c (mqtt_trans m))
unfolding step react messages lws_trans_connect lws_trans_send lws_trans_loop
    lws_trans_mqtt_set_topic lws_trans_mqtt_subscribe lws_trans_mqtt_unsubscribe mqtt_connection_cb
    mqtt_incoming_publish_cb mqtt_subscribe_cb mqtt_connect mqtt_send mqtt_loop
step-Reacts env (connect err addr port) m v = ground arith
step-Reacts env (send answer bytes len to) m v = ground arith
step-Reacts env (loop poll recvfrom timeout_ms) m v = ground arith
step-Reacts env (set_topic topic) m v = ground arith
step-Reacts env (subscribe err topic) m v = ground arith
step-Reacts env (unsubscribe err topic) m v = ground arith
step-Reacts env (connection status) m v = ground arith
step-Reacts env (incoming_publish topic tot_len) m v = ground arith
step-Reacts env (incoming_data bytes last) m v = fragment-Reacts env bytes last m v
step-Reacts env (subscribed_answer err) m v = ground arith

Awaits→Reacts :
    (env : TransEnv) (c : Call) (p : Bytes) (t : Trans) → Awaits p t → Reacts p c (step env c t)
Awaits→Reacts env c p (mqtt_trans m) (v, e) =
    subst (λ q. Reacts q c (step env c (mqtt_trans m))) e (step-Reacts env c m v)
Awaits→Reacts env c p (udp_trans u) h = absurd h
Awaits→Reacts env c p bare h = absurd h

steps-messages :
    (env : TransEnv) (cs : List Call) (p : Bytes) (t : Trans)
    → Awaits p t
    → messages (steps env cs t).1 ≡ assemble recv_buf_size p cs
unfolding steps messages assemble
steps-messages env [] p t h = refl
steps-messages env (c ∷ cs) p t h =
    let first = Awaits→Reacts env c p t h in
    let rest = steps-messages env cs (react recv_buf_size p c).0 (step env c t).0 first.0 in
    messages-append (step env c t).1 (steps env cs (step env c t).0).1 ∙ rw (first.1, rest) refl

-- An MQTT transport whose buffer is within its array and whose application takes data hands on,
-- over any calls and callbacks with any answers, exactly the messages that the assembly of the
-- incoming fragments with a limit of 4096 bytes makes, starting with what is pending.
pub steps_refine :
    (env : TransEnv) (cs : List Call) (m : MqttImpl)
    → IsReceiving m
    → messages (steps env cs (mqtt_trans m)).1 ≡ assemble recv_buf_size (pending m) cs
steps_refine env cs m v = steps-messages env cs (pending m) (mqtt_trans m) (v, refl)

-- The callbacks for a message that comes in these parts.
abbrev pub fragments : Bytes → List Bytes → List Call
fragments part [] = incoming_data part true ∷ []
fragments part (next ∷ parts) = incoming_data part false ∷ fragments next parts

abbrev pub joined : Bytes → List Bytes → Bytes
joined part [] = part
joined part (next ∷ parts) = part ++ joined next parts

-- The rest of a message, while there is room for it.
assemble-fragments :
    (limit : ℕ) (p part : Bytes) (parts : List Bytes)
    → length (p ++ joined part parts) ≤ limit
    → assemble limit p (fragments part parts)
      ≡ when (not (is_empty (p ++ joined part parts))) (p ++ joined part parts)
unfolding assemble react accept
assemble-fragments limit p part [] h =
    rw (le→leb (length (p ++ part)) limit h)
      (append-nil (when (not (is_empty (p ++ part))) (p ++ part)))
assemble-fragments limit p part (next ∷ parts) h =
    let all = length-append p (part ++ joined next parts) in
    let tail = length-append part (joined next parts) in
    let first = length-append p part in
    let fits : length (p ++ part) ≤ limit = omega arith in
    let same : (p ++ part) ++ joined next parts ≡ p ++ (part ++ joined next parts) =
      append_assoc p part (joined next parts) in
    let room : length ((p ++ part) ++ joined next parts) ≤ limit =
      subst (λ s. length s ≤ limit) (sym same) h in
    let rest = assemble-fragments limit (p ++ part) next parts room in
    rw (le→leb (length (p ++ part)) limit fits) (rest ∙ ap (λ s. when (not (is_empty s)) s) same)

-- A message of at most 4096 bytes that comes in any number of fragments, the last one marked, is
-- handed on once and whole to the application of an MQTT transport whose buffer is within its
-- array, whatever was pending; an empty message is not handed on.
pub fragments-delivered :
    (env : TransEnv) (topic : Bytes) (tot_len : ℕ) (part : Bytes) (parts : List Bytes)
    (m : MqttImpl)
    → IsReceiving m
    → length (joined part parts) ≤ recv_buf_size
    → messages (steps env (incoming_publish topic tot_len ∷ fragments part parts) (mqtt_trans m)).1
      ≡ when (not (is_empty (joined part parts))) (joined part parts)
unfolding assemble react
fragments-delivered env topic tot_len part parts m v h =
    steps_refine env (incoming_publish topic tot_len ∷ fragments part parts) m v
    ∙ assemble-fragments recv_buf_size [] part parts h

-- Where the second fragment of a message of three does not fit any more, the first two are lost
-- and the last one, of one to 4096 bytes, is handed on as if it were the message.
pub oversized_tail :
    (env : TransEnv) (topic : Bytes) (tot_len : ℕ) (a b : Bytes) (x : ℕ) (c : Bytes) (m : MqttImpl)
    → IsReceiving m
    → length a ≤ recv_buf_size
    → recv_buf_size < length a + length b
    → length (x ∷ c) ≤ recv_buf_size
    → messages
        (steps env
          (incoming_publish topic tot_len
            ∷ incoming_data a false
            ∷ incoming_data b false
            ∷ incoming_data (x ∷ c) true
            ∷ [])
          (mqtt_trans m)).1
      ≡ (x ∷ c) ∷ []
unfolding assemble react accept
oversized_tail env topic tot_len a b x c m v h k l =
    let spec =
      steps_refine env
        (incoming_publish topic tot_len
          ∷ incoming_data a false
          ∷ incoming_data b false
          ∷ incoming_data (x ∷ c) true
          ∷ [])
        m v in
    let first = le→leb (length a) recv_buf_size h in
    let second : leb (length (a ++ b)) recv_buf_size ≡ false =
      let joint = length-append a b in ground arith in
    let third = le→leb (length (x ∷ c)) recv_buf_size l in spec ∙ rw (first, second, third) refl
