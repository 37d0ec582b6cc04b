-- ===== src/Trans/Callbacks.antt =====
-- The callbacks that src/lws_trans_mqtt.c gives to lwIP. The argument is `none` for NULL.
use lwsip.Common.{
  ℕ, ◌+◌, Bool, true, false, Option, none, some, List, [], ◌∷◌, ◌++◌, if◌then◌else◌, ◌&&◌, ltb, leb,
  ℤ, is_nonzero, not, Bytes, codes, take, length,
}
use lwsip.Common.Memory.{write_at}
use lwsip.Trans.Types.{
  MqttImpl, Effect, on_data_call, on_error_call, on_connected_call, mqtt_subscribe_call, when,
}
use lwsip.Trans.Mqtt.{broker_addr, recv_buf_size}

-- `mqtt_connection_status_t`: accepted, or another status.
pub data ConnectionStatus : Type 0 where
  accepted : ConnectionStatus
  not_accepted : ℤ → ConnectionStatus

-- What `mqtt_subscribe` answers is only logged.
unfoldable pub mqtt_connection_cb :
    ConnectionStatus → Option MqttImpl → Option MqttImpl × List Effect
mqtt_connection_cb status none = (none, [])
mqtt_connection_cb accepted (some m) = (
  some (record m { connected = true }),
  mqtt_subscribe_call m.topic_recv ∷ when m.handler.on_connected (on_connected_call true),
)
mqtt_connection_cb (not_accepted status) (some m) = (
  some (record m { connected = false; subscribed = false }),
  when m.handler.on_connected (on_connected_call false)
      ++ when m.handler.on_error (on_error_call status (codes "MQTT connection lost")),
)

-- The length that is announced is only compared for a warning.
unfoldable pub mqtt_incoming_publish_cb :
    (topic : Bytes) (tot_len : ℕ) → Option MqttImpl → Option MqttImpl
mqtt_incoming_publish_cb topic tot_len none = none
mqtt_incoming_publish_cb topic tot_len (some m) =
    some (record m { recv_len = 0; recv_complete = false })

-- `last` is MQTT_DATA_FLAG_LAST in the flags.
unfoldable pub mqtt_incoming_data_cb :
    (bytes : Bytes) (last : Bool) → Option MqttImpl → Option MqttImpl × List Effect
unfolding write_at
mqtt_incoming_data_cb bytes last none = (none, [])
mqtt_incoming_data_cb bytes last (some m) =
    let total = m.recv_len + length bytes in
    let buf = write_at m.recv_len bytes m.recv_buf in
    let delivered =
      (when (m.handler.on_data && ltb 0 total) (on_data_call (take total buf) (broker_addr m))) in
    if leb total recv_buf_size
    then if last
      then (some (record m { recv_buf = buf; recv_len = 0; recv_complete = false }), delivered)
      else (some (record m { recv_buf = buf; recv_len = total }), [])
    else (some (record m { recv_len = 0 }), [])

unfoldable pub mqtt_subscribe_cb : (err : ℤ) → Option MqttImpl → Option MqttImpl
mqtt_subscribe_cb err none = none
mqtt_subscribe_cb err (some m) = some (record m { subscribed = not (is_nonzero err) })
