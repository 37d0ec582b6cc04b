-- ===== src/Trans/Examples.antt =====
-- The transports on concrete configurations and calls.
use lwsip.Common.{
  ◌≡◌, refl, ℕ, zero, suc, true, false, none, some, [], ◌∷◌, arith, pos, negsuc, codes, length,
  lws_ok, ap,
}
use lwsip.Common.Decimal.{decimal, read_digits}
use lwsip.Trans.Types.{mqtt, Addr, TransHandler, TransConfig, MqttImpl, mqtt_trans, mqtt_publish}
use lwsip.Trans.Mqtt.{new_impl, zeros, recv_buf_size}
use lwsip.Trans.Callbacks.{accepted}
use lwsip.Trans.Api.{TransEnv, cleared_config, lws_trans_send}
use lwsip.Trans.Calls.{set_topic, connection, incoming_publish, incoming_data, steps}
use lwsip.Trans.Assembly.{assemble}
use lwsip.Trans.Ownership.{lifetime, lifetime-nothing}
use lwsip.Trans.Ledger.{nothing, take_steps}
use lwsip.Trans.Reassembly.{
  IsReceiving, pending, messages, fragments, steps_refine, fragments-delivered,
}
use lwsip.Trans.Connected.{is_accepted, topic_after, send-steps}
use lwsip.Trans.Address.{
  af_inet, IsPlain, returned, overrun, lws_addr_to_string, lws_addr_from_string, lws_addr_equals,
  scan_ip_port, scan_word, parse_word, from_string-to_string,
}

abbrev answers : TransEnv
answers = record {
  trans_mqtt = true;
  sockets = record {
    has_trans = true;
    has_impl = true;
    socket = pos 5;
    getfl = pos 2;
    setfl = pos 0;
    setsockopt = pos 0;
    bind = negsuc 0;
    inet_pton = λ s. some 7;
  };
  lwip = record {
    has_trans = true;
    has_impl = true;
    has_client = true;
    ipaddr_aton = λ s. some 7;
    connect_err = pos 0;
  };
  inet_ntop = λ a. codes "10.0.0.1";
}

abbrev all_handlers : TransHandler
all_handlers = record { on_data = true; on_connected = true; on_error = true }

abbrev mqtt_config : TransConfig
mqtt_config = record cleared_config {
  type = mqtt;
  mqtt_options = record {
    broker = codes "10.0.0.9";
    port = 0;
    client_id = codes "c";
    username = [];
    password = [];
    topic_prefix = codes "sip";
  };
}

abbrev client : MqttImpl
unfolding new_impl
client = new_impl mqtt_config (some all_handlers)

length-zeros : (n : ℕ) → length (zeros n) ≡ n
length-zeros zero = refl
length-zeros (suc n) = ap suc (length-zeros n)

client-IsReceiving : IsReceiving client
unfolding client
client-IsReceiving = record { whole = length-zeros 4096; bounded = omega arith; listening = refl }

-- A bind that fails.
lifetime-nothing_example :
    take_steps (lifetime answers (some cleared_config) (some all_handlers) []) nothing
    ≡ some nothing
lifetime-nothing_example = lifetime-nothing answers (some cleared_config) (some all_handlers) []

steps_refine_example :
    messages
      (steps answers
        (incoming_publish (codes "sip/recv") 4
          ∷ incoming_data (codes "ab") false
          ∷ connection accepted
          ∷ incoming_data (codes "cd") true
          ∷ [])
        (mqtt_trans client)).1
    ≡ assemble recv_buf_size (pending client) (
        incoming_publish (codes "sip/recv") 4
        ∷ incoming_data (codes "ab") false
        ∷ connection accepted
        ∷ incoming_data (codes "cd") true
        ∷ [])
steps_refine_example =
    steps_refine answers
      (incoming_publish (codes "sip/recv") 4
        ∷ incoming_data (codes "ab") false
        ∷ connection accepted
        ∷ incoming_data (codes "cd") true
        ∷ [])
      client client-IsReceiving

fragments-delivered_example :
    messages
      (steps answers
        (incoming_publish (codes "sip/recv") 5 ∷ fragments (codes "abc") (codes "de" ∷ []))
        (mqtt_trans client)).1
    ≡ codes "abcde" ∷ []
fragments-delivered_example =
    fragments-delivered answers (codes "sip/recv") 5 (codes "abc") (codes "de" ∷ []) client
      client-IsReceiving (omega arith)

send-steps_example :
    lws_trans_send answers
      (pos 0)
      (some
        (steps answers
          (connection accepted ∷ set_topic (some (codes "t")) ∷ [])
          (mqtt_trans client)).0)
      (some (codes "hi"))
      (pos 2)
      none
    ≡ (pos 2, mqtt_publish (codes "t/send") (codes "hi") (pos 2) ∷ [])
unfolding client is_accepted topic_after
send-steps_example =
    send-steps answers (connection accepted ∷ set_topic (some (codes "t")) ∷ []) client (codes "hi")
      1 none

abbrev peer : Addr
peer = record { ip = codes "10.0.0.1"; port = 5060; family = some af_inet }

peer-IsPlain : IsPlain peer
peer-IsPlain = record {
  named = refl;
  short = omega arith;
  plain = ground arith;
  ranged = omega arith;
}

from_string-to_string_example :
    (lws_addr_from_string (lws_addr_to_string (some peer) (some []) 64).0 (some peer)
      ≡ returned (some peer) lws_ok)
    × (lws_addr_equals (some peer) (some peer) ≡ true)
unfolding decimal
from_string-to_string_example = from_string-to_string peer peer [] 64 peer-IsPlain (omega arith)

-- A port that is no number makes the whole text the address.
no_number :
    lws_addr_from_string (some (codes "10.0.0.1:x")) (some peer)
    ≡ returned (some (record { ip = codes "10.0.0.1:x"; port = 0; family = some 2 })) lws_ok
unfolding lws_addr_from_string scan_ip_port scan_word parse_word
no_number = refl

-- A port above 65535 is cut to 16 bits.
large_port :
    lws_addr_from_string (some (codes "h:70000")) (some peer)
    ≡ returned (some (record { ip = codes "h"; port = 4464; family = some 2 })) lws_ok
unfolding lws_addr_from_string scan_ip_port scan_word parse_word read_digits
large_port = refl

long_host :
    lws_addr_from_string
      (some (
        codes "sip.a-rather-long-host-name.of-some-department.of-an-organisation.example.org:5060"))
      (some peer)
    ≡ overrun
unfolding lws_addr_from_string scan_ip_port scan_word parse_word
long_host = refl
