-- ===== src/Trans/Types.antt =====
-- The data of include/lws_trans.h and of the two implementations, and what the calls do outside.
use lwsip.Common.{ℕ, Bool, true, false, Option, List, [], ◌∷◌, ℤ, Bytes}

pub data TransType : Type 0 where
  udp tcp tcp_server tcp_client tls mqtt custom : TransType

-- `lws_addr_t`. A family that was never written is `none`.
pub record Addr : Type 0 where
  pub ip : Bytes
  pub port : ℕ
  pub family : Option ℕ

-- Which of the handlers are set.
pub record TransHandler : Type 0 where
  pub on_data : Bool
  pub on_connected : Bool
  pub on_error : Bool

pub record SockConfig : Type 0 where
  pub bind_addr : Bytes
  pub bind_port : ℕ
  pub reuse_addr : Bool
  pub reuse_port : Bool
  pub enable_ipv6 : Bool

pub record MqttConfig : Type 0 where
  pub broker : Bytes
  pub port : ℕ
  pub client_id : Bytes
  pub username : Bytes
  pub password : Bytes
  pub topic_prefix : Bytes

pub record TransConfig : Type 0 where
  pub type : TransType
  pub sock : SockConfig
  pub mqtt_options : MqttConfig
  pub nonblock : Bool
  pub recv_buf_size : ℕ
  pub send_buf_size : ℕ

-- `lws_trans_udp_t`; the receive buffer holds nothing between two calls.
pub record UdpImpl : Type 0 where
  pub fd : ℤ
  pub bind_addr : Bytes
  pub bind_port : ℕ
  pub handler : TransHandler

-- `lws_trans_mqtt_impl_t`. `recv_buf` is the whole array, `broker_ip` none before it was resolved.
pub record MqttImpl : Type 0 where
  pub client : Bool
  pub broker : Bytes
  pub port : ℕ
  pub client_id : Bytes
  pub username : Bytes
  pub password : Bytes
  pub topic_prefix : Bytes
  pub topic_send : Bytes
  pub topic_recv : Bytes
  pub connected : Bool
  pub subscribed : Bool
  pub recv_buf : Bytes
  pub recv_len : ℕ
  pub recv_complete : Bool
  pub handler : TransHandler
  pub broker_ip : Option ℕ

-- `lws_trans_t`: the type, the table and the implementation are set together, so a constructor
-- stands for the three. `bare` has no table.
pub data Trans : Type 0 where
  udp_trans : UdpImpl → Trans
  mqtt_trans : MqttImpl → Trans
  bare : Trans

pub data Resource : Type 0 where
  trans_memory impl_memory mqtt_client : Resource
  sock_fd : ℤ → Resource

-- Calls of the system, of lwIP and of the handlers. `set_flags` is `fcntl(F_SETFL)` with
-- `O_NONBLOCK` added to the flags, `mqtt_client_connect` has the user and the password where they
-- are not NULL.
pub data Effect : Type 0 where
  acquired released : Resource → Effect
  set_flags : ℤ → ℤ → Effect
  set_reuseaddr : ℤ → Bool → Effect
  bind_call : ℤ → ℕ → ℕ → Effect
  sendto : ℤ → Bytes → ℕ → ℕ → Effect
  on_data_call : Bytes → Addr → Effect
  on_error_call : ℤ → Bytes → Effect
  on_connected_call : Bool → Effect
  set_inpub_callback mqtt_disconnect : Effect
  mqtt_client_connect : ℕ → ℕ → Bytes → Option Bytes → Option Bytes → Effect
  mqtt_subscribe_call mqtt_unsubscribe_call : Bytes → Effect
  mqtt_publish : Bytes → Bytes → ℤ → Effect

abbrev pub max_ip_len : ℕ
max_ip_len = 64

abbrev pub when {ℓ} : {A : Type ℓ} → Bool → A → List A
when true x = x ∷ []
when false x = []
