-- ===== src/Sess/Types.antt =====
-- The data of a media session (include/lws_sess.h, `struct lws_sess_t` of src/lws_sess.c).
use lwsip.Common.{ℕ, Bool, true, false, Bytes}

pub data SessState : Type 0 where
  idle gathering gathered connecting connected disconnected closed : SessState

abbrev pub state_number : SessState → ℕ
state_number idle = 0
state_number gathering = 1
state_number gathered = 2
state_number connecting = 3
state_number connected = 4
state_number disconnected = 5
state_number closed = 6

abbrev pub same_state : SessState → SessState → Bool
same_state idle idle = true
same_state gathering gathering = true
same_state gathered gathered = true
same_state connecting connecting = true
same_state connected connected = true
same_state disconnected disconnected = true
same_state closed closed = true
same_state _ _ = false

pub data MediaDir : Type 0 where
  sendonly recvonly sendrecv inactive : MediaDir

pub data TransportMode : Type 0 where
  ice rtp_direct : TransportMode

abbrev pub is_direct : TransportMode → Bool
is_direct ice = false
is_direct rtp_direct = true

pub record Stats : Type 0 where
  pub sent_packets : ℕ
  pub sent_bytes : ℕ
  pub sent_timestamp : ℕ
  pub recv_packets : ℕ
  pub recv_bytes : ℕ
  pub recv_timestamp : ℕ

-- The members that src/lws_sess.c reads. Of a device only its presence counts here.
pub record Config : Type 0 where
  pub enable_audio : Bool
  pub audio_codec : ℕ
  pub audio_sample_rate : ℕ
  pub has_capture : Bool
  pub has_playback : Bool
  pub has_record : Bool
  pub media_dir : MediaDir
  pub enable_rtcp : Bool

-- Which callbacks the application installs.
pub record Handlers : Type 0 where
  pub on_state_changed : Bool
  pub on_sdp_ready : Bool
  pub on_connected : Bool
  pub on_disconnected : Bool

-- What a session does to its surroundings. A call of libice carries whether it is given an agent.
pub data SessEvent : Type 0 where
  state_changed : SessState → SessState → SessEvent
  sdp_ready : Bytes → SessEvent
  connected_callback disconnected_callback : SessEvent
  ice_set_remote_auth : Bool → Bytes → Bytes → SessEvent
  ice_add_remote_candidate : Bool → SessEvent
  ice_start ice_stop : Bool → SessEvent
  ice_input : ℕ → SessEvent
  ice_send : Bool → ℕ → SessEvent
  decode_input : ℕ → SessEvent
  playback_write record_write : ℕ → SessEvent
  capture_read : ℕ → SessEvent
  encode_input : (bytes timestamp : ℕ) → SessEvent

pub record Sess : Type 0 where
  pub config : Config
  pub handler : Handlers
  pub state : SessState
  pub active_transport_mode : TransportMode
  pub transport_mode_determined : Bool
  pub media_socket : Bool
  pub local_port : ℕ
  pub ice_agent : Bool
  pub ice_gathering_done : Bool
  pub ice_connected : Bool
  pub rtp : Bool
  pub audio_encoder : Bool
  pub audio_decoder : Bool
  pub audio_ssrc : ℕ
  pub audio_timestamp : ℕ
  pub audio_sequence : ℕ
  pub local_sdp : Bytes
  pub last_rtcp_time : ℕ
  pub session_start_time : ℕ
  pub audio_stats : Stats
