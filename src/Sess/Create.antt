-- ===== src/Sess/Create.antt =====
-- Creating and destroying a session (lws_sess_create and lws_sess_destroy of src/lws_sess.c), and
-- what it owns.
use lwsip.Common.{
  ℕ, Bool, true, false, Option, none, some, List, [], ◌∷◌, ◌++◌, ◌&&◌, ◌||◌, not, if◌then◌else◌,
}
use lwsip.Sess.Types.{idle, closed, rtp_direct, SessEvent, Config, Handlers, Stats, Sess}
use lwsip.Sess.Control.{change_state}

pub data Resource : Type 0 where
  memory media_socket rtp_session encoder decoder agent : Resource

pub data Ownership : Type 0 where
  acquire release : Resource → Ownership
  -- The call that gives back a resource is made with NULL.
  release_null : Resource → Ownership

-- The answers of the system and of librtp. `port` is what `getsockname` tells.
pub record CreateEnv : Type 0 where
  pub allocated : Bool
  pub socket_made : Bool
  pub bound : Bool
  pub port : Option ℕ
  pub ssrc : ℕ
  pub sequence : ℕ
  pub rtp_made : Bool
  pub encoder_made : Bool
  pub decoder_made : Bool
  pub now : ℕ

abbrev pub zero_stats : Stats
zero_stats = record {
  sent_packets = 0;
  sent_bytes = 0;
  sent_timestamp = 0;
  recv_packets = 0;
  recv_bytes = 0;
  recv_timestamp = 0;
}

abbrev pub needs_rtp : Config → Bool
needs_rtp c = c.enable_audio && c.enable_rtcp

abbrev pub needs_encoder : Config → Bool
needs_encoder c = c.enable_audio && c.has_capture

abbrev pub needs_decoder : Config → Bool
needs_decoder c = c.enable_audio && (c.has_playback || c.has_record)

abbrev pub new_session : CreateEnv → Config → Handlers → Sess
new_session env config handler = record {
  config = config;
  handler = handler;
  state = idle;
  active_transport_mode = rtp_direct;
  transport_mode_determined = false;
  media_socket = true;
  local_port = elim env.port [ none ↦ 0 | some p ↦ p ];
  ice_agent = false;
  ice_gathering_done = false;
  ice_connected = false;
  rtp = needs_rtp config;
  audio_encoder = needs_encoder config;
  audio_decoder = needs_decoder config;
  audio_ssrc = env.ssrc;
  audio_timestamp = 0;
  audio_sequence = env.sequence;
  local_sdp = [];
  last_rtcp_time = 0;
  session_start_time = env.now;
  audio_stats = zero_stats;
}

abbrev pub only_if : Bool → Ownership → List Ownership
only_if true c = c ∷ []
only_if false c = []

-- The part of `lws_sess_create` behind the socket.
unfoldable pub create_codecs : CreateEnv → Config → Handlers → Option Sess × List Ownership
create_codecs env config handler =
    if needs_rtp config && not env.rtp_made
    then (none, release_null agent ∷ release memory ∷ [])
    else if needs_encoder config && not env.encoder_made
    then (
      none,
      only_if (needs_rtp config) (acquire rtp_session)
          ++ only_if (needs_rtp config) (release rtp_session)
          ++ release_null agent ∷ release memory ∷ [],
    )
    else if needs_decoder config && not env.decoder_made
    then (
      none,
      only_if (needs_rtp config) (acquire rtp_session)
          ++ only_if (needs_encoder config) (acquire encoder)
          ++ only_if (needs_encoder config) (release encoder)
          ++ only_if (needs_rtp config) (release rtp_session)
          ++ release_null agent ∷ release memory ∷ [],
    )
    else (
      some (new_session env config handler),
      only_if (needs_rtp config) (acquire rtp_session)
          ++ only_if (needs_encoder config) (acquire encoder)
          ++ only_if (needs_decoder config) (acquire decoder),
    )

-- The session, and what was acquired and released on the way.
unfoldable pub lws_sess_create : CreateEnv → Config → Handlers → Option Sess × List Ownership
unfolding create_codecs
lws_sess_create env config handler =
    if not env.allocated
    then (none, [])
    else if not env.socket_made
    then (none, acquire memory ∷ release memory ∷ [])
    else if not env.bound
    then (none, acquire memory ∷ acquire media_socket ∷ release media_socket ∷ release memory ∷ [])
    else (let r = create_codecs env config handler in
        (r.0, acquire memory ∷ acquire media_socket ∷ r.1))

unfoldable pub lws_sess_destroy : Sess → List SessEvent × List Ownership
lws_sess_destroy sess = (
  (change_state closed sess).1,
  only_if sess.audio_encoder (release encoder)
      ++ only_if sess.audio_decoder (release decoder)
      ++ only_if sess.rtp (release rtp_session)
      ++ only_if sess.ice_agent (release agent)
      ++ only_if sess.media_socket (release media_socket)
      ++ release memory ∷ [],
)
