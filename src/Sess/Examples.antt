-- ===== src/Sess/Examples.antt =====
-- Sessions on concrete calls.
use lwsip.Common.{
  if◌then◌else◌, ◌≡◌, ◌<◌, refl, true, false, some, List, [], ◌∷◌, ◌++◌, arith, pos, Bytes, codes,
  length, is_some, strip_prefix, strstr_after, strchr, ◌&&◌,
}
use lwsip.Sess.Types.{sendrecv, Config, Handlers, Sess, rtp_direct, connected}
use lwsip.Sess.Sdp.{max_sdp_size, line_of, parse_sdp_attribute, generate_local_sdp}
use lwsip.Sess.Control.{lws_sess_gather_candidates, lws_sess_start_ice, lws_sess_get_local_sdp}
use lwsip.Sess.Remote.{IceEnv, lws_sess_set_remote_sdp}
use lwsip.Sess.Media.{LoopEnv}
use lwsip.Sess.Create.{
  agent, CreateEnv, new_session, lws_sess_create, lws_sess_destroy, create_codecs,
}
use lwsip.Sess.Calls.{
  SessCall, gather_call, remote_call, start_call, loop_call, stop_call, sess_calls,
}
use lwsip.Sess.Protocol.{Watched, calls-Watched}
use lwsip.Sess.Modes.{mode_for, all_lack_agent}
use lwsip.Sess.Fixed.{calls-lack_agent, calls-mode}
use lwsip.Sess.Counters.{IsConsistent, calls-IsConsistent}
use lwsip.Sess.Ownership.{nothing, take_steps, null_releases, destroy-create, create_failure}
use lwsip.Sess.Handshake.{IsAddress, generate_fits, offer-connected}

abbrev audio : Config
audio = record {
  enable_audio = true;
  audio_codec = 8;
  audio_sample_rate = 8000;
  has_capture = true;
  has_playback = true;
  has_record = false;
  media_dir = sendrecv;
  enable_rtcp = true;
}

abbrev listening : Handlers
listening = record {
  on_state_changed = true;
  on_sdp_ready = true;
  on_connected = true;
  on_disconnected = true;
}

abbrev system : CreateEnv
system = record {
  allocated = true;
  socket_made = true;
  bound = true;
  port = some 40000;
  ssrc = 7;
  sequence = 9;
  rtp_made = true;
  encoder_made = true;
  decoder_made = true;
  now = 1000;
}

abbrev fresh : Sess
fresh = new_session system audio listening

abbrev libice : IceEnv
libice = record {
  auth_ret = pos 0;
  scan_type = λ line. some (codes "host");
  ip_valid = λ line. true;
}

abbrev turn : LoopEnv
turn = record {
  received = (172, record { bytes = 320; timestamp = 160 } ∷ []) ∷ [];
  read_result = pos 160;
  now = 6000000;
  rtcp_interval = pos 5000;
  rtcp_length = pos 28;
}

abbrev ice_sdp : Bytes
ice_sdp =
    codes
      "v=0\r\na=ice-ufrag:abcd\r\na=ice-pwd:efgh\r\na=candidate:1 1 UDP 1 10.0.0.1 9 typ host\r\n"

abbrev local_ip : Bytes
local_ip = codes "192.168.1.20"

local_ip-IsAddress : IsAddress (some local_ip)
local_ip-IsAddress = (omega arith, ground arith)

abbrev call : List SessCall
call =
    gather_call 1700000000 (some local_ip)
    ∷ remote_call libice (some (codes "v=0\r\n"))
    ∷ start_call (pos 0)
    ∷ loop_call turn
    ∷ loop_call turn
    ∷ stop_call
    ∷ []

calls-Watched_example : let r = sess_calls call fresh in Watched fresh r.0 r.1
calls-Watched_example = calls-Watched call fresh refl

calls-IsConsistent_example : IsConsistent (sess_calls call fresh).0
calls-IsConsistent_example = calls-IsConsistent call fresh (omega arith)

calls-lack_agent_example :
    let r = sess_calls (remote_call libice (some ice_sdp) ∷ start_call (pos 0) ∷ []) fresh in
    (r.0.ice_agent ≡ false) × (all_lack_agent r.1 ≡ true)
calls-lack_agent_example =
    calls-lack_agent (remote_call libice (some ice_sdp) ∷ start_call (pos 0) ∷ []) fresh refl

calls-mode_example :
    (sess_calls call
      (lws_sess_set_remote_sdp libice (some ice_sdp) fresh).0).0.active_transport_mode
    ≡ mode_for ice_sdp
calls-mode_example = calls-mode libice ice_sdp call fresh refl refl

destroy-create_example :
    take_steps ((lws_sess_create system audio listening).1 ++ (lws_sess_destroy fresh).1) nothing
    ≡ some nothing
unfolding lws_sess_create create_codecs
destroy-create_example = destroy-create system audio listening fresh refl

abbrev no_decoder : CreateEnv
no_decoder = record system { decoder_made = false }

create_failure_example :
    let bound = true && (true && true) in
    let os = (lws_sess_create no_decoder audio listening).1 in
    (take_steps os nothing ≡ some (record nothing { has_socket = bound }))
    × (null_releases os ≡ (if bound then agent ∷ [] else []))
unfolding lws_sess_create create_codecs
create_failure_example = create_failure no_decoder audio listening refl

ufrag_found : parse_sdp_attribute ice_sdp (codes "ice-ufrag") 256 ≡ some (codes "abcd")
unfolding parse_sdp_attribute strstr_after strip_prefix line_of strchr
ufrag_found = refl

generate_fits_example :
    let r = generate_local_sdp 1700000000 (some local_ip) 40000 audio in
    (r.1 ≡ true) × (length r.0 < max_sdp_size)
generate_fits_example = generate_fits 1700000000 (some local_ip) 40000 audio local_ip-IsAddress

offer-connected_example :
    let offer =
      lws_sess_get_local_sdp (lws_sess_gather_candidates 1700000000 (some local_ip) fresh).0 in
    let taken = lws_sess_set_remote_sdp libice offer fresh in
    let started = lws_sess_start_ice (pos 0) taken.0 in
    (is_some offer ≡ true)
    × (taken.1 ≡ pos 0)
    × (started.1 ≡ pos 0)
    × (started.0.state ≡ connected)
    × (started.0.active_transport_mode ≡ rtp_direct)
offer-connected_example =
    offer-connected fresh fresh 1700000000 (some local_ip) libice (pos 0) local_ip-IsAddress refl
