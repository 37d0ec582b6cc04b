-- ===== src/Agent/Examples.antt =====
-- An agent on concrete calls.
use lwsip.Common.{
  ◌+◌, ◌≡◌, refl, ℕ, true, false, none, some, List, [], ◌∷◌, ◌&&◌, if◌then◌else◌, pos, negsuc,
  codes, str_eq,
}
use lwsip.Dev.Types.{Dev, DevOps, audio_capture}
use lwsip.Dev.Transfer.{lws_dev_read_audio, transfer_guard}
use lwsip.Sess.Types.{Sess, SessEvent, connected, capture_read, same_state}
use lwsip.Sess.Control.{change_state}
use lwsip.Sess.Create.{lws_sess_destroy, CreateEnv, new_session, lws_sess_create, create_codecs}
use lwsip.Sess.Media.{LoopEnv, frame_samples, send_media}
use lwsip.Sess.Remote.{IceEnv}
use lwsip.Agent.Types.{
  idle, registered, Agent, AgentHandler, AgentEvent, ok, Dialog, uas_addref, incoming_call_event,
  dialog_state_changed, incoming, terminated, uas_release, media, uas_reply,
}
use lwsip.Agent.Dialogs.{
  at_address, store, unlink, save_dialog, lws_agent_create_dialog, lws_agent_destroy_dialog,
  destroy_events, lws_agent_find_dialog,
}
use lwsip.Agent.Media.{SdpEnv, report, sess_config, sess_handler}
use lwsip.Agent.Calls.{CallEnv, lws_agent_answer_call}
use lwsip.Agent.Incoming.{incoming_dialog, sip_uas_oninvite, take_invite, announce, sip_uas_onbye}
use lwsip.Agent.Register.{
  RegisterEnv, not_made, lws_agent_start, enter, settle, release_stored, uac_onreply_callback,
}
use lwsip.Agent.Sequence.{Happening, start, reply, invited, bye, happen, happen_all}
use lwsip.Agent.Listed.{IsListed}
use lwsip.Agent.References.{given, taken, held}
use lwsip.Agent.Ledger.{AreFresh, happenings_balanced}
use lwsip.Agent.Counted.{happenings-IsListed}
use lwsip.Agent.Moves.{Moves}
use lwsip.Agent.Answer.{IsAnswered, answering, answer_call-IsAnswered}
use lwsip.Agent.Silence.{send_media_silent}

abbrev listening : AgentHandler
listening = record {
  on_state_changed = true;
  on_register_result = true;
  on_dialog_state_changed = true;
  on_incoming_call = true;
  on_remote_sdp = true;
}

abbrev phone : Agent
phone = record {
  handler = listening;
  state = idle;
  dialogs = [];
  dialog_count = 0;
  register_txn = none;
  has_capture = true;
  has_playback = true;
  has_record = false;
  audio_codec = 0;
}

abbrev registrar : RegisterEnv
registrar = record { made = some 11; send_ret = pos 0 }

-- A BYE of an earlier call, transaction 99, is answered while transaction 11 registers.
abbrev registration : List Happening
registration = start registrar ∷ reply not_made 99 200 ∷ []

abbrev asking : Agent
asking = (lws_agent_start registrar phone).0

abbrev signed_in : Agent
signed_in = (uac_onreply_callback not_made 99 200 asking).0

is_signed_in : signed_in.state ≡ registered
unfolding lws_agent_start uac_onreply_callback enter settle release_stored
is_signed_in = refl

abbrev system : CreateEnv
system = record {
  allocated = true;
  socket_made = true;
  bound = true;
  port = some 40000;
  ssrc = 7;
  sequence = 9;
  rtp_made = true;
  encoder_made = true;
  decoder_made = true;
  now = 1000;
}

abbrev clock : SdpEnv
clock = record { now = 1700000000; local_address = none; reply_ret = pos 0; ice_ret = pos 0 }

abbrev pub libsip : CallEnv
libsip = record {
  allocated = true;
  address = 4096;
  call_id = codes "a1@x.org";
  txn_made = true;
  send_ret = pos 0;
  reply_ret = pos 0;
  session = system;
  sdp = clock;
}

abbrev pub libice : IceEnv
libice = record { auth_ret = pos 0; scan_type = λ line. none; ip_valid = λ line. true }

abbrev spoken : Sess
spoken = new_session system (sess_config phone) sess_handler

abbrev ringing : Dialog
ringing = record (incoming_dialog libsip true []) { sess = some spoken }

abbrev called : Agent
called = record phone { dialogs = ringing ∷ []; dialog_count = 1 }

answer_call-IsAnswered_example :
    let r = lws_agent_answer_call libsip ringing called in
    (r.1 ≡ ok)
    × ((d1 : Dialog) × (at_address 4096 r.0.dialogs ≡ some d1) × IsAnswered d1)
    × ((g : List SessEvent) × (s : List SessEvent) × (r.2 ≡ answering listening ringing g s))
unfolding incoming_dialog at_address
answer_call-IsAnswered_example =
    answer_call-IsAnswered libsip ringing spoken called refl refl refl refl refl (refl, refl, refl)
      refl tt

abbrev visit : List Happening
visit = invited libsip libice true [] ∷ bye (codes "a1@x.org") ∷ []

abbrev visit_events : List AgentEvent
visit_events =
    uas_addref 4096
    ∷ incoming_call_event 4096
    ∷ dialog_state_changed 4096 incoming terminated
    ∷ uas_release 4096
    ∷ media []
    ∷ uas_reply 200
    ∷ []

visit_happens : happen_all visit phone ≡ some (phone, visit_events)
unfolding happen_all happen sip_uas_oninvite incoming_dialog take_invite announce save_dialog store
    lws_agent_create_dialog lws_sess_create create_codecs sess_config sip_uas_onbye
    lws_agent_find_dialog str_eq report lws_agent_destroy_dialog unlink destroy_events
    lws_sess_destroy change_state
visit_happens = refl

happenings-IsListed_example : IsListed phone
happenings-IsListed_example = happenings-IsListed visit phone phone visit_events refl visit_happens

visit_fresh : AreFresh visit phone
unfolding happen sip_uas_oninvite incoming_dialog take_invite announce save_dialog store
    lws_agent_create_dialog lws_sess_create create_codecs sess_config sip_uas_onbye
    lws_agent_find_dialog str_eq report lws_agent_destroy_dialog unlink destroy_events
    lws_sess_destroy change_state
visit_fresh = (tt, (tt, tt))

happenings_balanced_example :
    given visit_events + held phone.dialogs ≡ taken visit_events + held phone.dialogs
happenings_balanced_example =
    happenings_balanced visit phone phone visit_events tt visit_fresh visit_happens

abbrev microphone : Dev ℕ
microphone = record {
  type = audio_capture;
  state = lwsip.Dev.Types.DevState.started;
  ops = none;
  platform_data = 0;
  device_name = [];
  start_timestamp_us = 0;
  has_state_handler = false;
  has_error_handler = false;
}

abbrev talking : Sess
talking = record spoken { state = connected }

abbrev round : LoopEnv
round = record {
  received = [];
  read_result = negsuc 0;
  now = 5;
  rtcp_interval = pos 0;
  rtcp_length = pos 8;
}

send_media_silent_example : send_media round talking ≡ (
  talking,
  if same_state talking.state connected && (phone.has_capture && talking.audio_encoder)
      then capture_read 0 ∷ []
      else [],
)
unfolding frame_samples lws_dev_read_audio transfer_guard sess_config
send_media_silent_example = send_media_silent phone talking microphone true round refl refl
