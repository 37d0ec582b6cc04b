-- ===== src/Agent/Media.antt =====
-- The media session of a dialog: its configuration and its callback `sess_on_sdp_ready`.
use lwsip.Common.{
  ℕ, true, false, Option, none, some, List, [], ◌∷◌, ◌++◌, if◌then◌else◌, ℤ, is_neg, Bytes, take,
}
use lwsip.Sess.Types.{Sess, SessEvent, Config, Handlers, sendrecv, sdp_ready}
use lwsip.Sess.Control.{lws_sess_gather_candidates, lws_sess_start_ice}
use lwsip.Agent.Types.{
  Dialog, DialogState, confirmed, Agent, AgentHandler, AgentEvent, unknown_call, outgoing_call,
  incoming_call, uas_reply, uas_release, uac_send, dialog_state_changed, media,
}

-- The answers of libsip, of `time` and of `get_local_ipv4` while an SDP is made and sent.
pub record SdpEnv : Type 0 where
  pub now : ℕ
  pub local_address : Option Bytes
  pub reply_ret : ℤ
  pub ice_ret : ℤ

-- `memset` to 0, then what the agent sets; `audio_sample_rate` and `enable_rtcp` stay 0.
unfoldable pub sess_config : Agent → Config
sess_config agent = record {
  enable_audio = true;
  audio_codec = agent.audio_codec;
  audio_sample_rate = 0;
  has_capture = agent.has_capture;
  has_playback = agent.has_playback;
  has_record = agent.has_record;
  media_dir = sendrecv;
  enable_rtcp = false;
}

abbrev pub sess_handler : Handlers
sess_handler = record {
  on_state_changed = false;
  on_sdp_ready = true;
  on_connected = true;
  on_disconnected = true;
}

unfoldable pub report : AgentHandler → Dialog → DialogState → List AgentEvent
report h d new =
    if h.on_dialog_state_changed then dialog_state_changed d.address d.state new ∷ [] else []

-- The part behind a 200 OK that was sent.
unfoldable pub answered : SdpEnv → AgentHandler → Dialog → Sess → Dialog × List AgentEvent
answered env h d sess =
    let (sess1, ret, es) = lws_sess_start_ice env.ice_ret sess in
    (
      record d { state = confirmed; sess = some sess1; uas_txn = false },
      report h d confirmed ++ (media es ∷ uas_release d.address ∷ []),
    )

unfoldable pub sess_on_sdp_ready :
    SdpEnv → AgentHandler → Dialog → Sess → Bytes → Dialog × List AgentEvent
sess_on_sdp_ready env h d sess sdp =
    let saved : Dialog = record d { sess = some sess; local_sdp = take 2047 sdp } in
    elim d.direction [
      | outgoing_call ↦ (saved, uac_send ∷ [])
      | incoming_call ↦
          if d.uas_txn
          then (if is_neg env.reply_ret
              then (saved, uas_reply 200 ∷ [])
              else (let r = answered env h saved sess in (r.0, uas_reply 200 ∷ r.1)))
          else (saved, [])
      | unknown_call ↦ (saved, [])
    ]

-- The SDP that a session hands to its callback.
unfoldable pub offered : List SessEvent → Option Bytes
offered [] = none
offered (sdp_ready sdp ∷ es) = some sdp
offered (e ∷ es) = offered es

-- `lws_sess_gather_candidates`, which calls `sess_on_sdp_ready` as its last step.
unfoldable pub gather : SdpEnv → AgentHandler → Dialog → Sess → Dialog × ℤ × List AgentEvent
gather env h d sess =
    let (sess1, ret, es) = lws_sess_gather_candidates env.now env.local_address sess in
    elim (offered es) [
      | none ↦ (record d { sess = some sess1 }, ret, media es ∷ [])
      | some sdp ↦ let r = sess_on_sdp_ready env h d sess1 sdp in (r.0, ret, media es ∷ r.1)
    ]
