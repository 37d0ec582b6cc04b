-- ===== src/Agent/Incoming.antt =====
-- What libsip calls for a dialog: INVITE, BYE, and the answers to an INVITE (src/lws_agent.c).
use lwsip.Common.{
  ℕ, Bool, true, none, some, List, [], ◌∷◌, ◌++◌, ◌&&◌, ◌||◌, not, ltb, leb, ◌==◌, if◌then◌else◌, ℤ,
  is_nonzero, Bytes, is_empty, take,
}
use lwsip.Sess.Types.{Sess}
use lwsip.Sess.Control.{lws_sess_start_ice}
use lwsip.Sess.Remote.{IceEnv, lws_sess_set_remote_sdp}
use lwsip.Sess.Create.{lws_sess_create}
use lwsip.Agent.Types.{
  Dialog, incoming, early, confirmed, terminated, failed, same_dialog_state, Agent, AgentEvent,
  incoming_call, incoming_call_event, remote_sdp_event, uas_addref, uas_reply, uac_release,
  uac_send, media,
}
use lwsip.Agent.Dialogs.{
  new_dialog, lws_agent_find_dialog, lws_agent_create_dialog, save_dialog, lws_agent_destroy_dialog,
}
use lwsip.Agent.Media.{sess_config, sess_handler, report}
use lwsip.Agent.Calls.{CallEnv}

-- `redialog` is whether libsip hands over a dialog, `body` the SDP of the INVITE, maybe empty.
unfoldable pub incoming_dialog : CallEnv → (redialog : Bool) → Bytes → Dialog
incoming_dialog env redialog body = record (new_dialog env.address env.call_id) {
  sip_dialog = redialog;
  state = incoming;
  direction = incoming_call;
  uas_txn = true;
  remote_sdp = take 2047 body;
}

unfoldable pub announce : Dialog → Agent → List AgentEvent
announce d agent = if agent.handler.on_incoming_call then incoming_call_event d.address ∷ [] else []

-- `lws_agent_destroy_dialog`, then the final answer.
unfoldable pub refuse : (code : ℕ) → Dialog → Agent → Agent × ℤ × List AgentEvent
refuse code d agent =
    let (agent1, es) = lws_agent_destroy_dialog d agent in
    (agent1, ℤ.negsuc 0, es ++ (uas_reply code ∷ []))

-- The part of `sip_uas_oninvite` with a session.
unfoldable pub take_invite : IceEnv → Bytes → Dialog → Sess → Agent → Agent × ℤ × List AgentEvent
take_invite ice body d sess agent =
    if is_empty body
    then (save_dialog (record d { sess = some sess }) agent, ℤ.pos 0, announce d agent)
    else (let (sess1, ret, es) = lws_sess_set_remote_sdp ice (some d.remote_sdp) sess in
        let d1 : Dialog = record d { sess = some sess1 } in
        if is_nonzero ret
        then (let r = refuse 488 d1 agent in (r.0, r.1, media es ∷ r.2))
        else (save_dialog d1 agent, ℤ.pos 0, media es ∷ announce d1 agent))

unfoldable pub sip_uas_oninvite :
    CallEnv → IceEnv → (redialog : Bool) → (body : Bytes) → Agent → Agent × ℤ × List AgentEvent
sip_uas_oninvite env ice redialog body agent =
    if not env.allocated
    then (agent, ℤ.negsuc 0, uas_reply 500 ∷ [])
    else (let d = incoming_dialog env redialog body in
        let agent1 = lws_agent_create_dialog d agent in
        elim (lws_sess_create env.session (sess_config agent) sess_handler).0 [
          | none ↦ let r = refuse 500 d agent1 in (r.0, r.1, uas_addref d.address ∷ r.2)
          | some sess ↦
              let r = take_invite ice body d sess agent1 in (r.0, r.1, uas_addref d.address ∷ r.2)
        ])

-- A BYE for an unknown call is answered as well.
unfoldable pub sip_uas_onbye : Bytes → Agent → Agent × List AgentEvent
sip_uas_onbye call_id agent = elim (lws_agent_find_dialog (take 127 call_id) agent.dialogs) [
  | none ↦ (agent, uas_reply 200 ∷ [])
  | some d ↦
      let (agent1, es) = lws_agent_destroy_dialog (record d { state = terminated }) agent in
      (agent1, report agent.handler d terminated ++ (es ++ (uas_reply 200 ∷ [])))
]

-- How far the authenticated INVITE gets: a failure before the new transaction is made, one after it,
-- or that it is sent.
pub data Retry : Type 0 where
  not_made not_sent sent : Retry

-- The answers of libsip and libice to one response to an INVITE.
pub record ReplyEnv : Type 0 where
  pub ice : IceEnv
  pub ice_ret : ℤ
  pub retry : Retry
  pub body : Bytes

unfoldable pub connect_media : ReplyEnv → Bytes → Sess → Sess × List AgentEvent
connect_media env sdp sess =
    let (sess1, ret, es) = lws_sess_set_remote_sdp env.ice (some sdp) sess in
    if is_nonzero ret
    then (sess1, media es ∷ [])
    else (let r = lws_sess_start_ice env.ice_ret sess1 in (r.0, media es ∷ media r.2 ∷ []))

-- The branch for a 2xx answer.
unfoldable pub accept_reply : ReplyEnv → (dialog : Bool) → Dialog → Dialog × List AgentEvent
accept_reply env dialog d =
    let d1 : Dialog = record d { state = confirmed; sip_dialog = dialog } in
    if is_empty env.body
    then (d1, [])
    else (let d2 : Dialog = record d1 { remote_sdp = take 2047 env.body } in
        elim d.sess [
          | none ↦ (d2, [])
          | some sess ↦
              let r = connect_media env d2.remote_sdp sess in (record d2 { sess = some r.0 }, r.1)
        ])

-- The branch for 401 and 407, which returns at once.
unfoldable pub retry_invite : ReplyEnv → Dialog → Dialog × ℤ × List AgentEvent
retry_invite env d = elim env.retry [
  | not_made ↦ (record d { state = failed }, ℤ.negsuc 0, [])
  | not_sent ↦ (record d { state = failed }, ℤ.negsuc 0, uac_release ∷ [])
  | sent ↦ (
    record d { invite_txn = true },
    ℤ.pos 0,
    uac_send ∷ (if d.invite_txn then uac_release ∷ [] else []),
  )
]

abbrev pub is_success : ℕ → Bool
is_success code = leb 200 code && ltb code 300

-- What follows the branches: the two callbacks.
unfoldable pub notify_reply : ℕ → Dialog → Dialog → Agent → List AgentEvent
notify_reply code d d1 agent =
    (if not (same_dialog_state d.state d1.state) then report agent.handler d d1.state else [])
    ++ (if is_success code && (agent.handler.on_remote_sdp && not (is_empty d1.remote_sdp))
        then remote_sdp_event d.address ∷ []
        else [])

-- A response to an INVITE; `dialog` is whether libsip hands over a dialog.
unfoldable pub uac_oninvite :
    ReplyEnv → (dialog : Bool) → (code : ℕ) → Dialog → Agent → Agent × ℤ × List AgentEvent
uac_oninvite env dialog code d agent =
    if code == 401 || code == 407
    then (let r = retry_invite env d in (save_dialog r.0 agent, r.1, r.2))
    else (let r : Dialog × List AgentEvent =
          if leb 100 code && ltb code 200
          then (record d { state = early }, [])
          else if is_success code
          then accept_reply env dialog d
          else if leb 300 code
          then (record d { state = failed }, [])
          else (d, []) in
        (save_dialog r.0 agent, ℤ.pos 0, r.1 ++ notify_reply code d r.0 agent))
