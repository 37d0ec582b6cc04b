-- ===== src/Agent/Distinct.antt =====
-- Dialogs that are created at fresh addresses stand at addresses of their own (src/lws_agent.c).
use lwsip.Common.{
  ℕ, Bool, false, Option-cases, some, ◌==◌, ◌||◌, arith, Bytes, Bool-cases, inl, inr, is_neg, take,
}
use lwsip.Sess.Types.{Sess}
use lwsip.Sess.Create.{lws_sess_create}
use lwsip.Sess.Remote.{IceEnv, lws_sess_set_remote_sdp}
use lwsip.Agent.Types.{Dialog, calling, terminated, failed, outgoing_call, Agent}
use lwsip.Agent.Dialogs.{
  lws_agent_find_dialog, new_dialog, lws_agent_create_dialog, save_dialog, lws_agent_destroy_dialog,
}
use lwsip.Agent.Media.{gather, sess_config, sess_handler}
use lwsip.Agent.Calls.{
  CallEnv, start_call, lws_agent_make_call, lws_agent_answer_call, lws_agent_reject_call,
  stop_session, finish_dialog, lws_agent_hangup, lws_agent_cancel_call,
}
use lwsip.Agent.Incoming.{
  incoming_dialog, refuse, take_invite, sip_uas_oninvite, sip_uas_onbye, ReplyEnv, uac_oninvite,
  retry_invite,
}
use lwsip.Agent.References.{Missing, AreDistinct, store-AreDistinct, unlink-AreDistinct}

-- The dialogs of an agent stand at addresses of their own.
abbrev pub IsApart : Agent → Type 0
IsApart agent = AreDistinct agent.dialogs

save-IsApart : (d : Dialog) (agent : Agent) → IsApart agent → IsApart (save_dialog d agent)
unfolding save_dialog
save-IsApart d agent h = store-AreDistinct d agent.dialogs h

destroy-IsApart :
    (d : Dialog) (agent : Agent) → IsApart agent → IsApart (lws_agent_destroy_dialog d agent).0
unfolding lws_agent_destroy_dialog
destroy-IsApart d agent h = unlink-AreDistinct d.address agent.dialogs h

create-IsApart :
    (d : Dialog) (agent : Agent)
    → IsApart agent
    → Missing d.address agent.dialogs
    → IsApart (lws_agent_create_dialog d agent)
unfolding lws_agent_create_dialog
create-IsApart d agent h m = (m, h)

module _ (agent : Agent) (h : IsApart agent) where
  finish-IsApart : (d : Dialog) → IsApart (finish_dialog d agent).0
  unfolding finish_dialog
  finish-IsApart d = destroy-IsApart (stop_session d).0 agent h

  pub hangup-IsApart : (env : CallEnv) (d : Dialog) → IsApart (lws_agent_hangup env d agent).0
  unfolding lws_agent_hangup
  hangup-IsApart env d = ground (arith, finish-IsApart (record d { state = terminated }))

  pub cancel-IsApart : (env : CallEnv) (d : Dialog) → IsApart (lws_agent_cancel_call env d agent).0
  unfolding lws_agent_cancel_call
  cancel-IsApart env d =
      ground (arith, finish-IsApart (record d { state = terminated; invite_txn = false }))

  pub reject-IsApart :
      (env : CallEnv) (code : ℕ) (d : Dialog) → IsApart (lws_agent_reject_call env code d agent).0
  unfolding lws_agent_reject_call
  reject-IsApart env code d =
      ground (arith, destroy-IsApart (record d { state = failed; uas_txn = false }) agent h)

  pub answer-IsApart : (env : CallEnv) (d : Dialog) → IsApart (lws_agent_answer_call env d agent).0
  unfolding lws_agent_answer_call
  answer-IsApart env d = elim (Option-cases d.sess) [
    | inl bare ↦ ground arith
    | inr (sess, e) ↦
        let saved = save-IsApart (gather env.sdp agent.handler d sess).0 agent h in
        ground (arith, saved)
  ]

  pub invite_reply-IsApart :
      (env : ReplyEnv) (dialog : Bool) (code : ℕ) (d : Dialog)
      → IsApart (uac_oninvite env dialog code d agent).0
  unfolding uac_oninvite
  invite_reply-IsApart env dialog code d = elim (Bool-cases (code == 401 || code == 407)) [
    | inl challenged ↦ rw (challenged, uac_oninvite) (save-IsApart (retry_invite env d).0 agent h)
    | inr other ↦ rw (other, uac_oninvite) (save-IsApart _ agent h)
  ]

  start_call-IsApart :
      (env : CallEnv) (d : Dialog) (sess : Sess) → IsApart (start_call env d sess agent).0
  unfolding start_call
  start_call-IsApart env d sess =
      let d1 = (gather env.sdp agent.handler d sess).0 in
      let saved = save-IsApart d1 agent h in
      let gone = destroy-IsApart d1 (save_dialog d1 agent) saved in
      elim (Bool-cases (is_neg (gather env.sdp agent.handler d sess).1)) [
        | inl failing ↦ rw (failing, start_call) gone
        | inr fine ↦ rw (fine, start_call) saved
      ]

  take_invite-IsApart :
      (ice : IceEnv) (body : Bytes) (d : Dialog) (sess : Sess)
      → IsApart (take_invite ice body d sess agent).0
  unfolding take_invite refuse
  take_invite-IsApart ice body d sess =
      let sess1 = (lws_sess_set_remote_sdp ice (some d.remote_sdp) sess).0 in
      let bare = save-IsApart (record d { sess = some sess }) agent h in
      let saved = save-IsApart (record d { sess = some sess1 }) agent h in
      let gone = destroy-IsApart (record d { sess = some sess1 }) agent h in
      ground (arith, bare, saved, gone)

  pub onbye-IsApart : (call_id : Bytes) → IsApart (sip_uas_onbye call_id agent).0
  unfolding sip_uas_onbye
  onbye-IsApart call_id =
      elim (Option-cases (lws_agent_find_dialog (take 127 call_id) agent.dialogs)) [
        | inl unknown ↦ rw (unknown, sip_uas_onbye) h
        | inr (d, e) ↦
            rw (e, sip_uas_onbye) (destroy-IsApart (record d { state = terminated }) agent h)
      ]

-- A new dialog has an address that no other dialog has.
module _ (agent : Agent) (h : IsApart agent) (env : CallEnv)
    (fresh : Missing env.address agent.dialogs) where
  pub make_call-IsApart : IsApart (lws_agent_make_call env agent).0
  unfolding lws_agent_make_call
  make_call-IsApart =
      let d : Dialog = record (new_dialog env.address env.call_id) {
        direction = outgoing_call;
        state = calling;
        invite_txn = env.txn_made;
      } in
      let agent1 = lws_agent_create_dialog d agent in
      let apart = create-IsApart d agent h fresh in
      let gone = destroy-IsApart d agent1 apart in
      let gone' = destroy-IsApart (record d { invite_txn = false }) agent1 apart in
      elim (Option-cases (lws_sess_create env.session (sess_config agent) sess_handler).0) [
        | inl refused ↦ ground (arith, gone, gone')
        | inr (sess, e) ↦
            let started = start_call-IsApart agent1 apart env d sess in
            ground (arith, gone, started)
      ]

  pub oninvite-IsApart :
      (ice : IceEnv) (redialog : Bool) (body : Bytes)
      → IsApart (sip_uas_oninvite env ice redialog body agent).0
  unfolding sip_uas_oninvite refuse
  oninvite-IsApart ice redialog body =
      let d = incoming_dialog env redialog body in
      let agent1 = lws_agent_create_dialog d agent in
      let same : Missing d.address agent.dialogs = unfold incoming_dialog in fresh in
      let apart = create-IsApart d agent h same in
      let gone = destroy-IsApart d agent1 apart in
      elim (Option-cases (lws_sess_create env.session (sess_config agent) sess_handler).0) [
        | inl refused ↦ ground (arith, gone)
        | inr (sess, e) ↦
            let kept = take_invite-IsApart agent1 apart ice body d sess in ground (arith, kept)
      ]
