-- ===== src/Agent/Calls.antt =====
-- Making, answering, rejecting, hanging up and cancelling a call (src/lws_agent.c).
use lwsip.Common.{
  ℕ, Bool, false, Option, none, some, List, [], ◌∷◌, ◌++◌, ◌||◌, not, ltb, leb, if◌then◌else◌, ℤ,
  is_neg, is_nonzero, Bytes,
}
use lwsip.Sess.Types.{Sess}
use lwsip.Sess.Control.{lws_sess_stop}
use lwsip.Sess.Create.{CreateEnv, lws_sess_create}
use lwsip.Agent.Types.{
  Dialog, calling, incoming, early, confirmed, terminated, failed, same_dialog_state, Agent,
  AgentResult, ok, einval, error, err_sip_send, AgentEvent, outgoing_call, uas_reply, uas_release,
  uac_release, uac_send, media,
}
use lwsip.Agent.Dialogs.{new_dialog, lws_agent_create_dialog, save_dialog, lws_agent_destroy_dialog}
use lwsip.Agent.Media.{SdpEnv, sess_config, sess_handler, report, gather}

-- The answers of the allocator and of libsip. `call_id` is made of the time and a random number.
pub record CallEnv : Type 0 where
  pub allocated : Bool
  pub address : ℕ
  pub call_id : Bytes
  pub txn_made : Bool
  pub send_ret : ℤ
  pub reply_ret : ℤ
  pub session : CreateEnv
  pub sdp : SdpEnv

-- The part of `lws_agent_make_call` with a session. Gathering that fails destroys the dialog.
unfoldable pub start_call : CallEnv → Dialog → Sess → Agent → Agent × Option ℕ × List AgentEvent
start_call env d sess agent =
    let (d1, ret, es) = gather env.sdp agent.handler d sess in
    if is_neg ret
    then (let (agent1, es1) = lws_agent_destroy_dialog d1 (save_dialog d1 agent) in
        (agent1, none, es ++ es1))
    else (save_dialog d1 agent, some d1.address, es)

-- The result is the handle; `none` is NULL.
unfoldable pub lws_agent_make_call : CallEnv → Agent → Agent × Option ℕ × List AgentEvent
lws_agent_make_call env agent =
    if not env.allocated
    then (agent, none, [])
    else (let d : Dialog = record (new_dialog env.address env.call_id) {
      direction = outgoing_call;
      state = calling;
      invite_txn = env.txn_made;
    } in
        let agent1 = lws_agent_create_dialog d agent in
        if not env.txn_made
        then (let (agent2, es) = lws_agent_destroy_dialog d agent1 in (agent2, none, es))
        else elim (lws_sess_create env.session (sess_config agent) sess_handler).0 [
          | none ↦
              let (agent2, es) =
                lws_agent_destroy_dialog (record d { invite_txn = false }) agent1 in
              (agent2, none, uac_release ∷ es)
          | some sess ↦ start_call env d sess agent1
        ])

unfoldable pub lws_agent_answer_call :
    CallEnv → Dialog → Agent → Agent × AgentResult × List AgentEvent
lws_agent_answer_call env d agent =
    if not d.uas_txn || not (same_dialog_state d.state incoming)
    then (agent, error, [])
    else elim d.sess [
      | none ↦ (agent, error, [])
      | some sess ↦
          let (d1, ret, es) = gather env.sdp agent.handler d sess in
          (save_dialog d1 agent, (if is_nonzero ret then error else ok), es)
    ]

unfoldable pub lws_agent_reject_call :
    CallEnv → (status_code : ℕ) → Dialog → Agent → Agent × AgentResult × List AgentEvent
lws_agent_reject_call env status_code d agent =
    if not d.uas_txn || not (same_dialog_state d.state incoming)
    then (agent, error, [])
    else if ltb status_code 400 || leb 700 status_code
    then (agent, einval, [])
    else if is_neg env.reply_ret
    then (agent, err_sip_send, uas_reply status_code ∷ [])
    else (let d1 : Dialog = record d { state = failed; uas_txn = false } in
        let (agent1, es) = lws_agent_destroy_dialog d1 agent in
        (
          agent1,
          ok,
          uas_reply status_code ∷ (report agent.handler d failed ++ (uas_release d.address ∷ es)),
        ))

unfoldable pub stop_session : Dialog → Dialog × List AgentEvent
stop_session d = elim d.sess [
  | none ↦ (d, [])
  | some sess ↦ let r = lws_sess_stop sess in (record d { sess = some r.0 }, media r.1 ∷ [])
]

-- What `lws_agent_hangup` and `lws_agent_cancel_call` do to the dialog at their end.
unfoldable pub finish_dialog : Dialog → Agent → Agent × List AgentEvent
finish_dialog d agent =
    let (d1, es1) = stop_session d in
    let (agent1, es2) = lws_agent_destroy_dialog d1 agent in (agent1, es1 ++ es2)

unfoldable pub lws_agent_hangup : CallEnv → Dialog → Agent → Agent × AgentResult × List AgentEvent
lws_agent_hangup env d agent =
    if not d.sip_dialog
      || not (same_dialog_state d.state confirmed || same_dialog_state d.state early)
    then (agent, error, [])
    else if not env.txn_made
    then (agent, err_sip_send, [])
    else if is_neg env.send_ret
    then (agent, err_sip_send, uac_send ∷ uac_release ∷ [])
    else (let (agent1, es) = finish_dialog (record d { state = terminated }) agent in
        (agent1, ok, uac_send ∷ uac_release ∷ (report agent.handler d terminated ++ es)))

unfoldable pub lws_agent_cancel_call :
    CallEnv → Dialog → Agent → Agent × AgentResult × List AgentEvent
lws_agent_cancel_call env d agent =
    if not d.invite_txn
      || not (same_dialog_state d.state calling || same_dialog_state d.state early)
    then (agent, error, [])
    else if not env.txn_made
    then (agent, err_sip_send, [])
    else if is_neg env.send_ret
    then (agent, err_sip_send, uac_send ∷ uac_release ∷ [])
    else (let (agent1, es) =
          finish_dialog (record d { state = terminated; invite_txn = false }) agent in
        (
          agent1,
          ok,
          uac_send ∷ uac_release ∷ (report agent.handler d terminated ++ (uac_release ∷ es)),
        ))
