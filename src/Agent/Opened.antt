-- ===== src/Agent/Opened.antt =====
-- The list of dialogs where a dialog is made, and where a BYE ends one (src/lws_agent.c).
use lwsip.Common.{
  ◌≡◌, ◌∙◌, ap, ℕ, Bool-cases, Option-cases, inl, inr, Bool, true, false, some, arith, Bytes, take,
  is_some, is_neg,
}
use lwsip.Sess.Types.{Sess}
use lwsip.Sess.Remote.{IceEnv, lws_sess_set_remote_sdp}
use lwsip.Sess.Create.{lws_sess_create}
use lwsip.Agent.Types.{Dialog, Agent, terminated, calling, outgoing_call}
use lwsip.Agent.Dialogs.{
  new_dialog, lws_agent_find_dialog, at_address, lws_agent_create_dialog, save_dialog,
}
use lwsip.Agent.Media.{sess_config, sess_handler, gather}
use lwsip.Agent.Calls.{CallEnv, start_call, lws_agent_make_call}
use lwsip.Agent.Incoming.{incoming_dialog, refuse, take_invite, sip_uas_oninvite, sip_uas_onbye}
use lwsip.Agent.Listed.{
  IsListed, save-IsListed, create-IsListed, destroy-IsListed, created_there, store_there,
  found_there, gather_address,
}

start_call-IsListed :
    (env : CallEnv) (d : Dialog) (sess : Sess) (agent : Agent)
    → IsListed agent
    → is_some (at_address d.address agent.dialogs) ≡ true
    → IsListed (start_call env d sess agent).0
unfolding start_call
start_call-IsListed env d sess agent h there =
    let d1 = (gather env.sdp agent.handler d sess).0 in
    let saved = save-IsListed d1 agent h in
    let still : is_some (at_address d1.address (save_dialog d1 agent).dialogs) ≡ true =
      unfold save_dialog in
      (store_there d1.address d1 agent.dialogs
        ∙ ap (λ p. is_some (at_address p agent.dialogs))
            (gather_address env.sdp agent.handler d sess)
        ∙ there) in
    let gone = destroy-IsListed d1 (save_dialog d1 agent) saved still in
    elim (Bool-cases (is_neg (gather env.sdp agent.handler d sess).1)) [
      | inl failing ↦ rw (failing, start_call) gone
      | inr fine ↦ rw (fine, start_call) saved
    ]

pub make_call-IsListed :
    (env : CallEnv) (agent : Agent) → IsListed agent → IsListed (lws_agent_make_call env agent).0
unfolding lws_agent_make_call
make_call-IsListed env agent h =
    let d : Dialog = record (new_dialog env.address env.call_id) {
      direction = outgoing_call;
      state = calling;
      invite_txn = env.txn_made;
    } in
    let agent1 = lws_agent_create_dialog d agent in
    let listed = create-IsListed d agent h in
    let there = created_there d agent in
    let gone = destroy-IsListed d agent1 listed there in
    let gone' = destroy-IsListed (record d { invite_txn = false }) agent1 listed there in
    elim (Option-cases (lws_sess_create env.session (sess_config agent) sess_handler).0) [
      | inl refused ↦ ground (arith, gone, gone')
      | inr (sess, e) ↦
          let started = start_call-IsListed env d sess agent1 listed there in
          ground (arith, gone, started)
    ]

refuse-IsListed :
    (code : ℕ) (d : Dialog) (agent : Agent)
    → IsListed agent
    → is_some (at_address d.address agent.dialogs) ≡ true
    → IsListed (refuse code d agent).0
unfolding refuse
refuse-IsListed code d agent h there = destroy-IsListed d agent h there

take_invite-IsListed :
    (ice : IceEnv) (body : Bytes) (d : Dialog) (sess : Sess) (agent : Agent)
    → IsListed agent
    → is_some (at_address d.address agent.dialogs) ≡ true
    → IsListed (take_invite ice body d sess agent).0
unfolding take_invite
take_invite-IsListed ice body d sess agent h there =
    let sess1 = (lws_sess_set_remote_sdp ice (some d.remote_sdp) sess).0 in
    let bare = save-IsListed (record d { sess = some sess }) agent h in
    let saved = save-IsListed (record d { sess = some sess1 }) agent h in
    let gone = refuse-IsListed 488 (record d { sess = some sess1 }) agent h there in
    ground (arith, bare, saved, gone)

pub oninvite-IsListed :
    (env : CallEnv) (ice : IceEnv) (redialog : Bool) (body : Bytes) (agent : Agent)
    → IsListed agent
    → IsListed (sip_uas_oninvite env ice redialog body agent).0
unfolding sip_uas_oninvite
oninvite-IsListed env ice redialog body agent h =
    let d = incoming_dialog env redialog body in
    let agent1 = lws_agent_create_dialog d agent in
    let listed = create-IsListed d agent h in
    let there = created_there d agent in
    let gone = refuse-IsListed 500 d agent1 listed there in
    elim (Option-cases (lws_sess_create env.session (sess_config agent) sess_handler).0) [
      | inl refused ↦ ground (arith, gone)
      | inr (sess, e) ↦
          let taken = take_invite-IsListed ice body d sess agent1 listed there in
          ground (arith, taken)
    ]

pub onbye-IsListed :
    (call_id : Bytes) (agent : Agent) → IsListed agent → IsListed (sip_uas_onbye call_id agent).0
unfolding sip_uas_onbye
onbye-IsListed call_id agent h =
    elim (Option-cases (lws_agent_find_dialog (take 127 call_id) agent.dialogs)) [
      | inl unknown ↦ rw (unknown, sip_uas_onbye) h
      | inr (d, e) ↦
          rw (e, sip_uas_onbye)
            (destroy-IsListed (record d { state = terminated }) agent h
              (found_there (take 127 call_id) agent.dialogs d e))
    ]
