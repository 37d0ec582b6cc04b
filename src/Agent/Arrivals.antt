-- ===== src/Agent/Arrivals.antt =====
-- New dialogs and the end of dialogs keep count of the references to server transactions
-- (lws_agent_make_call, sip_uas_oninvite and sip_uas_onbye of src/lws_agent.c).
use lwsip.Common.{
  ◌≡◌, refl, ap, ◌∙◌, ℕ, Bool, false, Option-cases, some, [], ◌∷◌, ◌++◌, arith, Bytes, Bool-cases,
  inl, inr, is_neg, take, is_some,
}
use lwsip.Sess.Types.{Sess}
use lwsip.Sess.Create.{lws_sess_create}
use lwsip.Sess.Remote.{IceEnv, lws_sess_set_remote_sdp}
use lwsip.Agent.Types.{Dialog, calling, terminated, outgoing_call, Agent, uas_reply}
use lwsip.Agent.Dialogs.{
  at_address, lws_agent_find_dialog, new_dialog, lws_agent_create_dialog, save_dialog,
  lws_agent_destroy_dialog,
}
use lwsip.Agent.Media.{report, gather, sess_config, sess_handler}
use lwsip.Agent.Calls.{CallEnv, start_call, lws_agent_make_call}
use lwsip.Agent.Incoming.{
  incoming_dialog, announce, refuse, take_invite, sip_uas_oninvite, sip_uas_onbye,
}
use lwsip.Agent.Listed.{gather_address}
use lwsip.Agent.References.{one_if, held, held-store, at_stored, at_created, at_found, AreDistinct}
use lwsip.Agent.Balance.{
  IsQuiet, Balanced-append, Balanced-reply, Balanced-after_quiet, report-IsQuiet,
  destroyed-Balanced, gathered-Balanced,
}
use lwsip.Agent.Held.{Keeps}

-- A dialog that is destroyed with the reference that is stored for it.
gone-Keeps :
    (stored d : Dialog) (agent : Agent)
    → at_address d.address agent.dialogs ≡ some stored
    → one_if stored.uas_txn ≡ one_if d.uas_txn
    → let r = lws_agent_destroy_dialog d agent in Keeps agent r.0 r.1
gone-Keeps stored d agent there same = omega (arith, destroyed-Balanced stored d agent there)

start_call-Keeps :
    (env : CallEnv) (d : Dialog) (sess : Sess) (agent : Agent)
    → at_address d.address agent.dialogs ≡ some d
    → let r = start_call env d sess agent in Keeps agent r.0 r.2
unfolding start_call save_dialog
start_call-Keeps env d sess agent there =
    let r = gather env.sdp agent.handler d sess in
    let saved = save_dialog r.0 agent in
    let q = gather_address env.sdp agent.handler d sess in
    let still : at_address r.0.address saved.dialogs ≡ some r.0 =
      at_stored r.0 agent.dialogs
        (ap (λ p. is_some (at_address p agent.dialogs)) q ∙ ap is_some there) in
    let kept = gathered-Balanced env.sdp d sess agent there in
    let gone = gone-Keeps r.0 r.0 saved still refl in
    elim (Bool-cases (is_neg r.1)) [
      | inl failing ↦
          rw (failing, start_call)
            (Balanced-append (held agent.dialogs) (held saved.dialogs) _ r.2 _ kept gone)
      | inr fine ↦ rw (fine, start_call) kept
    ]

pub make_call-Keeps :
    (env : CallEnv) (agent : Agent) → let r = lws_agent_make_call env agent in Keeps agent r.0 r.2
unfolding lws_agent_make_call lws_agent_create_dialog
make_call-Keeps env agent =
    let d : Dialog = record (new_dialog env.address env.call_id) {
      direction = outgoing_call;
      state = calling;
      invite_txn = env.txn_made;
    } in
    let agent1 = lws_agent_create_dialog d agent in
    let there = at_created d agent.dialogs in
    let gone = gone-Keeps d d agent1 there refl in
    let gone' = gone-Keeps d (record d { invite_txn = false }) agent1 there refl in
    elim (Option-cases (lws_sess_create env.session (sess_config agent) sess_handler).0) [
      | inl refused ↦ ground (arith, gone, gone')
      | inr (sess, e) ↦
          let started = start_call-Keeps env d sess agent1 there in ground (arith, gone, started)
    ]

announce-IsQuiet : (d : Dialog) (agent : Agent) → IsQuiet (announce d agent)
unfolding announce
announce-IsQuiet d agent = (ground arith, ground arith)

refuse-Keeps :
    (code : ℕ) (stored d : Dialog) (agent : Agent)
    → at_address d.address agent.dialogs ≡ some stored
    → one_if stored.uas_txn ≡ one_if d.uas_txn
    → let r = refuse code d agent in Keeps agent r.0 r.2
unfolding refuse
refuse-Keeps code stored d agent there same =
    let r = lws_agent_destroy_dialog d agent in
    Balanced-reply (held agent.dialogs) (held r.0.dialogs) code r.1
      (gone-Keeps stored d agent there same)

held-resaved :
    (sess : Sess) (d : Dialog) (agent : Agent)
    → at_address d.address agent.dialogs ≡ some d
    → held (save_dialog (record d { sess = some sess }) agent).dialogs ≡ held agent.dialogs
unfolding save_dialog
held-resaved sess d agent there =
    omega (arith, held-store (record d { sess = some sess }) d agent.dialogs there)

take_invite-Keeps :
    (ice : IceEnv) (body : Bytes) (d : Dialog) (sess : Sess) (agent : Agent)
    → at_address d.address agent.dialogs ≡ some d
    → let r = take_invite ice body d sess agent in Keeps agent r.0 r.2
unfolding take_invite
take_invite-Keeps ice body d sess agent there =
    let sess1 = (lws_sess_set_remote_sdp ice (some d.remote_sdp) sess).0 in
    let bare = held-resaved sess d agent there in
    let saved = held-resaved sess1 d agent there in
    let quiet = announce-IsQuiet d agent in
    let quiet' = announce-IsQuiet (record d { sess = some sess1 }) agent in
    let gone = refuse-Keeps 488 d (record d { sess = some sess1 }) agent there refl in
    ground (arith, bare, saved, quiet, quiet', gone)

pub oninvite-Keeps :
    (env : CallEnv) (ice : IceEnv) (redialog : Bool) (body : Bytes) (agent : Agent)
    → let r = sip_uas_oninvite env ice redialog body agent in Keeps agent r.0 r.2
unfolding sip_uas_oninvite lws_agent_create_dialog incoming_dialog
oninvite-Keeps env ice redialog body agent =
    let d = incoming_dialog env redialog body in
    let agent1 = lws_agent_create_dialog d agent in
    let there = at_created d agent.dialogs in
    let gone = refuse-Keeps 500 d d agent1 there refl in
    elim (Option-cases (lws_sess_create env.session (sess_config agent) sess_handler).0) [
      | inl refused ↦ ground (arith, gone)
      | inr (sess, e) ↦
          let kept = take_invite-Keeps ice body d sess agent1 there in ground (arith, kept)
    ]

pub onbye-Keeps :
    (call_id : Bytes) (agent : Agent)
    → AreDistinct agent.dialogs
    → let r = sip_uas_onbye call_id agent in Keeps agent r.0 r.1
unfolding sip_uas_onbye
onbye-Keeps call_id agent u =
    elim (Option-cases (lws_agent_find_dialog (take 127 call_id) agent.dialogs)) [
      | inl unknown ↦ rw (unknown, sip_uas_onbye) refl
      | inr (d, e) ↦
          let there = at_found (take 127 call_id) d agent.dialogs u e in
          let d1 : Dialog = record d { state = terminated } in
          let gone = gone-Keeps d d1 agent there refl in
          let q = report-IsQuiet agent.handler d terminated in
          let r = lws_agent_destroy_dialog d1 agent in
          let before = held agent.dialogs in
          let after = held r.0.dialogs in
          rw (e, sip_uas_onbye)
            (Balanced-after_quiet before after (report agent.handler d terminated)
              (r.1 ++ (uas_reply 200 ∷ [])) q (Balanced-reply before after 200 r.1 gone))
    ]
