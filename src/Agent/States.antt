-- ===== src/Agent/States.antt =====
-- What leaves the registration of an agent as it is: calls and their answers (src/lws_agent.c).
use lwsip.Common.{◌≡◌, refl, inl, inr, Bool, ◌||◌, arith, ◌==◌, Option-cases, Bool-cases, Bytes}
use lwsip.Sess.Remote.{IceEnv}
use lwsip.Sess.Create.{lws_sess_create}
use lwsip.Agent.Types.{Dialog, Agent}
use lwsip.Agent.Dialogs.{lws_agent_create_dialog, save_dialog, lws_agent_destroy_dialog}
use lwsip.Agent.Media.{sess_config, sess_handler}
use lwsip.Agent.Calls.{
  CallEnv, start_call, lws_agent_make_call, lws_agent_answer_call, lws_agent_reject_call,
  finish_dialog, lws_agent_hangup, lws_agent_cancel_call,
}
use lwsip.Agent.Incoming.{refuse, take_invite, sip_uas_oninvite, sip_uas_onbye, uac_oninvite}
use lwsip.Agent.Sequence.{Happening, answer, hangup, cancel, reject, invite_reply, on_dialog}

pub make_call_state :
    (env : CallEnv) (agent : Agent) → (lws_agent_make_call env agent).0.state ≡ agent.state
unfolding lws_agent_make_call start_call lws_agent_create_dialog lws_agent_destroy_dialog
    save_dialog
make_call_state env agent =
    elim (Option-cases (lws_sess_create env.session (sess_config agent) sess_handler).0) [
      | inl failed ↦ ground arith
      | inr (sess, e) ↦ ground arith
    ]

pub invited_state :
    (env : CallEnv) (ice : IceEnv) (redialog : Bool) (body : Bytes) (agent : Agent)
    → (sip_uas_oninvite env ice redialog body agent).0.state ≡ agent.state
unfolding sip_uas_oninvite take_invite refuse lws_agent_create_dialog lws_agent_destroy_dialog
    save_dialog
invited_state env ice redialog body agent =
    elim (Option-cases (lws_sess_create env.session (sess_config agent) sess_handler).0) [
      | inl failed ↦ ground arith
      | inr (sess, e) ↦ ground arith
    ]

pub bye_state :
    (call_id : Bytes) (agent : Agent) → (sip_uas_onbye call_id agent).0.state ≡ agent.state
unfolding sip_uas_onbye lws_agent_destroy_dialog
bye_state call_id agent = ground arith

pub on_dialog_state :
    (x : Happening) (d : Dialog) (agent : Agent) → (on_dialog x d agent).0.state ≡ agent.state
unfolding on_dialog lws_agent_answer_call lws_agent_hangup lws_agent_cancel_call
    lws_agent_reject_call uac_oninvite finish_dialog lws_agent_destroy_dialog save_dialog
on_dialog_state (answer env p) d agent = elim (Option-cases d.sess) [
  | inl bare ↦ ground arith
  | inr (sess, e) ↦ ground arith
]
on_dialog_state (hangup env p) d agent = ground arith
on_dialog_state (cancel env p) d agent = ground arith
on_dialog_state (reject env code p) d agent = ground arith
on_dialog_state (invite_reply env dialog code p) d agent =
    elim (Bool-cases (code == 401 || code == 407)) [
      | inl challenged ↦ rw (challenged, uac_oninvite) refl
      | inr other ↦ rw (other, uac_oninvite) refl
    ]
on_dialog_state _ d agent = refl
