-- ===== src/Agent/Sequence.antt =====
-- Sequences of what happens to an agent: calls of its API, and callbacks of libsip (src/lws_agent.c).
use lwsip.Common.{ℕ, Bool, Option, none, some, List, [], ◌∷◌, ◌++◌, Bytes}
use lwsip.Sess.Remote.{IceEnv}
use lwsip.Agent.Types.{Dialog, Agent, AgentEvent}
use lwsip.Agent.Dialogs.{at_address}
use lwsip.Agent.Calls.{
  CallEnv, lws_agent_make_call, lws_agent_answer_call, lws_agent_reject_call, lws_agent_hangup,
  lws_agent_cancel_call,
}
use lwsip.Agent.Incoming.{ReplyEnv, sip_uas_oninvite, sip_uas_onbye, uac_oninvite}
use lwsip.Agent.Register.{
  RegisterEnv, Attempt, lws_agent_start, lws_agent_stop, uac_onreply_callback,
}

-- A number is the handle of a dialog, as the application or libsip keeps it.
pub data Happening : Type 0 where
  start stop : RegisterEnv → Happening
  reply : Attempt → ℕ → ℕ → Happening
  make_call : CallEnv → Happening
  invited : CallEnv → IceEnv → Bool → Bytes → Happening
  bye : Bytes → Happening
  answer hangup cancel : CallEnv → ℕ → Happening
  reject : CallEnv → ℕ → ℕ → Happening
  invite_reply : ReplyEnv → Bool → ℕ → ℕ → Happening

unfoldable pub on_dialog : Happening → Dialog → Agent → Agent × List AgentEvent
on_dialog (answer env p) d agent = let r = lws_agent_answer_call env d agent in (r.0, r.2)
on_dialog (hangup env p) d agent = let r = lws_agent_hangup env d agent in (r.0, r.2)
on_dialog (cancel env p) d agent = let r = lws_agent_cancel_call env d agent in (r.0, r.2)
on_dialog (reject env code p) d agent = let r = lws_agent_reject_call env code d agent in (r.0, r.2)
on_dialog (invite_reply env dialog code p) d agent =
    let r = uac_oninvite env dialog code d agent in (r.0, r.2)
on_dialog _ d agent = (agent, [])

-- `none` is a handle of a dialog that is gone, which the C code would follow into freed memory.
unfoldable pub at_handle : Happening → ℕ → Agent → Option (Agent × List AgentEvent)
at_handle h p agent = elim (at_address p agent.dialogs) [
  | none ↦ none
  | some d ↦ some (on_dialog h d agent)
]

unfoldable pub happen : Happening → Agent → Option (Agent × List AgentEvent)
happen (start env) agent = let r = lws_agent_start env agent in some (r.0, r.2)
happen (stop env) agent = let r = lws_agent_stop env agent in some (r.0, r.2)
happen (reply attempt t code) agent =
    let r = uac_onreply_callback attempt t code agent in some (r.0, r.2)
happen (make_call env) agent = let r = lws_agent_make_call env agent in some (r.0, r.2)
happen (invited env ice redialog body) agent =
    let r = sip_uas_oninvite env ice redialog body agent in some (r.0, r.2)
happen (bye call_id) agent = some (sip_uas_onbye call_id agent)
happen (answer env p) agent = at_handle (answer env p) p agent
happen (hangup env p) agent = at_handle (hangup env p) p agent
happen (cancel env p) agent = at_handle (cancel env p) p agent
happen (reject env code p) agent = at_handle (reject env code p) p agent
happen (invite_reply env dialog code p) agent = at_handle (invite_reply env dialog code p) p agent

unfoldable pub happen_all : List Happening → Agent → Option (Agent × List AgentEvent)
happen_all [] agent = some (agent, [])
happen_all (h ∷ hs) agent = elim (happen h agent) [
  | none ↦ none
  | some (agent1, es1) ↦ elim (happen_all hs agent1) [
    | none ↦ none
    | some (agent2, es2) ↦ some (agent2, es1 ++ es2)
  ]
]
