-- ===== src/Agent/Counted.antt =====
-- The counter of dialogs over everything that happens to an agent (src/lws_agent.c).
use lwsip.Common.{
  true, ◌≡◌, ℕ, Option-cases, inl, inr, Option, none, some, List, [], ◌∷◌, arith, is_some,
}
use lwsip.Agent.Types.{Dialog, Agent, AgentEvent}
use lwsip.Agent.Dialogs.{at_address}
use lwsip.Agent.Register.{
  RegisterEnv, Attempt, not_made, not_sent, sent, enter, lws_agent_start, lws_agent_stop,
  authenticate, settle, release_stored, uac_onreply_callback,
}
use lwsip.Agent.Sequence.{
  Happening, start, stop, reply, make_call, invited, bye, answer, hangup, cancel, reject,
  invite_reply, on_dialog, at_handle, happen, happen_all,
}
use lwsip.Agent.Listed.{
  IsListed, address_there, hangup-IsListed, cancel-IsListed, reject-IsListed, answer-IsListed,
  uac_oninvite-IsListed,
}
use lwsip.Agent.Opened.{make_call-IsListed, oninvite-IsListed, onbye-IsListed}

start-IsListed :
    (env : RegisterEnv) (agent : Agent) → IsListed agent → IsListed (lws_agent_start env agent).0
unfolding lws_agent_start enter
start-IsListed env agent h = ground arith

stop-IsListed :
    (env : RegisterEnv) (agent : Agent) → IsListed agent → IsListed (lws_agent_stop env agent).0
unfolding lws_agent_stop enter
stop-IsListed env agent h = ground arith

authenticate-IsListed :
    (attempt : Attempt) (agent : Agent) → IsListed agent → IsListed (authenticate attempt agent).0
unfolding authenticate
authenticate-IsListed not_made agent h = h
authenticate-IsListed not_sent agent h = h
authenticate-IsListed (sent t) agent h = h

settle-IsListed : (code : ℕ) (agent : Agent) → IsListed agent → IsListed (settle code agent).0
unfolding settle enter
settle-IsListed code agent h = ground arith

release-IsListed : (t : ℕ) (agent : Agent) → IsListed agent → IsListed (release_stored t agent).0
unfolding release_stored
release-IsListed t agent h = ground arith

reply-IsListed :
    (attempt : Attempt) (t code : ℕ) (agent : Agent)
    → IsListed agent
    → IsListed (uac_onreply_callback attempt t code agent).0
unfolding uac_onreply_callback
reply-IsListed attempt t code agent h =
    let one = authenticate-IsListed attempt agent h in
    let two = release-IsListed t (settle code agent).0 (settle-IsListed code agent h) in
    ground (arith, one, two)

dialog-IsListed :
    (x : Happening) (d : Dialog) (agent : Agent)
    → IsListed agent
    → is_some (at_address d.address agent.dialogs) ≡ true
    → IsListed (on_dialog x d agent).0
unfolding on_dialog
dialog-IsListed (answer env p) d agent h there = answer-IsListed d agent h there env
dialog-IsListed (hangup env p) d agent h there = hangup-IsListed d agent h there env
dialog-IsListed (cancel env p) d agent h there = cancel-IsListed d agent h there env
dialog-IsListed (reject env code p) d agent h there = reject-IsListed d agent h there env code
dialog-IsListed (invite_reply env dialog code p) d agent h there =
    uac_oninvite-IsListed d agent h there env dialog code
dialog-IsListed _ d agent h there = h

-- What is left of an agent is listed; `none` is a call through a dangling handle.
abbrev pub ListedAfter : Option (Agent × List AgentEvent) → Type 0
ListedAfter none = Unit
ListedAfter (some r) = IsListed r.0

handle-IsListed :
    (x : Happening) (p : ℕ) (agent : Agent) → IsListed agent → ListedAfter (at_handle x p agent)
unfolding at_handle
handle-IsListed x p agent h = elim (Option-cases (at_address p agent.dialogs)) [
  | inl gone ↦ rw (gone, at_handle) tt
  | inr (d, e) ↦ rw (e, at_handle) (dialog-IsListed x d agent h (address_there p agent.dialogs d e))
]

happen-IsListed : (x : Happening) (agent : Agent) → IsListed agent → ListedAfter (happen x agent)
unfolding happen
happen-IsListed (start env) agent h = start-IsListed env agent h
happen-IsListed (stop env) agent h = stop-IsListed env agent h
happen-IsListed (reply attempt t code) agent h = reply-IsListed attempt t code agent h
happen-IsListed (make_call env) agent h = make_call-IsListed env agent h
happen-IsListed (invited env ice redialog body) agent h =
    oninvite-IsListed env ice redialog body agent h
happen-IsListed (bye call_id) agent h = onbye-IsListed call_id agent h
happen-IsListed (answer env p) agent h = handle-IsListed (answer env p) p agent h
happen-IsListed (hangup env p) agent h = handle-IsListed (hangup env p) p agent h
happen-IsListed (cancel env p) agent h = handle-IsListed (cancel env p) p agent h
happen-IsListed (reject env code p) agent h = handle-IsListed (reject env code p) p agent h
happen-IsListed (invite_reply env dialog code p) agent h =
    handle-IsListed (invite_reply env dialog code p) p agent h

-- Whatever happens to an agent whose counter is the length of its list of dialogs, as long as no
-- handle of a destroyed dialog is used: calls of its API, requests and responses in any order and with
-- any outcome, the counter stays the length of the list.
pub happenings-IsListed :
    (xs : List Happening) (agent agent' : Agent) (es : List AgentEvent)
    → IsListed agent
    → happen_all xs agent ≡ some (agent', es)
    → IsListed agent'
unfolding happen_all
happenings-IsListed [] agent agent' es h e = ground arith
happenings-IsListed (x ∷ xs) agent agent' es h e = elim (Option-cases (happen x agent)) [
  | inl gone ↦ ground arith
  | inr ((a, es1), f) ↦
      let listed : IsListed a = rw f at (happen-IsListed x agent h) in
      elim (Option-cases (happen_all xs a)) [
        | inl gone ↦ ground arith
        | inr ((b, es2), g) ↦
            let rest = happenings-IsListed xs a b es2 listed g in ground (arith, rest)
      ]
]
