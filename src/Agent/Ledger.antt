-- ===== src/Agent/Ledger.antt =====
-- The references to server transactions over everything that happens to an agent
-- (src/lws_agent.c).
use lwsip.Common.{
  ◌≡◌, refl, ap, ◌∙◌, ℕ, ◌+◌, Option-cases, inl, inr, Option, none, some, List, [], ◌∷◌, arith,
  Bool-cases, ◌==◌, ◌||◌, ◌++◌,
}
use mathlib.Core.Path.{subst}
use lwsip.Agent.Types.{Dialog, Agent, AgentEvent}
use lwsip.Agent.Dialogs.{at_address}
use lwsip.Agent.Register.{
  RegisterEnv, Attempt, not_made, not_sent, sent, enter, lws_agent_start, lws_agent_stop,
  authenticate, settle, release_stored, uac_onreply_callback,
}
use lwsip.Agent.Sequence.{
  Happening, start, stop, reply, make_call, invited, bye, answer, hangup, cancel, reject,
  invite_reply, on_dialog, at_handle, happen, happen_all,
}
use lwsip.Agent.References.{taken, given, held, at_own, Missing}
use lwsip.Agent.Balance.{Balanced, Balanced-append}
use lwsip.Agent.Held.{
  Keeps, hangup-Keeps, cancel-Keeps, reject-Keeps, answer-Keeps, invite_reply-Keeps,
}
use lwsip.Agent.Arrivals.{make_call-Keeps, oninvite-Keeps, onbye-Keeps}
use lwsip.Agent.Distinct.{
  IsApart, hangup-IsApart, cancel-IsApart, reject-IsApart, answer-IsApart, invite_reply-IsApart,
  make_call-IsApart, oninvite-IsApart, onbye-IsApart,
}

-- What a step leaves: dialogs apart from each other, and a balance of references.
abbrev pub IsKept : Agent → Agent × List AgentEvent → Type 0
IsKept agent r = IsApart r.0 × Keeps agent r.0 r.1

module _ (agent : Agent) (h : IsApart agent) where
  start-IsKept : (env : RegisterEnv) → let r = lws_agent_start env agent in IsKept agent (r.0, r.2)
  unfolding lws_agent_start enter
  start-IsKept env = (ground arith, ground arith)

  stop-IsKept : (env : RegisterEnv) → let r = lws_agent_stop env agent in IsKept agent (r.0, r.2)
  unfolding lws_agent_stop enter
  stop-IsKept env = (ground arith, ground arith)

  authenticate-IsKept :
      (attempt : Attempt) → let r = authenticate attempt agent in IsKept agent (r.0, r.2)
  unfolding authenticate
  authenticate-IsKept not_made = (h, refl)
  authenticate-IsKept not_sent = (h, refl)
  authenticate-IsKept (sent t) = (h, ground arith)

  settle-IsKept : (code : ℕ) → IsKept agent (settle code agent)
  unfolding settle enter
  settle-IsKept code = (ground arith, ground arith)

  release-IsKept : (t : ℕ) → IsKept agent (release_stored t agent)
  unfolding release_stored
  release-IsKept t = (ground arith, ground arith)

  dialog-IsKept :
      (x : Happening) (d : Dialog)
      → at_address d.address agent.dialogs ≡ some d
      → IsKept agent (on_dialog x d agent)
  unfolding on_dialog
  dialog-IsKept (answer env p) d there =
      (answer-IsApart agent h env d, answer-Keeps d agent there env)
  dialog-IsKept (hangup env p) d there =
      (hangup-IsApart agent h env d, hangup-Keeps d agent there env)
  dialog-IsKept (cancel env p) d there =
      (cancel-IsApart agent h env d, cancel-Keeps d agent there env)
  dialog-IsKept (reject env code p) d there =
      (reject-IsApart agent h env code d, reject-Keeps d agent there env code)
  dialog-IsKept (invite_reply env dialog code p) d there = (
    invite_reply-IsApart agent h env dialog code d,
    invite_reply-Keeps d agent there env dialog code,
  )
  dialog-IsKept _ d there = (h, refl)

reply-IsKept :
    (attempt : Attempt) (t code : ℕ) (agent : Agent)
    → IsApart agent
    → let r = uac_onreply_callback attempt t code agent in IsKept agent (r.0, r.2)
unfolding uac_onreply_callback
reply-IsKept attempt t code agent h = elim (Bool-cases (code == 401 || code == 407)) [
  | inl challenged ↦ rw (challenged, uac_onreply_callback) (authenticate-IsKept agent h attempt)
  | inr other ↦
      let one = settle-IsKept agent h code in
      let a = (settle code agent).0 in
      let two = release-IsKept a one.0 t in
      let r = release_stored t a in
      rw (other, uac_onreply_callback)
        (
          two.0,
          Balanced-append (held agent.dialogs) (held a.dialogs) (held r.0.dialogs)
              (settle code agent).1 r.1 one.1 two.1,
        )
]

-- What is left of an agent; `none` is a call through a dangling handle.
abbrev pub KeptAfter : Agent → Option (Agent × List AgentEvent) → Type 0
KeptAfter agent none = Unit
KeptAfter agent (some r) = IsKept agent r

handle-IsKept :
    (x : Happening) (p : ℕ) (agent : Agent) → IsApart agent → KeptAfter agent (at_handle x p agent)
unfolding at_handle
handle-IsKept x p agent h = elim (Option-cases (at_address p agent.dialogs)) [
  | inl gone ↦ rw (gone, at_handle) tt
  | inr (d, e) ↦
      let own = at_own p d agent.dialogs e in
      rw (e, at_handle) (dialog-IsKept agent h x d (ap (λ q. at_address q agent.dialogs) own ∙ e))
]

-- A new dialog is allocated at an address at which no dialog stands.
abbrev pub IsFresh : Happening → Agent → Type 0
IsFresh (make_call env) agent = Missing env.address agent.dialogs
IsFresh (invited env ice redialog body) agent = Missing env.address agent.dialogs
IsFresh _ agent = Unit

happen-IsKept :
    (x : Happening) (agent : Agent)
    → IsApart agent
    → IsFresh x agent
    → KeptAfter agent (happen x agent)
unfolding happen
happen-IsKept (start env) agent h f = start-IsKept agent h env
happen-IsKept (stop env) agent h f = stop-IsKept agent h env
happen-IsKept (reply attempt t code) agent h f = reply-IsKept attempt t code agent h
happen-IsKept (make_call env) agent h f =
    (make_call-IsApart agent h env f, make_call-Keeps env agent)
happen-IsKept (invited env ice redialog body) agent h f =
    (oninvite-IsApart agent h env f ice redialog body, oninvite-Keeps env ice redialog body agent)
happen-IsKept (bye call_id) agent h f = (onbye-IsApart agent h call_id, onbye-Keeps call_id agent h)
happen-IsKept (answer env p) agent h f = handle-IsKept (answer env p) p agent h
happen-IsKept (hangup env p) agent h f = handle-IsKept (hangup env p) p agent h
happen-IsKept (cancel env p) agent h f = handle-IsKept (cancel env p) p agent h
happen-IsKept (reject env code p) agent h f = handle-IsKept (reject env code p) p agent h
happen-IsKept (invite_reply env dialog code p) agent h f =
    handle-IsKept (invite_reply env dialog code p) p agent h

-- Each new dialog of the sequence is allocated at such an address, until a dangling handle is used.
abbrev pub AreFresh : List Happening → Agent → Type 0
AreFresh [] agent = Unit
AreFresh (x ∷ xs) agent =
    IsFresh x agent × elim (happen x agent) [ none ↦ Unit | some r ↦ AreFresh xs r.0 ]

concluded :
    (before : ℕ) (r r' : Agent × List AgentEvent)
    → Balanced before r.1 (held r.0.dialogs)
    → some r ≡ some r'
    → Balanced before r'.1 (held r'.0.dialogs)
concluded before r r' h e =
    let same : r ≡ r' = cc in subst (λ q. Balanced before q.1 (held q.0.dialogs)) same h

-- Whatever happens to an agent whose dialogs stand at addresses of their own, as long as each new
-- dialog is allocated at an address at which no dialog stands and no handle of a destroyed dialog is
-- used: the references to server transactions that were given back, and those that the dialogs still
-- hold, are together as many as the references that were taken and those that the dialogs held
-- before.
pub happenings_balanced :
    (xs : List Happening) (agent agent' : Agent) (es : List AgentEvent)
    → IsApart agent
    → AreFresh xs agent
    → happen_all xs agent ≡ some (agent', es)
    → given es + held agent'.dialogs ≡ taken es + held agent.dialogs
unfolding happen_all
happenings_balanced [] agent agent' es h f e =
    concluded (held agent.dialogs) (agent, []) (agent', es) refl e
happenings_balanced (x ∷ xs) agent agent' es h f e = elim (Option-cases (happen x agent)) [
  | inl gone ↦ ground arith
  | inr ((a, es1), g) ↦
      let kept : IsKept agent (a, es1) = rw g at (happen-IsKept x agent h f.0) in
      let later : AreFresh xs a = rw g at f.1 in
      elim (Option-cases (happen_all xs a)) [
        | inl gone ↦ ground arith
        | inr ((b, es2), k) ↦
            let rest = happenings_balanced xs a b es2 kept.0 later k in
            let before = held agent.dialogs in
            let all =
              Balanced-append before (held a.dialogs) (held b.dialogs) es1 es2 kept.1 rest in
            concluded before (b, es1 ++ es2) (agent', es) all (rw (g, k, happen_all) at e)
      ]
]
