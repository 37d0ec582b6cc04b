-- ===== src/Agent/Register.antt =====
-- Registration: lws_agent_start, lws_agent_stop and uac_onreply_callback of src/lws_agent.c.
use lwsip.Common.{
  ℕ, Bool, true, false, Option, none, some, List, [], ◌∷◌, ◌++◌, ◌&&◌, ◌||◌, ltb, leb, ◌==◌,
  if◌then◌else◌, ℤ, is_neg, is_nonzero,
}
use lwsip.Agent.Types.{
  AgentState, registering, registered, register_failed, unregistering, unregistered, is_registering,
  Agent, AgentResult, ok, error, err_sip_send, err_sip_register, AgentEvent, state_changed,
  register_result, uac_release, uac_send,
}

-- The answers of libsip: the transaction that is made, and what sending returns.
pub record RegisterEnv : Type 0 where
  pub made : Option ℕ
  pub send_ret : ℤ

-- The new state, and the report of the change from `old`.
unfoldable pub enter : AgentState → AgentState → Agent → Agent × List AgentEvent
enter old new agent = (
  record agent { state = new },
  if agent.handler.on_state_changed then state_changed old new ∷ [] else [],
)

unfoldable pub lws_agent_start : RegisterEnv → Agent → Agent × AgentResult × List AgentEvent
lws_agent_start env agent =
    let (agent1, es1) = enter agent.state registering agent in
    elim env.made [
      | none ↦
          let (agent2, es2) = enter registering register_failed agent1 in
          (agent2, err_sip_register, es1 ++ es2)
      | some t ↦
          if is_nonzero env.send_ret
          then (let (agent2, es2) = enter registering register_failed agent1 in
              (agent2, err_sip_send, es1 ++ (uac_send ∷ uac_release ∷ es2)))
          else (record agent1 { register_txn = some t }, ok, es1 ++ (uac_send ∷ []))
    ]

unfoldable pub lws_agent_stop : RegisterEnv → Agent → Agent × AgentResult × List AgentEvent
lws_agent_stop env agent =
    let (agent1, es1) = enter agent.state unregistering agent in
    let (agent2, es2) = enter unregistering unregistered agent1 in
    elim env.made [
      | none ↦ (agent2, error, es1 ++ es2)
      | some t ↦ (
        agent2,
        (if is_neg env.send_ret then error else ok),
        es1 ++ (uac_send ∷ uac_release ∷ es2),
      )
    ]

-- How far the authenticated REGISTER gets: a failure before the new transaction is made, one after
-- it, or that the new transaction is sent.
pub data Attempt : Type 0 where
  not_made not_sent : Attempt
  sent : ℕ → Attempt

abbrev pub is_success : ℕ → Bool
is_success code = leb 200 code && ltb code 300

-- The last step: the transaction is released if it is the stored one.
unfoldable pub release_stored : ℕ → Agent → Agent × List AgentEvent
release_stored t agent = elim agent.register_txn [
  | none ↦ (agent, [])
  | some stored ↦
      if stored == t then (record agent { register_txn = none }, uac_release ∷ []) else (agent, [])
]

unfoldable pub authenticate : Attempt → Agent → Agent × ℤ × List AgentEvent
authenticate not_made agent = (record agent { state = register_failed }, ℤ.negsuc 0, [])
authenticate not_sent agent =
    (record agent { state = register_failed }, ℤ.negsuc 0, uac_release ∷ [])
authenticate (sent t) agent = (
  record agent { register_txn = some t },
  ℤ.pos 0,
  uac_send ∷ elim agent.register_txn [ none ↦ [] | some stored ↦ uac_release ∷ [] ],
)

abbrev pub tell_result : Bool → ℕ → Agent → List AgentEvent
tell_result success code agent =
    if agent.handler.on_register_result then register_result success code ∷ [] else []

-- The branches for a success and for a failure other than 401 and 407.
unfoldable pub settle : (code : ℕ) → Agent → Agent × List AgentEvent
settle code agent =
    if is_success code && is_registering agent.state
    then (let (agent1, es) = enter agent.state registered agent in
        (agent1, es ++ tell_result true code agent))
    else if leb 300 code && is_registering agent.state
    then (record agent { state = register_failed }, tell_result false code agent)
    else (agent, [])

-- The callback of REGISTER, BYE and CANCEL; `t` is the transaction that is answered.
unfoldable pub uac_onreply_callback : Attempt → (t code : ℕ) → Agent → Agent × ℤ × List AgentEvent
uac_onreply_callback attempt t code agent =
    if code == 401 || code == 407
    then authenticate attempt agent
    else (let (agent1, es1) = settle code agent in
        let (agent2, es2) = release_stored t agent1 in (agent2, ℤ.pos 0, es1 ++ es2))
