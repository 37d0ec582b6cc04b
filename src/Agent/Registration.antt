-- ===== src/Agent/Registration.antt =====
-- The registration of an agent as a state machine (src/lws_agent.c).
use lwsip.Common.{◌≡◌, ◌⊎◌, ◌≢◌, ℕ, ◌||◌, arith, leb, ◌==◌, if◌then◌else◌}
use lwsip.Agent.Types.{
  AgentState, registering, registered, register_failed, is_registering, Agent, ok,
}
use lwsip.Agent.Register.{
  RegisterEnv, Attempt, not_made, not_sent, sent, is_success, enter, lws_agent_start, authenticate,
  settle, release_stored, uac_onreply_callback,
}

-- Starting an agent from any state: it ends registering, with the new transaction
-- stored, exactly where the result is a success; otherwise it ends as failed, and the stored
-- transaction stays.
pub agent_start_outcome :
    (env : RegisterEnv) (agent : Agent)
    → let r = lws_agent_start env agent in
      ((r.1 ≡ ok) × (r.0.state ≡ registering) × (r.0.register_txn ≡ env.made))
      ⊎ ((r.1 ≢ ok) × (r.0.state ≡ register_failed) × (r.0.register_txn ≡ agent.register_txn))
unfolding lws_agent_start enter
agent_start_outcome env agent = ground arith

release_state : (t : ℕ) (agent : Agent) → (release_stored t agent).0.state ≡ agent.state
unfolding release_stored
release_state t agent = ground arith

-- The state that an answer leads to.
abbrev pub after_reply : Attempt → ℕ → AgentState → AgentState
after_reply attempt code s =
    if code == 401 || code == 407
    then elim attempt [ not_made ↦ register_failed | not_sent ↦ register_failed | sent t ↦ s ]
    else if is_registering s
    then (if is_success code then registered else if leb 300 code then register_failed else s)
    else s

-- The state after an answer, for every state, code and transaction `t`: only the code and the state
-- before count. An agent that is registering is registered by any 2xx, whatever request was answered,
-- and fails by any other final answer but a challenge; a challenge that cannot be answered makes the
-- registration fail in every state; all else leaves the state.
pub reply_state :
    (attempt : Attempt) (t code : ℕ) (agent : Agent)
    → (uac_onreply_callback attempt t code agent).0.state ≡ after_reply attempt code agent.state
unfolding uac_onreply_callback authenticate settle enter
reply_state attempt t code agent =
    let released = release_state t (settle code agent).0 in ground (arith, released)
