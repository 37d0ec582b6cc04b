-- ===== src/Agent/Moves.antt =====
-- The registration of an agent as a state machine, over everything that happens (src/lws_agent.c).
use lwsip.Common.{◌≡◌, ◌⊎◌, ◌≢◌, ℕ, ◌≤◌, Bool, true, false, Option, none, some, List, [], ◌∷◌, pos}
use lwsip.Agent.Types.{
  AgentState, registering, registered, register_failed, unregistered, Agent, AgentEvent,
}
use lwsip.Agent.Register.{RegisterEnv, Attempt, not_made, not_sent, sent}
use lwsip.Agent.Sequence.{Happening, start, stop, reply}

-- What is about a registration or is answered by the callback of REGISTER.
abbrev pub is_registration : Happening → Bool
is_registration (start env) = true
is_registration (stop env) = true
is_registration (reply a t code) = true
is_registration _ = false

-- 401 and 407.
abbrev pub IsChallenge : ℕ → Type 0
IsChallenge code = (code ≡ 401) ⊎ (code ≡ 407)

-- The arrows of the registration. An answer may belong to any request that libsip hands to the
-- callback of REGISTER, so also to a BYE or a CANCEL.
pub data Move : Happening → AgentState → AgentState → Type 0 where
  start_sent :
      (env : RegisterEnv) (t : ℕ) (s : AgentState)
      → env.made ≡ some t
      → env.send_ret ≡ pos 0
      → Move (start env) s registering
  start_failed :
      (env : RegisterEnv) (s : AgentState)
      → (env.made ≡ none) ⊎ (env.send_ret ≢ pos 0)
      → Move (start env) s register_failed
  stopped : (env : RegisterEnv) (s : AgentState) → Move (stop env) s unregistered
  accepted :
      (a : Attempt) (t code : ℕ)
      → 200 ≤ code
      → code ≤ 299
      → Move (reply a t code) registering registered
  refused :
      (a : Attempt) (t code : ℕ)
      → 300 ≤ code
      → ¬ IsChallenge code
      → Move (reply a t code) registering register_failed
  provisional :
      (a : Attempt) (t code : ℕ) → code ≤ 199 → Move (reply a t code) registering registering
  late :
      (a : Attempt) (t code : ℕ) (s : AgentState)
      → s ≢ registering
      → ¬ IsChallenge code
      → Move (reply a t code) s s
  retried : (n t code : ℕ) (s : AgentState) → IsChallenge code → Move (reply (sent n) t code) s s
  unanswerable :
      (a : Attempt) (t code : ℕ) (s : AgentState)
      → (a ≡ not_made) ⊎ (a ≡ not_sent)
      → IsChallenge code
      → Move (reply a t code) s register_failed
  elsewhere : (x : Happening) (s : AgentState) → is_registration x ≡ false → Move x s s

pub data Moves : List Happening → AgentState → AgentState → Type 0 where
  none_left : (s : AgentState) → Moves [] s s
  and_then :
      (x : Happening) (xs : List Happening) (s t u : AgentState)
      → Move x s t
      → Moves xs t u
      → Moves (x ∷ xs) s u

-- What a step makes of the state; `none` is a call through a dangling handle.
abbrev MovesTo : Happening → AgentState → Option (Agent × List AgentEvent) → Type 0
MovesTo x s none = Unit
MovesTo x s (some r) = Move x s r.0.state
