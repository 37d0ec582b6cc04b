-- ===== src/Agent/Released.antt =====
-- The references to server transactions that are given back when an agent is destroyed
-- (lws_agent_destroy of src/lws_agent.c).
use lwsip.Common.{◌≡◌, refl, ap, Option, some, none, List, [], ◌∷◌, ◌++◌, arith, ==_refl}
use lwsip.Timer.{TimerManager}
use lwsip.Agent.Types.{Dialog, Agent, AgentHandler, AgentEvent}
use lwsip.Agent.Dialogs.{unlink, lws_agent_destroy_dialog}
use lwsip.Agent.Transport.{AgentConfig}
use lwsip.Agent.Lifecycle.{AgentObject, AgentEnv, start_sip, lws_agent_create, destroy_dialogs}
use lwsip.Agent.Sequence.{Happening, happen_all}
use lwsip.Agent.References.{taken, given, given-append, held, one_if, AreDistinct}
use lwsip.Agent.Balance.{destroy-Balanced, destroy-taken}
use lwsip.Agent.Ledger.{AreFresh, happenings_balanced}

destroyed_first :
    (d : Dialog) (ds : List Dialog) (agent : Agent)
    → agent.dialogs ≡ d ∷ ds
    → let r = lws_agent_destroy_dialog d agent in
      (r.0.dialogs ≡ ds) × (given r.1 ≡ one_if d.uas_txn)
unfolding lws_agent_destroy_dialog unlink
destroyed_first d ds agent e =
    let b = destroy-Balanced d in
    let t = destroy-taken d in (rw (e, ==_refl d.address) refl, omega arith)

given-destroy_dialogs :
    (ds : List Dialog) (agent : Agent)
    → agent.dialogs ≡ ds
    → given (destroy_dialogs ds agent).1 ≡ held ds
unfolding destroy_dialogs
given-destroy_dialogs [] agent e = refl
given-destroy_dialogs (d ∷ ds) agent e =
    let first = lws_agent_destroy_dialog d agent in
    let (gone, back) = destroyed_first d ds agent e in
    let rest = given-destroy_dialogs ds first.0 gone in
    omega (arith, given-append first.1 (destroy_dialogs ds first.0).1)

created_empty :
    (env : AgentEnv) (config : Option AgentConfig) (handler : Option AgentHandler)
    (timers : TimerManager) (object : AgentObject)
    → (lws_agent_create env config handler timers).0 ≡ some object
    → object.agent.dialogs ≡ []
unfolding lws_agent_create start_sip
created_empty env none handler timers object e = ground arith
created_empty env (some config) none timers object e = ground arith
created_empty env (some config) (some handler) timers object e = ground arith

-- What the calls took is given back by the calls or by the destruction.
pub destroy-released_all :
    (env : AgentEnv) (config : Option AgentConfig) (handler : Option AgentHandler)
    (timers : TimerManager) (object : AgentObject) (hs : List Happening) (agent : Agent)
    (es : List AgentEvent)
    → (lws_agent_create env config handler timers).0 ≡ some object
    → AreFresh hs object.agent
    → happen_all hs object.agent ≡ some (agent, es)
    → given (es ++ (destroy_dialogs agent.dialogs agent).1) ≡ taken es
destroy-released_all env config handler timers object hs agent es e fresh run =
    let empty = created_empty env config handler timers object e in
    let apart : AreDistinct object.agent.dialogs = rw empty tt in
    let balanced = happenings_balanced hs object.agent agent es apart fresh run in
    let back = given-destroy_dialogs agent.dialogs agent refl in
    let none_before : held object.agent.dialogs ≡ 0 = ap held empty in
    omega (arith, given-append es (destroy_dialogs agent.dialogs agent).1)
