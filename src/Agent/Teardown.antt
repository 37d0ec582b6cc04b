-- ===== src/Agent/Teardown.antt =====
-- What an agent holds from its creation to its destruction (src/lws_agent.c), over the ledger of its
-- transport.
use lwsip.Common.{
  ◌≡◌, refl, ◌∙◌, ap, ◌-◌, Bool, true, false, Option, none, some, List, [], ◌∷◌, ◌++◌, map, arith,
  Bool-cases, Option-cases, inl, inr, length, ==_refl,
}
use lwsip.Timer.{TimerManager, lws_timer_init, lws_timer_cleanup}
use lwsip.Trans.Types.{Trans}
use lwsip.Trans.Api.{lws_trans_create, lws_trans_destroy}
use lwsip.Trans.Ledger.{Held, nothing}
use lwsip.Trans.Ownership.{holding, held_by, destroy-Held, create-Held, steps-Kept}
use lwsip.Trans.Calls.{Call, steps}
use lwsip.Agent.Types.{Agent, AgentHandler, AgentEvent, Dialog}
use lwsip.Agent.Dialogs.{unlink, lws_agent_destroy_dialog}
use lwsip.Agent.Sequence.{Happening, happen_all}
use lwsip.Agent.Listed.{IsListed}
use lwsip.Agent.Counted.{happenings-IsListed}
use lwsip.Agent.References.{given, taken}
use lwsip.Agent.Ledger.{AreFresh}
use lwsip.Agent.Released.{destroy-released_all}
use lwsip.Agent.Transport.{AgentConfig}
use lwsip.Agent.Belongings.{
  Belongings, no_belongings, life_step, life_steps, life_steps-append, life_steps-timer_effect,
  life_steps-dialog_event, life_steps-trans_effect,
}
use lwsip.Agent.Lifecycle.{
  AgentObject, LifeEffect, memory_released, sip_agent_acquired, sip_agent_released, trans_effect,
  timer_effect, dialog_event, AgentEnv, agent_trans_config, agent_trans_handler, start_sip,
  lws_agent_create, destroy_dialogs, lws_agent_destroy,
}

-- The list is emptied from its head, and the counter follows.
destroy_dialogs-empty :
    (ds : List Dialog) (agent : Agent)
    → agent.dialogs ≡ ds
    → let done = (destroy_dialogs ds agent).0 in
      (done.dialogs ≡ []) × (done.dialog_count ≡ agent.dialog_count - length ds)
unfolding destroy_dialogs lws_agent_destroy_dialog unlink
destroy_dialogs-empty [] agent e = (e, omega arith)
destroy_dialogs-empty (d ∷ ds) agent e =
    let first = (lws_agent_destroy_dialog d agent).0 in
    let gone : first.dialogs ≡ ds = rw (e, ==_refl d.address) refl in
    let rest = destroy_dialogs-empty ds first gone in (rest.0, omega (arith, rest.1))

-- What a living agent holds.
abbrev pub belongings : Trans → Belongings
belongings trans = record { has_memory = true; has_sip_agent = true; transport = holding trans }

abbrev pub owned : Option AgentObject → Belongings
owned none = no_belongings
owned (some object) = belongings object.trans

-- With the memory and the transport, and without libsip.
abbrev half : Held → Belongings
half h = record { has_memory = true; has_sip_agent = false; transport = h }

release_trans :
    (trans : Trans) (has_sip_agent : Bool) (fs : List LifeEffect)
    → let b : Belongings = record {
      has_memory = true;
      has_sip_agent = has_sip_agent;
      transport = holding trans;
    } in
      life_steps (map trans_effect (lws_trans_destroy (some trans)) ++ fs) b
      ≡ life_steps fs (record b { transport = nothing })
release_trans trans has_sip_agent fs =
    let b : Belongings = record {
      has_memory = true;
      has_sip_agent = has_sip_agent;
      transport = holding trans;
    } in
    life_steps-append (map trans_effect (lws_trans_destroy (some trans))) fs b
      (record b { transport = nothing })
      (life_steps-trans_effect (lws_trans_destroy (some trans)) b nothing
        (destroy-Held (some trans)))

start_sip-owned :
    (env : AgentEnv) (config : AgentConfig) (handler : AgentHandler) (trans : Trans)
    (timers : TimerManager)
    → let made = start_sip env config handler trans timers in
      life_steps made.2 (half (holding trans)) ≡ some (owned made.0)
unfolding start_sip life_steps life_step
start_sip-owned env config handler trans timers =
    let init = lws_timer_init env.thread timers in
    let b = half (holding trans) in
    let failed = map trans_effect (lws_trans_destroy (some trans)) ++ (memory_released ∷ []) in
    let quiet = life_steps-timer_effect init.2 b in
    elim (Bool-cases env.has_sip_agent) [
      | inl present ↦
          rw present
            (life_steps-append (map timer_effect init.2) (sip_agent_acquired ∷ []) b b quiet ∙ refl)
      | inr absent ↦ rw absent (
          life_steps-append (map timer_effect init.2) failed b b quiet
          ∙ release_trans trans false (memory_released ∷ [])
          ∙ refl)
    ]

create-owned :
    (env : AgentEnv) (config : Option AgentConfig) (handler : Option AgentHandler)
    (timers : TimerManager)
    → let made = lws_agent_create env config handler timers in
      life_steps made.2 no_belongings ≡ some (owned made.0)
unfolding lws_agent_create life_steps life_step
create-owned env none handler timers = refl
create-owned env (some config) none timers = refl
create-owned env (some config) (some handler) timers =
    let made =
      lws_trans_create env.transports (some agent_trans_config) (some agent_trans_handler) in
    let held = create-Held env.transports (some agent_trans_config) (some agent_trans_handler) in
    let taken = life_steps-trans_effect made.0 (half nothing) (held_by made.1) held in
    elim (Bool-cases env.has_memory) [
      | inr absent ↦ rw absent refl
      | inl present ↦ elim (Option-cases made.1) [
        | inl e ↦
            let step =
              life_steps-append (map trans_effect made.0) (memory_released ∷ []) (half nothing)
                (half (held_by made.1)) taken in
            rw (present, e)
              (step ∙ ap (λ o. life_steps (memory_released ∷ []) (half (held_by o))) e)
        | inr (trans, e) ↦
            let started = start_sip env config handler trans timers in
            let step =
              life_steps-append (map trans_effect made.0) started.2 (half nothing)
                (half (held_by made.1)) taken in
            rw (present, e)
              (step
                ∙ ap (λ o. life_steps started.2 (half (held_by o))) e
                ∙ start_sip-owned env config handler trans timers)
      ]
    ]

created-IsListed :
    (env : AgentEnv) (config : Option AgentConfig) (handler : Option AgentHandler)
    (timers : TimerManager) (object : AgentObject)
    → (lws_agent_create env config handler timers).0 ≡ some object
    → IsListed object.agent
unfolding lws_agent_create start_sip
created-IsListed env none handler timers object e = ground arith
created-IsListed env (some config) none timers object e = ground arith
created-IsListed env (some config) (some handler) timers object e = ground arith

destroy-released :
    (object : AgentObject) (timers : TimerManager)
    → life_steps (lws_agent_destroy object timers).2 (belongings object.trans) ≡ some no_belongings
unfolding lws_agent_destroy life_steps life_step
destroy-released object timers =
    let destroyed = destroy_dialogs object.agent.dialogs object.agent in
    let cleaned = lws_timer_cleanup timers in
    let b = belongings object.trans in
    let h = half (holding object.trans) in
    let last = map trans_effect (lws_trans_destroy (some object.trans)) ++ (memory_released ∷ []) in
    let tail = sip_agent_released ∷ (map timer_effect cleaned.1 ++ last) in
    life_steps-append (map dialog_event destroyed.1) tail b b
      (life_steps-dialog_event destroyed.1 b)
    ∙ life_steps-append (map timer_effect cleaned.1) last h h (life_steps-timer_effect cleaned.1 h)
    ∙ release_trans object.trans false (memory_released ∷ [])
    ∙ refl

cleanup_stops : (timers : TimerManager) → (lws_timer_cleanup timers).0.running ≡ false
unfolding lws_timer_cleanup
cleanup_stops timers = ground arith

-- For all answers of the system, libsip and lwIP: an agent that was created, then went through any
-- API calls, requests and responses without a dangling handle, each new dialog at a free address, and
-- any calls of its transport, and is destroyed, has given back its memory, libsip's agent, the socket
-- and the transport, each exactly once, and as many references to server transactions as it took; its
-- list of dialogs is empty and its counter zero, and the timer thread is stopped. The sessions of the
-- dialogs, the client transactions of libsip and the nodes of the timers are not counted.
pub destroy-created :
    (env : AgentEnv) (config : Option AgentConfig) (handler : Option AgentHandler)
    (timers later : TimerManager) (object : AgentObject) (hs : List Happening) (agent : Agent)
    (es : List AgentEvent) (cs : List Call)
    → (lws_agent_create env config handler timers).0 ≡ some object
    → AreFresh hs object.agent
    → happen_all hs object.agent ≡ some (agent, es)
    → let made = lws_agent_create env config handler timers in
      let used = steps env.transports cs object.trans in
      let done = lws_agent_destroy (record object { agent = agent; trans = used.0 }) later in
      (life_steps (made.2 ++ (map trans_effect used.1 ++ done.2)) no_belongings
        ≡ some no_belongings)
      × (given (es ++ (destroy_dialogs agent.dialogs agent).1) ≡ taken es)
      × (done.0.dialogs ≡ [])
      × (done.0.dialog_count ≡ 0)
      × (done.1.running ≡ false)
unfolding lws_agent_destroy
destroy-created env config handler timers later object hs agent es cs e fresh run =
    let made = lws_agent_create env config handler timers in
    let used = steps env.transports cs object.trans in
    let final : AgentObject = record object { agent = agent; trans = used.0 } in
    let done = lws_agent_destroy final later in
    let listed =
      happenings-IsListed hs object.agent agent es
        (created-IsListed env config handler timers object e) run in
    let emptied = destroy_dialogs-empty agent.dialogs agent refl in
    let b = belongings object.trans in
    let kept = steps-Kept env.transports cs object.trans in
    let start : life_steps made.2 no_belongings ≡ some b =
      create-owned env config handler timers ∙ ap (λ o. some (owned o)) e in
    let middle = life_steps-trans_effect used.1 b (holding used.0) kept.0 in
    (
      life_steps-append made.2 (map trans_effect used.1 ++ done.2) no_belongings b start
          ∙ life_steps-append (map trans_effect used.1) done.2 b (belongings used.0) middle
          ∙ destroy-released final later,
      destroy-released_all env config handler timers object hs agent es e fresh run,
      emptied.0,
      omega (arith, emptied.1, listed),
      cleanup_stops later,
    )
