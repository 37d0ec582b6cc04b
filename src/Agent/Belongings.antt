-- ===== src/Agent/Belongings.antt =====
-- A ledger of what creating and destroying an agent takes and gives back (src/lws_agent.c).
use lwsip.Common.{
  ◌≡◌, refl, Bool, true, false, Option, none, some, List, [], ◌∷◌, ◌++◌, map, arith, if◌then◌else◌,
  Option-cases, inl, inr,
}
use lwsip.Timer.{TimerManager, lws_timer_init, lws_timer_cleanup}
use lwsip.Timer as Timer
use lwsip.Trans.Types.{Effect}
use lwsip.Trans.Ledger.{Held, nothing, take_step, take_steps}
use lwsip.Agent.Types.{AgentEvent}
use lwsip.Agent.Lifecycle.{
  LifeEffect, memory_acquired, memory_released, sip_agent_acquired, sip_agent_released,
  trans_effect, timer_effect, dialog_event,
}

pub record Belongings : Type 0 where
  pub has_memory : Bool
  pub has_sip_agent : Bool
  pub transport : Held

abbrev pub no_belongings : Belongings
no_belongings = record { has_memory = false; has_sip_agent = false; transport = nothing }

-- `none` is something that is released without being held, or acquired twice.
unfoldable pub life_step : LifeEffect → Belongings → Option Belongings
unfolding take_step
life_step memory_acquired b = if b.has_memory then none else some (record b { has_memory = true })
life_step memory_released b = if b.has_memory then some (record b { has_memory = false }) else none
life_step sip_agent_acquired b =
    if b.has_sip_agent then none else some (record b { has_sip_agent = true })
life_step sip_agent_released b =
    if b.has_sip_agent then some (record b { has_sip_agent = false }) else none
life_step (trans_effect e) b = elim (take_step e b.transport) [
  | none ↦ none
  | some h ↦ some (record b { transport = h })
]
life_step (timer_effect e) b = some b
life_step (dialog_event e) b = some b

unfoldable pub life_steps : List LifeEffect → Belongings → Option Belongings
unfolding life_step
life_steps [] b = some b
life_steps (e ∷ es) b = elim (life_step e b) [ none ↦ none | some b' ↦ life_steps es b' ]

pub life_steps-append :
    (es fs : List LifeEffect) (b b' : Belongings)
    → life_steps es b ≡ some b'
    → life_steps (es ++ fs) b ≡ life_steps fs b'
unfolding life_steps
life_steps-append [] fs b b' q = ground arith
life_steps-append (x ∷ es) fs b b' q = elim (Option-cases (life_step x b)) [
  | inl refused ↦ ground arith
  | inr (k, e) ↦ ground (arith, life_steps-append es fs k b')
]

pub life_steps-timer_effect :
    (es : List Timer.Effect) (b : Belongings) → life_steps (map timer_effect es) b ≡ some b
unfolding life_steps life_step
life_steps-timer_effect [] b = refl
life_steps-timer_effect (e ∷ es) b = life_steps-timer_effect es b

pub life_steps-dialog_event :
    (es : List AgentEvent) (b : Belongings) → life_steps (map dialog_event es) b ≡ some b
unfolding life_steps life_step
life_steps-dialog_event [] b = refl
life_steps-dialog_event (e ∷ es) b = life_steps-dialog_event es b

pub life_steps-trans_effect :
    (es : List Effect) (b : Belongings) (h : Held)
    → take_steps es b.transport ≡ some h
    → life_steps (map trans_effect es) b ≡ some (record b { transport = h })
unfolding life_steps life_step take_steps
life_steps-trans_effect [] b h q = ground arith
life_steps-trans_effect (x ∷ es) b h q = elim (Option-cases (take_step x b.transport)) [
  | inl refused ↦ ground arith
  | inr (k, e) ↦ ground (arith, life_steps-trans_effect es (record b { transport = k }) h)
]
