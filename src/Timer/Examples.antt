-- ===== src/Timer/Examples.antt =====
-- The theorems on the timers at concrete lists, and runs of the thread.
use lwsip.Common.{
  ℕ, ◌+◌, ◌*◌, ◌≡◌, refl, true, none, some, List, [], ◌∷◌, ◌++◌, arith, pos, negsuc, if◌then◌else◌,
  ◌==◌,
}
use lwsip.Timer.{
  TimerNode, TimerManager, lock, unlock, call, free, timer_list_insert_sorted, finished, dangling,
  timer_list_remove, read_entry, fire_expired, timer_tick, sip_timer_start, sip_timer_stop,
  lws_timer_init,
}
use lwsip.Timer.Fire.{fire_effects, fire_effect, with_timers, stops, Walk, tick-Walk, tick_dangling}
use lwsip.Timer.Api.{IsValid, init, start, here, after, zeroed, calls-IsValid, stop-Absent}

abbrev timer : ℕ → ℕ → ℕ → TimerNode
timer a t h = record { address = a; expire_time_ms = t; handler = some h; usrptr = 7 }

abbrev three : List TimerNode
three = timer 1 100 11 ∷ timer 2 200 12 ∷ timer 3 300 13 ∷ []

abbrev manager : TimerManager
manager = record { timers = three; thread = some 9; running = true }

insert_between :
    timer_list_insert_sorted (timer 4 200 14) three
    ≡ timer 1 100 11 ∷ timer 2 200 12 ∷ timer 4 200 14 ∷ timer 3 300 13 ∷ []
unfolding timer_list_insert_sorted
insert_between = refl

two_due :
    timer_tick (λ h u m. m) (λ k. 250) 4 250 manager
    ≡ finished
        (lock
          ∷ unlock
          ∷ call 11 7
          ∷ free 1
          ∷ lock
          ∷ unlock
          ∷ call 12 7
          ∷ free 2
          ∷ lock
          ∷ unlock
          ∷ [])
        (with_timers manager (timer 3 300 13 ∷ []))
unfolding timer_tick fire_expired read_entry timer_list_remove
two_due = refl

-- The clock moves on while a callback runs, and the third timer becomes due.
tick-Walk_example :
    (fired : List TimerNode) × (left : List TimerNode) × Walk
      (λ k. 250 + 60 * k)
      0
      250
      three
      fired
      left
    × (timer_tick (λ h u m. m) (λ k. 250 + 60 * k) 4 250 manager
        ≡ finished (lock ∷ (fire_effects fired ++ (unlock ∷ []))) (with_timers manager left))
tick-Walk_example =
    tick-Walk (λ h u m. m) (λ k. 250 + 60 * k) (λ h u m. refl) 4 250 manager (omega arith)
      (omega arith)

abbrev stopper : ℕ → ℕ → TimerManager → TimerManager
stopper h u m = if h == 11 then stops 2 m else m

tick_dangling_example :
    timer_tick stopper (λ k. 250) 2 250 manager ≡ dangling (lock ∷ fire_effect (timer 1 100 11))
unfolding sip_timer_stop
tick_dangling_example =
    tick_dangling stopper (λ k. 250) 0 250 manager (timer 1 100 11) (timer 2 200 12)
      (timer 3 300 13 ∷ []) 11 refl (refl, tt) (omega arith) refl (λ n. refl)

started : TimerManager
started = (sip_timer_start 5 (some 1) (pos 20) (some 11) 7 (lws_timer_init (some 9) zeroed).0).0

calls-IsValid_example : IsValid started
unfolding started
calls-IsValid_example = calls-IsValid (
    after (after here (init (some 9) zeroed)) (
      start 5 (some 1) (pos 20) (some 11) 7 (lws_timer_init (some 9) zeroed).0
        (unfold lws_timer_init in tt)))

stop-Absent_example :
    sip_timer_stop (some (some 8)) manager ≡ (manager, some none, negsuc 0, lock ∷ unlock ∷ [])
stop-Absent_example = stop-Absent 8 manager refl (refl, (refl, (refl, tt)))
