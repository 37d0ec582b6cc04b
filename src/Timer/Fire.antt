-- ===== src/Timer/Fire.antt =====
-- The walk of the timer thread over its list (lws_timer_loop of src/lws_timer.c).
use lwsip.Common.{
  ℕ, zero, suc, ◌+◌, ◌≤◌, ◌<◌, ◌≡◌, refl, ap, Bool, true, false, Option, none, some, List, [], ◌∷◌,
  ◌++◌, ◌||◌, arith, ltb, ◌==◌, inl, inr, Bool-cases, length, ==_refl,
}
use lwsip.Timer.{
  Address, TimerNode, TimerManager, Effect, lock, unlock, free, timer_list_remove, first_address,
  read_entry, Pass, finished, dangling, out_of_fuel, prepend, run_handler, call_effect,
  fire_expired, timer_tick, sip_timer_stop,
}
use lwsip.Timer.Order.{IsSorted, Absent, NotBefore, NotBefore-weaken}

-- What one expired timer makes the thread do.
abbrev pub fire_effect : TimerNode → List Effect
fire_effect p = unlock ∷ (call_effect p.handler p.usrptr ++ (free p.address ∷ lock ∷ []))

unfoldable pub fire_effects : List TimerNode → List Effect
fire_effects [] = []
fire_effects (p ∷ rest) = fire_effect p ++ fire_effects rest

abbrev pub with_timers : TimerManager → List TimerNode → TimerManager
with_timers m xs = record m { timers = xs }

read_entry-head :
    (p : TimerNode) (rest : List TimerNode)
    → read_entry p.address (p ∷ rest) ≡ some (p, first_address rest)
unfolding read_entry
read_entry-head p rest = rw (==_refl p.address)

remove-head :
    (p : TimerNode) (rest : List TimerNode)
    → timer_list_remove p.address (p ∷ rest) ≡ (rest, some p)
unfolding timer_list_remove
remove-head p rest = rw (==_refl p.address)

module _ (run : ℕ → ℕ → TimerManager → TimerManager) (clock : ℕ → ℕ) where
  -- One expired timer at the head of the list.
  pub fire_first :
      (fuel k now : ℕ) (p : TimerNode) (rest : List TimerNode) (m : TimerManager)
      → p.expire_time_ms ≤ now
      → fire_expired run clock (suc fuel) k now (some p.address) (with_timers m (p ∷ rest))
        ≡ prepend (fire_effect p) (
            fire_expired run clock fuel
              (suc k)
              (clock k)
              (first_address rest)
              (run_handler run p.handler p.usrptr (with_timers m rest)))
  unfolding fire_expired
  fire_first fuel k now p rest m h = ground (arith, read_entry-head p rest, remove-head p rest)

  -- The walk ends at the first timer that is not due.
  pub fire_later :
      (fuel k now : ℕ) (p : TimerNode) (rest : List TimerNode) (m : TimerManager)
      → now < p.expire_time_ms
      → fire_expired run clock (suc fuel) k now (some p.address) (with_timers m (p ∷ rest))
        ≡ finished [] (with_timers m (p ∷ rest))
  unfolding fire_expired
  fire_later fuel k now p rest m h = ground (arith, read_entry-head p rest)

-- Callbacks that leave the timers alone.
abbrev pub Quiet : (ℕ → ℕ → TimerManager → TimerManager) → Type 0
Quiet run = (h u : ℕ) (m : TimerManager) → run h u m ≡ m

fired_more :
    (p : TimerNode) (ps : List TimerNode) (m : TimerManager)
    → prepend (fire_effect p) (finished (fire_effects ps) m) ≡ finished (fire_effects (p ∷ ps)) m
unfolding fire_effects
fired_more p ps m = refl

-- Each timer is due when the walk comes to it: the first at `now`, each further one at the reading
-- of the clock behind the callback before it. `k` readings have been made.
abbrev pub AllDue : (clock : ℕ → ℕ) (k now : ℕ) → List TimerNode → Type 0
AllDue clock k now [] = Unit
AllDue clock k now (p ∷ ps) = (p.expire_time_ms ≤ now) × AllDue clock (suc k) (clock k) ps

-- The reading with which the walk is left behind these timers.
abbrev pub last_reading : (clock : ℕ → ℕ) (k now : ℕ) → List TimerNode → ℕ
last_reading clock k now [] = now
last_reading clock k now (p ∷ ps) = last_reading clock (suc k) (clock k) ps

-- The walk over a list fires a first part of it and stops there.
abbrev pub Walk : (clock : ℕ → ℕ) (k now : ℕ) (xs fired left : List TimerNode) → Type 0
Walk clock k now xs fired left =
    (xs ≡ fired ++ left)
    × AllDue clock k now fired
    × NotBefore (last_reading clock k now fired + 1) left

module _ (run : ℕ → ℕ → TimerManager → TimerManager) (clock : ℕ → ℕ) (quiet : Quiet run) where
  run_handler-Quiet : (h : Option ℕ) (u : ℕ) (m : TimerManager) → run_handler run h u m ≡ m
  run_handler-Quiet none u m = refl
  run_handler-Quiet (some h) u m = quiet h u m

  fire-Walk :
      (fuel k now : ℕ) (xs : List TimerNode) (m : TimerManager)
      → IsSorted xs
      → length xs < fuel
      → (fired : List TimerNode) × (left : List TimerNode) × Walk clock k now xs fired left
        × (fire_expired run clock fuel k now (first_address xs) (with_timers m xs)
            ≡ finished (fire_effects fired) (with_timers m left))
  fire-Walk zero k now xs m s h = absurd (omega arith)
  fire-Walk (suc fuel) k now [] m s h =
      ([], [], (refl, tt, tt), unfold fire_expired fire_effects in refl)
  fire-Walk (suc fuel) k now (p ∷ rest) m s h = elim (Bool-cases (ltb now p.expire_time_ms)) [
    | inl early ↦
        let b = NotBefore-weaken (now + 1) p.expire_time_ms rest (ground arith) s.0 in
        (
          [],
          p ∷ rest,
          (refl, tt, (ground arith, b)),
          rw (fire_later run clock fuel k now p rest m (ground arith))
              (unfold fire_effects in refl),
        )
    | inr late ↦
        let (fired, left, (q, all_due, later), e) =
          fire-Walk fuel (suc k) (clock k) rest m s.1 (omega arith) in
        (
          p ∷ fired,
          left,
          (ap (λ t. p ∷ t) q, (ground arith, all_due), later),
          rw (fire_first run clock fuel k now p rest m (ground arith)) (
              rw (run_handler-Quiet p.handler p.usrptr (with_timers m rest), e)
                (fired_more p fired (with_timers m left))),
        )
  ]

  -- On a sorted list, with callbacks that leave the timers alone, whatever the clock shows and with
  -- fuel above the length of the list: a round of the timer thread ends; it calls and frees a first
  -- part of the list, in order and each with the lock released, and leaves the rest. Each timer of
  -- that part is due at the reading of the clock behind the callback before it, and none that is left
  -- is due at the last reading.
  pub tick-Walk :
      (fuel now : ℕ) (m : TimerManager)
      → IsSorted m.timers
      → length m.timers < fuel
      → (fired : List TimerNode) × (left : List TimerNode) × Walk clock 0 now m.timers fired left
        × (timer_tick run clock fuel now m
            ≡ finished (lock ∷ (fire_effects fired ++ (unlock ∷ []))) (with_timers m left))
  unfolding timer_tick
  tick-Walk fuel now m s h =
      let (fired, left, walk, e) = fire-Walk fuel 0 now m.timers m s h in (fired, left, walk, rw e)

unfoldable pub has : Address → List TimerNode → Bool
has a [] = false
has a (p ∷ rest) = (p.address == a) || has a rest

abbrev pub CursorIn : Option Address → List TimerNode → Type 0
CursorIn none xs = Unit
CursorIn (some b) xs = has b xs ≡ true

-- The walk reads no freed node.
abbrev pub NotDangling : Pass → Type 0
NotDangling (finished es m) = Unit
NotDangling (dangling es) = ⊥
NotDangling out_of_fuel = Unit

-- Callbacks that stop no timer; they may start some.
abbrev pub KeepsTimers : (ℕ → ℕ → TimerManager → TimerManager) → Type 0
KeepsTimers run =
    (h u : ℕ) (m : TimerManager) (a : Address)
    → has a m.timers ≡ true
    → has a (run h u m).timers ≡ true

-- `sip_timer_stop` of the timer at `a`, as a callback makes it.
abbrev pub stops : Address → TimerManager → TimerManager
stops a m = (sip_timer_stop (some (some a)) m).0

read_entry-Absent : (a : Address) (xs : List TimerNode) → Absent a xs → read_entry a xs ≡ none
unfolding read_entry
read_entry-Absent a [] h = refl
read_entry-Absent a (p ∷ rest) h = ground (arith, read_entry-Absent a rest h.1)

stops-head :
    (q : TimerNode) (rest : List TimerNode) (m : TimerManager)
    → m.running ≡ true
    → stops q.address (with_timers m (q ∷ rest)) ≡ with_timers m rest
unfolding sip_timer_stop
stops-head q rest m r = ground (arith, remove-head q rest)

fire_unlinked :
    (run : ℕ → ℕ → TimerManager → TimerManager) (clock : ℕ → ℕ) (fuel k now : ℕ) (a : Address)
    (m : TimerManager)
    → Absent a m.timers
    → fire_expired run clock (suc fuel) k now (some a) m ≡ dangling []
unfolding fire_expired
fire_unlinked run clock fuel k now a m h = ground (arith, read_entry-Absent a m.timers h)

-- On a running manager, of the first two timers the first is due, and its callback stops the
-- second, whose address occurs once: whatever else is in the list, the thread calls and frees the
-- first and then follows the freed node of the second.
pub tick_dangling :
    (run : ℕ → ℕ → TimerManager → TimerManager) (clock : ℕ → ℕ) (fuel now : ℕ) (m : TimerManager)
    (p q : TimerNode) (rest : List TimerNode) (h : ℕ)
    → m.running ≡ true
    → Absent q.address rest
    → p.expire_time_ms ≤ now
    → p.handler ≡ some h
    → ((n : TimerManager) → run h p.usrptr n ≡ stops q.address n)
    → timer_tick run clock (suc (suc fuel)) now (with_timers m (p ∷ q ∷ rest))
      ≡ dangling (lock ∷ fire_effect p)
unfolding timer_tick
tick_dangling run clock fuel now m p q rest h r gone due_now has_handler stop =
    rw (fire_first run clock (suc fuel) 0 now p (q ∷ rest) m due_now) (
      rw (has_handler, run_handler)
        (rw (stop (with_timers m (q ∷ rest)), stops-head q rest m r)
          (rw (fire_unlinked run clock fuel 1 (clock 0) q.address (with_timers m rest) gone))))
