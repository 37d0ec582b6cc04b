-- ===== src/Timer/Api.antt =====
-- The API of src/lws_timer.c: lws_timer_init, lws_timer_cleanup, sip_timer_start, sip_timer_stop
-- and their aliases.
use lwsip.Common.{
  ℕ, zero, suc, ◌+◌, ◌%◌, ◌^◌, ◌≡◌, refl, true, false, Option, none, some, List, [], ◌∷◌, ◌++◌,
  arith, inl, inr, Bool-cases, Option-cases, ltb, ℤ, pos, negsuc, pos_part, is_neg, ◌⊎◌,
}
use lwsip.Timer.{
  Address, TimerNode, TimerManager, Effect, lock, unlock, free, timer_list_insert_sorted,
  timer_list_remove, first_address, read_entry, Pass, finished, dangling, out_of_fuel, prepend,
  run_handler, call_effect, fire_expired, timer_tick, append_effects, lws_timer_init,
  lws_timer_cleanup, sip_timer_start, sip_timer_stop,
}
use lwsip.Timer.Order.{
  IsSorted, Absent, IsDistinct, insert-IsSorted, insert-IsDistinct, remove-insert, remove-Absent,
  remove-IsSorted, remove-IsDistinct,
}

-- What holds of the manager whenever its mutex is free.
pub record IsValid (m : TimerManager) : Type 0 where
  pub sorted : IsSorted m.timers
  pub distinct : IsDistinct m.timers
  pub idle : m.running ≡ false → m.timers ≡ []

init-IsValid :
    (created : Option ℕ) (m : TimerManager) → IsValid m → IsValid (lws_timer_init created m).0
unfolding lws_timer_init
init-IsValid none m v = ground arith
init-IsValid (some t) m v = ground arith

cleanup-IsValid : (m : TimerManager) → IsValid m → IsValid (lws_timer_cleanup m).0
unfolding lws_timer_cleanup
cleanup-IsValid m v = ground arith

-- The allocator hands out addresses that are not in use.
abbrev pub Fresh : Option Address → List TimerNode → Type 0
Fresh none xs = Unit
Fresh (some a) xs = Absent a xs

start-IsValid :
    (now : ℕ) (allocated : Option Address) (timeout : ℤ) (handler : Option ℕ) (usrptr : ℕ)
    (m : TimerManager)
    → Fresh allocated m.timers
    → IsValid m
    → IsValid (sip_timer_start now allocated timeout handler usrptr m).0
unfolding sip_timer_start
start-IsValid now allocated timeout none usrptr m f v = v
start-IsValid now none timeout (some h) usrptr m f v = ground arith
start-IsValid now (some a) timeout (some h) usrptr m f v =
    let node : TimerNode = record {
      address = a;
      expire_time_ms = (now + pos_part timeout) % 2 ^ 64;
      handler = some h;
      usrptr = usrptr;
    } in
    ground
      (arith, insert-IsSorted node m.timers v.sorted, insert-IsDistinct node m.timers f v.distinct)

stop-IsValid :
    (id : Option (Option Address)) (m : TimerManager) → IsValid m → IsValid (sip_timer_stop id m).0
unfolding sip_timer_stop
stop-IsValid none m v = v
stop-IsValid (some none) m v = v
stop-IsValid (some (some a)) m v =
    ground (arith, remove-IsSorted a m.timers v.sorted, remove-IsDistinct a m.timers v.distinct)

-- The calls of the API, a failing callback system apart: the timer thread's rounds run callbacks
-- that make such calls themselves.
mutual
  pub data Step : TimerManager → TimerManager → Type 0 where
    init : (created : Option ℕ) (m : TimerManager) → Step m (lws_timer_init created m).0
    cleanup : (m : TimerManager) → Step m (lws_timer_cleanup m).0
    start :
        (now : ℕ) (allocated : Option Address) (timeout : ℤ) (handler : Option ℕ) (usrptr : ℕ)
        (m : TimerManager)
        → Fresh allocated m.timers
        → Step m (sip_timer_start now allocated timeout handler usrptr m).0
    stop : (id : Option (Option Address)) (m : TimerManager) → Step m (sip_timer_stop id m).0
    tick :
        (run : ℕ → ℕ → TimerManager → TimerManager) (clock : ℕ → ℕ) (fuel now : ℕ)
        {m n : TimerManager} {es : List Effect}
        → ((h u : ℕ) (k : TimerManager) → Reach k (run h u k))
        → timer_tick run clock fuel now m ≡ finished es n
        → Step m n

  pub data Reach : TimerManager → TimerManager → Type 0 where
    here : {m : TimerManager} → Reach m m
    after : {m n k : TimerManager} → Reach m n → Step n k → Reach m k

abbrev pub Valid : Pass → Type 0
Valid (finished es m) = IsValid m
Valid (dangling es) = Unit
Valid out_of_fuel = Unit

Valid-prepend : (es : List Effect) (r : Pass) → Valid r → Valid (prepend es r)
Valid-prepend es (finished fs m) v = v
Valid-prepend es (dangling fs) v = tt
Valid-prepend es out_of_fuel v = tt

Valid-append : (es : List Effect) (r : Pass) → Valid r → Valid (append_effects r es)
Valid-append es (finished fs m) v = v
Valid-append es (dangling fs) v = tt
Valid-append es out_of_fuel v = tt

unlink-IsValid :
    (a : Address) (m : TimerManager)
    → IsValid m
    → IsValid (record m { timers = (timer_list_remove a m.timers).0 })
unfolding timer_list_remove
unlink-IsValid a m v = record {
  sorted = remove-IsSorted a m.timers v.sorted;
  distinct = remove-IsDistinct a m.timers v.distinct;
  idle = λ e. rw (v.idle e) refl;
}

module _ (run : ℕ → ℕ → TimerManager → TimerManager) (clock : ℕ → ℕ)
    (keeps : (h u : ℕ) (m : TimerManager) → IsValid m → IsValid (run h u m)) where
  run_handler-IsValid :
      (h : Option ℕ) (u : ℕ) (m : TimerManager) → IsValid m → IsValid (run_handler run h u m)
  run_handler-IsValid none u m v = v
  run_handler-IsValid (some h) u m v = keeps h u m v

  fire-Valid :
      (fuel k now : ℕ) (c : Option Address) (m : TimerManager)
      → IsValid m
      → Valid (fire_expired run clock fuel k now c m)
  unfolding fire_expired
  fire-Valid zero k now c m v = tt
  fire-Valid (suc fuel) k now none m v = v
  fire-Valid (suc fuel) k now (some a) m v = elim (Option-cases (read_entry a m.timers)) [
    | inl gone ↦ rw (gone, fire_expired) tt
    | inr (found, e) ↦
        let (p, behind) = found in
        let rest = record m { timers = (timer_list_remove a m.timers).0 } in
        let ih =
          fire-Valid fuel (suc k) (clock k) behind (run_handler run p.handler p.usrptr rest)
            (run_handler-IsValid p.handler p.usrptr rest (unlink-IsValid a m v)) in
        rw (e, fire_expired)
          (elim (Bool-cases (ltb now p.expire_time_ms)) [
            | inl early ↦ rw (early, fire_expired) v
            | inr late ↦
                rw (late, fire_expired)
                  (Valid-prepend (unlock ∷ (call_effect p.handler p.usrptr ++ (free a ∷ lock ∷ [])))
                    _ ih)
          ])
  ]

  tick-Valid :
      (fuel now : ℕ) (m : TimerManager) → IsValid m → Valid (timer_tick run clock fuel now m)
  unfolding timer_tick
  tick-Valid fuel now m v =
      Valid-prepend (lock ∷ []) _
        (Valid-append (unlock ∷ []) _ (fire-Valid fuel 0 now (first_address m.timers) m v))

mutual
  Step-IsValid : {m n : TimerManager} → Step m n → IsValid m → IsValid n
  Step-IsValid (init created m) v = init-IsValid created m v
  Step-IsValid (cleanup m) v = cleanup-IsValid m v
  Step-IsValid (start now allocated timeout handler usrptr m f) v =
      start-IsValid now allocated timeout handler usrptr m f v
  Step-IsValid (stop id m) v = stop-IsValid id m v
  Step-IsValid (tick run clock fuel now {m} calls e) v =
      rw e at (tick-Valid run clock (λ h u k. Reach-IsValid (calls h u k)) fuel now m v)

  Reach-IsValid : {m n : TimerManager} → Reach m n → IsValid m → IsValid n
  Reach-IsValid here v = v
  Reach-IsValid (after r s) v = Step-IsValid s (Reach-IsValid r v)

-- The manager before the first call: `static timer_manager_t g_timer_mgr = {0}`.
abbrev pub zeroed : TimerManager
zeroed = record { timers = []; thread = none; running = false }

-- Whatever calls are made from the zeroed manager on, from outside and from callbacks, with an
-- allocator that hands out no address in use: the list stays sorted by expiry, no node is in it
-- twice, and a manager that does not run holds no timer.
pub calls-IsValid : {m : TimerManager} → Reach zeroed m → IsValid m
calls-IsValid r = Reach-IsValid r (record { sorted = tt; distinct = tt; idle = λ e. refl })

-- On a running manager, a timer started with a timeout that is not negative at an address not in
-- use gets that address as its id. Stopping it then returns 0, clears the id, frees that node and
-- gives back the manager as it was.
pub stop-start :
    (now : ℕ) (a : Address) (timeout : ℕ) (h usrptr : ℕ) (m : TimerManager)
    → m.running ≡ true
    → Absent a m.timers
    → let (m', id) = sip_timer_start now (some a) (pos timeout) (some h) usrptr m in
      (id ≡ some a)
      × (sip_timer_stop (some id) m' ≡ (m, some none, pos 0, lock ∷ unlock ∷ free a ∷ []))
unfolding sip_timer_start sip_timer_stop
stop-start now a timeout h usrptr m r f =
    let node : TimerNode = record {
      address = a;
      expire_time_ms = (now + timeout) % 2 ^ 64;
      handler = some h;
      usrptr = usrptr;
    } in
    ground (arith, remove-insert node m.timers f)

-- Stopping a timer that is not in the list, which has fired or is firing, fails and changes nothing
-- but the caller's handle, which is cleared.
pub stop-Absent :
    (a : Address) (m : TimerManager)
    → m.running ≡ true
    → Absent a m.timers
    → sip_timer_stop (some (some a)) m ≡ (m, some none, negsuc 0, lock ∷ unlock ∷ [])
unfolding sip_timer_stop
stop-Absent a m r f = ground (arith, remove-Absent a m.timers f)

-- A start either returns NULL and changes nothing, or it runs on a running manager with a timeout
-- that is not negative, returns the address that was allocated, and has inserted the node with that
-- address, the caller's callback and the expiry `now + timeout` into the list.
pub start_outcome :
    (now : ℕ) (allocated : Option Address) (timeout : ℤ) (handler : Option ℕ) (usrptr : ℕ)
    (m : TimerManager)
    → let (m', id) = sip_timer_start now allocated timeout handler usrptr m in
      ((id ≡ none) × (m' ≡ m))
      ⊎ ((node : TimerNode) × (id ≡ some node.address)
          × (allocated ≡ some node.address)
          × (node.handler ≡ handler)
          × (node.usrptr ≡ usrptr)
          × (node.expire_time_ms ≡ (now + pos_part timeout) % 2 ^ 64)
          × (is_neg timeout ≡ false)
          × (m.running ≡ true)
          × (m' ≡ record m { timers = timer_list_insert_sorted node m.timers }))
unfolding sip_timer_start
start_outcome now allocated timeout none usrptr m = inl (refl, refl)
start_outcome now none timeout (some h) usrptr m = inl (ground arith, ground arith)
start_outcome now (some a) timeout (some h) usrptr m =
    let node : TimerNode = record {
      address = a;
      expire_time_ms = (now + pos_part timeout) % 2 ^ 64;
      handler = some h;
      usrptr = usrptr;
    } in
    elim (Bool-cases (is_neg timeout)) [
      | inl negative ↦ rw negative (inl (refl, refl))
      | inr valid ↦ rw valid (elim (Bool-cases m.running) [
        | inl up ↦ rw up (inr (node, refl, refl, refl, refl, refl, refl, refl, refl))
        | inr down ↦ rw down (inl (refl, refl))
      ])
    ]
