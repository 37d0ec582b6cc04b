-- ===== src/Timer.antt =====
-- src/lws_timer.c: the timer manager, its sorted list, the loop of the timer thread and the
-- API that libsip and libice call. `list_head` chains are seen as the sequence of their entries in
-- forward order, and a `timer_node_t*` as a number, 0 for NULL.
pub mod Order
pub mod Fire
pub mod Api
mod Examples
use lwsip.Common.{
  ℕ, zero, suc, ◌+◌, ◌*◌, ◌/◌, ◌%◌, ◌^◌, Bool, true, false, Option, none, some, List, [], ◌∷◌, ◌++◌,
  ltb, ◌==◌, if◌then◌else◌, ℤ, pos, negsuc, is_neg, pos_part,
}

abbrev pub Address : Type 0
Address = ℕ

-- A callback with its user data; a function pointer is a number.
pub record TimerNode : Type 0 where
  pub address : Address
  pub expire_time_ms : ℕ
  pub handler : Option ℕ
  pub usrptr : ℕ

pub record TimerManager : Type 0 where
  pub timers : List TimerNode
  pub thread : Option ℕ
  pub running : Bool

-- What an operation does besides changing the manager, in the order of the calls.
pub data Effect : Type 0 where
  lock unlock mutex_init mutex_destroy mutex_cleanup : Effect
  thread_create : Effect
  thread_join : ℕ → Effect
  call : ℕ → ℕ → Effect
  free : Address → Effect

-- `tv.tv_sec * 1000 + tv.tv_usec / 1000` in uint64_t
unfoldable pub get_current_time_ms : ℕ → ℕ → ℕ
get_current_time_ms tv_sec tv_usec = (tv_sec * 1000 % 2 ^ 64 + tv_usec / 1000) % 2 ^ 64

unfoldable pub timer_list_insert_sorted : TimerNode → List TimerNode → List TimerNode
timer_list_insert_sorted node [] = node ∷ []
timer_list_insert_sorted node (p ∷ rest) =
    let below = timer_list_insert_sorted node rest in
    if ltb node.expire_time_ms p.expire_time_ms then node ∷ p ∷ rest else p ∷ below

-- The list afterwards, and the entry with that address if there is one.
unfoldable pub timer_list_remove : Address → List TimerNode → List TimerNode × Option TimerNode
timer_list_remove a [] = ([], none)
timer_list_remove a (p ∷ rest) =
    let r = timer_list_remove a rest in if p.address == a then (rest, some p) else (p ∷ r.0, r.1)

abbrev pub first_address : List TimerNode → Option Address
first_address [] = none
first_address (p ∷ _) = some p.address

-- The entry at an address and the address of the one behind it, `none` for the list head. The
-- outer `none` stands for a node that is no longer in the list, whose memory has been freed.
unfoldable pub read_entry : Address → List TimerNode → Option (TimerNode × Option Address)
read_entry a [] = none
read_entry a (p ∷ rest) =
    let r = read_entry a rest in if p.address == a then some (p, first_address rest) else r

-- How a walk of the timer thread over the list ends. `dangling` is a read through the saved
-- successor after its node was freed.
pub data Pass : Type 0 where
  finished : List Effect → TimerManager → Pass
  dangling : List Effect → Pass
  out_of_fuel : Pass

abbrev pub prepend : List Effect → Pass → Pass
prepend es (finished fs m) = finished (es ++ fs) m
prepend es (dangling fs) = dangling (es ++ fs)
prepend es out_of_fuel = out_of_fuel

-- `if (handler) handler(usrptr);`, where `run` says what a callback does to the manager.
abbrev pub run_handler :
    (ℕ → ℕ → TimerManager → TimerManager) → Option ℕ → ℕ → TimerManager → TimerManager
run_handler run none usrptr m = m
run_handler run (some h) usrptr m = run h usrptr m

abbrev pub call_effect : Option ℕ → ℕ → List Effect
call_effect none usrptr = []
call_effect (some h) usrptr = call h usrptr ∷ []

-- The `list_for_each_safe` loop of `lws_timer_loop`: `cursor` is `__pos`, and the successor `__n`
-- is read before the callback runs. `clock k` is the k-th later reading of the clock.
unfoldable pub fire_expired :
    (ℕ → ℕ → TimerManager → TimerManager)
    → (ℕ → ℕ)
    → (fuel k now : ℕ) → Option Address
    → TimerManager
    → Pass
fire_expired run clock zero k now cursor m = out_of_fuel
fire_expired run clock (suc fuel) k now none m = finished [] m
fire_expired run clock (suc fuel) k now (some a) m = elim (read_entry a m.timers) [
  | none ↦ dangling []
  | some (p, next) ↦ elim (ltb now p.expire_time_ms) [
    | true ↦ finished [] m
    | false ↦
        let rest = record m { timers = (timer_list_remove a m.timers).0 } in
        prepend (unlock ∷ (call_effect p.handler p.usrptr ++ (free a ∷ lock ∷ []))) (
          fire_expired run clock fuel (suc k) (clock k) next
            (run_handler run p.handler p.usrptr rest))
  ]
]

abbrev pub append_effects : Pass → List Effect → Pass
append_effects (finished es m) fs = finished (es ++ fs) m
append_effects (dangling es) fs = dangling es
append_effects out_of_fuel fs = out_of_fuel

-- One round of the `while (running)` loop of the timer thread.
unfoldable pub timer_tick :
    (ℕ → ℕ → TimerManager → TimerManager) → (ℕ → ℕ) → (fuel now : ℕ) → TimerManager → Pass
timer_tick run clock fuel now m =
    prepend (lock ∷ [])
      (append_effects (fire_expired run clock fuel 0 now (first_address m.timers) m) (unlock ∷ []))

-- `created` is the result of `lws_thread_create`.
unfoldable pub lws_timer_init : Option ℕ → TimerManager → TimerManager × ℤ × List Effect
lws_timer_init created m = if m.running then (m, pos 0, []) else elim created [
  | none ↦ (
    record { timers = []; thread = none; running = false },
    negsuc 0,
    mutex_init ∷ thread_create ∷ mutex_destroy ∷ [],
  )
  | some t ↦ (
    record { timers = []; thread = some t; running = true },
    pos 0,
    mutex_init ∷ thread_create ∷ [],
  )
]

abbrev pub free_all : List TimerNode → List Effect
free_all [] = []
free_all (p ∷ rest) = free p.address ∷ free_all rest

abbrev pub join_effect : Option ℕ → List Effect
join_effect none = []
join_effect (some t) = thread_join t ∷ []

unfoldable pub lws_timer_cleanup : TimerManager → TimerManager × List Effect
lws_timer_cleanup m =
    if m.running
    then (
      record m { timers = []; running = false },
      join_effect m.thread ++ (lock ∷ (free_all m.timers ++ (unlock ∷ mutex_cleanup ∷ []))),
    )
    else (m, [])

-- `now` is the clock's reading, `allocated` the result of `lws_calloc`.
unfoldable pub sip_timer_start :
    (now : ℕ)
    → (allocated : Option Address) → (timeout : ℤ) → Option ℕ
    → (usrptr : ℕ) → TimerManager
    → TimerManager × Option Address
sip_timer_start now allocated timeout none usrptr m = (m, none)
sip_timer_start now allocated timeout (some h) usrptr m =
    if is_neg timeout
    then (m, none)
    else if m.running
    then elim allocated [
      | none ↦ (m, none)
      | some a ↦
          let node : TimerNode = record {
            address = a;
            expire_time_ms = (now + pos_part timeout) % 2 ^ 64;
            handler = some h;
            usrptr = usrptr;
          } in
          (record m { timers = timer_list_insert_sorted node m.timers }, some a)
    ]
    else (m, none)

-- The argument is `*id`; the outer `none` is a NULL `id`. The results are the manager, the new
-- `*id`, the return value and the node that is freed.
unfoldable pub sip_timer_stop :
    Option (Option Address)
    → TimerManager
    → TimerManager × Option (Option Address) × ℤ × List Effect
sip_timer_stop none m = (m, none, negsuc 0, [])
sip_timer_stop (some none) m = (m, some none, negsuc 0, [])
sip_timer_stop (some (some a)) m =
    if m.running
    then (let (rest, found) = timer_list_remove a m.timers in
        elim found [
          | some p ↦
              (record m { timers = rest }, some none, pos 0, lock ∷ unlock ∷ free p.address ∷ [])
          | none ↦ (record m { timers = rest }, some none, negsuc 0, lock ∷ unlock ∷ [])
        ])
    else (m, some none, pos 0, [])

unfoldable pub stun_timer_start :
    (now : ℕ)
    → (allocated : Option Address) → (timeout : ℤ) → Option ℕ
    → (usrptr : ℕ) → TimerManager
    → TimerManager × Option Address
unfolding sip_timer_start
stun_timer_start now allocated timeout handler usrptr m =
    sip_timer_start now allocated timeout handler usrptr m

unfoldable pub stun_timer_stop :
    Option (Option Address) → TimerManager → TimerManager × Option (Option Address) × List Effect
unfolding sip_timer_stop
stun_timer_stop none m = (m, none, [])
stun_timer_stop (some id) m = let r = sip_timer_stop (some id) m in (r.0, r.1, r.3)
