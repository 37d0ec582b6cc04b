-- ===== src/DevMacos/Backend.antt =====
-- Whatever the device layer calls, the backend of src/lws_dev_macos.c gives back what it takes.
use lwsip.Common.{
  ◌≡◌, refl, ◌∙◌, ℕ, ◌<◌, Bool, true, false, some, none, List, [], ◌∷◌, ◌++◌, inl, inr, arith, ltb,
  leb, ◌==◌, ◌&&◌, Bytes, Bool-cases, is_neg, if◌then◌else◌, ◌*◌,
}
use lwsip.Dev.Types.{idle, Dev}
use lwsip.Dev.Control.{lws_dev_close}
use lwsip.Dev.Calls.{DevCall, dev_calls}
use lwsip.Dev.Backend.{Operations, Contract, is_open}
use lwsip.Dev.Backend.Calls.{calls-Owned}
use lwsip.DevMacos.Ring.{ring_free}
use lwsip.DevMacos.Types.{Platform, Effect, MacosData}
use lwsip.DevMacos.Audio.{
  audio_input_callback, audio_output_callback, Other, recorded, played, halted, emptied, other,
  others, Wake, waits_on, Timespec, wait_data, take_data, deadline_of,
}
use lwsip.DevMacos.Open.{OpenEnv, macos_open, macos_close}
use lwsip.DevMacos.Ops.{
  ReadEnv, macos_start, macos_stop, macos_read_audio, macos_write_audio, macos_get_audio_avail,
  macos_flush_audio, macos_read_video, macos_write_video, lws_dev_macos_ops, divided,
}
use lwsip.DevMacos.Lifetime.{nothing, everything, account, accounts, accounts-append}
use lwsip.DevMacos.Balance.{
  IsHeld, IsFree, device_of, open_result, close-IsFree, close_again-IsFree,
}

-- A buffer of the queue that is handed over is one of its three.
abbrev IsOwn : Other → Type 0
IsOwn (recorded i bytes) = i < 3
IsOwn (played i n) = i < 3
IsOwn _ = Unit

abbrev AreOwn : List Other → Type 0
AreOwn [] = Unit
AreOwn (o ∷ os) = IsOwn o × AreOwn os

abbrev pub AreOwnWakes : List Wake → Type 0
AreOwnWakes [] = Unit
AreOwnWakes (w ∷ ws) = AreOwn w.meanwhile × AreOwnWakes ws

other-booked :
    (o : Other) (d : MacosData) → IsOwn o → accounts (other o d).1 everything ≡ some everything
unfolding other audio_input_callback audio_output_callback accounts account
other-booked (recorded i bytes) d own = ground arith
other-booked (played i n) d own = ground arith
other-booked halted d own = refl
other-booked emptied d own = refl

others-booked :
    (os : List Other) (d : MacosData)
    → AreOwn os
    → accounts (others os d).1 everything ≡ some everything
unfolding others
others-booked [] d own = unfold accounts in refl
others-booked (o ∷ os) d own =
    accounts-append (other o d).1 (others os (other o d).0).1 everything everything
      (other-booked o d own.0)
    ∙ others-booked os (other o d).0 own.1

wait-booked :
    (deadline : Timespec) (want : ℕ) (ws : List Wake) (d : MacosData)
    → AreOwnWakes ws
    → accounts (wait_data deadline want ws d).1 everything ≡ some everything
unfolding wait_data
wait-booked deadline want [] d own = unfold accounts in refl
wait-booked deadline want (w ∷ ws) d own =
    let first = others-booked w.meanwhile d own.0 in
    let d1 = (others w.meanwhile d).0 in
    let rest = wait-booked deadline want ws d1 own.1 in
    let both =
      accounts-append (others w.meanwhile d).1 (wait_data deadline want ws d1).1 everything
        everything first in
    elim (Bool-cases (ltb d.ring.used want && d.is_running)) [
      | inl waiting ↦ elim (Bool-cases (waits_on deadline w)) [
        | inl on ↦ rw (waiting, on) (both ∙ rest)
        | inr over ↦ rw (waiting, over) first
      ]
      | inr ready ↦ rw ready (unfold accounts in refl)
    ]

keep-IsHeld :
    (p : Platform) (r : MacosData × List Effect)
    → IsHeld p
    → accounts r.1 everything ≡ some everything
    → IsHeld (record p { data_ptr = some r.0; calls = p.calls ++ r.1 })
keep-IsHeld p r v h = record {
  present = refl;
  booked = accounts-append p.calls r.1 nothing everything v.booked ∙ h;
}

-- The operations of the table.
abbrev pub macos_operations : OpenEnv → Bool → ReadEnv → Operations Platform
macos_operations env started reading = record {
  open_it = macos_open env;
  close_it = macos_close;
  start_it = macos_start started;
  stop_it = macos_stop;
  read_it = macos_read_audio reading;
  write_it = macos_write_audio;
  avail_it = macos_get_audio_avail;
  flush_it = macos_flush_audio;
  read_video_it = macos_read_video;
  write_video_it = macos_write_video;
}

start-IsHeld : (started : Bool) (p : Platform) → IsHeld p → IsHeld (macos_start started p).0
unfolding macos_start
start-IsHeld started p v =
    let (d, e) = device_of p v in rw e (keep-IsHeld p _ v (unfold accounts account in refl))

stop-IsHeld : (p : Platform) → IsHeld p → IsHeld (macos_stop p)
unfolding macos_stop
stop-IsHeld p v =
    let (d, e) = device_of p v in rw e (keep-IsHeld p _ v (unfold accounts account in refl))

flush-IsHeld : (p : Platform) → IsHeld p → IsHeld (macos_flush_audio p).0
unfolding macos_flush_audio
flush-IsHeld p v = let (d, e) = device_of p v in rw e (keep-IsHeld p _ v (unfold accounts in refl))

avail-IsHeld : (p : Platform) → IsHeld p → IsHeld (macos_get_audio_avail p).0
unfolding macos_get_audio_avail
avail-IsHeld p v = ground (arith, v.present, v.booked)

write-IsHeld : (s : Bytes) (n : ℕ) (p : Platform) → IsHeld p → IsHeld (macos_write_audio s n p).0
unfolding macos_write_audio
write-IsHeld s n p v =
    let (d, e) = device_of p v in
    let v' : IsHeld (record p { data_ptr = some d }) = record {
      present = refl;
      booked = v.booked;
    } in
    rw e (elim (Bool-cases (ltb 0 n)) [
      | inr no_samples ↦ rw no_samples v'
      | inl some_samples ↦
          elim (Bool-cases (ltb (ring_free d.ring) (n * d.format.bytes_per_frame))) [
            | inl full ↦ rw (some_samples, full) v'
            | inr room ↦ rw (some_samples, room) (keep-IsHeld p _ v (unfold accounts in refl))
          ]
    ])

-- A division by zero changes neither the data nor the calls.
divided-IsHeld : (n m : ℕ) (p : Platform) → IsHeld p → IsHeld (divided n m p).0
divided-IsHeld n m p v = elim (Bool-cases (m == 0)) [
  | inl zero_bytes ↦ rw zero_bytes (record { present = v.present; booked = v.booked })
  | inr some_bytes ↦ rw some_bytes v
]

read-IsHeld :
    (reading : ReadEnv) (n : ℕ) (p : Platform)
    → AreOwnWakes reading.wakes
    → IsHeld p
    → IsHeld (macos_read_audio reading n p).0
unfolding macos_read_audio
read-IsHeld reading n p own v =
    let (d, e) = device_of p v in
    let v' : IsHeld (record p { data_ptr = some d }) = record {
      present = refl;
      booked = v.booked;
    } in
    let want = n * d.format.bytes_per_frame in
    let deadline = deadline_of reading.tv_sec reading.tv_usec in
    let waited = wait_data deadline want reading.wakes d in
    let kept =
      keep-IsHeld p ((take_data want waited.0).0, waited.1) v
        (wait-booked deadline want reading.wakes d own) in
    rw e (elim (Bool-cases (ltb 0 n)) [
      | inr no_samples ↦ rw no_samples v'
      | inl some_samples ↦ rw some_samples (
          divided-IsHeld (if leb want waited.0.ring.used then want else 0) d.format.bytes_per_frame
            _ kept)
    ])

avail_nothing : (p : Platform) → p.data_ptr ≡ none → (macos_get_audio_avail p).0 ≡ p
unfolding macos_get_audio_avail
avail_nothing p e = ground arith

flush_nothing : (p : Platform) → p.data_ptr ≡ none → (macos_flush_audio p).0 ≡ p
unfolding macos_flush_audio
flush_nothing p e = ground arith

module _ (env : OpenEnv) (started : Bool) (reading : ReadEnv)
    (own : AreOwnWakes reading.wakes) where
  open-IsHeld :
      (p : Platform) → IsFree p → is_neg (macos_open env p).1 ≡ false → IsHeld (macos_open env p).0
  open-IsHeld p v good = elim (open_result env p v) [
    | inl (bad, f) ↦ absurd (ground arith)
    | inr (g, h) ↦ h
  ]

  open-IsFree :
      (p : Platform) → IsFree p → is_neg (macos_open env p).1 ≡ true → IsFree (macos_open env p).0
  open-IsFree p v bad = elim (open_result env p v) [
    | inl (b, f) ↦ f
    | inr (good, h) ↦ absurd (ground arith)
  ]

  pub macos-Contract : Contract (macos_operations env started reading) IsHeld IsFree
  unfolding macos_read_video macos_write_video
  macos-Contract = record {
    opens = open-IsHeld;
    open_fails = open-IsFree;
    closes = close-IsFree;
    closes_free = close_again-IsFree;
    starts = start-IsHeld started;
    stops = stop-IsHeld;
    reads = λ n p v. read-IsHeld reading n p own v;
    writes = write-IsHeld;
    avails = avail-IsHeld;
    avails_free = λ p v. rw (avail_nothing p v.absent) v;
    flushes = flush-IsHeld;
    flushes_free = λ p v. rw (flush_nothing p v.absent) v;
    reads_video = λ n p v. v;
    writes_video = λ s n p v. v;
  }

-- On a device that works through this backend, is idle and has taken nothing, with the answers of
-- the system that are given and callbacks for the three buffers only: after any calls of the device
-- layer the backend holds an open device and all that belongs to one while the device is opened,
-- started or stopped; and after a close at the end everything that was taken, memory, mutex,
-- condition, queue, buffers and ring, has been given back once, in an order in which nothing is
-- used or given back that is not held.
pub macos_calls_balanced :
    (env : OpenEnv) (started : Bool) (reading : ReadEnv) (cs : List DevCall) (dev : Dev Platform)
    → AreOwnWakes reading.wakes
    → dev.ops ≡ some (lws_dev_macos_ops env started reading)
    → dev.state ≡ idle
    → IsFree dev.platform_data
    → let after = (dev_calls cs dev).0 in
      (is_open after.state ≡ true → IsHeld after.platform_data)
      × IsFree (lws_dev_close after).0.platform_data
unfolding lws_dev_macos_ops
macos_calls_balanced env started reading cs dev own works fresh free =
    let result = calls-Owned (macos-Contract env started reading own) cs dev (record {
      works = works;
      held_when = λ t. absurd (ground arith);
      free_when = λ t. free;
      either = inr free;
    }) in
    (result.0.held_when, result.1)
