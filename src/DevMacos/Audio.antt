-- ===== src/DevMacos/Audio.antt =====
-- The callbacks of the audio thread, and the waiting and taking of `macos_read_audio`, in
-- src/lws_dev_macos.c, on the data of an open device. Each part that holds the mutex is one step.
use lwsip.Common.{
  ℕ, zero, suc, ◌+◌, ◌-◌, ◌*◌, Bool, false, List, [], ◌∷◌, ◌++◌, ◌&&◌, if◌then◌else◌, ltb, leb,
  Bytes, length,
}
use lwsip.DevMacos.Ring.{ring_free, ring_put, ring_get, ring_clear}
use lwsip.DevMacos.Types.{MacosData, Effect, cond_signal, buffer_enqueue}

abbrev pub enqueue_again : ℕ → MacosData → List Effect
enqueue_again i d = if d.is_running then buffer_enqueue i ∷ [] else []

-- The buffer `i` of the queue comes with the bytes that were recorded.
unfoldable pub audio_input_callback : ℕ → Bytes → MacosData → MacosData × List Effect
audio_input_callback i input d =
    if leb (length input) (ring_free d.ring)
    then (record d { ring = ring_put input d.ring }, cond_signal ∷ enqueue_again i d)
    else (d, enqueue_again i d)

abbrev pub zeros : ℕ → Bytes
zeros zero = []
zeros (suc n) = 0 ∷ zeros n

-- The buffer `i` of the queue has room for `capacity` bytes; the bytes are what it is filled with.
unfoldable pub audio_output_callback : ℕ → ℕ → MacosData → MacosData × Bytes × List Effect
audio_output_callback i capacity d =
    if leb capacity d.ring.used
    then (let r = ring_get capacity d.ring in (record d { ring = r.0 }, r.1, enqueue_again i d))
    else (d, zeros capacity, enqueue_again i d)

-- What other threads do while `macos_read_audio` waits: the callbacks, the store to `is_running`
-- of `macos_stop`, and the emptying of the ring by `macos_stop` or `macos_flush_audio`.
pub data Other : Type 0 where
  recorded : ℕ → Bytes → Other
  played : ℕ → ℕ → Other
  halted emptied : Other

unfoldable pub other : Other → MacosData → MacosData × List Effect
unfolding audio_input_callback audio_output_callback
other (recorded i input) d = audio_input_callback i input d
other (played i capacity) d = let r = audio_output_callback i capacity d in (r.0, r.2)
other halted d = (record d { is_running = false }, [])
other emptied d = (record d { ring = ring_clear d.ring }, [])

unfoldable pub others : List Other → MacosData → MacosData × List Effect
others [] d = (d, [])
others (o ∷ os) d = let (d1, es1) = other o d in let (d2, es2) = others os d1 in (d2, es1 ++ es2)

pub record Timespec : Type 0 where
  pub tv_sec : ℕ
  pub tv_nsec : ℕ

-- 100 ms after what `gettimeofday` answers
unfoldable pub deadline_of : (tv_sec tv_usec : ℕ) → Timespec
deadline_of tv_sec tv_usec =
    let nsec = tv_usec * 1000 + 100000000 in
    if leb 1000000000 nsec
    then record { tv_sec = tv_sec + 1; tv_nsec = nsec - 1000000000 }
    else record { tv_sec = tv_sec; tv_nsec = nsec }

abbrev pub nanoseconds : Timespec → ℕ
nanoseconds t = t.tv_sec * 1000000000 + t.tv_nsec

-- One return of `pthread_cond_timedwait`: what happened before it, the time in nanoseconds, and
-- whether it failed for another reason than the time.
pub record Wake : Type 0 where
  pub meanwhile : List Other
  pub clock : ℕ
  pub failed : Bool

-- It is taken to return 0 before the deadline and ETIMEDOUT from then on: a signal that comes with the
-- deadline, where POSIX allows a return of 0 too, counts as a timeout.
abbrev pub waits_on : Timespec → Wake → Bool
waits_on deadline w = if w.failed then false else ltb w.clock (nanoseconds deadline)

-- The loop `while (used < bytes_to_read && is_running)`. The list is what the calls of
-- `pthread_cond_timedwait` would return one after the other; where it ends, the next one fails.
unfoldable pub wait_data : Timespec → (want : ℕ) → List Wake → MacosData → MacosData × List Effect
wait_data deadline want [] d = (d, [])
wait_data deadline want (w ∷ ws) d =
    let (d1, es1) = others w.meanwhile d in
    let again : MacosData × List Effect =
      (let (d2, es2) = wait_data deadline want ws d1 in (d2, es1 ++ es2)) in
    if ltb d.ring.used want && d.is_running
    then (if waits_on deadline w then again else (d1, es1))
    else (d, [])

-- The part of `macos_read_audio` behind the loop.
unfoldable pub take_data : (want : ℕ) → MacosData → MacosData × Bytes
take_data want d =
    if leb want d.ring.used
    then (let r = ring_get want d.ring in (record d { ring = r.0 }, r.1))
    else (d, [])
