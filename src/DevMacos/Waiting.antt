-- ===== src/DevMacos/Waiting.antt =====
-- The waiting of `macos_read_audio` in src/lws_dev_macos.c comes to an end.
use lwsip.Common.{
  ◌≡◌, ap, ℕ, suc, ◌+◌, ◌*◌, ◌≤◌, ◌<◌, false, List, [], ◌∷◌, ◌++◌, ◌&&◌, arith, if◌then◌else◌, ltb,
  length, Option-cases, inl, inr,
}
use lwsip.DevMacos.Types.{MacosData, Platform, Effect}
use lwsip.DevMacos.Audio.{Timespec, nanoseconds, deadline_of, Wake, waits_on, others, wait_data}
use lwsip.DevMacos.Ops.{macos_read_audio}

-- Each return of `pthread_cond_timedwait` is at least `grain` nanoseconds after the one before.
abbrev pub IsPaced : (grain now : ℕ) → List Wake → Type 0
IsPaced grain now [] = Unit
IsPaced grain now (w ∷ ws) = (now + grain ≤ w.clock) × IsPaced grain w.clock ws

-- The deadline is 100 ms after the time of day, and its nanoseconds are below a second.
pub deadline_lem :
    (tv_sec tv_usec : ℕ)
    → tv_usec < 1000000
    → (nanoseconds (deadline_of tv_sec tv_usec) ≡ tv_sec * 1000000000 + tv_usec * 1000 + 100000000)
      × ((deadline_of tv_sec tv_usec).tv_nsec < 1000000000)
unfolding deadline_of
deadline_lem tv_sec tv_usec h = ground arith

mul-suc : (a b : ℕ) → a * suc b ≡ a * b + a
mul-suc a b = grind arith

wait-ends :
    (deadline : Timespec) (want grain : ℕ) (w : Wake) (ws rest : List Wake) (d : MacosData)
    (now : ℕ)
    → IsPaced grain now (w ∷ ws)
    → nanoseconds deadline ≤ now + grain * suc (length ws)
    → wait_data deadline want (w ∷ (ws ++ rest)) d ≡ wait_data deadline want (w ∷ ws) d
unfolding wait_data
wait-ends deadline want grain w [] rest d now paced late =
    let one = mul-suc grain 0 in let over : waits_on deadline w ≡ false = ground arith in rw over
wait-ends deadline want grain w (v ∷ vs) rest d now paced late =
    let more = mul-suc grain (suc (length vs)) in
    let ih =
      wait-ends deadline want grain v vs rest (others w.meanwhile d).0 w.clock paced.1
        (omega arith) in
    ap
      (λ (r : MacosData × List Effect).
        if ltb d.ring.used want && d.is_running
        then (if waits_on deadline w
            then (r.0, (others w.meanwhile d).1 ++ r.1)
            else ((others w.meanwhile d).0, (others w.meanwhile d).1))
        else (d, []))
      ih

-- Where the returns of `pthread_cond_timedwait` are at least `grain` nanoseconds apart, the first
-- of them that make up 100 ms together decide the read: whatever returns could follow, in whatever
-- number, the waiting ends before them, and the read gives the same device, result and bytes.
pub read_audio-ends :
    (tv_sec tv_usec grain samples : ℕ) (w : Wake) (ws rest : List Wake) (p : Platform)
    → tv_usec < 1000000
    → IsPaced grain (tv_sec * 1000000000 + tv_usec * 1000) (w ∷ ws)
    → 100000000 ≤ grain * suc (length ws)
    → macos_read_audio
        (record { tv_sec = tv_sec; tv_usec = tv_usec; wakes = w ∷ (ws ++ rest) })
        samples
        p
      ≡ macos_read_audio (record { tv_sec = tv_sec; tv_usec = tv_usec; wakes = w ∷ ws }) samples p
unfolding macos_read_audio
read_audio-ends tv_sec tv_usec grain samples w ws rest p usec paced late =
    let at = (deadline_lem tv_sec tv_usec usec).0 in
    elim (Option-cases p.data_ptr) [
      | inl e ↦ rw e
      | inr (d, e) ↦
          let ends =
            wait-ends (deadline_of tv_sec tv_usec) (samples * d.format.bytes_per_frame) grain w ws
              rest d (tv_sec * 1000000000 + tv_usec * 1000) paced (omega arith) in
          rw e (rw ends)
    ]
