-- ===== src/DevMacos/Fifo.antt =====
-- What the backend of src/lws_dev_macos.c promises while it is open: a queue of at most `cap`
-- bytes, in frames of `frame` bytes, which takes a piece whole or not at all.
use lwsip.Common.{
  ℕ, ◌-◌, ◌*◌, ◌/◌, ◌+◌, Bool, false, List, [], ◌∷◌, ◌++◌, ◌&&◌, if◌then◌else◌, ltb, leb, pos,
  negsuc, Bytes, take, drop, length,
}
use lwsip.DevMacos.Audio.{
  Other, recorded, played, halted, emptied, Timespec, Wake, waits_on, deadline_of, zeros,
}
use lwsip.DevMacos.Ops.{ReadEnv}
use lwsip.DevMacos.Steps.{
  AudioStep, Reply, reply, read, write, avail, flush, stop, start, input, output,
}

pub record Line : Type 0 where
  pub queue : Bytes
  pub running : Bool

module _ (cap : ℕ) where
  unfoldable pub offer : Bytes → Line → Line
  offer bytes a =
      if leb (length a.queue + length bytes) cap then record a { queue = a.queue ++ bytes } else a

  -- Silence, where there are too few bytes.
  unfoldable pub fetch : ℕ → Line → Line × Bytes
  fetch n a =
      if leb n (length a.queue)
      then (record a { queue = drop n a.queue }, take n a.queue)
      else (a, zeros n)

  unfoldable pub happen : Other → Line → Line
  unfolding offer fetch
  happen (recorded i bytes) a = offer bytes a
  happen (played i n) a = (fetch n a).0
  happen halted a = record a { running = false }
  happen emptied a = record a { queue = [] }

  unfoldable pub happen_all : List Other → Line → Line
  happen_all [] a = a
  happen_all (o ∷ os) a = happen_all os (happen o a)

  -- A reader waits while the queue is too short and the device runs, and until the deadline.
  unfoldable pub await : Timespec → (want : ℕ) → List Wake → Line → Line
  await deadline want [] a = a
  await deadline want (w ∷ ws) a =
      let a1 = happen_all w.meanwhile a in
      let again : Line = await deadline want ws a1 in
      if ltb (length a.queue) want && a.running
      then (if waits_on deadline w then again else a1)
      else a

  module _ (frame : ℕ) where
    -- All the samples that were asked for, or none.
    unfoldable pub receive : ReadEnv → ℕ → Line → Line × Reply
    receive env samples a =
        let want = samples * frame in
        let later = await (deadline_of env.tv_sec env.tv_usec) want env.wakes a in
        if ltb 0 samples
        then (if leb want (length later.queue)
            then (
              record later { queue = drop want later.queue },
              reply (pos samples) (take want later.queue),
            )
            else (later, reply (pos 0) []))
        else (a, reply (negsuc 0) [])

    unfoldable pub send : Bytes → ℕ → Line → Line × Reply
    send bytes samples a =
        if ltb 0 samples
        then (if leb (length a.queue + samples * frame) cap
            then (
              record a { queue = a.queue ++ take (samples * frame) bytes },
              reply (pos samples) [],
            )
            else (a, reply (pos 0) []))
        else (a, reply (negsuc 0) [])

    unfoldable pub line_step : AudioStep → Line → Line × Reply
    unfolding receive send
    line_step (read env samples) a = receive env samples a
    line_step (write bytes samples) a = send bytes samples a
    line_step avail a = (a, reply (pos ((cap - length a.queue) / frame)) [])
    line_step flush a = (record a { queue = [] }, reply (pos 0) [])
    line_step stop a = (record { queue = []; running = false }, reply (pos 0) [])
    line_step (start started) a =
        (record a { running = started }, reply (if started then pos 0 else negsuc 0) [])
    line_step (input i bytes) a = (offer bytes a, reply (pos 0) [])
    line_step (output i n) a = let r = fetch n a in (r.0, reply (pos 0) r.1)

    unfoldable pub line_steps : List AudioStep → Line → List Reply
    line_steps [] a = []
    line_steps (s ∷ ss) a = let r = line_step s a in r.1 ∷ line_steps ss r.0
