-- ===== src/DevMacos/Opened.antt =====
-- From `macos_open` on, the backend of src/lws_dev_macos.c is a queue of one second of sound.
use lwsip.Common.{
  ◌≡◌, refl, ℕ, ◌*◌, ◌/◌, ◌^◌, ◌<◌, true, false, some, List, [], ◌∷◌, ◌++◌, arith, pos, Bytes,
  length,
}
use lwsip.DevMacos.Types.{
  Platform, Effect, setup_audio_format, is_capture_type, ring_malloc, queue_new,
}
use lwsip.DevMacos.Open.{OpenEnv, macos_open, opened_data, make_buffers, begin_open, num_buffers}
use lwsip.DevMacos.Steps.{AudioStep, audio_steps}
use lwsip.DevMacos.Fifo.{Line, line_steps}
use lwsip.DevMacos.Refine.{Represents}
use lwsip.DevMacos.Queue.{AreBacked, device, steps_refine}

abbrev pub frame_bytes : OpenEnv → ℕ
frame_bytes env = (setup_audio_format env.format env.sample_rate env.channels).bytes_per_frame

-- One second of sound, in bytes.
abbrev pub second_bytes : OpenEnv → ℕ
second_bytes env = env.sample_rate * frame_bytes env

abbrev pub silent : Line
silent = record { queue = []; running = false }

-- All that `macos_open` asks for is given, and the memory is as long as was asked for.
pub record Grants (env : OpenEnv) (bytes : Bytes) : Type 0 where
  pub given_data : env.has_data ≡ true
  pub given_queue : env.queue_made ≡ true
  pub given_first : env.buffer_made 0 ≡ true
  pub given_second : env.buffer_made 1 ≡ true
  pub given_third : env.buffer_made 2 ≡ true
  pub given_ring : env.ring_memory (second_bytes env) ≡ some bytes
  pub whole : length bytes ≡ second_bytes env

open-Represents :
    (env : OpenEnv) (bytes : Bytes)
    → Grants env bytes
    → 0 < second_bytes env
    → second_bytes env < 2 ^ 63
    → Represents
        (second_bytes env)
        (frame_bytes env)
        (opened_data env
          (setup_audio_format env.format env.sample_rate env.channels)
          (second_bytes env)
          bytes)
        silent
open-Represents env bytes g nonzero small = record {
  holds = record {
    whole = g.whole;
    positive = nonzero;
    small = small;
    counted = refl;
    bounded = omega arith;
    read_in = nonzero;
    behind = ground arith;
    stored = λ i lt. absurd (omega arith);
  };
  sized = refl;
  framed = refl;
  live = refl;
}

-- The calls of a successful `macos_open`.
abbrev open_calls : OpenEnv → List Effect
open_calls env =
    let capture = is_capture_type env.type in
    let size = env.sample_rate * 20 / 1000 * frame_bytes env in
    begin_open
    ++ ((queue_new capture ∷ (make_buffers (λ i. true) capture size 0 num_buffers).0)
        ++ (ring_malloc (second_bytes env) ∷ []))

open-device :
    (env : OpenEnv) (bytes : Bytes) (p : Platform)
    → Grants env bytes
    → p.faulted ≡ false
    → macos_open env p ≡ (
      device
          (opened_data env
            (setup_audio_format env.format env.sample_rate env.channels)
            (second_bytes env)
            bytes)
          (p.calls ++ open_calls env),
      pos 0,
    )
unfolding macos_open make_buffers
open-device env bytes p g fine = ground arith

factor_pos : (a b : ℕ) → 0 < a * b → 0 < b
factor_pos a b h = grind arith

-- Where the system gives all that is asked for, the format is one that the code knows, and a second
-- of sound is neither empty nor 2^63 bytes: opening succeeds, and afterwards any reads, writes,
-- flushes, stops and starts and any callbacks of the audio thread, also while a read waits, get the
-- replies of a queue of bytes that is empty at first and holds one second. A recorded buffer or a
-- write is taken whole or not at all, a read returns all that it wants, in order, or nothing, and a
-- played buffer is filled from the queue, or with silence where the queue is too short.
pub open-steps :
    (env : OpenEnv) (bytes : Bytes) (p : Platform) (ss : List AudioStep)
    → Grants env bytes
    → 0 < second_bytes env
    → second_bytes env < 2 ^ 63
    → AreBacked (frame_bytes env) ss
    → p.faulted ≡ false
    → ((macos_open env p).1 ≡ pos 0)
      × ((audio_steps ss (macos_open env p).0).1
          ≡ line_steps (second_bytes env) (frame_bytes env) ss silent)
open-steps env bytes p ss g nonzero small backed fine = rw (open-device env bytes p g fine) (
  refl,
  steps_refine (factor_pos env.sample_rate (frame_bytes env) nonzero) ss (p.calls ++ open_calls env)
      backed (open-Represents env bytes g nonzero small),
)
