-- ===== src/DevMacos/Examples.antt =====
-- A device with the backend for macOS.
use lwsip.Common.{◌≡◌, refl, true, false, none, some, List, [], ◌∷◌, ◌++◌, pos, codes, arith}
use lwsip.Dev.Types.{Dev, audio_capture, pcmu, pcm_s16be, idle}
use lwsip.Dev.Control.{lws_dev_close}
use lwsip.Dev.Calls.{dev_calls, open_call, start_call, read_audio_call, stop_call}
use lwsip.Dev.Backend.{is_open}
use lwsip.Common.Memory.{write_at}
use lwsip.DevMacos.Ring.{ring_put, ring_get}
use lwsip.DevMacos.Types.{Platform, setup_audio_format}
use lwsip.DevMacos.Audio.{recorded, Wake, zeros, other, others}
use lwsip.DevMacos.Open.{OpenEnv, macos_open}
use lwsip.DevMacos.Ops.{ReadEnv, macos_start, macos_read_audio, lws_dev_macos_ops}
use lwsip.DevMacos.Steps.{
  AudioStep, audio_step, read, write, avail, flush, stop, start, input, output, reply, audio_steps,
}
use lwsip.DevMacos.Fifo.{line_steps}
use lwsip.DevMacos.Opened.{Grants, second_bytes, frame_bytes, silent, open-steps}
use lwsip.DevMacos.Waiting.{read_audio-ends}
use lwsip.DevMacos.Lifetime.{accounts}
use lwsip.DevMacos.Balance.{IsHeld, IsFree}
use lwsip.DevMacos.Backend.{macos_calls_balanced}

-- Ten samples a second, to keep the ring small.
abbrev slow : OpenEnv
slow = record {
  type = audio_capture;
  format = pcmu;
  sample_rate = 10;
  channels = 1;
  frame_duration_ms = 20;
  has_data = true;
  queue_made = true;
  buffer_made = λ i. true;
  ring_memory = λ n. some (zeros n);
}

abbrev unopened : Platform
unopened = record { data_ptr = none; calls = []; faulted = false }

-- A read that is woken by a buffer with the bytes it waits for.
abbrev patient : ReadEnv
patient = record {
  tv_sec = 1;
  tv_usec = 0;
  wakes =
      record { meanwhile = recorded 0 (6 ∷ 7 ∷ 8 ∷ []) ∷ []; clock = 1000000001; failed = false }
      ∷ [];
}

abbrev session : List AudioStep
session =
    start true
    ∷ input 1 (1 ∷ 2 ∷ 3 ∷ 4 ∷ 5 ∷ 6 ∷ 7 ∷ [])
    ∷ read patient 5
    ∷ input 2 (8 ∷ 9 ∷ 10 ∷ 11 ∷ 12 ∷ [])
    ∷ read patient 7
    ∷ read patient 2
    ∷ output 0 2
    ∷ avail
    ∷ write (1 ∷ 2 ∷ 3 ∷ []) 3
    ∷ flush
    ∷ stop
    ∷ []

granted : Grants slow (zeros 10)
unfolding setup_audio_format
granted = record {
  given_data = refl;
  given_queue = refl;
  given_first = refl;
  given_second = refl;
  given_third = refl;
  given_ring = refl;
  whole = refl;
}

open-steps_example :
    ((macos_open slow unopened).1 ≡ pos 0)
    × ((audio_steps session (macos_open slow unopened).0).1
        ≡ line_steps (second_bytes slow) (frame_bytes slow) session silent)
unfolding setup_audio_format
open-steps_example =
    open-steps slow (zeros 10) unopened session granted (omega arith) (omega arith) (omega arith)
      refl

-- The ring goes round, a read waits for its bytes, and a short queue is played as silence.
session_replies :
    (audio_steps session (macos_open slow unopened).0).1
    ≡ reply (pos 0) []
      ∷ reply (pos 0) []
      ∷ reply (pos 5) (1 ∷ 2 ∷ 3 ∷ 4 ∷ 5 ∷ [])
      ∷ reply (pos 0) []
      ∷ reply (pos 7) (6 ∷ 7 ∷ 8 ∷ 9 ∷ 10 ∷ 11 ∷ 12 ∷ [])
      ∷ reply (pos 2) (6 ∷ 7 ∷ [])
      ∷ reply (pos 0) (0 ∷ 0 ∷ [])
      ∷ reply (pos 9) []
      ∷ reply (pos 3) []
      ∷ reply (pos 0) []
      ∷ reply (pos 0) []
      ∷ []
unfolding audio_steps audio_step macos_open ring_put ring_get write_at others other
session_replies = refl

abbrev early : Wake
early = record { meanwhile = []; clock = 1050000000; failed = false }

abbrev late : Wake
late = record { meanwhile = []; clock = 1100000000; failed = false }

-- A device that runs and gets no audio.
abbrev running : Platform
running = (macos_start true (macos_open slow unopened).0).0

read_audio-ends_example :
    macos_read_audio
      (record { tv_sec = 1; tv_usec = 0; wakes = early ∷ ((late ∷ []) ++ (early ∷ late ∷ [])) })
      5
      running
    ≡ macos_read_audio (record { tv_sec = 1; tv_usec = 0; wakes = early ∷ late ∷ [] }) 5 running
read_audio-ends_example =
    read_audio-ends 1 0 50000000 5 early (late ∷ []) (early ∷ late ∷ []) running (omega arith)
      (omega arith) (omega arith)

abbrev microphone : Dev Platform
microphone = record {
  type = audio_capture;
  state = idle;
  ops = some (lws_dev_macos_ops slow true patient);
  platform_data = unopened;
  device_name = codes "mic";
  start_timestamp_us = 0;
  has_state_handler = true;
  has_error_handler = true;
}

macos_calls_balanced_example :
    let after =
      (dev_calls
        (open_call 7 ∷ start_call ∷ read_audio_call true (pos 3) ∷ open_call 9 ∷ stop_call ∷ [])
        microphone).0 in
    (is_open after.state ≡ true → IsHeld after.platform_data)
    × IsFree (lws_dev_close after).0.platform_data
macos_calls_balanced_example =
    macos_calls_balanced slow true patient
      (open_call 7 ∷ start_call ∷ read_audio_call true (pos 3) ∷ open_call 9 ∷ stop_call ∷ [])
      microphone ((omega arith, tt), tt) refl refl
      (record { absent = refl; settled = unfold accounts in refl })

-- With 16-bit samples in big-endian order the frames have no bytes, and a read divides by zero.
abbrev big_endian : OpenEnv
big_endian = record slow { format = pcm_s16be }

big_endian_faults : (macos_read_audio patient 5 (macos_open big_endian unopened).0).0.faulted ≡ true
unfolding macos_open macos_read_audio
big_endian_faults = refl
