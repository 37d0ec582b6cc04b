-- ===== src/FileDev/Buffer.antt =====
-- The bound of the read buffer of src/lws_dev_file.c.
use lwsip.Common.{
  ◌==◌, Option-cases, ℕ, ◌≤◌, Bool-cases, inl, inr, Option, none, some, List, [], ◌∷◌, arith,
  length, length-append, length-drop, Bytes, ltb,
}
use lwsip.Dev.Types.{DevType}
use lwsip.FileDev.Config.{ConfigUnion, audio_format, audio_channels}
use lwsip.FileDev.Data.{Frame, ReadStep, end_of_file, read_error, frames, FileData, FileEnv}
use lwsip.FileDev.Ops.{
  read_buffer_size, on_read_frame, on_read_frames, Filled, filled, ended, failed, more, fill,
  file_open, file_close, file_start, file_stop, finish_read, file_read_audio, file_write_audio,
  file_flush_audio, get_audio_frame_size,
}

abbrev pub IsBounded : Option FileData → Type 0
IsBounded none = Unit
IsBounded (some d) = length d.read_buffer ≤ read_buffer_size

abbrev pub IsFilledBounded : Filled → Type 0
IsFilledBounded (filled d) = length d.read_buffer ≤ read_buffer_size
IsFilledBounded (ended d) = length d.read_buffer ≤ read_buffer_size
IsFilledBounded (failed d) = length d.read_buffer ≤ read_buffer_size
IsFilledBounded more = Unit

on_read_frame_bound :
    (f : Frame) (d : FileData)
    → length d.read_buffer ≤ read_buffer_size
    → length (on_read_frame f d).read_buffer ≤ read_buffer_size
unfolding on_read_frame
on_read_frame_bound f d h = ground (arith, length-append d.read_buffer f.bytes)

on_read_frames_bound :
    (fs : List Frame) (d : FileData)
    → length d.read_buffer ≤ read_buffer_size
    → length (on_read_frames fs d).read_buffer ≤ read_buffer_size
unfolding on_read_frames
on_read_frames_bound [] d h = h
on_read_frames_bound (f ∷ fs) d h =
    on_read_frames_bound fs (on_read_frame f d) (on_read_frame_bound f d h)

fill-IsFilledBounded :
    (need : ℕ) (steps : List ReadStep) (d : FileData)
    → length d.read_buffer ≤ read_buffer_size
    → IsFilledBounded (fill need steps d)
unfolding fill
fill-IsFilledBounded need [] d h = ground arith
fill-IsFilledBounded need (end_of_file ∷ steps) d h = ground arith
fill-IsFilledBounded need (read_error ∷ steps) d h = ground arith
fill-IsFilledBounded need (frames fs ∷ steps) d h =
    elim (Bool-cases (ltb (length d.read_buffer) need)) [
      | inl short ↦
          rw short
            (fill-IsFilledBounded need steps (on_read_frames fs d) (on_read_frames_bound fs d h))
      | inr enough ↦ rw enough h
    ]

finish_read-IsBounded :
    (need samples : ℕ) (d : FileData) (r : Filled)
    → length d.read_buffer ≤ read_buffer_size
    → IsFilledBounded r
    → IsBounded (finish_read need samples d r).0
unfolding finish_read
finish_read-IsBounded need samples d (filled e) h b = omega (arith, length-drop need e.read_buffer)
finish_read-IsBounded need samples d (ended e) h b = b
finish_read-IsBounded need samples d (failed e) h b = b
finish_read-IsBounded need samples d more h b = h

read-IsBounded :
    (config : ConfigUnion) (samples : ℕ) (d : Option FileData)
    → IsBounded d
    → IsBounded (file_read_audio config samples d).0
unfolding file_read_audio
read-IsBounded config samples none h = tt
read-IsBounded config samples (some d) h = elim (Bool-cases (samples == 0)) [
  | inl empty ↦ rw (empty, file_read_audio) h
  | inr asked ↦ elim (Option-cases d.reader) [
    | inl closed ↦ rw (asked, closed, file_read_audio) h
    | inr (steps, e) ↦
        elim (Option-cases
          (get_audio_frame_size (audio_format config) (audio_channels config) samples)) [
            | inl unknown ↦ rw (asked, e, unknown, file_read_audio) h
            | inr (need, known) ↦
                rw (asked, e, known, file_read_audio)
                  (finish_read-IsBounded need samples d (fill need steps d) h
                    (fill-IsFilledBounded need steps d h))
          ]
  ]
]

-- The calls of the table, in any order.
pub data FileCall : Type 0 where
  open_file : FileEnv → DevType → Bytes → ConfigUnion → FileCall
  close_file start_file stop_file flush_file : FileCall
  read_file : ConfigUnion → ℕ → FileCall
  write_file : FileEnv → ConfigUnion → Bytes → ℕ → FileCall

unfoldable pub file_call : FileCall → Option FileData → Option FileData
file_call (open_file env t name config) d = (file_open env t name config d).0
file_call close_file d = file_close d
file_call start_file d = (file_start d).0
file_call stop_file d = file_stop d
file_call flush_file d = (file_flush_audio d).0
file_call (read_file config samples) d = (file_read_audio config samples d).0
file_call (write_file env config pcm samples) d = (file_write_audio env config pcm samples d).0

unfoldable pub file_calls : List FileCall → Option FileData → Option FileData
file_calls [] d = d
file_calls (c ∷ cs) d = file_calls cs (file_call c d)

open-IsBounded :
    (env : FileEnv) (t : DevType) (name : Bytes) (config : ConfigUnion) (d : Option FileData)
    → IsBounded d
    → IsBounded (file_open env t name config d).0
unfolding file_open
open-IsBounded env t name config d h = ground arith

start-IsBounded : (d : Option FileData) → IsBounded d → IsBounded (file_start d).0
unfolding file_start
start-IsBounded none h = tt
start-IsBounded (some d) h = h

flush-IsBounded : (d : Option FileData) → IsBounded d → IsBounded (file_flush_audio d).0
unfolding file_flush_audio
flush-IsBounded none h = tt
flush-IsBounded (some d) h = omega arith

write-IsBounded :
    (env : FileEnv) (config : ConfigUnion) (pcm : Bytes) (samples : ℕ) (d : Option FileData)
    → IsBounded d
    → IsBounded (file_write_audio env config pcm samples d).0
unfolding file_write_audio
write-IsBounded env config pcm samples none h = tt
write-IsBounded env config pcm samples (some d) h = ground arith

call-IsBounded : (c : FileCall) (d : Option FileData) → IsBounded d → IsBounded (file_call c d)
unfolding file_call file_close file_stop
call-IsBounded (open_file env t name config) d h = open-IsBounded env t name config d h
call-IsBounded close_file d h = tt
call-IsBounded start_file d h = start-IsBounded d h
call-IsBounded stop_file d h = h
call-IsBounded flush_file d h = flush-IsBounded d h
call-IsBounded (read_file config samples) d h = read-IsBounded config samples d h
call-IsBounded (write_file env config pcm samples) d h = write-IsBounded env config pcm samples d h

-- Whatever operations are called from a buffer within its bound on, and whatever frames the file
-- holds, the read buffer never holds more than its 65536 bytes.
pub calls-IsBounded :
    (cs : List FileCall) (d : Option FileData) → IsBounded d → IsBounded (file_calls cs d)
unfolding file_calls
calls-IsBounded [] d h = h
calls-IsBounded (c ∷ cs) d h = calls-IsBounded cs (file_call c d) (call-IsBounded c d h)
