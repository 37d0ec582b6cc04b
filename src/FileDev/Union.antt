-- ===== src/FileDev/Union.antt =====
-- A file reader with the configuration that include/lws_dev.h offers for it: the audio parameters
-- that src/lws_dev_file.c reads share their memory with the path.
use lwsip.Common.{
  Bool-cases, ◌==◌, Option-cases, inl, inr, ◌≡◌, refl, ℕ, arith, Option, none, some, List, [], ◌∷◌,
}
use lwsip.Dev.Timestamp.{lws_audio_calc_frame_size}
use lwsip.FileDev.Config.{lws_dev_init_file_reader_config, audio_format, audio_channels}
use lwsip.FileDev.Data.{FileData, ReadStep, end_of_file, read_error, frames}
use lwsip.FileDev.Ops.{file_read_audio, get_audio_frame_size, fill, finish_read, filled}

empty_frame :
    (path samples : ℕ) (need : ℕ)
    → (let config = lws_dev_init_file_reader_config path in
        get_audio_frame_size (audio_format config) (audio_channels config) samples ≡ some need)
    → need ≡ 0
unfolding lws_dev_init_file_reader_config get_audio_frame_size lws_audio_calc_frame_size
empty_frame path samples need h = ground arith

fill_nothing :
    (steps : List ReadStep) (d : FileData)
    → fill 0 steps d ≡ filled (record d { reader = some steps })
unfolding fill
fill_nothing [] d = ground arith
fill_nothing (end_of_file ∷ steps) d = ground arith
fill_nothing (read_error ∷ steps) d = ground arith
fill_nothing (frames fs ∷ steps) d = ground arith

-- Whatever the path, the file and the number of samples asked for: with the configuration that
-- `lws_dev_init_file_reader_config` makes, a read delivers no byte of audio.
pub read_audio_silent :
    (path samples : ℕ) (d : Option FileData)
    → (file_read_audio (lws_dev_init_file_reader_config path) samples d).2 ≡ []
unfolding file_read_audio finish_read
read_audio_silent path samples none = refl
read_audio_silent path samples (some d) =
    let config = lws_dev_init_file_reader_config path in
    elim (Bool-cases (samples == 0)) [
      | inl empty ↦ rw (empty, file_read_audio) refl
      | inr asked ↦ elim (Option-cases d.reader) [
        | inl closed ↦ rw (asked, closed, file_read_audio) refl
        | inr (steps, opened) ↦
            elim (Option-cases
              (get_audio_frame_size (audio_format config) (audio_channels config) samples)) [
                | inl unknown ↦ rw (asked, opened, unknown, file_read_audio) refl
                | inr (need, known) ↦
                    rw (asked, opened, known, file_read_audio)
                      (rw (empty_frame path samples need known) (rw (fill_nothing steps d) refl))
              ]
      ]
    ]
