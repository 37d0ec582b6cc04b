-- ===== src/DevLinux.antt =====
-- src/lws_dev_linux.c: the backend for Linux. What ALSA and the allocator answer are arguments.
pub mod Account
pub mod Backend
mod Examples
use lwsip.Common.{
  ℕ, ◌*◌, ◌/◌, Bool, true, false, not, Option, none, some, List, [], ◌∷◌, ◌++◌, if◌then◌else◌, ltb,
  ℤ, pos, negsuc, is_neg, Bytes, take, CString, codes, strncpy,
}
use lwsip.Dev.Types.{DevType, audio_capture, AudioFormat, pcm_s16le, pcm_s16be, pcmu, pcma, DevOps}

-- `snd_pcm_format_t`, as far as it is used.
pub data AlsaFormat : Type 0 where
  s16_le s16_be mu_law a_law : AlsaFormat

unfoldable pub audio_format_to_alsa : AudioFormat → AlsaFormat
audio_format_to_alsa pcm_s16le = s16_le
audio_format_to_alsa pcm_s16be = s16_be
audio_format_to_alsa pcmu = mu_law
audio_format_to_alsa pcma = a_law

-- The calls of the allocator and of ALSA that take, use or give back something.
pub data Effect : Type 0 where
  malloc_data free_data : Effect
  pcm_open : Bytes → (capture refused : Bool) → Effect
  pcm_close pcm_prepare pcm_drop pcm_drain params_free : Effect
  -- Whether there is memory for the parameters; otherwise the pointer stays NULL.
  params_malloc : (given : Bool) → Effect
  -- The calls `snd_pcm_hw_params_any`, `_set_access`, `_set_format`, `_set_rate_near`,
  -- `_set_channels` and `snd_pcm_hw_params`, on the handle and the parameters.
  params_any params_access params_format params_rate params_channels params_apply : Effect
  pcm_readi pcm_writei : ℕ → Effect
  pcm_recover pcm_avail : Effect

-- `lws_dev_linux_data_t`. The handle is there as long as the data is; of the parameters only whether
-- there are some counts.
pub record LinuxData : Type 0 where
  pub sample_rate : ℕ
  pub channels : ℕ
  pub format : AlsaFormat
  pub period_size : ℕ
  pub device_name : Bytes
  pub is_capture : Bool
  pub hw_params : Bool

-- `platform_data`, none for NULL, with the calls made so far.
pub record Platform : Type 0 where
  pub data_ptr : Option LinuxData
  pub calls : List Effect

abbrev pub note : List Effect → Platform → Platform
note es p = record p { calls = p.calls ++ es }

-- The configuration of the device; whether the allocator gives memory, and what the calls of ALSA
-- return, in their order. `near_rate` is the sample rate that it settles on.
pub record OpenEnv : Type 0 where
  pub type : DevType
  pub format : AudioFormat
  pub sample_rate : ℕ
  pub channels : ℕ
  pub frame_duration_ms : ℕ
  pub device_name : CString
  pub has_data : Bool
  pub open_err : ℤ
  pub has_params : Bool
  pub any_err : ℤ
  pub access_err : ℤ
  pub format_err : ℤ
  pub rate_err : ℤ
  pub near_rate : ℕ
  pub channels_err : ℤ
  pub params_err : ℤ

abbrev pub is_capture_type : DevType → Bool
is_capture_type audio_capture = true
is_capture_type _ = false

abbrev pub pcm_name : CString → Bytes
pcm_name (some name) = strncpy 64 name
pcm_name none = strncpy 64 (codes "default")

abbrev pub opened_data : OpenEnv → LinuxData
opened_data env = record {
  sample_rate = env.near_rate;
  channels = env.channels;
  format = audio_format_to_alsa env.format;
  period_size = env.near_rate * env.frame_duration_ms / 1000;
  device_name = pcm_name env.device_name;
  is_capture = is_capture_type env.type;
  hw_params = env.has_params;
}

-- The calls up to the first one on the parameters, and what every failure after it makes.
abbrev pub begun : OpenEnv → List Effect
begun env =
    malloc_data
    ∷ pcm_open (pcm_name env.device_name) (is_capture_type env.type) false
    ∷ params_malloc env.has_params
    ∷ []

abbrev pub undo : List Effect
undo = params_free ∷ pcm_close ∷ free_data ∷ []

abbrev pub configuring : List Effect
configuring =
    params_any ∷ params_access ∷ params_format ∷ params_rate ∷ params_channels ∷ params_apply ∷ []

-- A failure of the call on the parameters with that number, and what it undoes.
unfoldable pub open_failed : (calls_made : ℕ) → OpenEnv → Platform → Platform × ℤ
open_failed calls_made env p =
    (note (begun env ++ (take calls_made configuring ++ undo)) p, negsuc 0)

-- What was in `platform_data` before is not freed. Whether there are parameters is not tested.
unfoldable pub linux_open : OpenEnv → Platform → Platform × ℤ
unfolding open_failed
linux_open env p =
    if not env.has_data
    then (p, negsuc 0)
    else if is_neg env.open_err
    then (
      note
          (malloc_data
            ∷ pcm_open (pcm_name env.device_name) (is_capture_type env.type) true
            ∷ free_data
            ∷ [])
          p,
      negsuc 0,
    )
    else if is_neg env.any_err
    then open_failed 1 env p
    else if is_neg env.access_err
    then open_failed 2 env p
    else if is_neg env.format_err
    then open_failed 3 env p
    else if is_neg env.rate_err
    then open_failed 4 env p
    else if is_neg env.channels_err
    then open_failed 5 env p
    else if is_neg env.params_err
    then open_failed 6 env p
    else (
      record p { data_ptr = some (opened_data env); calls = p.calls ++ (begun env ++ configuring) },
      pos 0,
    )

abbrev pub close_calls : LinuxData → List Effect
close_calls d =
    (if d.hw_params then params_free ∷ [] else []) ++ (pcm_drain ∷ pcm_close ∷ free_data ∷ [])

unfoldable pub linux_close : Platform → Platform
linux_close p = elim p.data_ptr [
  | none ↦ p
  | some d ↦ record p { data_ptr = none; calls = p.calls ++ close_calls d }
]

unfoldable pub linux_start : (prepare_err : ℤ) → Platform → Platform × ℤ
linux_start prepare_err p = elim p.data_ptr [
  | none ↦ (p, negsuc 0)
  | some d ↦ (note (pcm_prepare ∷ []) p, if is_neg prepare_err then negsuc 0 else pos 0)
]

unfoldable pub linux_stop : Platform → Platform
linux_stop p = elim p.data_ptr [ none ↦ p | some d ↦ note (pcm_drop ∷ []) p ]

-- What ALSA returns while the device runs: for a transfer the frames, or an error and how the
-- recovery from it ends.
pub record RunEnv : Type 0 where
  pub prepare_err : ℤ
  pub frames_read : ℤ
  pub bytes_read : Bytes
  pub frames_written : ℤ
  pub recovered : ℤ
  pub avail : ℤ

abbrev pub transferred : (frames recovered : ℤ) → ℤ
transferred frames recovered =
    if is_neg frames then (if is_neg recovered then negsuc 0 else pos 0) else frames

-- `snd_pcm_recover` is called where the transfer failed.
abbrev pub recovery : (frames : ℤ) → List Effect
recovery frames = if is_neg frames then pcm_recover ∷ [] else []

-- The device layer passes a buffer.
unfoldable pub linux_read_audio : RunEnv → ℕ → Platform → Platform × ℤ × Bytes
linux_read_audio env samples p = elim p.data_ptr [
  | none ↦ (p, negsuc 0, [])
  | some d ↦
      if ltb 0 samples
      then (
        note (pcm_readi samples ∷ recovery env.frames_read) p,
        transferred env.frames_read env.recovered,
        env.bytes_read,
      )
      else (p, negsuc 0, [])
]

unfoldable pub linux_write_audio : RunEnv → Bytes → ℕ → Platform → Platform × ℤ
linux_write_audio env input samples p = elim p.data_ptr [
  | none ↦ (p, negsuc 0)
  | some d ↦
      if ltb 0 samples
      then (
        note (pcm_writei samples ∷ recovery env.frames_written) p,
        transferred env.frames_written env.recovered,
      )
      else (p, negsuc 0)
]

unfoldable pub linux_get_audio_avail : RunEnv → Platform → Platform × ℤ
linux_get_audio_avail env p = elim p.data_ptr [
  | none ↦ (p, negsuc 0)
  | some d ↦ (note (pcm_avail ∷ []) p, if is_neg env.avail then pos 0 else env.avail)
]

unfoldable pub linux_flush_audio : Platform → Platform × ℤ
linux_flush_audio p = elim p.data_ptr [
  | none ↦ (p, negsuc 0)
  | some d ↦ (note (pcm_drop ∷ pcm_prepare ∷ []) p, pos 0)
]

unfoldable pub linux_read_video : ℕ → Platform → Platform × ℤ × Bytes
linux_read_video size p = (p, negsuc 0, [])

unfoldable pub linux_write_video : Bytes → ℕ → Platform → Platform × ℤ
linux_write_video input size p = (p, negsuc 0)

unfoldable pub lws_dev_linux_ops : OpenEnv → RunEnv → DevOps Platform
unfolding linux_open linux_close linux_start linux_stop linux_read_audio linux_write_audio
    linux_get_audio_avail linux_flush_audio linux_read_video linux_write_video
lws_dev_linux_ops env run = record {
  open_op = some (linux_open env);
  close_op = some linux_close;
  start_op = some (linux_start run.prepare_err);
  stop_op = some linux_stop;
  read_audio_op = some (linux_read_audio run);
  write_audio_op = some (linux_write_audio run);
  get_audio_avail_op = some (linux_get_audio_avail run);
  flush_audio_op = some linux_flush_audio;
  read_video_op = some linux_read_video;
  write_video_op = some linux_write_video;
}
