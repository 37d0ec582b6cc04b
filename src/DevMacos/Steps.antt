-- ===== src/DevMacos/Steps.antt =====
-- What happens to an open device of src/lws_dev_macos.c: the calls of the device layer and the
-- callbacks of the audio thread, in any order.
use lwsip.Common.{ℕ, Bool, none, some, List, [], ◌∷◌, ℤ, pos, Bytes}
use lwsip.DevMacos.Types.{Platform, keep}
use lwsip.DevMacos.Audio.{audio_input_callback, audio_output_callback}
use lwsip.DevMacos.Ops.{
  ReadEnv, macos_start, macos_stop, macos_read_audio, macos_write_audio, macos_get_audio_avail,
  macos_flush_audio,
}

pub data AudioStep : Type 0 where
  read : ReadEnv → ℕ → AudioStep
  write : Bytes → ℕ → AudioStep
  avail flush stop : AudioStep
  start : Bool → AudioStep
  input : ℕ → Bytes → AudioStep
  output : ℕ → ℕ → AudioStep

-- What a step returns, and the bytes that it hands to the caller or to the queue.
pub record Reply : Type 0 where
  pub result : ℤ
  pub bytes : Bytes

abbrev pub reply : ℤ → Bytes → Reply
reply result bytes = record { result = result; bytes = bytes }

unfoldable pub audio_step : AudioStep → Platform → Platform × Reply
unfolding audio_input_callback audio_output_callback macos_start macos_stop macos_read_audio
    macos_write_audio macos_get_audio_avail macos_flush_audio
audio_step (read env samples) p = let r = macos_read_audio env samples p in (r.0, reply r.1 r.2)
audio_step (write bytes samples) p =
    let r = macos_write_audio bytes samples p in (r.0, reply r.1 [])
audio_step avail p = let r = macos_get_audio_avail p in (r.0, reply r.1 [])
audio_step flush p = let r = macos_flush_audio p in (r.0, reply r.1 [])
audio_step stop p = (macos_stop p, reply (pos 0) [])
audio_step (start started) p = let r = macos_start started p in (r.0, reply r.1 [])
audio_step (input i bytes) p = elim p.data_ptr [
  | none ↦ (p, reply (pos 0) [])
  | some d ↦ (keep p (audio_input_callback i bytes d), reply (pos 0) [])
]
audio_step (output i capacity) p = elim p.data_ptr [
  | none ↦ (p, reply (pos 0) [])
  | some d ↦ let r = audio_output_callback i capacity d in (keep p (r.0, r.2), reply (pos 0) r.1)
]

unfoldable pub audio_steps : List AudioStep → Platform → Platform × List Reply
audio_steps [] p = (p, [])
audio_steps (s ∷ ss) p =
    let r = audio_step s p in let rest = audio_steps ss r.0 in (rest.0, r.1 ∷ rest.1)
