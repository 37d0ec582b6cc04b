-- ===== src/DevMacos/Types.antt =====
-- The data of src/lws_dev_macos.c and the format that it asks AudioToolbox for.
use lwsip.Common.{ℕ, ◌*◌, Bool, true, false, Option, none, some, List, ◌++◌}
use lwsip.Dev.Types.{DevType, audio_capture, AudioFormat, pcm_s16le, pcm_s16be, pcmu, pcma}
use lwsip.DevMacos.Ring.{Ring}

pub data FormatId : Type 0 where
  linear_pcm ulaw alaw : FormatId

-- `AudioStreamBasicDescription`; the identifier is `none` for 0, and the flags are those for packed
-- signed integers or none.
pub record StreamFormat : Type 0 where
  pub sample_rate : ℕ
  pub channels_per_frame : ℕ
  pub format_id : Option FormatId
  pub signed_packed : Bool
  pub bits_per_channel : ℕ
  pub bytes_per_frame : ℕ
  pub bytes_per_packet : ℕ
  pub frames_per_packet : ℕ

-- The calls of the allocator, of the threads library and of AudioToolbox, where they succeed. A buffer of the queue is
-- its index, and `fill_silence` says how many bytes of it are cleared.
pub data Effect : Type 0 where
  malloc_data free_data mutex_init mutex_destroy cond_init cond_destroy cond_signal : Effect
  queue_new : (input : Bool) → Effect
  queue_start queue_stop queue_dispose : Effect
  buffer_new buffer_free buffer_enqueue : ℕ → Effect
  fill_silence : ℕ → ℕ → Effect
  ring_malloc : ℕ → Effect
  ring_free_call : Effect

-- `lws_dev_macos_data_t`. The queue, its three buffers and the memory of the ring are there as long
-- as the data is.
pub record MacosData : Type 0 where
  pub format : StreamFormat
  pub sample_rate : ℕ
  pub channels : ℕ
  pub frame_duration_ms : ℕ
  pub is_capture : Bool
  pub ring : Ring
  pub is_running : Bool

-- `platform_data`, none for NULL, with the calls made so far, and whether the program has divided
-- by zero, which ends it.
pub record Platform : Type 0 where
  pub data_ptr : Option MacosData
  pub calls : List Effect
  pub faulted : Bool

abbrev pub note : List Effect → Platform → Platform
note es p = record p { calls = p.calls ++ es }

-- A function on the data, with the calls that it makes.
abbrev pub keep : Platform → MacosData × List Effect → Platform
keep p r = record p { data_ptr = some r.0; calls = p.calls ++ r.1 }

abbrev pub is_capture_type : DevType → Bool
is_capture_type audio_capture = true
is_capture_type _ = false

abbrev pub frame_format :
    (sample_rate channels bits bytes : ℕ) → (signed : Bool) → FormatId → StreamFormat
frame_format sample_rate channels bits bytes signed id = record {
  sample_rate = sample_rate;
  channels_per_frame = channels;
  format_id = some id;
  signed_packed = signed;
  bits_per_channel = bits;
  bytes_per_frame = bytes * channels;
  bytes_per_packet = bytes * channels;
  frames_per_packet = 1;
}

-- A format that the switch does not know is only logged.
unfoldable pub setup_audio_format : AudioFormat → (sample_rate channels : ℕ) → StreamFormat
setup_audio_format pcm_s16le sample_rate channels =
    frame_format sample_rate channels 16 2 true linear_pcm
setup_audio_format pcmu sample_rate channels = frame_format sample_rate channels 8 1 false ulaw
setup_audio_format pcma sample_rate channels = frame_format sample_rate channels 8 1 false alaw
setup_audio_format pcm_s16be sample_rate channels = record {
  sample_rate = sample_rate;
  channels_per_frame = channels;
  format_id = none;
  signed_packed = false;
  bits_per_channel = 0;
  bytes_per_frame = 0;
  bytes_per_packet = 0;
  frames_per_packet = 0;
}
