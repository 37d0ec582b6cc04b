-- ===== src/FileDev/Config.antt =====
-- The union of `lws_dev_config_t` (include/lws_dev.h) as the 32-bit words that its members share on
-- a machine with 8-byte little-endian pointers.
use lwsip.Common.{ℕ, ◌+◌, ◌*◌, ◌/◌, ◌%◌, ◌^◌, Option, none, some, ◌==◌, if◌then◌else◌}
use lwsip.Dev.Timestamp.{AudioFormat, pcm_s16le, pcm_s16be, pcmu, pcma}

-- `audio` reads format, sample_rate, channels, frame_duration_ms, latency_ms; `file` reads the
-- pointer file_path from the first two words, and loop from the third.
pub record ConfigUnion : Type 0 where
  pub word0 : ℕ
  pub word1 : ℕ
  pub word2 : ℕ
  pub word3 : ℕ
  pub word4 : ℕ

abbrev pub audio_format : ConfigUnion → ℕ
audio_format u = u.word0

abbrev pub audio_sample_rate : ConfigUnion → ℕ
audio_sample_rate u = u.word1

abbrev pub audio_channels : ConfigUnion → ℕ
audio_channels u = u.word2

abbrev pub file_path : ConfigUnion → ℕ
file_path u = u.word0 + 2 ^ 32 * u.word1

-- `lws_dev_init_file_reader_config`: all zero, then the path; `loop` is 0.
unfoldable pub lws_dev_init_file_reader_config : ℕ → ConfigUnion
lws_dev_init_file_reader_config path = record {
  word0 = path % 2 ^ 32;
  word1 = path / 2 ^ 32;
  word2 = 0;
  word3 = 0;
  word4 = 0;
}

-- `lws_dev_init_audio_capture_config` and `lws_dev_init_audio_playback_config`
unfoldable pub init_audio_config : ConfigUnion
init_audio_config = record { word0 = 0; word1 = 8000; word2 = 1; word3 = 20; word4 = 100 }

-- The enumerator that a number stands for; `default` of a switch is `none`.
abbrev pub format_of : ℕ → Option AudioFormat
format_of n =
    if n == 0
    then some pcm_s16le
    else if n == 1
    then some pcm_s16be
    else if n == 2
    then some pcmu
    else if n == 3
    then some pcma
    else none
