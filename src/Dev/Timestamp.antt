-- ===== src/Dev/Timestamp.antt =====
-- Time stamps and frame sizes (src/lws_dev.c).
use lwsip.Common.{
  ℕ, ◌+◌, ◌-◌, ◌*◌, ◌/◌, ◌%◌, ◌^◌, ◌&&◌, if◌then◌else◌, ℤ, pos, negsuc, is_pos, pos_part,
}
use lwsip.Dev.Types.{Dev}

module _ {P : Type 0} where
  -- uint64_t subtraction
  unfoldable pub lws_dev_get_timestamp : (now : ℕ) → Dev P → ℕ
  lws_dev_get_timestamp now dev = (now + 2 ^ 64 - dev.start_timestamp_us) % 2 ^ 64

-- `(uint32_t)((dev_timestamp * sample_rate) / 1000000)`, the product in uint64_t
unfoldable pub lws_dev_to_rtp_timestamp : ℕ → ℤ → ℕ
lws_dev_to_rtp_timestamp dev_timestamp sample_rate =
    if is_pos sample_rate
    then (dev_timestamp * pos_part sample_rate) % 2 ^ 64 / 1000000 % 2 ^ 32
    else 0

pub data AudioFormat : Type 0 where
  pcm_s16le pcm_s16be pcmu pcma : AudioFormat

abbrev pub bytes_per_sample : AudioFormat → ℕ
bytes_per_sample pcm_s16le = 2
bytes_per_sample pcm_s16be = 2
bytes_per_sample pcmu = 1
bytes_per_sample pcma = 1

-- For sizes that fit an `int`; C leaves an overflow undefined. A format that is none of the enum, for
-- which the code returns -1, has no counterpart here.
unfoldable pub lws_audio_calc_frame_size : AudioFormat → (channels samples : ℕ) → ℕ
lws_audio_calc_frame_size format channels samples = bytes_per_sample format * channels * samples

unfoldable pub lws_audio_calc_frame_samples : ℤ → ℤ → ℤ
lws_audio_calc_frame_samples sample_rate frame_duration_ms =
    if is_pos sample_rate && is_pos frame_duration_ms
    then pos (pos_part sample_rate * pos_part frame_duration_ms / 1000)
    else negsuc 0
