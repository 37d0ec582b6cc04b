-- ===== src/Dev/Clock.antt =====
-- The clock of a device: its time stamps and the RTP clock derived from them (src/lws_dev.c).
use lwsip.Common.{zero, suc, refl, List, ℕ, ◌+◌, ◌-◌, ◌*◌, ◌%◌, ◌^◌, ◌≤◌, ◌<◌, ◌≡◌, arith, pos}
use lwsip.Dev.Types.{Dev, DevEvent}
use lwsip.Dev.Control.{trigger_error, lws_dev_open, change_state}
use lwsip.Dev.Timestamp.{
  lws_dev_get_timestamp, lws_dev_to_rtp_timestamp, lws_audio_calc_frame_samples,
}

-- Over any number of whole seconds the RTP clock advances by the sample rate for each, modulo 2^32,
-- as long as the product with the sample rate fits 64 bits.
pub rtp_seconds :
    (t s rate : ℕ)
    → 0 < rate
    → (t + 1000000 * s) * rate < 2 ^ 64
    → lws_dev_to_rtp_timestamp (t + 1000000 * s) (pos rate)
      ≡ (lws_dev_to_rtp_timestamp t (pos rate) + s * rate) % 2 ^ 32
unfolding lws_dev_to_rtp_timestamp
rtp_seconds t s zero h fits = absurd (omega arith)
rtp_seconds t s (suc r) h fits = omega arith

-- At 8000 Hz, each frame of 20 ms advances it by the samples of a frame.
pub rtp_frames :
    (t k : ℕ)
    → (t + 20000 * k) * 8000 < 2 ^ 64
    → (n : ℕ) × (lws_audio_calc_frame_samples (pos 8000) (pos 20) ≡ pos n)
      × (lws_dev_to_rtp_timestamp (t + 20000 * k) (pos 8000)
          ≡ (lws_dev_to_rtp_timestamp t (pos 8000) + k * n) % 2 ^ 32)
unfolding lws_dev_to_rtp_timestamp lws_audio_calc_frame_samples
rtp_frames t k fits = (160, refl, omega arith)

-- A device that was opened successfully gives time stamps from the moment of its opening on.
pub timestamp-open :
    {P : Type 0} (dev dev' : Dev P) (es : List DevEvent) (then_us now : ℕ)
    → lws_dev_open then_us dev ≡ (dev', pos 0, es)
    → then_us ≤ now
    → now < 2 ^ 64
    → lws_dev_get_timestamp now dev' ≡ now - then_us
unfolding lws_dev_open lws_dev_get_timestamp change_state trigger_error
timestamp-open dev dev' es then_us now e h fits = ground arith
