-- ===== src/DevStub.antt =====
-- src/lws_dev_stub.c: the backend for embedded systems, as an operation table of the device layer.
-- Its memory is seen as the number of blocks that are allocated and not freed.
pub mod Held
use lwsip.Common.{
  ℕ, zero, suc, ◌+◌, ◌-◌, ◌*◌, Bool, true, false, not, Option, none, some, [], ◌∷◌, if◌then◌else◌,
  ltb, ℤ, pos, negsuc, Bytes,
}
use lwsip.Dev.Types.{DevType, audio_capture, DevOps}

-- `lws_dev_stub_data_t`; the buffer is there as long as the data is.
pub record StubData : Type 0 where
  pub sample_rate : ℕ
  pub channels : ℕ
  pub is_capture : Bool
  pub buffer_size : ℕ

-- `platform_data`, none for NULL, and the blocks that are allocated.
pub record Platform : Type 0 where
  pub data_ptr : Option StubData
  pub blocks : ℕ

abbrev pub cleared : Platform
cleared = record { data_ptr = none; blocks = 0 }

-- The configuration of the device, and whether the two calls of `malloc` give memory.
pub record StubEnv : Type 0 where
  pub type : DevType
  pub sample_rate : ℕ
  pub channels : ℕ
  pub has_data : Bool
  pub has_buffer : Bool

abbrev pub is_capture_type : DevType → Bool
is_capture_type audio_capture = true
is_capture_type _ = false

-- What was in `platform_data` before is not freed.
unfoldable pub stub_open : StubEnv → Platform → Platform × ℤ
stub_open env p =
    if not env.has_data
    then (p, negsuc 0)
    else if not env.has_buffer
    then (record p { blocks = (p.blocks + 1) - 1 }, negsuc 0)
    else (
      record {
        data_ptr = some (record {
          sample_rate = env.sample_rate;
          channels = env.channels;
          is_capture = is_capture_type env.type;
          buffer_size = env.sample_rate * 2 * env.channels;
        });
        blocks = p.blocks + 2;
      },
      pos 0,
    )

unfoldable pub stub_close : Platform → Platform
stub_close p = elim p.data_ptr [
  | none ↦ p
  | some d ↦ record { data_ptr = none; blocks = p.blocks - 2 }
]

unfoldable pub stub_start : Platform → Platform × ℤ
stub_start p = elim p.data_ptr [ none ↦ (p, negsuc 0) | some d ↦ (p, pos 0) ]

unfoldable pub stub_stop : Platform → Platform
stub_stop p = p

abbrev pub silence : ℕ → Bytes
silence zero = []
silence (suc n) = 0 ∷ silence n

-- The device layer passes a buffer and a number of samples above 0.
unfoldable pub stub_read_audio : ℕ → Platform → Platform × ℤ × Bytes
stub_read_audio samples p = elim p.data_ptr [
  | none ↦ (p, negsuc 0, [])
  | some d ↦
      if ltb 0 samples
      then (p, pos samples, silence (samples * (2 * d.channels)))
      else (p, negsuc 0, [])
]

unfoldable pub stub_write_audio : Bytes → ℕ → Platform → Platform × ℤ
stub_write_audio input samples p = elim p.data_ptr [
  | none ↦ (p, negsuc 0)
  | some d ↦ if ltb 0 samples then (p, pos samples) else (p, negsuc 0)
]

unfoldable pub stub_get_audio_avail : Platform → Platform × ℤ
stub_get_audio_avail p = elim p.data_ptr [ none ↦ (p, negsuc 0) | some d ↦ (p, pos 4096) ]

unfoldable pub stub_flush_audio : Platform → Platform × ℤ
stub_flush_audio p = elim p.data_ptr [ none ↦ (p, negsuc 0) | some d ↦ (p, pos 0) ]

unfoldable pub stub_read_video : ℕ → Platform → Platform × ℤ × Bytes
stub_read_video size p = (p, negsuc 0, [])

unfoldable pub stub_write_video : Bytes → ℕ → Platform → Platform × ℤ
stub_write_video input size p = (p, negsuc 0)

unfoldable pub lws_dev_stub_ops : StubEnv → DevOps Platform
unfolding stub_open stub_close stub_start stub_stop stub_read_audio stub_write_audio
    stub_get_audio_avail stub_flush_audio stub_read_video stub_write_video
lws_dev_stub_ops env = record {
  open_op = some (stub_open env);
  close_op = some stub_close;
  start_op = some stub_start;
  stop_op = some stub_stop;
  read_audio_op = some stub_read_audio;
  write_audio_op = some stub_write_audio;
  get_audio_avail_op = some stub_get_audio_avail;
  flush_audio_op = some stub_flush_audio;
  read_video_op = some stub_read_video;
  write_video_op = some stub_write_video;
}
