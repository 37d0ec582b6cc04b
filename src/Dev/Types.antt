-- ===== src/Dev/Types.antt =====
-- The data of the device layer (include/lws_dev.h, src/lws_dev_intl.h).
use lwsip.Common.{ℕ, Bool, true, false, Option, ℤ, Bytes}

pub data DevType : Type 0 where
  audio_capture audio_playback video_capture video_display file_reader file_writer : DevType

pub data AudioFormat : Type 0 where
  pcm_s16le pcm_s16be pcmu pcma : AudioFormat

pub data DevState : Type 0 where
  idle opening opened started stopped closed error : DevState

abbrev pub same_state : DevState → DevState → Bool
same_state idle idle = true
same_state opening opening = true
same_state opened opened = true
same_state started started = true
same_state stopped stopped = true
same_state closed closed = true
same_state error error = true
same_state _ _ = false

-- The operation table; `none` is a NULL entry. An operation may change the platform data, and
-- returns what its C function returns; a read also returns the samples that it wrote to the buffer.
pub record DevOps (P : Type 0) : Type 0 where
  pub open_op : Option (P → P × ℤ)
  pub close_op : Option (P → P)
  pub start_op : Option (P → P × ℤ)
  pub stop_op : Option (P → P)
  pub read_audio_op : Option (ℕ → P → P × ℤ × Bytes)
  pub write_audio_op : Option (Bytes → ℕ → P → P × ℤ)
  pub get_audio_avail_op : Option (P → P × ℤ)
  pub flush_audio_op : Option (P → P × ℤ)
  pub read_video_op : Option (ℕ → P → P × ℤ × Bytes)
  pub write_video_op : Option (Bytes → ℕ → P → P × ℤ)

-- The calls of the backend and of the application's handler, in their order.
pub data DevEvent : Type 0 where
  op_open : ℤ → DevEvent
  op_close : DevEvent
  op_start : ℤ → DevEvent
  op_stop op_read op_write op_avail op_flush : DevEvent
  on_state_changed : DevState → DevState → DevEvent
  on_error : ℤ → DevEvent

pub record Dev (P : Type 0) : Type 0 where
  pub type : DevType
  pub state : DevState
  pub ops : Option (DevOps P)
  pub platform_data : P
  pub device_name : Bytes
  pub start_timestamp_us : ℕ
  pub has_state_handler : Bool
  pub has_error_handler : Bool

abbrev pub may_open : DevState → Bool
may_open idle = true
may_open closed = true
may_open _ = false

abbrev pub may_start : DevState → Bool
may_start opened = true
may_start stopped = true
may_start _ = false
