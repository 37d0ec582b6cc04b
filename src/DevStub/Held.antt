-- ===== src/DevStub/Held.antt =====
-- The memory of the stub backend over any calls of the device layer (src/lws_dev_stub.c over
-- src/lws_dev.c).
use lwsip.Common.{
  Bytes, ◌≡◌, ℕ, Bool, true, false, Option, some, List, [], ◌∷◌, arith, is_some, if◌then◌else◌, ℤ,
  Bool-cases, inl, inr,
}
use lwsip.Dev.Types.{DevState, opened, started, stopped, may_open, Dev}
use lwsip.Dev.Control.{
  change_state, trigger_error, lws_dev_open, lws_dev_start, lws_dev_stop, lws_dev_close,
  finish_close,
}
use lwsip.Dev.Transfer.{
  lws_dev_read_audio, lws_dev_read_video, lws_dev_write_audio, lws_dev_write_video,
  lws_dev_get_audio_avail, lws_dev_flush_audio, transfer_guard,
}
use lwsip.Dev.Calls.{
  DevCall, open_call, start_call, stop_call, close_call, avail_call, flush_call, read_audio_call,
  read_video_call, write_audio_call, write_video_call, dev_call, dev_calls,
}
use lwsip.DevStub.{
  Platform, StubEnv, lws_dev_stub_ops, stub_open, stub_close, stub_start, stub_stop,
  stub_read_audio, stub_write_audio, stub_get_audio_avail, stub_flush_audio, stub_read_video,
  stub_write_video,
}

-- The states in which the hardware is held.
abbrev pub holds_data : DevState → Bool
holds_data opened = true
holds_data started = true
holds_data stopped = true
holds_data _ = false

-- The device works through the stub, and has its two blocks in these states and none in the others.
pub record IsHeld (env : StubEnv) (dev : Dev Platform) : Type 0 where
  pub backend : dev.ops ≡ some (lws_dev_stub_ops env)
  pub present : is_some dev.platform_data.data_ptr ≡ holds_data dev.state
  pub counted : dev.platform_data.blocks ≡ (if holds_data dev.state then 2 else 0)

open-IsHeld :
    (env : StubEnv) (now : ℕ) (dev : Dev Platform)
    → IsHeld env dev
    → IsHeld env (lws_dev_open now dev).0
unfolding lws_dev_open change_state trigger_error stub_open lws_dev_stub_ops
open-IsHeld env now dev h = ground (arith, h.backend, h.present, h.counted)

start-IsHeld :
    (env : StubEnv) (dev : Dev Platform) → IsHeld env dev → IsHeld env (lws_dev_start dev).0
unfolding lws_dev_start change_state trigger_error stub_start lws_dev_stub_ops
start-IsHeld env dev h = ground (arith, h.backend, h.present, h.counted)

stop-IsHeld :
    (env : StubEnv) (dev : Dev Platform) → IsHeld env dev → IsHeld env (lws_dev_stop dev).0
unfolding lws_dev_stop change_state stub_stop lws_dev_stub_ops
stop-IsHeld env dev h = ground (arith, h.backend, h.present, h.counted)

-- A close leaves a device that may be opened, without memory.
finish_close-IsHeld :
    (env : StubEnv) (dev : Dev Platform)
    → IsHeld env dev
    → IsHeld env (finish_close dev).0 × ((finish_close dev).0.platform_data.blocks ≡ 0)
unfolding finish_close change_state stub_close lws_dev_stub_ops
finish_close-IsHeld env dev h = ground (arith, h.backend, h.present, h.counted)

close-IsHeld :
    (env : StubEnv) (dev : Dev Platform)
    → IsHeld env dev
    → IsHeld env (lws_dev_close dev).0 × ((lws_dev_close dev).0.platform_data.blocks ≡ 0)
unfolding lws_dev_close
close-IsHeld env dev h = elim (Bool-cases (may_open dev.state)) [
  | inl shut ↦ rw shut (h, ground (arith, h.counted))
  | inr running ↦ rw running (finish_close-IsHeld env (lws_dev_stop dev).0 (stop-IsHeld env dev h))
]

read_audio-IsHeld :
    (env : StubEnv) (buf : Bool) (n : ℤ) (dev : Dev Platform)
    → IsHeld env dev
    → IsHeld env (lws_dev_read_audio buf n dev).0
unfolding lws_dev_read_audio transfer_guard stub_read_audio lws_dev_stub_ops
read_audio-IsHeld env buf n dev h = ground (arith, h.backend, h.present, h.counted)

read_video-IsHeld :
    (env : StubEnv) (buf : Bool) (n : ℤ) (dev : Dev Platform)
    → IsHeld env dev
    → IsHeld env (lws_dev_read_video buf n dev).0
unfolding lws_dev_read_video transfer_guard stub_read_video lws_dev_stub_ops
read_video-IsHeld env buf n dev h = ground (arith, h.backend, h.present, h.counted)

write_audio-IsHeld :
    (env : StubEnv) (input : Option Bytes) (n : ℤ) (dev : Dev Platform)
    → IsHeld env dev
    → IsHeld env (lws_dev_write_audio input n dev).0
unfolding lws_dev_write_audio transfer_guard stub_write_audio lws_dev_stub_ops
write_audio-IsHeld env input n dev h = ground (arith, h.backend, h.present, h.counted)

write_video-IsHeld :
    (env : StubEnv) (input : Option Bytes) (n : ℤ) (dev : Dev Platform)
    → IsHeld env dev
    → IsHeld env (lws_dev_write_video input n dev).0
unfolding lws_dev_write_video transfer_guard stub_write_video lws_dev_stub_ops
write_video-IsHeld env input n dev h = ground (arith, h.backend, h.present, h.counted)

buffer-IsHeld :
    (env : StubEnv) (dev : Dev Platform)
    → IsHeld env dev
    → IsHeld env (lws_dev_get_audio_avail dev).0 × IsHeld env (lws_dev_flush_audio dev).0
unfolding lws_dev_get_audio_avail lws_dev_flush_audio stub_get_audio_avail stub_flush_audio
    lws_dev_stub_ops
buffer-IsHeld env dev h = ground (arith, h.backend, h.present, h.counted)

call-IsHeld :
    (env : StubEnv) (c : DevCall) (dev : Dev Platform)
    → IsHeld env dev
    → IsHeld env (dev_call c dev).0
unfolding dev_call
call-IsHeld env (open_call now) dev h = open-IsHeld env now dev h
call-IsHeld env start_call dev h = start-IsHeld env dev h
call-IsHeld env stop_call dev h = stop-IsHeld env dev h
call-IsHeld env close_call dev h = (close-IsHeld env dev h).0
call-IsHeld env avail_call dev h = (buffer-IsHeld env dev h).0
call-IsHeld env flush_call dev h = (buffer-IsHeld env dev h).1
call-IsHeld env (read_audio_call buf n) dev h = read_audio-IsHeld env buf n dev h
call-IsHeld env (read_video_call buf n) dev h = read_video-IsHeld env buf n dev h
call-IsHeld env (write_audio_call input n) dev h = write_audio-IsHeld env input n dev h
call-IsHeld env (write_video_call input n) dev h = write_video-IsHeld env input n dev h

-- Over any calls of the device layer on a device with the stub backend, whose memory is as its
-- state says: the backend holds its two blocks exactly while the device is opened, started or
-- stopped, also where an allocation fails or a call comes out of order; and when the device is
-- closed afterwards, none is left.
pub calls-IsHeld :
    (env : StubEnv) (cs : List DevCall) (dev : Dev Platform)
    → IsHeld env dev
    → let after = (dev_calls cs dev).0 in
      IsHeld env after × ((lws_dev_close after).0.platform_data.blocks ≡ 0)
unfolding dev_calls
calls-IsHeld env [] dev h = (h, (close-IsHeld env dev h).1)
calls-IsHeld env (c ∷ cs) dev h = calls-IsHeld env cs (dev_call c dev).0 (call-IsHeld env c dev h)
