-- ===== src/Dev/Calls.antt =====
-- Sequences of calls of the device API.
use lwsip.Common.{ℕ, Bool, Option, List, [], ◌∷◌, ◌++◌, ℤ, Bytes}
use lwsip.Dev.Types.{DevEvent, Dev}
use lwsip.Dev.Control.{lws_dev_open, lws_dev_start, lws_dev_stop, lws_dev_close}
use lwsip.Dev.Transfer.{
  lws_dev_read_audio, lws_dev_read_video, lws_dev_write_audio, lws_dev_write_video,
  lws_dev_get_audio_avail, lws_dev_flush_audio,
}

pub data DevCall : Type 0 where
  open_call : ℕ → DevCall
  start_call stop_call close_call avail_call flush_call : DevCall
  read_audio_call read_video_call : Bool → ℤ → DevCall
  write_audio_call write_video_call : Option Bytes → ℤ → DevCall

module _ {P : Type 0} where
  -- The device after a call, and what the call did.
  unfoldable pub dev_call : DevCall → Dev P → Dev P × List DevEvent
  dev_call (open_call now) dev = let r = lws_dev_open now dev in (r.0, r.2)
  dev_call start_call dev = let r = lws_dev_start dev in (r.0, r.2)
  dev_call stop_call dev = lws_dev_stop dev
  dev_call close_call dev = lws_dev_close dev
  dev_call avail_call dev = let r = lws_dev_get_audio_avail dev in (r.0, r.2)
  dev_call flush_call dev = let r = lws_dev_flush_audio dev in (r.0, r.2)
  dev_call (read_audio_call buf n) dev = let r = lws_dev_read_audio buf n dev in (r.0, r.3)
  dev_call (read_video_call buf n) dev = let r = lws_dev_read_video buf n dev in (r.0, r.3)
  dev_call (write_audio_call input n) dev = let r = lws_dev_write_audio input n dev in (r.0, r.2)
  dev_call (write_video_call input n) dev = let r = lws_dev_write_video input n dev in (r.0, r.2)

  unfoldable pub dev_calls : List DevCall → Dev P → Dev P × List DevEvent
  dev_calls [] dev = (dev, [])
  dev_calls (c ∷ cs) dev =
      let (dev1, es1) = dev_call c dev in let (dev2, es2) = dev_calls cs dev1 in (dev2, es1 ++ es2)
