-- ===== src/Dev/Backend/Calls.antt =====
-- Any calls on a device whose backend keeps to its contract.
use lwsip.Common.{List, [], ◌∷◌}
use lwsip.Dev.Types.{Dev}
use lwsip.Dev.Control.{lws_dev_close}
use lwsip.Dev.Calls.{
  DevCall, open_call, start_call, stop_call, close_call, avail_call, flush_call, read_audio_call,
  read_video_call, write_audio_call, write_video_call, dev_call, dev_calls,
}
use lwsip.Dev.Backend.{Operations, Contract, Owned}
use lwsip.Dev.Backend.Control.{open-Owned, start-Owned, stop-Owned, close-Owned}
use lwsip.Dev.Backend.Transfer.{
  read_audio-Owned, read_video-Owned, write_audio-Owned, write_video-Owned, avail-Owned,
  flush-Owned,
}

module _ {P : Type 0} {o : Operations P} {Held Free : P → Type 0} (c : Contract o Held Free) where
  call-Owned :
      (k : DevCall) (dev : Dev P) → Owned o Held Free dev → Owned o Held Free (dev_call k dev).0
  unfolding dev_call
  call-Owned (open_call now) dev v = open-Owned c now dev v
  call-Owned start_call dev v = start-Owned c dev v
  call-Owned stop_call dev v = stop-Owned c dev v
  call-Owned close_call dev v = (close-Owned c dev v).0
  call-Owned avail_call dev v = avail-Owned c dev v
  call-Owned flush_call dev v = flush-Owned c dev v
  call-Owned (read_audio_call buf n) dev v = read_audio-Owned c buf n dev v
  call-Owned (read_video_call buf n) dev v = read_video-Owned c buf n dev v
  call-Owned (write_audio_call input n) dev v = write_audio-Owned c input n dev v
  call-Owned (write_video_call input n) dev v = write_video-Owned c input n dev v

  -- The resources of the backend follow the state of the device, and a close at the end leaves none.
  pub calls-Owned :
      (ks : List DevCall) (dev : Dev P)
      → Owned o Held Free dev
      → Owned o Held Free (dev_calls ks dev).0
        × Free (lws_dev_close (dev_calls ks dev).0).0.platform_data
  unfolding dev_calls
  calls-Owned [] dev v = (v, (close-Owned c dev v).1)
  calls-Owned (k ∷ ks) dev v = calls-Owned ks (dev_call k dev).0 (call-Owned k dev v)
