-- ===== src/DevLinux/Examples.antt =====
-- A device with the backend for Linux.
use lwsip.Common.{◌≡◌, refl, true, none, some, [], ◌∷◌, pos, negsuc, codes}
use lwsip.Dev.Types.{Dev, audio_playback, pcm_s16le, idle}
use lwsip.Dev.Control.{lws_dev_close}
use lwsip.Dev.Calls.{dev_calls, open_call, start_call, write_audio_call, stop_call}
use lwsip.Dev.Backend.{is_open}
use lwsip.DevLinux.{Platform, OpenEnv, RunEnv, lws_dev_linux_ops}
use lwsip.DevLinux.Account.{IsHeld, IsFree, accounts}
use lwsip.DevLinux.Backend.{linux_calls_balanced}

abbrev card : OpenEnv
card = record {
  type = audio_playback;
  format = pcm_s16le;
  sample_rate = 8000;
  channels = 1;
  frame_duration_ms = 20;
  device_name = none;
  has_data = true;
  open_err = pos 0;
  has_params = true;
  any_err = pos 0;
  access_err = pos 0;
  format_err = pos 0;
  rate_err = pos 0;
  near_rate = 8000;
  channels_err = pos 0;
  params_err = pos 0;
}

-- A write meets an underrun, and the recovery succeeds.
abbrev underrun : RunEnv
underrun = record {
  prepare_err = pos 0;
  frames_read = pos 0;
  bytes_read = [];
  frames_written = negsuc 31;
  recovered = pos 0;
  avail = pos 160;
}

abbrev speaker : Dev Platform
speaker = record {
  type = audio_playback;
  state = idle;
  ops = some (lws_dev_linux_ops card underrun);
  platform_data = record { data_ptr = none; calls = [] };
  device_name = codes "speaker";
  start_timestamp_us = 0;
  has_state_handler = true;
  has_error_handler = true;
}

linux_calls_balanced_example :
    let after =
      (dev_calls
        (open_call 7
          ∷ start_call
          ∷ write_audio_call (some (1 ∷ 2 ∷ [])) (pos 1)
          ∷ stop_call
          ∷ start_call
          ∷ [])
        speaker).0 in
    (is_open after.state ≡ true → IsHeld after.platform_data)
    × IsFree (lws_dev_close after).0.platform_data
linux_calls_balanced_example =
    linux_calls_balanced card underrun
      (open_call 7
        ∷ start_call
        ∷ write_audio_call (some (1 ∷ 2 ∷ [])) (pos 1)
        ∷ stop_call
        ∷ start_call
        ∷ [])
      speaker refl refl refl (record { absent = refl; settled = unfold accounts in refl })
