-- ===== src/Dev/Examples.antt =====
-- The device layer on a small backend that counts its starts.
use lwsip.Common.{◌≡◌, refl, ℕ, ◌+◌, true, none, some, List, [], ◌∷◌, pos, take, codes}
use lwsip.Dev.Types.{audio_playback, idle, opened, opening, DevOps, op_open, on_state_changed, Dev}
use lwsip.Dev.Control.{lws_dev_open, change_state, trigger_error}
use lwsip.Dev.Calls.{
  DevCall, open_call, start_call, stop_call, close_call, read_audio_call, flush_call, dev_calls,
}
use lwsip.Dev.Protocol.{Served, calls-Served}

abbrev counting : DevOps ℕ
counting = record {
  open_op = some (λ p. (0, pos 0));
  close_op = some (λ p. p);
  start_op = some (λ p. (p + 1, pos 0));
  stop_op = some (λ p. p);
  read_audio_op = some (λ n p. (p, pos n, take n (1 ∷ 2 ∷ 3 ∷ [])));
  write_audio_op = some (λ input n p. (p, pos n));
  get_audio_avail_op = none;
  flush_audio_op = some (λ p. (p, pos 0));
  read_video_op = none;
  write_video_op = none;
}

abbrev speaker : Dev ℕ
speaker = record {
  type = audio_playback;
  state = idle;
  ops = some counting;
  platform_data = 0;
  device_name = codes "default_1";
  start_timestamp_us = 0;
  has_state_handler = true;
  has_error_handler = true;
}

abbrev busy : List DevCall
busy =
    open_call 500
    ∷ start_call
    ∷ read_audio_call true (pos 2)
    ∷ stop_call
    ∷ start_call
    ∷ flush_call
    ∷ close_call
    ∷ open_call 900
    ∷ []

calls-Served_example : let r = dev_calls busy speaker in Served speaker r.0 r.1
calls-Served_example = calls-Served busy speaker (refl, refl, refl, refl) refl

abbrev open_speaker : Dev ℕ
open_speaker = record speaker { state = opened; start_timestamp_us = 500 }

speaker_opens : lws_dev_open 500 speaker ≡ (
  open_speaker,
  pos 0,
  on_state_changed idle opening ∷ op_open (pos 0) ∷ on_state_changed opening opened ∷ [],
)
unfolding lws_dev_open change_state trigger_error
speaker_opens = refl
