-- ===== src/FileDev/Examples.antt =====
-- The file backend on small files.
use lwsip.Common.{
  ◌≡◌, refl, true, false, none, some, List, [], ◌∷◌, ◌++◌, map, pos, arith, take, drop, codes,
}
use lwsip.Dev.Types.{file_reader}
use lwsip.Dev.Timestamp.{lws_audio_calc_frame_size}
use lwsip.FileDev.Config.{init_audio_config, lws_dev_init_file_reader_config}
use lwsip.FileDev.Data.{Frame, frames, end_of_file, FileData, FileEnv}
use lwsip.FileDev.Ops.{zero_data, get_audio_frame_size, file_read_audio}
use lwsip.FileDev.Buffer.{
  IsBounded, open_file, start_file, read_file, flush_file, close_file, FileCall, file_calls,
  calls-IsBounded,
}
use lwsip.FileDev.Stream.{frame_bytes, track_bytes, remaining, read-remaining}

abbrev voice : List Frame
voice =
    record { track = 3; bytes = 1 ∷ 2 ∷ 3 ∷ []; pts = 0 }
    ∷ record { track = 4; bytes = 9 ∷ []; pts = 0 }
    ∷ record { track = 3; bytes = 4 ∷ 5 ∷ []; pts = 20 }
    ∷ []

abbrev player : FileData
player = record zero_data {
  reader = some (map frames (voice ∷ []) ++ end_of_file ∷ []);
  audio_track = 3;
}

two_samples : get_audio_frame_size init_audio_config.word0 init_audio_config.word2 2 ≡ some 4
unfolding init_audio_config get_audio_frame_size lws_audio_calc_frame_size
two_samples = refl

read-remaining_example :
    (d' : FileData) × (file_read_audio init_audio_config 2 (some player)
      ≡ (some d', pos 2, take 4 (remaining player)))
    × (remaining d' ≡ drop 4 (remaining player))
unfolding track_bytes frame_bytes
read-remaining_example =
    read-remaining init_audio_config 2 4 (voice ∷ []) (end_of_file ∷ []) player refl refl
      two_samples (omega arith, tt) (omega arith)

abbrev disk : FileEnv
disk = record {
  data_allocated = true;
  file_opened = true;
  writer_created = true;
  added_track = pos 0;
  reader_created = some (frames voice ∷ []);
  track_info = pos 0;
  found_track = 3;
  buffer_allocated = true;
  write_fails = λ pts. false;
  read_string = λ address. codes "a.mp4";
}

abbrev playing : List FileCall
playing =
    open_file disk file_reader (codes "default_4") (lws_dev_init_file_reader_config 4096)
    ∷ start_file
    ∷ read_file init_audio_config 2
    ∷ flush_file
    ∷ close_file
    ∷ []

calls-IsBounded_example : IsBounded (file_calls playing none)
calls-IsBounded_example = calls-IsBounded playing none tt
