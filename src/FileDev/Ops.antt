-- ===== src/FileDev/Ops.antt =====
-- The operations of src/lws_dev_file.c and its operation table.
use lwsip.Common.{
  ℕ, ◌+◌, ◌*◌, ◌/◌, ◌%◌, ◌^◌, Bool, true, false, not, Option, none, some, List, [], ◌∷◌, ◌++◌, ◌&&◌,
  ◌||◌, ltb, leb, ◌==◌, if◌then◌else◌, is_some, ℤ, pos, negsuc, is_neg, Bytes, is_empty, codes,
  strip_prefix, length, take, drop,
}
use lwsip.Dev.Types.{DevType, file_writer, DevOps}
use lwsip.Dev.Timestamp.{lws_audio_calc_frame_size}
use lwsip.FileDev.Config.{
  ConfigUnion, audio_format, audio_sample_rate, audio_channels, file_path, format_of,
}
use lwsip.FileDev.Data.{Frame, ReadStep, end_of_file, read_error, frames, FileData, FileEnv}

-- `read_buffer_size`
abbrev pub read_buffer_size : ℕ
read_buffer_size = 65536

-- `none` is the return value -1.
unfoldable pub get_audio_frame_size : ℕ → (channels samples : ℕ) → Option ℕ
get_audio_frame_size format channels samples = elim (format_of format) [
  | none ↦ none
  | some f ↦ some (lws_audio_calc_frame_size f channels samples)
]

abbrev pub is_writer : DevType → Bool
is_writer file_writer = true
is_writer _ = false

-- The path to open; `none` is "No file path specified".
unfoldable pub chosen_path : DevType → Bytes → ConfigUnion → (ℕ → Bytes) → Option Bytes
chosen_path t device_name config read_string =
    let candidate : Bytes =
      if is_writer t
      then (if is_some (strip_prefix (codes "default_") device_name) then [] else device_name)
      else (if file_path config == 0 then [] else read_string (file_path config)) in
    if is_empty candidate then none else some candidate

-- `memset(data, 0, sizeof(lws_dev_file_data_t))`
abbrev pub zero_data : FileData
zero_data = record {
  is_writing = false;
  has_writer = false;
  audio_track_id = 0;
  reader = none;
  audio_track = 0;
  current_pts_ms = 0;
  samples_written = 0;
  samples_read = 0;
  read_buffer = [];
  written = [];
}

abbrev pub open_writer : FileEnv → ConfigUnion → Option FileData
open_writer env config =
    if env.writer_created
      && (is_some (format_of (audio_format config)) && not (is_neg env.added_track))
    then some (record zero_data {
      is_writing = true;
      has_writer = true;
      audio_track_id = elim env.added_track [ pos n ↦ n | negsuc n ↦ 0 ];
    })
    else none

abbrev pub open_reader : FileEnv → Option FileData
open_reader env = elim env.reader_created [
  | none ↦ none
  | some steps ↦
      if not (is_neg env.track_info) && env.buffer_allocated
      then some (record zero_data { reader = some steps; audio_track = env.found_track })
      else none
]

-- The new `platform_data` and the return value; on failure it stays as it was.
unfoldable pub file_open :
    FileEnv → DevType → Bytes → ConfigUnion → Option FileData → Option FileData × ℤ
unfolding chosen_path
file_open env t device_name config old =
    if env.data_allocated
      && (is_some (chosen_path t device_name config env.read_string) && env.file_opened)
    then (let result : Option FileData =
          if is_writer t then open_writer env config else open_reader env in
        elim result [ none ↦ (old, negsuc 0) | some d ↦ (some d, pos 0) ])
    else (old, negsuc 0)

unfoldable pub file_close : Option FileData → Option FileData
file_close d = none

unfoldable pub file_start : Option FileData → Option FileData × ℤ
file_start none = (none, negsuc 0)
file_start (some d) =
    (some (record d { current_pts_ms = 0; samples_written = 0; samples_read = 0 }), pos 0)

-- `file_stop` only logs.
unfoldable pub file_stop : Option FileData → Option FileData
file_stop d = d

unfoldable pub on_read_frame : Frame → FileData → FileData
on_read_frame f d =
    if not (f.track == d.audio_track)
    then d
    else if leb (length d.read_buffer + length f.bytes) read_buffer_size
    then record d { read_buffer = d.read_buffer ++ f.bytes; current_pts_ms = f.pts }
    else d

unfoldable pub on_read_frames : List Frame → FileData → FileData
on_read_frames [] d = d
on_read_frames (f ∷ fs) d = on_read_frames fs (on_read_frame f d)

-- How the loop that fills the buffer ends. `more` is that the list of results is used up.
pub data Filled : Type 0 where
  filled : FileData → Filled
  ended : FileData → Filled
  failed : FileData → Filled
  more : Filled

-- `while (data->read_buffer_used < (size_t)frame_size)`
unfoldable pub fill : ℕ → List ReadStep → FileData → Filled
fill need [] d =
    if ltb (length d.read_buffer) need then more else filled (record d { reader = some [] })
fill need (end_of_file ∷ steps) d =
    if ltb (length d.read_buffer) need
    then ended (record d { reader = some steps })
    else filled (record d { reader = some (end_of_file ∷ steps) })
fill need (read_error ∷ steps) d =
    if ltb (length d.read_buffer) need
    then failed (record d { reader = some steps })
    else filled (record d { reader = some (read_error ∷ steps) })
fill need (frames fs ∷ steps) d =
    let rest = fill need steps (on_read_frames fs d) in
    if ltb (length d.read_buffer) need
    then rest
    else filled (record d { reader = some (frames fs ∷ steps) })

-- What follows the loop: the copy to the caller's buffer and the shift of the read buffer. `more`
-- is a reader that gives no further result, where the C loop would not return.
unfoldable pub finish_read : (need samples : ℕ) → FileData → Filled → Option FileData × ℤ × Bytes
finish_read need samples d (filled e) = (
  some (record e {
    read_buffer = drop need e.read_buffer;
    samples_read = (e.samples_read + samples) % 2 ^ 32;
  }),
  pos samples,
  take need e.read_buffer,
)
finish_read need samples d (ended e) = (some e, pos 0, [])
finish_read need samples d (failed e) = (some e, negsuc 0, [])
finish_read need samples d more = (some d, negsuc 0, [])

-- The device, the return value and the bytes copied to the caller's buffer. What `mov_reader_read`
-- does with the rest of the buffer, which it is given, shows in the results that it hands over.
unfoldable pub file_read_audio :
    ConfigUnion → (samples : ℕ) → Option FileData → Option FileData × ℤ × Bytes
file_read_audio config samples none = (none, negsuc 0, [])
file_read_audio config samples (some d) =
    if samples == 0 then (some d, negsuc 0, []) else elim d.reader [
      | none ↦ (some d, negsuc 0, [])
      | some steps ↦
          elim (get_audio_frame_size (audio_format config) (audio_channels config) samples) [
            | none ↦ (some d, negsuc 0, [])
            | some need ↦ finish_read need samples d (fill need steps d)
          ]
    ]

-- The presentation time in milliseconds; the sample rate is not 0.
abbrev pub pts_of : ConfigUnion → FileData → ℕ
pts_of config d = d.samples_written * 1000 / audio_sample_rate config

unfoldable pub file_write_audio :
    FileEnv → ConfigUnion → Bytes → (samples : ℕ) → Option FileData → Option FileData × ℤ
file_write_audio env config pcm samples none = (none, negsuc 0)
file_write_audio env config pcm samples (some d) =
    if samples == 0 || not d.has_writer
    then (some d, negsuc 0)
    else elim (get_audio_frame_size (audio_format config) (audio_channels config) samples) [
      | none ↦ (some d, negsuc 0)
      | some size ↦ if env.write_fails (pts_of config d) then (some d, negsuc 0) else (
        some (record d {
          written = (pts_of config d, take size pcm) ∷ d.written;
          samples_written = (d.samples_written + samples) % 2 ^ 32;
          current_pts_ms = pts_of config d;
        }),
        pos samples,
      )
    ]

-- INT32_MAX
unfoldable pub file_get_audio_avail : Option FileData → Option FileData × ℤ
file_get_audio_avail d = (d, pos 2147483647)

unfoldable pub file_flush_audio : Option FileData → Option FileData × ℤ
file_flush_audio none = (none, negsuc 0)
file_flush_audio (some d) = (some (record d { read_buffer = [] }), pos 0)

-- `lws_dev_file_ops` for a device of that type, name and configuration.
unfoldable pub lws_dev_file_ops : FileEnv → DevType → Bytes → ConfigUnion → DevOps (Option FileData)
unfolding file_open file_close file_start file_stop file_read_audio file_write_audio
    file_get_audio_avail file_flush_audio
lws_dev_file_ops env t device_name config = record {
  open_op = some (file_open env t device_name config);
  close_op = some file_close;
  start_op = some file_start;
  stop_op = some file_stop;
  read_audio_op = some (file_read_audio config);
  write_audio_op = some (file_write_audio env config);
  get_audio_avail_op = some file_get_audio_avail;
  flush_audio_op = some file_flush_audio;
  read_video_op = some (λ size d. (d, negsuc 0, []));
  write_video_op = some (λ input size d. (d, negsuc 0));
}
