-- ===== src/FileDev/Data.antt =====
-- What the file backend keeps for a device (`lws_dev_file_data_t`), and what it depends on.
use lwsip.Common.{ℕ, Bool, Option, List, ℤ, Bytes}

pub record Frame : Type 0 where
  pub track : ℕ
  pub bytes : Bytes
  pub pts : ℕ

-- One call of `mov_reader_read`: end of file, an error, or the frames that it hands to
-- `on_read_frame` before it returns a positive number.
pub data ReadStep : Type 0 where
  end_of_file read_error : ReadStep
  frames : List Frame → ReadStep

pub record FileData : Type 0 where
  pub is_writing : Bool
  pub has_writer : Bool
  pub audio_track_id : ℕ
  -- `none` is no reader; otherwise the results of the calls to come.
  pub reader : Option (List ReadStep)
  pub audio_track : ℕ
  pub current_pts_ms : ℕ
  pub samples_written : ℕ
  pub samples_read : ℕ
  -- The first `read_buffer_used` bytes of `read_buffer`.
  pub read_buffer : Bytes
  -- What was handed to `mp4_writer_write`, latest first.
  pub written : List (ℕ × Bytes)

-- The answers of libmov, the file system and the allocator while a file is opened.
pub record FileEnv : Type 0 where
  pub data_allocated : Bool
  pub file_opened : Bool
  pub writer_created : Bool
  pub added_track : ℤ
  pub reader_created : Option (List ReadStep)
  pub track_info : ℤ
  pub found_track : ℕ
  pub buffer_allocated : Bool
  -- Whether a call of `mp4_writer_write` with that presentation time fails.
  pub write_fails : ℕ → Bool
  -- The text at an address.
  pub read_string : ℕ → Bytes
