-- ===== src/Dev/Create.antt =====
-- lws_dev_create of src/lws_dev.c and its choice of a backend.
use lwsip.Common.{
  ℕ, Bool, true, false, Option, none, some, ◌++◌, ◌&&◌, if◌then◌else◌, Bytes, CString, codes, take,
}
use lwsip.Common.Decimal.{decimal}
use lwsip.Dev.Types.{
  DevType, audio_capture, audio_playback, video_capture, video_display, file_reader, file_writer,
  idle, DevOps, Dev,
}

-- The compile-time switches that `select_ops` tests.
pub record Build : Type 0 where
  pub dev_file : Bool
  pub apple : Bool
  pub linux : Bool
  pub dev_stub : Bool

pub data Backend : Type 0 where
  file_backend macos_backend linux_backend stub_backend : Backend

abbrev pub is_file : DevType → Bool
is_file file_reader = true
is_file file_writer = true
is_file _ = false

abbrev pub is_audio : DevType → Bool
is_audio audio_capture = true
is_audio audio_playback = true
is_audio _ = false

unfoldable pub select_ops : Build → DevType → Option Backend
select_ops b t =
    if b.dev_file && is_file t
    then some file_backend
    else if b.apple && is_audio t
    then some macos_backend
    else if b.linux && is_audio t
    then some linux_backend
    else if b.dev_stub
    then some stub_backend
    else none

abbrev pub type_number : DevType → ℕ
type_number audio_capture = 0
type_number audio_playback = 1
type_number video_capture = 2
type_number video_display = 3
type_number file_reader = 4
type_number file_writer = 5

abbrev pub initial_name : CString → DevType → Bytes
initial_name (some name) t = take 127 name
initial_name none t = take 127 (codes "default_" ++ decimal (type_number t))

-- `allocated` is whether `malloc` gave memory, `table` the operation tables of the backends, and
-- `cleared` the platform data of a device that is all zero bytes.
unfoldable pub lws_dev_create :
    {P : Type 0}
    → Build
    → (table : Backend → DevOps P) → (cleared : P) → (allocated : Bool) → DevType
    → CString
    → (has_state_handler has_error_handler : Bool) → Option (Dev P)
lws_dev_create b table cleared allocated t name hs he = elim (select_ops b t) [
  | none ↦ none
  | some backend ↦
      if allocated
      then some (record {
        type = t;
        state = idle;
        ops = some (table backend);
        platform_data = cleared;
        device_name = initial_name name t;
        start_timestamp_us = 0;
        has_state_handler = hs;
        has_error_handler = he;
      })
      else none
]
