-- ===== src/DevMacos/Open.antt =====
-- macos_open and macos_close of src/lws_dev_macos.c.
use lwsip.Common.{
  ℕ, zero, suc, ◌+◌, ◌*◌, ◌/◌, Bool, false, not, Option, none, some, List, [], ◌∷◌, ◌++◌,
  if◌then◌else◌, ℤ, pos, negsuc, Bytes,
}
use lwsip.Dev.Types.{DevType, AudioFormat}
use lwsip.DevMacos.Types.{
  StreamFormat, Effect, malloc_data, free_data, mutex_init, mutex_destroy, cond_init, cond_destroy,
  queue_new, queue_stop, queue_dispose, buffer_new, buffer_free, buffer_enqueue, fill_silence,
  ring_malloc, ring_free_call, MacosData, Platform, note, is_capture_type, setup_audio_format,
}

-- The configuration of the device, and what the allocator and AudioToolbox answer: for a buffer of
-- the queue by its index, for the memory of the ring by its size, with what it happens to hold.
pub record OpenEnv : Type 0 where
  pub type : DevType
  pub format : AudioFormat
  pub sample_rate : ℕ
  pub channels : ℕ
  pub frame_duration_ms : ℕ
  pub has_data : Bool
  pub queue_made : Bool
  pub buffer_made : ℕ → Bool
  pub ring_memory : ℕ → Option Bytes

abbrev pub num_buffers : ℕ
num_buffers = 3

unfoldable pub free_buffers : (i left : ℕ) → List Effect
free_buffers i zero = []
free_buffers i (suc left) = buffer_free i ∷ free_buffers (i + 1) left

-- The loop that allocates and enqueues the buffers from `i` on, with the index at which it fails.
unfoldable pub make_buffers :
    (made : ℕ → Bool) → (capture : Bool) → (size i left : ℕ) → List Effect × Option ℕ
make_buffers made capture size i zero = ([], none)
make_buffers made capture size i (suc left) =
    let rest = make_buffers made capture size (i + 1) left in
    if made i
    then (
      buffer_new i
          ∷ ((if capture then [] else fill_silence i size ∷ []) ++ (buffer_enqueue i ∷ rest.0)),
      rest.1,
    )
    else ([], some i)

abbrev pub dispose_queue : ℕ → List Effect
dispose_queue n = free_buffers 0 n ++ (queue_dispose ∷ [])

abbrev pub drop_data : List Effect
drop_data = mutex_destroy ∷ cond_destroy ∷ free_data ∷ []

abbrev pub begin_open : List Effect
begin_open = malloc_data ∷ mutex_init ∷ cond_init ∷ []

abbrev pub opened_data : OpenEnv → StreamFormat → (size : ℕ) → Bytes → MacosData
opened_data env format size bytes = record {
  format = format;
  sample_rate = env.sample_rate;
  channels = env.channels;
  frame_duration_ms = env.frame_duration_ms;
  is_capture = is_capture_type env.type;
  ring = record { bytes = bytes; size = size; read_pos = 0; write_pos = 0; used = 0 };
  is_running = false;
}

-- What was in `platform_data` before is not freed. The sizes are computed in int, without a test
-- for overflow.
unfoldable pub macos_open : OpenEnv → Platform → Platform × ℤ
unfolding setup_audio_format make_buffers free_buffers
macos_open env p =
    let capture = is_capture_type env.type in
    let format = setup_audio_format env.format env.sample_rate env.channels in
    let buffer_size = env.sample_rate * 20 / 1000 * format.bytes_per_frame in
    let size = env.sample_rate * format.bytes_per_frame in
    let buffers = make_buffers env.buffer_made capture buffer_size 0 num_buffers in
    let queued = begin_open ++ (queue_new capture ∷ buffers.0) in
    if not env.has_data
    then (p, negsuc 0)
    else if not env.queue_made
    then (note (begin_open ++ drop_data) p, negsuc 0)
    else elim buffers.1 [
      | some i ↦ (note (queued ++ (dispose_queue i ++ drop_data)) p, negsuc 0)
      | none ↦ elim (env.ring_memory size) [
        | none ↦ (note (queued ++ (dispose_queue num_buffers ++ drop_data)) p, negsuc 0)
        | some bytes ↦ (
          record p {
            data_ptr = some (opened_data env format size bytes);
            calls = p.calls ++ (queued ++ (ring_malloc size ∷ []));
          },
          pos 0,
        )
      ]
    ]

-- The calls of `macos_close`.
abbrev pub close_calls : List Effect
close_calls = queue_stop ∷ (dispose_queue num_buffers ++ (ring_free_call ∷ drop_data))

unfoldable pub macos_close : Platform → Platform
unfolding free_buffers
macos_close p = elim p.data_ptr [
  | none ↦ p
  | some d ↦ record p { data_ptr = none; calls = p.calls ++ close_calls }
]
