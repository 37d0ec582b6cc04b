-- ===== src/DevMacos/Ops.antt =====
-- The other operations of src/lws_dev_macos.c and its operation table.
use lwsip.Common.{
  ℕ, ◌*◌, ◌/◌, Bool, true, false, none, some, List, [], ◌∷◌, if◌then◌else◌, ltb, leb, ◌==◌, ℤ, pos,
  negsuc, Bytes, take,
}
use lwsip.Dev.Types.{DevOps}
use lwsip.DevMacos.Ring.{ring_free, ring_put, ring_clear}
use lwsip.DevMacos.Types.{Platform, keep, queue_start, queue_stop}
use lwsip.DevMacos.Audio.{Wake, deadline_of, wait_data, take_data}
use lwsip.DevMacos.Open.{OpenEnv, macos_open, macos_close}

unfoldable pub macos_start : (started : Bool) → Platform → Platform × ℤ
macos_start started p = elim p.data_ptr [
  | none ↦ (p, negsuc 0)
  | some d ↦ (
    keep p (record d { is_running = started }, queue_start ∷ []),
    if started then pos 0 else negsuc 0,
  )
]

unfoldable pub macos_stop : Platform → Platform
macos_stop p = elim p.data_ptr [
  | none ↦ p
  | some d ↦ keep p (record d { is_running = false; ring = ring_clear d.ring }, queue_stop ∷ [])
]

-- `n / d` in C, which ends the program where `d` is 0.
abbrev pub divided : ℕ → ℕ → Platform → Platform × ℤ
divided n d p = if d == 0 then (record p { faulted = true }, pos 0) else (p, pos (n / d))

-- What `macos_read_audio` is given besides the device: the time of day, and how its waiting goes.
pub record ReadEnv : Type 0 where
  pub tv_sec : ℕ
  pub tv_usec : ℕ
  pub wakes : List Wake

-- The device layer passes a buffer.
unfoldable pub macos_read_audio : ReadEnv → ℕ → Platform → Platform × ℤ × Bytes
unfolding wait_data take_data deadline_of
macos_read_audio env samples p = elim p.data_ptr [
  | none ↦ (p, negsuc 0, [])
  | some d ↦
      let want = samples * d.format.bytes_per_frame in
      let waited = wait_data (deadline_of env.tv_sec env.tv_usec) want env.wakes d in
      let taken = take_data want waited.0 in
      let bytes_read = if leb want waited.0.ring.used then want else 0 in
      let result = divided bytes_read d.format.bytes_per_frame (keep p (taken.0, waited.1)) in
      if ltb 0 samples then (result.0, result.1, taken.1) else (p, negsuc 0, [])
]

-- `input` is the memory at the caller's pointer.
unfoldable pub macos_write_audio : Bytes → ℕ → Platform → Platform × ℤ
macos_write_audio input samples p = elim p.data_ptr [
  | none ↦ (p, negsuc 0)
  | some d ↦
      let bytes_to_write = samples * d.format.bytes_per_frame in
      if ltb 0 samples
      then (if ltb (ring_free d.ring) bytes_to_write then (p, pos 0) else (
        keep p (record d { ring = ring_put (take bytes_to_write input) d.ring }, []),
        pos samples,
      ))
      else (p, negsuc 0)
]

unfoldable pub macos_get_audio_avail : Platform → Platform × ℤ
macos_get_audio_avail p = elim p.data_ptr [
  | none ↦ (p, negsuc 0)
  | some d ↦ divided (ring_free d.ring) d.format.bytes_per_frame p
]

unfoldable pub macos_flush_audio : Platform → Platform × ℤ
macos_flush_audio p = elim p.data_ptr [
  | none ↦ (p, negsuc 0)
  | some d ↦ (keep p (record d { ring = ring_clear d.ring }, []), pos 0)
]

unfoldable pub macos_read_video : ℕ → Platform → Platform × ℤ × Bytes
macos_read_video size p = (p, negsuc 0, [])

unfoldable pub macos_write_video : Bytes → ℕ → Platform → Platform × ℤ
macos_write_video input size p = (p, negsuc 0)

-- `started` is whether AudioQueueStart succeeds.
unfoldable pub lws_dev_macos_ops : OpenEnv → (started : Bool) → ReadEnv → DevOps Platform
unfolding macos_open macos_close macos_start macos_stop macos_read_audio macos_write_audio
    macos_get_audio_avail macos_flush_audio macos_read_video macos_write_video
lws_dev_macos_ops env started reading = record {
  open_op = some (macos_open env);
  close_op = some macos_close;
  start_op = some (macos_start started);
  stop_op = some macos_stop;
  read_audio_op = some (macos_read_audio reading);
  write_audio_op = some macos_write_audio;
  get_audio_avail_op = some macos_get_audio_avail;
  flush_audio_op = some macos_flush_audio;
  read_video_op = some macos_read_video;
  write_video_op = some macos_write_video;
}
