-- ===== src/Dev/Transfer.antt =====
-- Reading and writing audio and video (src/lws_dev.c).
use lwsip.Common.{
  ℕ, Bool, true, Option, none, some, List, [], ◌∷◌, ◌&&◌, if◌then◌else◌, ℤ, negsuc, is_pos,
  pos_part, Bytes,
}
use lwsip.Dev.Types.{started, same_state, DevEvent, op_read, op_write, op_avail, op_flush, Dev}

module _ {P : Type 0} where
  -- `buf` is whether the caller's buffer is not NULL.
  unfoldable pub transfer_guard : Bool → ℤ → Dev P → Bool
  transfer_guard buf samples dev = buf && (is_pos samples && same_state dev.state started)

  abbrev pub read_audio_entry : Dev P → Option (ℕ → P → P × ℤ × Bytes)
  read_audio_entry dev = elim dev.ops [ none ↦ none | some ops ↦ ops.read_audio_op ]

  abbrev pub read_video_entry : Dev P → Option (ℕ → P → P × ℤ × Bytes)
  read_video_entry dev = elim dev.ops [ none ↦ none | some ops ↦ ops.read_video_op ]

  abbrev pub write_audio_entry : Dev P → Option (Bytes → ℕ → P → P × ℤ)
  write_audio_entry dev = elim dev.ops [ none ↦ none | some ops ↦ ops.write_audio_op ]

  abbrev pub write_video_entry : Dev P → Option (Bytes → ℕ → P → P × ℤ)
  write_video_entry dev = elim dev.ops [ none ↦ none | some ops ↦ ops.write_video_op ]

  abbrev pub call_read :
      Option (ℕ → P → P × ℤ × Bytes) → ℤ → Dev P → Dev P × ℤ × Bytes × List DevEvent
  call_read none samples dev = (dev, negsuc 0, [], [])
  call_read (some op) samples dev =
      let (p, ret, out) = op (pos_part samples) dev.platform_data in
      (record dev { platform_data = p }, ret, out, op_read ∷ [])

  abbrev pub call_write :
      Option (Bytes → ℕ → P → P × ℤ) → Bytes → ℤ → Dev P → Dev P × ℤ × List DevEvent
  call_write none input samples dev = (dev, negsuc 0, [])
  call_write (some op) input samples dev =
      let (p, ret) = op input (pos_part samples) dev.platform_data in
      (record dev { platform_data = p }, ret, op_write ∷ [])

  -- The results: the device, the return value, what was written to the buffer, the calls.
  unfoldable pub lws_dev_read_audio : Bool → ℤ → Dev P → Dev P × ℤ × Bytes × List DevEvent
  unfolding transfer_guard
  lws_dev_read_audio buf samples dev =
      if transfer_guard buf samples dev
      then call_read (read_audio_entry dev) samples dev
      else (dev, negsuc 0, [], [])

  unfoldable pub lws_dev_read_video : Bool → ℤ → Dev P → Dev P × ℤ × Bytes × List DevEvent
  unfolding transfer_guard
  lws_dev_read_video buf size dev =
      if transfer_guard buf size dev
      then call_read (read_video_entry dev) size dev
      else (dev, negsuc 0, [], [])

  unfoldable pub lws_dev_write_audio : Option Bytes → ℤ → Dev P → Dev P × ℤ × List DevEvent
  unfolding transfer_guard
  lws_dev_write_audio none samples dev = (dev, negsuc 0, [])
  lws_dev_write_audio (some input) samples dev =
      if transfer_guard true samples dev
      then call_write (write_audio_entry dev) input samples dev
      else (dev, negsuc 0, [])

  unfoldable pub lws_dev_write_video : Option Bytes → ℤ → Dev P → Dev P × ℤ × List DevEvent
  unfolding transfer_guard
  lws_dev_write_video none size dev = (dev, negsuc 0, [])
  lws_dev_write_video (some input) size dev =
      if transfer_guard true size dev
      then call_write (write_video_entry dev) input size dev
      else (dev, negsuc 0, [])

  abbrev pub avail_entry : Dev P → Option (P → P × ℤ)
  avail_entry dev = elim dev.ops [ none ↦ none | some ops ↦ ops.get_audio_avail_op ]

  abbrev pub flush_entry : Dev P → Option (P → P × ℤ)
  flush_entry dev = elim dev.ops [ none ↦ none | some ops ↦ ops.flush_audio_op ]

  unfoldable pub lws_dev_get_audio_avail : Dev P → Dev P × ℤ × List DevEvent
  lws_dev_get_audio_avail dev = elim (avail_entry dev) [
    | none ↦ (dev, negsuc 0, [])
    | some op ↦
        let (p, ret) = op dev.platform_data in
        (record dev { platform_data = p }, ret, op_avail ∷ [])
  ]

  unfoldable pub lws_dev_flush_audio : Dev P → Dev P × ℤ × List DevEvent
  lws_dev_flush_audio dev = elim (flush_entry dev) [
    | none ↦ (dev, negsuc 0, [])
    | some op ↦
        let (p, ret) = op dev.platform_data in
        (record dev { platform_data = p }, ret, op_flush ∷ [])
  ]
