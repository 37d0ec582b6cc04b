-- ===== src/Dev/Backend/Transfer.antt =====
-- Reading and writing on a device whose backend keeps to its contract.
use lwsip.Common.{
  ◌≡◌, Bool, true, Option, none, some, inl, inr, ℤ, pos_part, Bytes, Bool-cases, arith,
}
use lwsip.Dev.Types.{started, same_state, Dev}
use lwsip.Dev.Transfer.{
  lws_dev_read_audio, lws_dev_read_video, lws_dev_write_audio, lws_dev_write_video,
  lws_dev_get_audio_avail, lws_dev_flush_audio, transfer_guard,
}
use lwsip.Dev.Backend.{Operations, table, Contract, Owned, replace-Owned, replace_open-Owned}

abbrev moved : {P : Type 0} → P → Dev P → Dev P
moved p dev = record dev { platform_data = p }

guard-started :
    {P : Type 0} (buf : Bool) (n : ℤ) (dev : Dev P)
    → transfer_guard buf n dev ≡ true
    → same_state dev.state started ≡ true
unfolding transfer_guard
guard-started buf n dev g = ground arith

module _ {P : Type 0} {o : Operations P} where
  read_audio-moved :
      (buf : Bool) (n : ℤ) (dev : Dev P)
      → transfer_guard buf n dev ≡ true
      → dev.ops ≡ some (table o)
      → (lws_dev_read_audio buf n dev).0 ≡ moved (o.read_it (pos_part n) dev.platform_data).0 dev
  unfolding lws_dev_read_audio transfer_guard
  read_audio-moved buf n dev g w = ground arith

  read_video-moved :
      (buf : Bool) (n : ℤ) (dev : Dev P)
      → transfer_guard buf n dev ≡ true
      → dev.ops ≡ some (table o)
      → (lws_dev_read_video buf n dev).0
        ≡ moved (o.read_video_it (pos_part n) dev.platform_data).0 dev
  unfolding lws_dev_read_video transfer_guard
  read_video-moved buf n dev g w = ground arith

  write_audio-moved :
      (s : Bytes) (n : ℤ) (dev : Dev P)
      → transfer_guard true n dev ≡ true
      → dev.ops ≡ some (table o)
      → (lws_dev_write_audio (some s) n dev).0
        ≡ moved (o.write_it s (pos_part n) dev.platform_data).0 dev
  unfolding lws_dev_write_audio transfer_guard
  write_audio-moved s n dev g w = ground arith

  write_video-moved :
      (s : Bytes) (n : ℤ) (dev : Dev P)
      → transfer_guard true n dev ≡ true
      → dev.ops ≡ some (table o)
      → (lws_dev_write_video (some s) n dev).0
        ≡ moved (o.write_video_it s (pos_part n) dev.platform_data).0 dev
  unfolding lws_dev_write_video transfer_guard
  write_video-moved s n dev g w = ground arith

  avail-moved :
      (dev : Dev P)
      → dev.ops ≡ some (table o)
      → (lws_dev_get_audio_avail dev).0 ≡ moved (o.avail_it dev.platform_data).0 dev
  unfolding lws_dev_get_audio_avail
  avail-moved dev w = ground arith

  flush-moved :
      (dev : Dev P)
      → dev.ops ≡ some (table o)
      → (lws_dev_flush_audio dev).0 ≡ moved (o.flush_it dev.platform_data).0 dev
  unfolding lws_dev_flush_audio
  flush-moved dev w = ground arith

module _ {P : Type 0} {o : Operations P} {Held Free : P → Type 0} (c : Contract o Held Free) where
  pub read_audio-Owned :
      (buf : Bool) (n : ℤ) (dev : Dev P)
      → Owned o Held Free dev
      → Owned o Held Free (lws_dev_read_audio buf n dev).0
  read_audio-Owned buf n dev v = elim (Bool-cases (transfer_guard buf n dev)) [
    | inr refused ↦ unfold lws_dev_read_audio in rw refused v
    | inl passed ↦ rw (read_audio-moved buf n dev passed v.works) (
        replace_open-Owned (o.read_it (pos_part n) dev.platform_data).0 dev v
          (guard-started buf n dev passed) (c.reads (pos_part n) dev.platform_data))
  ]

  pub read_video-Owned :
      (buf : Bool) (n : ℤ) (dev : Dev P)
      → Owned o Held Free dev
      → Owned o Held Free (lws_dev_read_video buf n dev).0
  read_video-Owned buf n dev v = elim (Bool-cases (transfer_guard buf n dev)) [
    | inr refused ↦ unfold lws_dev_read_video in rw refused v
    | inl passed ↦ rw (read_video-moved buf n dev passed v.works) (
        replace_open-Owned (o.read_video_it (pos_part n) dev.platform_data).0 dev v
          (guard-started buf n dev passed) (c.reads_video (pos_part n) dev.platform_data))
  ]

  pub write_audio-Owned :
      (input : Option Bytes) (n : ℤ) (dev : Dev P)
      → Owned o Held Free dev
      → Owned o Held Free (lws_dev_write_audio input n dev).0
  write_audio-Owned none n dev v = unfold lws_dev_write_audio in v
  write_audio-Owned (some s) n dev v = elim (Bool-cases (transfer_guard true n dev)) [
    | inr refused ↦ unfold lws_dev_write_audio in rw refused v
    | inl passed ↦ rw (write_audio-moved s n dev passed v.works) (
        replace_open-Owned (o.write_it s (pos_part n) dev.platform_data).0 dev v
          (guard-started true n dev passed) (c.writes s (pos_part n) dev.platform_data))
  ]

  pub write_video-Owned :
      (input : Option Bytes) (n : ℤ) (dev : Dev P)
      → Owned o Held Free dev
      → Owned o Held Free (lws_dev_write_video input n dev).0
  write_video-Owned none n dev v = unfold lws_dev_write_video in v
  write_video-Owned (some s) n dev v = elim (Bool-cases (transfer_guard true n dev)) [
    | inr refused ↦ unfold lws_dev_write_video in rw refused v
    | inl passed ↦ rw (write_video-moved s n dev passed v.works) (
        replace_open-Owned (o.write_video_it s (pos_part n) dev.platform_data).0 dev v
          (guard-started true n dev passed) (c.writes_video s (pos_part n) dev.platform_data))
  ]

  pub avail-Owned :
      (dev : Dev P) → Owned o Held Free dev → Owned o Held Free (lws_dev_get_audio_avail dev).0
  avail-Owned dev v = rw (avail-moved dev v.works) (
      replace-Owned (o.avail_it dev.platform_data).0 dev v (c.avails dev.platform_data)
        (c.avails_free dev.platform_data))

  pub flush-Owned :
      (dev : Dev P) → Owned o Held Free dev → Owned o Held Free (lws_dev_flush_audio dev).0
  flush-Owned dev v = rw (flush-moved dev v.works) (
      replace-Owned (o.flush_it dev.platform_data).0 dev v (c.flushes dev.platform_data)
        (c.flushes_free dev.platform_data))
