-- ===== src/DevLinux/Backend.antt =====
-- Whatever the device layer calls, the backend of src/lws_dev_linux.c gives back what it takes.
use lwsip.Common.{
  ◌≡◌, refl, ℕ, Bool, true, false, none, some, List, [], ◌∷◌, inl, inr, arith, is_neg,
  if◌then◌else◌, ℤ, Bytes, Bool-cases, ltb,
}
use lwsip.Dev.Types.{idle, Dev}
use lwsip.Dev.Control.{lws_dev_close}
use lwsip.Dev.Calls.{DevCall, dev_calls}
use lwsip.Dev.Backend.{Operations, Contract, is_open}
use lwsip.Dev.Backend.Calls.{calls-Owned}
use lwsip.DevLinux.{
  Effect, pcm_prepare, pcm_drop, pcm_readi, pcm_writei, pcm_recover, pcm_avail, recovery, Platform,
  OpenEnv, RunEnv, linux_open, linux_close, linux_start, linux_stop, linux_read_audio,
  linux_write_audio, linux_get_audio_avail, linux_flush_audio, linux_read_video, linux_write_video,
  lws_dev_linux_ops,
}
use lwsip.DevLinux.Account.{
  everything, accounts, account, accounts-append, IsHeld, IsFree, note-IsHeld, Outcome,
  open-Outcome, close-IsFree,
}

start-IsHeld : (prepare_err : ℤ) (p : Platform) → IsHeld p → IsHeld (linux_start prepare_err p).0
unfolding linux_start accounts account
start-IsHeld prepare_err p v =
    let (d, e, given) = v.present in rw e (note-IsHeld p d (pcm_prepare ∷ []) v given refl)

stop-IsHeld : (p : Platform) → IsHeld p → IsHeld (linux_stop p)
unfolding linux_stop accounts account
stop-IsHeld p v =
    let (d, e, given) = v.present in rw e (note-IsHeld p d (pcm_drop ∷ []) v given refl)

flush-IsHeld : (p : Platform) → IsHeld p → IsHeld (linux_flush_audio p).0
unfolding linux_flush_audio accounts account
flush-IsHeld p v =
    let (d, e, given) = v.present in
    rw e (note-IsHeld p d (pcm_drop ∷ pcm_prepare ∷ []) v given refl)

-- A transfer, with a recovery where it fails.
transfer_accounted :
    (call : Effect) (failed : Bool)
    → accounts (call ∷ []) everything ≡ some everything
    → accounts (call ∷ (if failed then pcm_recover ∷ [] else [])) everything ≡ some everything
unfolding accounts account
transfer_accounted call true h =
    accounts-append (call ∷ []) (pcm_recover ∷ []) everything everything h
transfer_accounted call false h = h

read_nothing :
    (env : RunEnv) (n : ℕ) (p : Platform) → ltb 0 n ≡ false → (linux_read_audio env n p).0 ≡ p
unfolding linux_read_audio
read_nothing env n p h = ground arith

write_nothing :
    (env : RunEnv) (s : Bytes) (n : ℕ) (p : Platform)
    → ltb 0 n ≡ false
    → (linux_write_audio env s n p).0 ≡ p
unfolding linux_write_audio
write_nothing env s n p h = ground arith

read-IsHeld : (env : RunEnv) (n : ℕ) (p : Platform) → IsHeld p → IsHeld (linux_read_audio env n p).0
unfolding linux_read_audio accounts account
read-IsHeld env n p v =
    let (d, e, given) = v.present in
    let es = pcm_readi n ∷ recovery env.frames_read in
    let used = transfer_accounted (pcm_readi n) (is_neg env.frames_read) refl in
    elim (Bool-cases (ltb 0 n)) [
      | inl some_samples ↦ rw (e, some_samples) (note-IsHeld p d es v given used)
      | inr empty ↦ rw (read_nothing env n p empty) v
    ]

write-IsHeld :
    (env : RunEnv) (s : Bytes) (n : ℕ) (p : Platform)
    → IsHeld p
    → IsHeld (linux_write_audio env s n p).0
unfolding linux_write_audio accounts account
write-IsHeld env s n p v =
    let (d, e, given) = v.present in
    let es = pcm_writei n ∷ recovery env.frames_written in
    let used = transfer_accounted (pcm_writei n) (is_neg env.frames_written) refl in
    elim (Bool-cases (ltb 0 n)) [
      | inl some_samples ↦ rw (e, some_samples) (note-IsHeld p d es v given used)
      | inr empty ↦ rw (write_nothing env s n p empty) v
    ]

avail-IsHeld : (env : RunEnv) (p : Platform) → IsHeld p → IsHeld (linux_get_audio_avail env p).0
unfolding linux_get_audio_avail accounts account
avail-IsHeld env p v =
    let (d, e, given) = v.present in rw e (note-IsHeld p d (pcm_avail ∷ []) v given refl)

avail_nothing :
    (env : RunEnv) (p : Platform) → p.data_ptr ≡ none → (linux_get_audio_avail env p).0 ≡ p
unfolding linux_get_audio_avail
avail_nothing env p e = ground arith

close_nothing : (p : Platform) → p.data_ptr ≡ none → linux_close p ≡ p
unfolding linux_close
close_nothing p e = ground arith

flush_nothing : (p : Platform) → p.data_ptr ≡ none → (linux_flush_audio p).0 ≡ p
unfolding linux_flush_audio
flush_nothing p e = ground arith

-- The operations of the table.
abbrev pub linux_operations : OpenEnv → RunEnv → Operations Platform
linux_operations env run = record {
  open_it = linux_open env;
  close_it = linux_close;
  start_it = linux_start run.prepare_err;
  stop_it = linux_stop;
  read_it = linux_read_audio run;
  write_it = linux_write_audio run;
  avail_it = linux_get_audio_avail run;
  flush_it = linux_flush_audio;
  read_video_it = linux_read_video;
  write_video_it = linux_write_video;
}

module _ (env : OpenEnv) (run : RunEnv) (given : env.has_params ≡ true) where
  open-IsHeld :
      (p : Platform) → IsFree p → is_neg (linux_open env p).1 ≡ false → IsHeld (linux_open env p).0
  unfolding Outcome
  open-IsHeld p v good = elim (open-Outcome env p given v) [
    | inl (bad, f) ↦ absurd (ground arith)
    | inr (g, h) ↦ h
  ]

  open-IsFree :
      (p : Platform) → IsFree p → is_neg (linux_open env p).1 ≡ true → IsFree (linux_open env p).0
  unfolding Outcome
  open-IsFree p v bad = elim (open-Outcome env p given v) [
    | inl (b, f) ↦ f
    | inr (good, h) ↦ absurd (ground arith)
  ]

  linux-Contract : Contract (linux_operations env run) IsHeld IsFree
  unfolding linux_read_video linux_write_video
  linux-Contract = record {
    opens = open-IsHeld;
    open_fails = open-IsFree;
    closes = close-IsFree;
    closes_free = λ p v. rw (close_nothing p v.absent) v;
    starts = start-IsHeld run.prepare_err;
    stops = stop-IsHeld;
    reads = read-IsHeld run;
    writes = write-IsHeld run;
    avails = avail-IsHeld run;
    avails_free = λ p v. rw (avail_nothing run p v.absent) v;
    flushes = flush-IsHeld;
    flushes_free = λ p v. rw (flush_nothing p v.absent) v;
    reads_video = λ n p v. v;
    writes_video = λ s n p v. v;
  }

-- On a device that works through this backend, is idle and has taken nothing, whatever ALSA and the
-- allocator answer, except that there is memory for the parameters: after any calls of the device
-- layer the backend holds its memory, the PCM handle and the parameters while the device is opened,
-- started or stopped; and after a close at the end all of them have been given back once, and no
-- call of ALSA used the handle or the parameters while they were not held.
pub linux_calls_balanced :
    (env : OpenEnv) (run : RunEnv) (cs : List DevCall) (dev : Dev Platform)
    → env.has_params ≡ true
    → dev.ops ≡ some (lws_dev_linux_ops env run)
    → dev.state ≡ idle
    → IsFree dev.platform_data
    → let after = (dev_calls cs dev).0 in
      (is_open after.state ≡ true → IsHeld after.platform_data)
      × IsFree (lws_dev_close after).0.platform_data
unfolding lws_dev_linux_ops
linux_calls_balanced env run cs dev given works fresh free =
    let result = calls-Owned (linux-Contract env run given) cs dev (record {
      works = works;
      held_when = λ t. absurd (ground arith);
      free_when = λ t. free;
      either = inr free;
    }) in
    (result.0.held_when, result.1)
