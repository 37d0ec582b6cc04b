-- ===== src/Dev/Protocol.antt =====
-- The protocol between the device layer and a backend: in which order src/lws_dev.c calls the
-- operations of the table.
use lwsip.Common.{
  Option-cases, inl, inr, ◌≡◌, refl, Bool, true, false, Option, none, some, List, [], ◌∷◌, ◌++◌,
  arith, is_some, is_neg, if◌then◌else◌, ◌∙◌, sym, ℕ, ℤ, Bytes,
}
use mathlib.Core.Path.{subst}
use lwsip.Dev.Types.{
  DevState, idle, opening, opened, started, stopped, closed, error, same_state, DevOps, DevEvent,
  op_open, op_close, op_start, op_stop, op_read, op_write, op_avail, op_flush, on_state_changed,
  on_error, Dev,
}
use lwsip.Dev.Control.{
  lws_dev_open, lws_dev_start, lws_dev_stop, lws_dev_close, finish_close, change_state,
  trigger_error,
}
use lwsip.Dev.Transfer.{
  lws_dev_read_audio, lws_dev_read_video, lws_dev_write_audio, lws_dev_write_video,
  lws_dev_get_audio_avail, lws_dev_flush_audio,
}
use lwsip.Dev.Calls.{
  DevCall, open_call, start_call, stop_call, close_call, avail_call, flush_call, read_audio_call,
  read_video_call, write_audio_call, write_video_call, dev_call, dev_calls,
}

-- How a backend sees its device.
pub data Session : Type 0 where
  shut ready running broken : Session

-- What the backend may be asked next; `none` is a breach of the protocol.
unfoldable pub serve : Session → DevEvent → Option Session
serve shut (op_open ret) = some (if is_neg ret then broken else ready)
serve ready (op_start ret) = some (if is_neg ret then broken else running)
serve ready op_close = some shut
serve broken op_close = some shut
serve running op_stop = some ready
serve running op_read = some running
serve running op_write = some running
serve s op_avail = some s
serve s op_flush = some s
serve s (on_state_changed a b) = some s
serve s (on_error code) = some s
serve _ _ = none

unfoldable pub serve_all : Session → List DevEvent → Option Session
serve_all s [] = some s
serve_all s (e ∷ es) = elim (serve s e) [ none ↦ none | some t ↦ serve_all t es ]

abbrev pub session : DevState → Session
session idle = shut
session opening = broken
session opened = ready
session started = running
session stopped = ready
session closed = shut
session error = broken

-- The table has the four operations that control the device, as those of the file backend have.
abbrev pub HasControls : {P : Type 0} → Option (DevOps P) → Type 0
HasControls none = ⊥
HasControls (some ops) =
    (is_some ops.open_op ≡ true)
    × (is_some ops.close_op ≡ true)
    × (is_some ops.start_op ≡ true)
    × (is_some ops.stop_op ≡ true)

-- Between two calls a device is not on its way to being opened.
abbrev pub IsSettled : DevState → Type 0
IsSettled s = same_state s opening ≡ false

serve_all-append :
    (s t : Session) (xs ys : List DevEvent)
    → serve_all s xs ≡ some t
    → serve_all s (xs ++ ys) ≡ serve_all t ys
unfolding serve_all
serve_all-append s t [] ys h = ground arith
serve_all-append s t (x ∷ xs) ys h = elim (Option-cases (serve s x)) [
  | inl refused ↦ ground arith
  | inr (u, e) ↦ ground (arith, serve_all-append u t xs ys)
]

-- What a call did is served, and ends in the session of the device's new state.
abbrev pub Served : {P : Type 0} → Dev P → Dev P → List DevEvent → Type 0
Served dev dev' es =
    (serve_all (session dev.state) es ≡ some (session dev'.state))
    × (dev'.ops ≡ dev.ops)
    × IsSettled dev'.state

module _ {P : Type 0} (dev : Dev P) (controls : HasControls dev.ops)
    (settled : IsSettled dev.state) where
  open-Served : (now : ℕ) → let r = lws_dev_open now dev in Served dev r.0 r.2
  unfolding lws_dev_open change_state trigger_error serve serve_all
  open-Served now = ground arith

  start-Served : let r = lws_dev_start dev in Served dev r.0 r.2
  unfolding lws_dev_start change_state trigger_error serve serve_all
  start-Served = ground arith

  stop-Served : let r = lws_dev_stop dev in Served dev r.0 r.1
  unfolding lws_dev_stop change_state serve serve_all
  stop-Served = ground arith

  close-Served : let r = lws_dev_close dev in Served dev r.0 r.1
  unfolding lws_dev_close lws_dev_stop finish_close change_state serve serve_all
  close-Served = ground arith

  read_audio-Served :
      (buf : Bool) (n : ℤ) → let r = lws_dev_read_audio buf n dev in Served dev r.0 r.3
  unfolding lws_dev_read_audio serve serve_all
  read_audio-Served buf n = ground arith

  read_video-Served :
      (buf : Bool) (n : ℤ) → let r = lws_dev_read_video buf n dev in Served dev r.0 r.3
  unfolding lws_dev_read_video serve serve_all
  read_video-Served buf n = ground arith

  write_audio-Served :
      (input : Option Bytes) (n : ℤ) → let r = lws_dev_write_audio input n dev in Served dev r.0 r.2
  unfolding lws_dev_write_audio serve serve_all
  write_audio-Served input n = ground arith

  write_video-Served :
      (input : Option Bytes) (n : ℤ) → let r = lws_dev_write_video input n dev in Served dev r.0 r.2
  unfolding lws_dev_write_video serve serve_all
  write_video-Served input n = ground arith

  avail-Served : let r = lws_dev_get_audio_avail dev in Served dev r.0 r.2
  unfolding lws_dev_get_audio_avail serve serve_all
  avail-Served = ground arith

  flush-Served : let r = lws_dev_flush_audio dev in Served dev r.0 r.2
  unfolding lws_dev_flush_audio serve serve_all
  flush-Served = ground arith

  call-Served : (c : DevCall) → let r = dev_call c dev in Served dev r.0 r.1
  unfolding dev_call
  call-Served (open_call now) = open-Served now
  call-Served start_call = start-Served
  call-Served stop_call = stop-Served
  call-Served close_call = close-Served
  call-Served avail_call = avail-Served
  call-Served flush_call = flush-Served
  call-Served (read_audio_call buf n) = read_audio-Served buf n
  call-Served (read_video_call buf n) = read_video-Served buf n
  call-Served (write_audio_call input n) = write_audio-Served input n
  call-Served (write_video_call input n) = write_video-Served input n

-- For a table with the four control operations: in any sequence of calls of the device API, the
-- backend is opened, started, stopped, closed, read and written only when that is due, and at the
-- end the session is that of the state of the device.
pub calls-Served :
    {P : Type 0} (cs : List DevCall) (dev : Dev P)
    → HasControls dev.ops
    → IsSettled dev.state
    → let r = dev_calls cs dev in Served dev r.0 r.1
unfolding dev_calls
calls-Served [] dev controls settled = (unfold serve_all in refl, refl, settled)
calls-Served (c ∷ cs) dev controls settled =
    let (dev1, es1) = dev_call c dev in
    let (one, same, settled1) = call-Served dev controls settled c in
    let (rest, same', settled2) =
      calls-Served cs dev1 (subst HasControls (sym same) controls) settled1 in
    (
      serve_all-append (session dev.state) (session dev1.state) es1 (dev_calls cs dev1).1 one
          ∙ rest,
      same' ∙ same,
      settled2,
    )
