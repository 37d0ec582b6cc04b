-- ===== src/Dev/Transitions.antt =====
-- The state machine of a device as its application sees it through on_state_changed.
use lwsip.Common.{
  Option-cases, inl, inr, ◌≡◌, refl, Bool, true, false, Option, none, some, List, [], ◌∷◌, ◌++◌,
  ◌&&◌, arith, if◌then◌else◌, ◌∙◌, ℕ,
}
use lwsip.Dev.Types.{
  DevState, idle, opening, opened, started, stopped, closed, error, same_state, DevEvent,
  on_state_changed, op_open, op_close, op_start, op_stop, op_read, op_write, op_avail, op_flush,
  on_error, Dev,
}
use lwsip.Dev.Control.{
  lws_dev_open, lws_dev_start, lws_dev_stop, lws_dev_close, finish_close, change_state,
  trigger_error,
}
use lwsip.Dev.Transfer.{
  lws_dev_read_audio, lws_dev_read_video, lws_dev_write_audio, lws_dev_write_video,
  lws_dev_get_audio_avail, lws_dev_flush_audio,
}
use lwsip.Dev.Calls.{
  DevCall, open_call, start_call, stop_call, close_call, avail_call, flush_call, read_audio_call,
  read_video_call, write_audio_call, write_video_call, dev_call, dev_calls,
}

-- The transitions of the diagram.
abbrev pub edge : DevState → DevState → Bool
edge idle opening = true
edge closed opening = true
edge opening opened = true
edge opening error = true
edge opened started = true
edge stopped started = true
edge opened error = true
edge stopped error = true
edge started stopped = true
edge opened closed = true
edge stopped closed = true
edge error closed = true
edge _ _ = false

-- The state after a report, if the report starts at the state before and follows an edge.
unfoldable pub follow : DevState → DevEvent → Option DevState
follow s (on_state_changed a b) = if same_state a s && edge a b then some b else none
follow s (op_open ret) = some s
follow s op_close = some s
follow s (op_start ret) = some s
follow s op_stop = some s
follow s op_read = some s
follow s op_write = some s
follow s op_avail = some s
follow s op_flush = some s
follow s (on_error code) = some s

unfoldable pub follow_all : DevState → List DevEvent → Option DevState
follow_all s [] = some s
follow_all s (e ∷ es) = elim (follow s e) [ none ↦ none | some t ↦ follow_all t es ]

follow_all-append :
    (s t : DevState) (xs ys : List DevEvent)
    → follow_all s xs ≡ some t
    → follow_all s (xs ++ ys) ≡ follow_all t ys
unfolding follow_all
follow_all-append s t [] ys h = ground arith
follow_all-append s t (x ∷ xs) ys h = elim (Option-cases (follow s x)) [
  | inl refused ↦ ground arith
  | inr (u, e) ↦ ground (arith, follow_all-append u t xs ys)
]

-- The reports of a call lead along the diagram from the old state to the new one.
abbrev pub Reported : {P : Type 0} → Dev P → Dev P → List DevEvent → Type 0
Reported dev dev' es =
    (follow_all dev.state es ≡ some dev'.state)
    × (dev'.has_state_handler ≡ true)
    × (same_state dev'.state opening ≡ false)

module _ {P : Type 0} (dev : Dev P) (listens : dev.has_state_handler ≡ true)
    (settled : same_state dev.state opening ≡ false) where
  open-Reported : (now : ℕ) → let r = lws_dev_open now dev in Reported dev r.0 r.2
  unfolding lws_dev_open change_state trigger_error follow follow_all
  open-Reported now = ground arith

  start-Reported : let r = lws_dev_start dev in Reported dev r.0 r.2
  unfolding lws_dev_start change_state trigger_error follow follow_all
  start-Reported = ground arith

  stop-Reported : let r = lws_dev_stop dev in Reported dev r.0 r.1
  unfolding lws_dev_stop change_state follow follow_all
  stop-Reported = ground arith

  close-Reported : let r = lws_dev_close dev in Reported dev r.0 r.1
  unfolding lws_dev_close lws_dev_stop finish_close change_state follow follow_all
  close-Reported = ground arith

  call-Reported : (c : DevCall) → let r = dev_call c dev in Reported dev r.0 r.1
  unfolding dev_call lws_dev_read_audio lws_dev_read_video lws_dev_write_audio lws_dev_write_video
      lws_dev_get_audio_avail lws_dev_flush_audio follow follow_all
  call-Reported (open_call now) = open-Reported now
  call-Reported start_call = start-Reported
  call-Reported stop_call = stop-Reported
  call-Reported close_call = close-Reported
  call-Reported avail_call = ground arith
  call-Reported flush_call = ground arith
  call-Reported (read_audio_call buf n) = ground arith
  call-Reported (read_video_call buf n) = ground arith
  call-Reported (write_audio_call input n) = ground arith
  call-Reported (write_video_call input n) = ground arith

-- With a state handler installed: over any sequence of calls of the device API, every state change
-- is reported, from the state before to the state after, and each follows the diagram; between
-- calls the device is never left while being opened.
pub calls-Reported :
    {P : Type 0} (cs : List DevCall) (dev : Dev P)
    → dev.has_state_handler ≡ true
    → same_state dev.state opening ≡ false
    → let r = dev_calls cs dev in Reported dev r.0 r.1
unfolding dev_calls
calls-Reported [] dev listens settled = (unfold follow_all in refl, listens, settled)
calls-Reported (c ∷ cs) dev listens settled =
    let (dev1, es1) = dev_call c dev in
    let (one, listens1, settled1) = call-Reported dev listens settled c in
    let (rest, listens2, settled2) = calls-Reported cs dev1 listens1 settled1 in
    (
      follow_all-append dev.state dev1.state es1 (dev_calls cs dev1).1 one ∙ rest,
      listens2,
      settled2,
    )
