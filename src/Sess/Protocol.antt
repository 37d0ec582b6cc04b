-- ===== src/Sess/Protocol.antt =====
-- What a session reports to the application, and when it touches the media (src/lws_sess.c).
use lwsip.Common.{
  ℕ, ◌≡◌, refl, ◌∙◌, Option-cases, inl, inr, Bool, true, false, Option, none, some, List, [], ◌∷◌,
  ◌++◌, arith, ◌&&◌, not, if◌then◌else◌, ℤ, Bytes,
}
use lwsip.Sess.Types.{
  SessState, gathering, gathered, connecting, connected, disconnected, same_state, SessEvent,
  state_changed, sdp_ready, connected_callback, disconnected_callback, ice_start, ice_send,
  capture_read, encode_input, Sess,
}
use lwsip.Sess.Control.{
  change_state, notify_sdp, notify_connected, lws_sess_gather_candidates, lws_sess_start_ice,
  lws_sess_stop,
}
use lwsip.Sess.Remote.{
  IceEnv, candidate_lines, determine_mode, add_candidate, add_candidates, process_ice,
  lws_sess_set_remote_sdp,
}
use lwsip.Sess.Media.{
  Decoded, LoopEnv, rtp_packet, rtp_packets, process_packet, receive, receive_all, send_audio,
  send_rtcp, count_sent, send_media, lws_sess_loop,
}
use lwsip.Sess.Calls.{
  SessCall, gather_call, remote_call, start_call, loop_call, stop_call, sess_call, sess_calls,
}

-- The changes of state that an observer may see. A session can be asked to gather or to connect
-- again from every state, and in the direct mode it is connected at once; this is wider than the
-- chain of states in include/lws_sess.h.
abbrev pub may_become : SessState → SessState → Bool
may_become a gathering = not (same_state a gathering)
may_become gathering gathered = true
may_become a connecting = not (same_state a connecting)
may_become a connected = not (same_state a connected)
may_become connected disconnected = true
may_become a _ = false

-- The state after an event, as an observer sees it; `none` is an event that is not due.
unfoldable pub watch : SessState → SessEvent → Option SessState
watch s (state_changed a b) = if same_state s a && may_become a b then some b else none
watch s (sdp_ready sdp) = if same_state s gathered then some s else none
watch s connected_callback = if same_state s connected then some s else none
watch s disconnected_callback = if same_state s disconnected then some s else none
watch s (capture_read n) = if same_state s connected then some s else none
watch s (encode_input n t) = if same_state s connected then some s else none
watch s (ice_send agent n) = if same_state s connected then some s else none
watch s (ice_start agent) = if same_state s connecting then some s else none
watch s _ = some s

unfoldable pub watch_all : SessState → List SessEvent → Option SessState
watch_all s [] = some s
watch_all s (e ∷ es) = elim (watch s e) [ none ↦ none | some t ↦ watch_all t es ]

watch_all-append :
    (s t : SessState) (xs ys : List SessEvent)
    → watch_all s xs ≡ some t
    → watch_all s (xs ++ ys) ≡ watch_all t ys
unfolding watch_all
watch_all-append s t [] ys h = ground arith
watch_all-append s t (x ∷ xs) ys h = elim (Option-cases (watch s x)) [
  | inl refused ↦ ground arith
  | inr (u, e) ↦ ground (arith, watch_all-append u t xs ys)
]

-- The events lead from the old state to the new one, and the handlers stay.
abbrev pub Watched : Sess → Sess → List SessEvent → Type 0
Watched sess sess' es =
    (watch_all sess.state es ≡ some sess'.state) × (sess'.handler.on_state_changed ≡ true)

-- The events do not touch the state.
abbrev Quiet : Sess → Sess → List SessEvent → Type 0
Quiet sess sess' es =
    (watch_all sess.state es ≡ some sess.state)
    × (sess'.state ≡ sess.state)
    × (sess'.handler ≡ sess.handler)

Quiet-append :
    (s0 s1 s2 : Sess) (xs ys : List SessEvent)
    → Quiet s0 s1 xs
    → Quiet s1 s2 ys
    → Quiet s0 s2 (xs ++ ys)
Quiet-append s0 s1 s2 xs ys (a, b, c) (a', b', c') =
    (watch_all-append s0.state s0.state xs ys a ∙ rw b at a', b' ∙ b, c' ∙ c)

rtp_packet-Quiet : (d : Decoded) (sess : Sess) → let r = rtp_packet d sess in Quiet sess r.0 r.1
unfolding rtp_packet watch watch_all
rtp_packet-Quiet d sess = ground arith

rtp_packets-Quiet :
    (ds : List Decoded) (sess : Sess) → let r = rtp_packets ds sess in Quiet sess r.0 r.1
unfolding rtp_packets
rtp_packets-Quiet [] sess = (unfold watch_all in refl, refl, refl)
rtp_packets-Quiet (d ∷ ds) sess =
    let (s1, es1) = rtp_packet d sess in
    let (s2, es2) = rtp_packets ds s1 in
    Quiet-append sess s1 s2 es1 es2 (rtp_packet-Quiet d sess) (rtp_packets-Quiet ds s1)

process_packet-Quiet :
    (bytes : ℕ) (ds : List Decoded) (sess : Sess)
    → let r = process_packet bytes ds sess in Quiet sess r.0 r.1
unfolding process_packet watch watch_all
process_packet-Quiet bytes ds sess = ground (arith, rtp_packets-Quiet ds sess)

receive_all-Quiet :
    (ps : List (ℕ × List Decoded)) (sess : Sess) → let r = receive_all ps sess in Quiet sess r.0 r.1
unfolding receive_all
receive_all-Quiet [] sess = (unfold watch_all in refl, refl, refl)
receive_all-Quiet (p ∷ ps) sess =
    let (s1, es1) = process_packet p.0 p.1 sess in
    let (s2, es2) = receive_all ps s1 in
    Quiet-append sess s1 s2 es1 es2 (process_packet-Quiet p.0 p.1 sess) (receive_all-Quiet ps s1)

send_media-Quiet : (env : LoopEnv) (sess : Sess) → let r = send_media env sess in Quiet sess r.0 r.1
unfolding send_media send_audio send_rtcp count_sent watch watch_all
send_media-Quiet env sess = ground arith

receive-Quiet : (env : LoopEnv) (sess : Sess) → let r = receive env sess in Quiet sess r.0 r.1
unfolding receive watch_all
receive-Quiet env sess = ground (arith, receive_all-Quiet env.received sess)

loop-Quiet : (env : LoopEnv) (sess : Sess) → let r = lws_sess_loop env sess in Quiet sess r.0 r.2
unfolding lws_sess_loop
loop-Quiet env sess =
    let (s1, es1) = receive env sess in
    let (s2, es2) = send_media env s1 in
    Quiet-append sess s1 s2 es1 es2 (receive-Quiet env sess) (send_media-Quiet env s1)

add_candidate-Quiet :
    (env : IceEnv) (agent : Bool) (line : Bytes) (s : SessState)
    → watch_all s (add_candidate env agent line) ≡ some s
unfolding add_candidate watch watch_all
add_candidate-Quiet env agent line s = ground arith

add_candidates-Quiet :
    (env : IceEnv) (agent : Bool) (lines : List Bytes) (s : SessState)
    → watch_all s (add_candidates env agent lines) ≡ some s
unfolding add_candidates
add_candidates-Quiet env agent [] s = unfold watch_all in refl
add_candidates-Quiet env agent (line ∷ lines) s =
    watch_all-append s s (add_candidate env agent line) (add_candidates env agent lines)
      (add_candidate-Quiet env agent line s)
    ∙ add_candidates-Quiet env agent lines s

process_ice-Quiet :
    (env : IceEnv) (sdp : Bytes) (sess : Sess)
    → let r = process_ice env sdp sess in Quiet sess r.0 r.2
unfolding process_ice watch watch_all
process_ice-Quiet env sdp sess =
    ground (arith, add_candidates-Quiet env sess.ice_agent (candidate_lines 0 sdp) sess.state)

watch_all_nil : (s : SessState) → watch_all s [] ≡ some s
unfolding watch_all
watch_all_nil s = refl

set_remote_sdp-Quiet :
    (env : IceEnv) (sdp : Option Bytes) (sess : Sess)
    → let r = lws_sess_set_remote_sdp env sdp sess in Quiet sess r.0 r.2
unfolding lws_sess_set_remote_sdp determine_mode
set_remote_sdp-Quiet env none sess = (unfold watch_all in refl, refl, refl)
set_remote_sdp-Quiet env (some sdp) sess =
    ground (arith, process_ice-Quiet env sdp (determine_mode sdp sess), watch_all_nil sess.state)

module _ (sess : Sess) (listens : sess.handler.on_state_changed ≡ true) where
  gather-Watched :
      (now : ℕ) (address : Option Bytes)
      → let r = lws_sess_gather_candidates now address sess in Watched sess r.0 r.2
  unfolding lws_sess_gather_candidates change_state notify_sdp watch watch_all
  gather-Watched now address = ground arith

  start-Watched : (ret : ℤ) → let r = lws_sess_start_ice ret sess in Watched sess r.0 r.2
  unfolding lws_sess_start_ice change_state notify_connected watch watch_all
  start-Watched ret = ground arith

  stop-Watched : let r = lws_sess_stop sess in Watched sess r.0 r.1
  unfolding lws_sess_stop change_state watch watch_all
  stop-Watched = ground arith

  Quiet-Watched : (sess' : Sess) (es : List SessEvent) → Quiet sess sess' es → Watched sess sess' es
  Quiet-Watched sess' es (a, b, c) = ground arith

  call-Watched : (c : SessCall) → let r = sess_call c sess in Watched sess r.0 r.1
  unfolding sess_call
  call-Watched (gather_call now address) = gather-Watched now address
  call-Watched (remote_call env sdp) =
      let r = lws_sess_set_remote_sdp env sdp sess in
      Quiet-Watched r.0 r.2 (set_remote_sdp-Quiet env sdp sess)
  call-Watched (start_call ret) = start-Watched ret
  call-Watched (loop_call env) =
      let r = lws_sess_loop env sess in Quiet-Watched r.0 r.2 (loop-Quiet env sess)
  call-Watched stop_call = stop-Watched

-- With a state handler installed: over any sequence of calls of the session API, every state change
-- is reported from the state before to the state after and is one of `may_become`: gathered only
-- from gathering, disconnected only from connected, and never back to idle or to closed. The SDP is
-- handed out only when gathered, the connected and disconnected callbacks come only in those states,
-- libice is started only while connecting, and audio is captured and encoded and RTCP sent only
-- while connected. Media that is received may be handled in every state.
pub calls-Watched :
    (cs : List SessCall) (sess : Sess)
    → sess.handler.on_state_changed ≡ true
    → let r = sess_calls cs sess in Watched sess r.0 r.1
unfolding sess_calls
calls-Watched [] sess listens = (unfold watch_all in refl, listens)
calls-Watched (c ∷ cs) sess listens =
    let (s1, es1) = sess_call c sess in
    let (one, listens1) = call-Watched sess listens c in
    let (rest, listens2) = calls-Watched cs s1 listens1 in
    (watch_all-append sess.state s1.state es1 (sess_calls cs s1).1 one ∙ rest, listens2)
