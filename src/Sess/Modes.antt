-- ===== src/Sess/Modes.antt =====
-- The transport mode of a session and its ICE agent (src/lws_sess.c).
use lwsip.Common.{
  not, ◌&&◌, ◌≡◌, refl, ◌∙◌, ℕ, Bool, true, false, Option, some, List, [], ◌∷◌, ◌++◌, arith,
  if◌then◌else◌, ℤ, Bytes,
}
use lwsip.Sess.Types.{
  TransportMode, ice, rtp_direct, SessEvent, ice_set_remote_auth, ice_add_remote_candidate,
  ice_start, ice_stop, ice_input, ice_send, Sess,
}
use lwsip.Sess.Sdp.{sdp_has_ice_attributes}
use lwsip.Sess.Control.{
  change_state, notify_sdp, notify_connected, lws_sess_gather_candidates, lws_sess_start_ice,
  lws_sess_stop,
}
use lwsip.Sess.Remote.{
  IceEnv, candidate_lines, determine_mode, add_candidate, add_candidates, process_ice,
  lws_sess_set_remote_sdp,
}
use lwsip.Sess.Media.{
  Decoded, LoopEnv, rtp_packet, rtp_packets, process_packet, receive_all, receive, send_audio,
  send_rtcp, count_sent, send_media, lws_sess_loop,
}

-- An event that calls libice hands it no agent.
unfoldable pub lacks_agent : SessEvent → Bool
lacks_agent (ice_set_remote_auth agent ufrag pwd) = not agent
lacks_agent (ice_add_remote_candidate agent) = not agent
lacks_agent (ice_start agent) = not agent
lacks_agent (ice_stop agent) = not agent
lacks_agent (ice_input bytes) = false
lacks_agent (ice_send agent bytes) = not agent
lacks_agent _ = true

unfoldable pub all_lack_agent : List SessEvent → Bool
unfolding lacks_agent
all_lack_agent [] = true
all_lack_agent (e ∷ es) = lacks_agent e && all_lack_agent es

pub all_lack_agent-append :
    (xs ys : List SessEvent)
    → all_lack_agent xs ≡ true
    → all_lack_agent ys ≡ true
    → all_lack_agent (xs ++ ys) ≡ true
unfolding all_lack_agent
all_lack_agent-append [] ys h k = k
all_lack_agent-append (x ∷ xs) ys h k = ground (arith, all_lack_agent-append xs ys)

-- A call without an agent makes none, uses none, and leaves the mode.
abbrev pub Same : Sess → Sess → List SessEvent → Type 0
Same sess sess' es =
    (sess'.ice_agent ≡ false)
    × (sess'.transport_mode_determined ≡ sess.transport_mode_determined)
    × (sess'.active_transport_mode ≡ sess.active_transport_mode)
    × (all_lack_agent es ≡ true)

Same-append :
    (s0 s1 s2 : Sess) (xs ys : List SessEvent)
    → Same s0 s1 xs
    → Same s1 s2 ys
    → Same s0 s2 (xs ++ ys)
Same-append s0 s1 s2 xs ys (a, b, c, d) (a', b', c', d') =
    (a', b' ∙ b, c' ∙ c, all_lack_agent-append xs ys d d')

Same-refl : (sess : Sess) → sess.ice_agent ≡ false → Same sess sess []
unfolding all_lack_agent
Same-refl sess h = (h, refl, refl, refl)

rtp_packet-Same :
    (d : Decoded) (sess : Sess)
    → sess.ice_agent ≡ false
    → let r = rtp_packet d sess in Same sess r.0 r.1
unfolding rtp_packet all_lack_agent
rtp_packet-Same d sess h = ground arith

rtp_packets-Same :
    (ds : List Decoded) (sess : Sess)
    → sess.ice_agent ≡ false
    → let r = rtp_packets ds sess in Same sess r.0 r.1
unfolding rtp_packets
rtp_packets-Same [] sess h = Same-refl sess h
rtp_packets-Same (d ∷ ds) sess h =
    let (s1, es1) = rtp_packet d sess in
    let (s2, es2) = rtp_packets ds s1 in
    let first = rtp_packet-Same d sess h in
    Same-append sess s1 s2 es1 es2 first (rtp_packets-Same ds s1 first.0)

process_packet-Same :
    (bytes : ℕ) (ds : List Decoded) (sess : Sess)
    → sess.ice_agent ≡ false
    → let r = process_packet bytes ds sess in Same sess r.0 r.1
unfolding process_packet all_lack_agent
process_packet-Same bytes ds sess h = ground (arith, rtp_packets-Same ds sess h)

receive_all-Same :
    (ps : List (ℕ × List Decoded)) (sess : Sess)
    → sess.ice_agent ≡ false
    → let r = receive_all ps sess in Same sess r.0 r.1
unfolding receive_all
receive_all-Same [] sess h = Same-refl sess h
receive_all-Same (p ∷ ps) sess h =
    let (s1, es1) = process_packet p.0 p.1 sess in
    let (s2, es2) = receive_all ps s1 in
    let first = process_packet-Same p.0 p.1 sess h in
    Same-append sess s1 s2 es1 es2 first (receive_all-Same ps s1 first.0)

receive-Same :
    (env : LoopEnv) (sess : Sess)
    → sess.ice_agent ≡ false
    → let r = receive env sess in Same sess r.0 r.1
unfolding receive all_lack_agent
receive-Same env sess h = ground (arith, receive_all-Same env.received sess h)

send_media-Same :
    (env : LoopEnv) (sess : Sess)
    → sess.ice_agent ≡ false
    → let r = send_media env sess in Same sess r.0 r.1
unfolding send_media send_audio send_rtcp count_sent all_lack_agent
send_media-Same env sess h = ground arith

pub loop-Same :
    (env : LoopEnv) (sess : Sess)
    → sess.ice_agent ≡ false
    → let r = lws_sess_loop env sess in Same sess r.0 r.2
unfolding lws_sess_loop
loop-Same env sess h =
    let (s1, es1) = receive env sess in
    let (s2, es2) = send_media env s1 in
    let first = receive-Same env sess h in
    Same-append sess s1 s2 es1 es2 first (send_media-Same env s1 first.0)

pub gather-Same :
    (now : ℕ) (address : Option Bytes) (sess : Sess)
    → sess.ice_agent ≡ false
    → let r = lws_sess_gather_candidates now address sess in Same sess r.0 r.2
unfolding lws_sess_gather_candidates change_state notify_sdp all_lack_agent
gather-Same now address sess h = ground arith

pub start-Same :
    (ret : ℤ) (sess : Sess)
    → sess.ice_agent ≡ false
    → let r = lws_sess_start_ice ret sess in Same sess r.0 r.2
unfolding lws_sess_start_ice change_state notify_connected all_lack_agent
start-Same ret sess h = ground arith

pub stop-Same :
    (sess : Sess) → sess.ice_agent ≡ false → let r = lws_sess_stop sess in Same sess r.0 r.1
unfolding lws_sess_stop change_state all_lack_agent
stop-Same sess h = ground arith

add_candidate-lack :
    (env : IceEnv) (line : Bytes) → all_lack_agent (add_candidate env false line) ≡ true
unfolding add_candidate all_lack_agent
add_candidate-lack env line = ground arith

add_candidates-lack :
    (env : IceEnv) (lines : List Bytes) → all_lack_agent (add_candidates env false lines) ≡ true
unfolding add_candidates
add_candidates-lack env [] = unfold all_lack_agent in refl
add_candidates-lack env (line ∷ lines) =
    all_lack_agent-append (add_candidate env false line) (add_candidates env false lines)
      (add_candidate-lack env line) (add_candidates-lack env lines)

process_ice-Same :
    (env : IceEnv) (sdp : Bytes) (sess : Sess)
    → sess.ice_agent ≡ false
    → let r = process_ice env sdp sess in Same sess r.0 r.2
unfolding process_ice all_lack_agent
process_ice-Same env sdp sess h = ground (arith, add_candidates-lack env (candidate_lines 0 sdp))

abbrev pub mode_for : Bytes → TransportMode
mode_for sdp = if sdp_has_ice_attributes (some sdp) then ice else rtp_direct

-- The mode of a session after it was shown an SDP.
abbrev pub Determined : Sess → Bytes → Sess → Type 0
Determined sess sdp sess' =
    (sess'.ice_agent ≡ false)
    × (sess'.transport_mode_determined ≡ true)
    × (sess'.active_transport_mode
        ≡ (if sess.transport_mode_determined then sess.active_transport_mode else mode_for sdp))

determine_mode-Determined :
    (sdp : Bytes) (sess : Sess)
    → sess.ice_agent ≡ false
    → Determined sess sdp (determine_mode sdp sess)
unfolding determine_mode
determine_mode-Determined sdp sess h = ground arith

pub set_remote_sdp-Determined :
    (env : IceEnv) (sdp : Bytes) (sess : Sess)
    → sess.ice_agent ≡ false
    → let r = lws_sess_set_remote_sdp env (some sdp) sess in
      Determined sess sdp r.0 × (all_lack_agent r.2 ≡ true)
unfolding lws_sess_set_remote_sdp all_lack_agent
set_remote_sdp-Determined env sdp sess h =
    let (a, b, c) = determine_mode-Determined sdp sess h in
    ground (arith, process_ice-Same env sdp (determine_mode sdp sess) a)
