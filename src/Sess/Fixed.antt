-- ===== src/Sess/Fixed.antt =====
-- Over sequences of calls: the transport mode, and the ICE agent that src/lws_sess.c never creates.
use lwsip.Common.{
  ◌≡◌, if◌then◌else◌, refl, ◌∙◌, ap, true, false, none, some, List, [], ◌∷◌, arith, Bytes,
}
use lwsip.Sess.Types.{Sess}
use lwsip.Sess.Remote.{IceEnv, lws_sess_set_remote_sdp}
use lwsip.Sess.Calls.{
  SessCall, gather_call, remote_call, start_call, loop_call, stop_call, sess_call, sess_calls,
}
use lwsip.Sess.Modes.{
  mode_for, all_lack_agent, all_lack_agent-append, gather-Same, start-Same, loop-Same, stop-Same,
  set_remote_sdp-Determined,
}

call-lack_agent :
    (c : SessCall) (sess : Sess)
    → sess.ice_agent ≡ false
    → let r = sess_call c sess in (r.0.ice_agent ≡ false) × (all_lack_agent r.1 ≡ true)
unfolding sess_call
call-lack_agent (gather_call now address) sess h =
    let s = gather-Same now address sess h in (s.0, s.3)
call-lack_agent (remote_call env none) sess h =
    unfold lws_sess_set_remote_sdp all_lack_agent in (h, refl)
call-lack_agent (remote_call env (some sdp)) sess h =
    let (d, l) = set_remote_sdp-Determined env sdp sess h in (d.0, l)
call-lack_agent (start_call ret) sess h = let s = start-Same ret sess h in (s.0, s.3)
call-lack_agent (loop_call env) sess h = let s = loop-Same env sess h in (s.0, s.3)
call-lack_agent stop_call sess h = let s = stop-Same sess h in (s.0, s.3)

-- A session without an ICE agent, as every session is created, stays without one over any sequence
-- of calls, and every call of libice that it makes on the way is made without an agent.
pub calls-lack_agent :
    (cs : List SessCall) (sess : Sess)
    → sess.ice_agent ≡ false
    → let r = sess_calls cs sess in (r.0.ice_agent ≡ false) × (all_lack_agent r.1 ≡ true)
unfolding sess_calls
calls-lack_agent [] sess h = (h, unfold all_lack_agent in refl)
calls-lack_agent (c ∷ cs) sess h =
    let (s1, es1) = sess_call c sess in
    let (a, l) = call-lack_agent c sess h in
    let (a', l') = calls-lack_agent cs s1 a in
    (a', all_lack_agent-append es1 (sess_calls cs s1).1 l l')

call-mode :
    (c : SessCall) (sess : Sess)
    → sess.ice_agent ≡ false
    → sess.transport_mode_determined ≡ true
    → let s = (sess_call c sess).0 in
      (s.transport_mode_determined ≡ true) × (s.active_transport_mode ≡ sess.active_transport_mode)
unfolding sess_call
call-mode (gather_call now address) sess h d =
    let s = gather-Same now address sess h in (s.1 ∙ d, s.2)
call-mode (remote_call env none) sess h d = unfold lws_sess_set_remote_sdp in (d, refl)
call-mode (remote_call env (some sdp)) sess h d =
    let (s, l) = set_remote_sdp-Determined env sdp sess h in ground arith
call-mode (start_call ret) sess h d = let s = start-Same ret sess h in (s.1 ∙ d, s.2)
call-mode (loop_call env) sess h d = let s = loop-Same env sess h in (s.1 ∙ d, s.2)
call-mode stop_call sess h d = let s = stop-Same sess h in (s.1 ∙ d, s.2)

calls-keep_mode :
    (cs : List SessCall) (sess : Sess)
    → sess.ice_agent ≡ false
    → sess.transport_mode_determined ≡ true
    → (sess_calls cs sess).0.active_transport_mode ≡ sess.active_transport_mode
unfolding sess_calls
calls-keep_mode [] sess h d = refl
calls-keep_mode (c ∷ cs) sess h d =
    let s1 = (sess_call c sess).0 in
    let (d1, m) = call-mode c sess h d in calls-keep_mode cs s1 (call-lack_agent c sess h).0 d1 ∙ m

-- The first remote SDP of a session without an agent decides its transport mode by whether it has an
-- ICE attribute; no later call, with whatever SDP, changes the mode.
pub calls-mode :
    (env : IceEnv) (sdp : Bytes) (cs : List SessCall) (sess : Sess)
    → sess.ice_agent ≡ false
    → sess.transport_mode_determined ≡ false
    → (sess_calls cs (lws_sess_set_remote_sdp env (some sdp) sess).0).0.active_transport_mode
      ≡ mode_for sdp
calls-mode env sdp cs sess h d =
    let ((a, b, m), l) = set_remote_sdp-Determined env sdp sess h in
    calls-keep_mode cs (lws_sess_set_remote_sdp env (some sdp) sess).0 a b
    ∙ m
    ∙ ap (λ b. if b then sess.active_transport_mode else mode_for sdp) d
