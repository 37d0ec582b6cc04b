-- ===== src/Sess/Calls.antt =====
-- Sequences of calls of the session API. The callbacks `on_ice_gather` and `on_ice_connected` are
-- left out: no agent is created that could call them.
use lwsip.Common.{ℕ, Option, List, [], ◌∷◌, ◌++◌, ℤ, Bytes}
use lwsip.Sess.Types.{SessEvent, Sess}
use lwsip.Sess.Control.{lws_sess_gather_candidates, lws_sess_start_ice, lws_sess_stop}
use lwsip.Sess.Remote.{IceEnv, lws_sess_set_remote_sdp}
use lwsip.Sess.Media.{LoopEnv, lws_sess_loop}

pub data SessCall : Type 0 where
  gather_call : ℕ → Option Bytes → SessCall
  remote_call : IceEnv → Option Bytes → SessCall
  start_call : ℤ → SessCall
  loop_call : LoopEnv → SessCall
  stop_call : SessCall

unfoldable pub sess_call : SessCall → Sess → Sess × List SessEvent
sess_call (gather_call now address) sess =
    let r = lws_sess_gather_candidates now address sess in (r.0, r.2)
sess_call (remote_call env sdp) sess = let r = lws_sess_set_remote_sdp env sdp sess in (r.0, r.2)
sess_call (start_call ret) sess = let r = lws_sess_start_ice ret sess in (r.0, r.2)
sess_call (loop_call env) sess = let r = lws_sess_loop env sess in (r.0, r.2)
sess_call stop_call sess = lws_sess_stop sess

unfoldable pub sess_calls : List SessCall → Sess → Sess × List SessEvent
sess_calls [] sess = (sess, [])
sess_calls (c ∷ cs) sess =
    let (sess1, es1) = sess_call c sess in
    let (sess2, es2) = sess_calls cs sess1 in (sess2, es1 ++ es2)
