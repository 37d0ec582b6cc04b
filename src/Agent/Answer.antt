-- ===== src/Agent/Answer.antt =====
-- A call from its INVITE to its answer (src/lws_agent.c over src/lws_sess.c).
use lwsip.Common.{
  ◌≡◌, refl, ◌∙◌, ap, sym, ℕ, true, false, is_some, List, [], ◌∷◌, ◌++◌, Option, some, arith, ℤ,
  pos, is_neg, is_nonzero, Bytes, if◌then◌else◌,
}
use lwsip.Sess.Types.{Sess, SessEvent, connected, rtp_direct}
use lwsip.Sess.Control.{change_state, notify_sdp, lws_sess_gather_candidates, lws_sess_start_ice}
use lwsip.Sess.Sdp.{generate_local_sdp}
use lwsip.Sess.Handshake.{IsAddress, generate_fits}
use lwsip.Agent.Types.{
  Dialog, Agent, AgentHandler, ok, error, incoming, confirmed, incoming_call, AgentEvent, media,
  uas_reply, uas_release,
}
use lwsip.Agent.Dialogs.{at_address, store, save_dialog}
use lwsip.Agent.Listed.{gather_address}
use lwsip.Agent.References.{at_stored}
use lwsip.Agent.Media.{SdpEnv, report, offered, sess_on_sdp_ready, answered, gather}
use lwsip.Agent.Calls.{CallEnv, lws_agent_answer_call}

-- The session has its SDP handed to a callback, and the mode is not ICE.
abbrev pub IsAnswerable : Sess → Type 0
IsAnswerable sess =
    (sess.handler.on_sdp_ready ≡ true)
    × (sess.handler.on_state_changed ≡ false)
    × (sess.active_transport_mode ≡ rtp_direct)

gathered_offer :
    (now : ℕ) (address : Option Bytes) (sess : Sess)
    → IsAddress address
    → IsAnswerable sess
    → let r = lws_sess_gather_candidates now address sess in
      (offered r.2 ≡ some (generate_local_sdp now address sess.local_port sess.config).0)
      × (r.1 ≡ pos 0)
      × IsAnswerable r.0
unfolding lws_sess_gather_candidates change_state notify_sdp offered
gathered_offer now address sess h (a, b, c) =
    let done = (generate_fits now address sess.local_port sess.config h).0 in ground (arith, done)

-- The dialog of a call that was answered.
abbrev pub IsAnswered : Dialog → Type 0
IsAnswered d =
    (d.state ≡ confirmed)
    × (d.uas_txn ≡ false)
    × ((s : Sess) × (d.sess ≡ some s) × (s.state ≡ connected))

started_connected :
    (ret : ℤ) (sess : Sess) → IsAnswerable sess → (lws_sess_start_ice ret sess).0.state ≡ connected
unfolding lws_sess_start_ice change_state
started_connected ret sess (a, b, c) = ground arith

-- The calls made while a call is answered: the SDP is gathered, the answer is sent, the change is
-- told, the media start, and the transaction of the dialog is given back, in this order.
abbrev pub answering : AgentHandler → Dialog → List SessEvent → List SessEvent → List AgentEvent
answering h d gathering starting =
    media gathering
    ∷ uas_reply 200
    ∷ (report h d confirmed ++ (media starting ∷ uas_release d.address ∷ []))

ready-IsAnswered :
    (env : SdpEnv) (h : AgentHandler) (d : Dialog) (sess : Sess) (sdp : Bytes)
    → d.direction ≡ incoming_call
    → d.uas_txn ≡ true
    → is_neg env.reply_ret ≡ false
    → IsAnswerable sess
    → let r = sess_on_sdp_ready env h d sess sdp in
      IsAnswered r.0
      × (r.1
          ≡ uas_reply 200
            ∷ (report h d confirmed
                ++ (media (lws_sess_start_ice env.ice_ret sess).2 ∷ uas_release d.address ∷ [])))
unfolding sess_on_sdp_ready answered report
ready-IsAnswered env h d sess sdp incoming_way held sent answerable =
    let started = started_connected env.ice_ret sess answerable in
    rw (incoming_way, sess_on_sdp_ready)
      (rw (held, sess_on_sdp_ready)
        (rw (sent, sess_on_sdp_ready)
          ((refl, refl, ((lws_sess_start_ice env.ice_ret sess).0, refl, started)), refl)))

gather-IsAnswered :
    (env : SdpEnv) (h : AgentHandler) (d : Dialog) (sess : Sess)
    → d.direction ≡ incoming_call
    → d.uas_txn ≡ true
    → is_neg env.reply_ret ≡ false
    → IsAddress env.local_address
    → IsAnswerable sess
    → let r = gather env h d sess in
      (r.1 ≡ pos 0)
      × IsAnswered r.0
      × ((g : List SessEvent) × (s : List SessEvent) × (r.2 ≡ answering h d g s))
unfolding gather
gather-IsAnswered env h d sess way held sent address answerable =
    let gathered = lws_sess_gather_candidates env.now env.local_address sess in
    let (found, ret, still) = gathered_offer env.now env.local_address sess address answerable in
    let sdp = (generate_local_sdp env.now env.local_address sess.local_port sess.config).0 in
    let (ok_dialog, calls) = ready-IsAnswered env h d gathered.0 sdp way held sent still in
    rw (found, gather)
      (
        ret,
        ok_dialog,
        (
          gathered.2,
          (lws_sess_start_ice env.ice_ret gathered.0).2,
          ap (λ es. media gathered.2 ∷ es) calls,
        ),
      )

answer_result :
    (env : CallEnv) (d : Dialog) (sess : Sess) (agent : Agent)
    → d.state ≡ incoming
    → d.uas_txn ≡ true
    → d.sess ≡ some sess
    → let g = gather env.sdp agent.handler d sess in
      lws_agent_answer_call env d agent
      ≡ (save_dialog g.0 agent, (if is_nonzero g.1 then error else ok), g.2)
unfolding lws_agent_answer_call
answer_result env d sess agent ringing held there = ground arith

stored_again :
    (d d1 : Dialog) (agent : Agent)
    → at_address d.address agent.dialogs ≡ some d
    → d1.address ≡ d.address
    → at_address d.address (save_dialog d1 agent).dialogs ≡ some d1
unfolding save_dialog
stored_again d d1 agent there same =
    let found = ap (λ p. is_some (at_address p agent.dialogs)) same ∙ ap is_some there in
    ap (λ p. at_address p (store d1 agent.dialogs)) (sym same) ∙ at_stored d1 agent.dialogs found

-- Answering a ringing incoming call of the list, with its transaction and a session that is not in
-- ICE mode, where libsip sends the answer and the local address is none or one in text: the call
-- succeeds; behind the same handle there is then a dialog that is confirmed, holds no transaction
-- and has a connected session; and libsip was asked to send a 200 and then to take back the
-- transaction of that dialog, once each.
pub answer_call-IsAnswered :
    (env : CallEnv) (d : Dialog) (sess : Sess) (agent : Agent)
    → at_address d.address agent.dialogs ≡ some d
    → d.state ≡ incoming
    → d.direction ≡ incoming_call
    → d.uas_txn ≡ true
    → d.sess ≡ some sess
    → IsAnswerable sess
    → is_neg env.sdp.reply_ret ≡ false
    → IsAddress env.sdp.local_address
    → let r = lws_agent_answer_call env d agent in
      (r.1 ≡ ok)
      × ((d1 : Dialog) × (at_address d.address r.0.dialogs ≡ some d1) × IsAnswered d1)
      × ((g : List SessEvent) × (s : List SessEvent) × (r.2 ≡ answering agent.handler d g s))
answer_call-IsAnswered env d sess agent listed ringing way held there answerable sent address =
    let (ret, answered_dialog, (g, s, calls)) =
      gather-IsAnswered env.sdp agent.handler d sess way held sent address answerable in
    let d1 = (gather env.sdp agent.handler d sess).0 in
    let outcome = answer_result env d sess agent ringing held there in
    let stored = stored_again d d1 agent listed (gather_address env.sdp agent.handler d sess) in
    (
      ap (λ r. r.1) outcome ∙ ap (λ k. if is_nonzero k then error else ok) ret,
      (d1, ap (λ r. at_address d.address r.0.dialogs) outcome ∙ stored, answered_dialog),
      (g, s, ap (λ r. r.2) outcome ∙ calls),
    )
