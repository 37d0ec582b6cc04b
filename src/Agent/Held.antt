-- ===== src/Agent/Held.antt =====
-- Calls of a dialog and requests of libsip keep count of the references to server transactions that
-- the dialogs hold (src/lws_agent.c).
use lwsip.Common.{
  ◌≡◌, refl, ap, ◌∙◌, ℕ, Bool, false, Option-cases, some, List, [], ◌∷◌, ◌++◌, ◌==◌, ◌||◌, arith,
  Bytes, Bool-cases, inl, inr, is_empty, ltb, leb, ◌&&◌, take,
}
use lwsip.Sess.Types.{Sess}
use lwsip.Agent.Types.{
  Dialog, early, terminated, failed, Agent, AgentEvent, uac_release, uas_release,
}
use lwsip.Agent.Dialogs.{at_address, save_dialog, lws_agent_destroy_dialog}
use lwsip.Agent.Media.{report}
use lwsip.Agent.Calls.{
  CallEnv, lws_agent_answer_call, lws_agent_reject_call, stop_session, finish_dialog,
  lws_agent_hangup, lws_agent_cancel_call,
}
use lwsip.Agent.Incoming.{
  ReplyEnv, is_success, connect_media, accept_reply, retry_invite, notify_reply, uac_oninvite,
}
use lwsip.Agent.References.{taken-append, given-append, one_if, held, held-store}
use lwsip.Agent.Balance.{Balanced, IsQuiet, report-IsQuiet, destroyed-Balanced, gathered-Balanced}

-- What a step does to the references of an agent.
abbrev pub Keeps : Agent → Agent → List AgentEvent → Type 0
Keeps before after es = Balanced (held before.dialogs) es (held after.dialogs)

stop_address : (d : Dialog) → (stop_session d).0.address ≡ d.address
unfolding stop_session
stop_address d = ground arith

stop_uas : (d : Dialog) → one_if (stop_session d).0.uas_txn ≡ one_if d.uas_txn
unfolding stop_session
stop_uas d = ground arith

stop-IsQuiet : (d : Dialog) → IsQuiet (stop_session d).1
unfolding stop_session
stop-IsQuiet d = elim (Option-cases d.sess) [
  | inl bare ↦ rw bare (refl, refl)
  | inr (sess, e) ↦ rw e (refl, refl)
]

module _ (d : Dialog) (agent : Agent) (there : at_address d.address agent.dialogs ≡ some d) where
  finish-Keeps :
      (d' : Dialog)
      → d'.address ≡ d.address
      → one_if d'.uas_txn ≡ one_if d.uas_txn
      → let r = finish_dialog d' agent in Keeps agent r.0 r.1
  unfolding finish_dialog
  finish-Keeps d' same uas =
      let d1 = (stop_session d').0 in
      let q : at_address d1.address agent.dialogs ≡ some d =
        ap (λ p. at_address p agent.dialogs) (stop_address d' ∙ same) ∙ there in
      let b = destroyed-Balanced d d1 agent q in
      let u = stop_uas d' in
      let s = stop-IsQuiet d' in
      let g = given-append (stop_session d').1 (lws_agent_destroy_dialog d1 agent).1 in
      let t = taken-append (stop_session d').1 (lws_agent_destroy_dialog d1 agent).1 in omega arith

  pub hangup-Keeps : (env : CallEnv) → let r = lws_agent_hangup env d agent in Keeps agent r.0 r.2
  unfolding lws_agent_hangup
  hangup-Keeps env =
      let done = finish-Keeps (record d { state = terminated }) refl refl in
      let q = report-IsQuiet agent.handler d terminated in
      let es = (finish_dialog (record d { state = terminated }) agent).1 in
      let g = given-append (report agent.handler d terminated) es in
      let t = taken-append (report agent.handler d terminated) es in ground (arith, done, q, g, t)

  pub cancel-Keeps :
      (env : CallEnv) → let r = lws_agent_cancel_call env d agent in Keeps agent r.0 r.2
  unfolding lws_agent_cancel_call
  cancel-Keeps env =
      let d' : Dialog = record d { state = terminated; invite_txn = false } in
      let done = finish-Keeps d' refl refl in
      let q = report-IsQuiet agent.handler d terminated in
      let es = (finish_dialog d' agent).1 in
      let g = given-append (report agent.handler d terminated) (uac_release ∷ es) in
      let t = taken-append (report agent.handler d terminated) (uac_release ∷ es) in
      ground (arith, done, q, g, t)

  pub reject-Keeps :
      (env : CallEnv) (code : ℕ)
      → let r = lws_agent_reject_call env code d agent in Keeps agent r.0 r.2
  unfolding lws_agent_reject_call
  reject-Keeps env code =
      let d' : Dialog = record d { state = failed; uas_txn = false } in
      let gone = destroyed-Balanced d d' agent there in
      let q = report-IsQuiet agent.handler d failed in
      let es = (lws_agent_destroy_dialog d' agent).1 in
      let g = given-append (report agent.handler d failed) (uas_release d.address ∷ es) in
      let t = taken-append (report agent.handler d failed) (uas_release d.address ∷ es) in
      elim (Bool-cases d.uas_txn) [
        | inl holding ↦ ground (arith, gone, q, g, t)
        | inr free ↦ rw (free, lws_agent_reject_call) refl
      ]

  pub answer-Keeps :
      (env : CallEnv) → let r = lws_agent_answer_call env d agent in Keeps agent r.0 r.2
  unfolding lws_agent_answer_call
  answer-Keeps env = elim (Option-cases d.sess) [
    | inl bare ↦ ground arith
    | inr (sess, e) ↦
        let done = gathered-Balanced env.sdp d sess agent there in ground (arith, done)
  ]

notify-IsQuiet : (code : ℕ) (d d1 : Dialog) (agent : Agent) → IsQuiet (notify_reply code d d1 agent)
unfolding notify_reply report
notify-IsQuiet code d d1 agent = (ground arith, ground arith)

-- What a step of `uac_oninvite` leaves of the dialog, and the calls it makes.
abbrev KeepsDialog : Dialog → Dialog → List AgentEvent → Type 0
KeepsDialog d d1 es = (d1.address ≡ d.address) × (one_if d1.uas_txn ≡ one_if d.uas_txn) × IsQuiet es

retry-KeepsDialog :
    (env : ReplyEnv) (d : Dialog) → let r = retry_invite env d in KeepsDialog d r.0 r.2
unfolding retry_invite
retry-KeepsDialog env d = (ground arith, ground arith, (ground arith, ground arith))

connect-IsQuiet :
    (env : ReplyEnv) (sdp : Bytes) (sess : Sess) → IsQuiet (connect_media env sdp sess).1
unfolding connect_media
connect-IsQuiet env sdp sess = (ground arith, ground arith)

accept-KeepsDialog :
    (env : ReplyEnv) (dialog : Bool) (d : Dialog)
    → let r = accept_reply env dialog d in KeepsDialog d r.0 r.1
unfolding accept_reply
accept-KeepsDialog env dialog d = elim (Bool-cases (is_empty env.body)) [
  | inl bare ↦ rw (bare, accept_reply) (refl, refl, (refl, refl))
  | inr full ↦ elim (Option-cases d.sess) [
    | inl none_yet ↦ rw (full, none_yet, accept_reply) (refl, refl, (refl, refl))
    | inr (sess, e) ↦
        let q = connect-IsQuiet env (take 2047 env.body) sess in
        rw (full, e, accept_reply) (refl, refl, q)
  ]
]

module _ (d : Dialog) (agent : Agent) (there : at_address d.address agent.dialogs ≡ some d) where
  saved-Keeps :
      (d1 : Dialog) (es : List AgentEvent)
      → KeepsDialog d d1 es
      → Keeps agent (save_dialog d1 agent) es
  unfolding save_dialog
  saved-Keeps d1 es k =
      let s = held-store d1 d agent.dialogs (ap (λ p. at_address p agent.dialogs) k.0 ∙ there) in
      let u = k.1 in let q = k.2 in let g = q.0 in let t = q.1 in omega arith

  replied-Keeps :
      (code : ℕ) (d1 : Dialog) (es : List AgentEvent)
      → KeepsDialog d d1 es
      → Keeps agent (save_dialog d1 agent) (es ++ notify_reply code d d1 agent)
  replied-Keeps code d1 es k =
      let q = notify-IsQuiet code d d1 agent in
      let g = given-append es (notify_reply code d d1 agent) in
      let t = taken-append es (notify_reply code d d1 agent) in
      let s = saved-Keeps d1 es k in let q0 = q.0 in let q1 = q.1 in omega arith

  pub invite_reply-Keeps :
      (env : ReplyEnv) (dialog : Bool) (code : ℕ)
      → let r = uac_oninvite env dialog code d agent in Keeps agent r.0 r.2
  unfolding uac_oninvite
  invite_reply-Keeps env dialog code = elim (Bool-cases (code == 401 || code == 407)) [
    | inl challenged ↦
        let r = retry_invite env d in
        rw (challenged, uac_oninvite) (saved-Keeps r.0 r.2 (retry-KeepsDialog env d))
    | inr other ↦ elim (Bool-cases (leb 100 code && ltb code 200)) [
      | inl ringing ↦
          rw (other, ringing, uac_oninvite)
            (replied-Keeps code (record d { state = early }) [] (refl, refl, (refl, refl)))
      | inr final ↦ elim (Bool-cases (is_success code)) [
        | inl success ↦
            let r = accept_reply env dialog d in
            rw (other, final, success, uac_oninvite)
              (replied-Keeps code r.0 r.1 (accept-KeepsDialog env dialog d))
        | inr failure ↦ elim (Bool-cases (leb 300 code)) [
          | inl rejected ↦
              rw (other, final, failure, rejected, uac_oninvite)
                (replied-Keeps code (record d { state = failed }) [] (refl, refl, (refl, refl)))
          | inr ignored ↦
              rw (other, final, failure, ignored, uac_oninvite)
                (replied-Keeps code d [] (refl, refl, (refl, refl)))
        ]
      ]
    ]
  ]
