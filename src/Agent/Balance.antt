-- ===== src/Agent/Balance.antt =====
-- The references to server transactions of libsip, through each operation of src/lws_agent.c.
use lwsip.Common.{
  ◌≡◌, refl, ap, ◌∙◌, ℕ, ◌+◌, Option-cases, some, List, [], ◌∷◌, ◌++◌, arith, Bytes, Bool-cases,
  inl, inr,
}
use lwsip.Sess.Types.{Sess}
use lwsip.Sess.Control.{lws_sess_gather_candidates}
use lwsip.Agent.Types.{Dialog, DialogState, Agent, AgentHandler, AgentEvent, uas_reply}
use lwsip.Agent.Dialogs.{at_address, save_dialog, destroy_events, lws_agent_destroy_dialog}
use lwsip.Agent.Media.{SdpEnv, report, answered, sess_on_sdp_ready, offered, gather}
use lwsip.Agent.Listed.{gather_address}
use lwsip.Agent.References.{
  taken, given, taken-append, given-append, one_if, held, held-store, held-unlink,
}

-- The references that are held before and after a step, given what the step takes and gives back.
abbrev pub Balanced : ℕ → List AgentEvent → ℕ → Type 0
Balanced before es after = given es + after ≡ taken es + before

pub Balanced-append :
    (a b c : ℕ) (es fs : List AgentEvent)
    → Balanced a es b
    → Balanced b fs c
    → Balanced a (es ++ fs) c
Balanced-append a b c es fs h k = omega (arith, given-append es fs, taken-append es fs, h, k)

pub Balanced-reply :
    (a b code : ℕ) (es : List AgentEvent)
    → Balanced a es b
    → Balanced a (es ++ (uas_reply code ∷ [])) b
Balanced-reply a b code es h = Balanced-append a b b es (uas_reply code ∷ []) h refl

-- Calls that neither take nor give back a reference.
abbrev pub IsQuiet : List AgentEvent → Type 0
IsQuiet es = (given es ≡ 0) × (taken es ≡ 0)

pub Balanced-after_quiet :
    (a b : ℕ) (es fs : List AgentEvent) → IsQuiet es → Balanced a fs b → Balanced a (es ++ fs) b
Balanced-after_quiet a b es fs q h =
    let g = q.0 in let t = q.1 in Balanced-append a a b es fs (omega arith) h

pub report-IsQuiet : (h : AgentHandler) (d : Dialog) (new : DialogState) → IsQuiet (report h d new)
unfolding report
report-IsQuiet h d new = elim (Bool-cases h.on_dialog_state_changed) [
  | inl told ↦ rw (told, report) (refl, refl)
  | inr still ↦ rw (still, report) (refl, refl)
]

pub destroy-Balanced : (d : Dialog) → Balanced (one_if d.uas_txn) (destroy_events d) 0
unfolding destroy_events
destroy-Balanced d = elim (Bool-cases d.uas_txn) [
  | inl holding ↦ elim (Option-cases d.sess) [
    | inl bare ↦ rw (holding, bare) refl
    | inr (sess, e) ↦ rw (holding, e) refl
  ]
  | inr free ↦ elim (Option-cases d.sess) [
    | inl bare ↦ rw (free, bare) refl
    | inr (sess, e) ↦ rw (free, e) refl
  ]
]

pub destroy-taken : (d : Dialog) → taken (destroy_events d) ≡ 0
unfolding destroy_events
destroy-taken d = elim (Option-cases d.sess) [
  | inl bare ↦ ground arith
  | inr (sess, e) ↦ ground arith
]

-- A dialog goes that is stored as `stored`.
pub destroyed-Balanced :
    (stored d : Dialog) (agent : Agent)
    → at_address d.address agent.dialogs ≡ some stored
    → let r = lws_agent_destroy_dialog d agent in
      (given r.1 + held r.0.dialogs + one_if stored.uas_txn ≡ held agent.dialogs + one_if d.uas_txn)
      × (taken r.1 ≡ 0)
unfolding lws_agent_destroy_dialog
destroyed-Balanced stored d agent there =
    let u = held-unlink d.address stored agent.dialogs there in
    let b = destroy-Balanced d in let t = destroy-taken d in (omega arith, t)

sdp_ready-Balanced :
    (env : SdpEnv) (h : AgentHandler) (d : Dialog) (sess : Sess) (sdp : Bytes)
    → let r = sess_on_sdp_ready env h d sess sdp in
      Balanced (one_if d.uas_txn) r.1 (one_if r.0.uas_txn)
unfolding sess_on_sdp_ready answered report
sdp_ready-Balanced env h d sess sdp = ground arith

pub gather-Balanced :
    (env : SdpEnv) (h : AgentHandler) (d : Dialog) (sess : Sess)
    → let r = gather env h d sess in Balanced (one_if d.uas_txn) r.2 (one_if r.0.uas_txn)
unfolding gather
gather-Balanced env h d sess =
    let sess1 = (lws_sess_gather_candidates env.now env.local_address sess).0 in
    elim (Option-cases (offered (lws_sess_gather_candidates env.now env.local_address sess).2)) [
      | inl silent ↦ rw (silent, gather) refl
      | inr (sdp, e) ↦ rw (e, gather) (sdp_ready-Balanced env h d sess1 sdp)
    ]

-- The dialog that gathering hands back is stored where it stood.
pub gathered-Balanced :
    (env : SdpEnv) (d : Dialog) (sess : Sess) (agent : Agent)
    → at_address d.address agent.dialogs ≡ some d
    → let r = gather env agent.handler d sess in
      Balanced (held agent.dialogs) r.2 (held (save_dialog r.0 agent).dialogs)
unfolding save_dialog
gathered-Balanced env d sess agent there =
    let r = gather env agent.handler d sess in
    let q = gather_address env agent.handler d sess in
    let s = held-store r.0 d agent.dialogs (ap (λ p. at_address p agent.dialogs) q ∙ there) in
    let g = gather-Balanced env agent.handler d sess in omega arith
