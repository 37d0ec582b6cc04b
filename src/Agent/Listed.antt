-- ===== src/Agent/Listed.antt =====
-- The list of dialogs and its counter (src/lws_agent.c).
use lwsip.Common.{
  ◌≡◌, refl, ap, ℕ, suc, ◌==◌, ==_refl, Bool-cases, Option-cases, inl, inr, Bool, true, false, some,
  List, [], ◌∷◌, arith, Bytes, length, ◌||◌, is_some, str_eq,
}
use lwsip.Sess.Types.{Sess}
use lwsip.Sess.Control.{lws_sess_gather_candidates}
use lwsip.Agent.Types.{Dialog, Agent, AgentHandler, terminated, failed}
use lwsip.Agent.Dialogs.{
  lws_agent_find_dialog, at_address, store, unlink, lws_agent_create_dialog, save_dialog,
  lws_agent_destroy_dialog,
}
use lwsip.Agent.Media.{SdpEnv, offered, gather, sess_on_sdp_ready, answered}
use lwsip.Agent.Calls.{
  CallEnv, lws_agent_answer_call, lws_agent_reject_call, stop_session, finish_dialog,
  lws_agent_hangup, lws_agent_cancel_call,
}
use lwsip.Agent.Incoming.{ReplyEnv, retry_invite, uac_oninvite}

abbrev pub IsListed : Agent → Type 0
IsListed agent = agent.dialog_count ≡ length agent.dialogs

length-store : (new : Dialog) (ds : List Dialog) → length (store new ds) ≡ length ds
unfolding store
length-store new [] = refl
length-store new (d ∷ ds) = ground (arith, length-store new ds)

length-unlink :
    (p : ℕ) (ds : List Dialog)
    → is_some (at_address p ds) ≡ true
    → suc (length (unlink p ds)) ≡ length ds
unfolding unlink at_address
length-unlink p [] h = ground arith
length-unlink p (d ∷ ds) h = ground (arith, length-unlink p ds)

pub save-IsListed : (d : Dialog) (agent : Agent) → IsListed agent → IsListed (save_dialog d agent)
unfolding save_dialog
save-IsListed d agent h = omega (arith, length-store d agent.dialogs)

pub create-IsListed :
    (d : Dialog) (agent : Agent) → IsListed agent → IsListed (lws_agent_create_dialog d agent)
unfolding lws_agent_create_dialog
create-IsListed d agent h = omega arith

pub destroy-IsListed :
    (d : Dialog) (agent : Agent)
    → IsListed agent
    → is_some (at_address d.address agent.dialogs) ≡ true
    → IsListed (lws_agent_destroy_dialog d agent).0
unfolding lws_agent_destroy_dialog
destroy-IsListed d agent h there = omega (arith, length-unlink d.address agent.dialogs there)

-- A dialog that was just created is found, and so is one that was saved.
pub created_there :
    (d : Dialog) (agent : Agent)
    → is_some (at_address d.address (lws_agent_create_dialog d agent).dialogs) ≡ true
unfolding lws_agent_create_dialog at_address
created_there d agent = rw (==_refl d.address)

pub store_there :
    (p : ℕ) (new : Dialog) (ds : List Dialog)
    → is_some (at_address p (store new ds)) ≡ is_some (at_address p ds)
unfolding at_address store
store_there p new [] = refl
store_there p new (d ∷ ds) = ground (arith, store_there p new ds)

head_there :
    (e d : Dialog) (ds : List Dialog) → e ≡ d → is_some (at_address d.address (e ∷ ds)) ≡ true
unfolding at_address
head_there e d ds same =
    let addresses : e.address ≡ d.address = ap (λ x. x.address) same in ground arith

tail_there :
    (p : ℕ) (e : Dialog) (ds : List Dialog)
    → is_some (at_address p ds) ≡ true
    → is_some (at_address p (e ∷ ds)) ≡ true
unfolding at_address
tail_there p e ds h = ground arith

pub found_there :
    (call_id : Bytes) (ds : List Dialog) (d : Dialog)
    → lws_agent_find_dialog call_id ds ≡ some d
    → is_some (at_address d.address ds) ≡ true
unfolding lws_agent_find_dialog
found_there call_id [] d h = cc
found_there call_id (e ∷ ds) d h = elim (Bool-cases (str_eq e.call_id call_id)) [
  | inl here ↦
      let same : some e ≡ some d = rw (here, lws_agent_find_dialog) at h in
      head_there e d ds (cc same)
  | inr there ↦
      let rest : lws_agent_find_dialog call_id ds ≡ some d =
        rw (there, lws_agent_find_dialog) at h in
      tail_there d.address e ds (found_there call_id ds d rest)
]

pub address_there :
    (p : ℕ) (ds : List Dialog) (d : Dialog)
    → at_address p ds ≡ some d
    → is_some (at_address d.address ds) ≡ true
unfolding at_address
address_there p [] d h = cc
address_there p (e ∷ ds) d h = elim (Bool-cases (e.address == p)) [
  | inl here ↦
      let same : some e ≡ some d = rw (here, at_address) at h in head_there e d ds (cc same)
  | inr there ↦
      let rest : at_address p ds ≡ some d = rw (there, at_address) at h in
      tail_there d.address e ds (address_there p ds d rest)
]

-- The dialog that a session hands back stands where it stood.
sdp_ready_address :
    (env : SdpEnv) (h : AgentHandler) (d : Dialog) (sess : Sess) (sdp : Bytes)
    → (sess_on_sdp_ready env h d sess sdp).0.address ≡ d.address
unfolding sess_on_sdp_ready answered
sdp_ready_address env h d sess sdp = ground arith

pub gather_address :
    (env : SdpEnv) (h : AgentHandler) (d : Dialog) (sess : Sess)
    → (gather env h d sess).0.address ≡ d.address
unfolding gather
gather_address env h d sess =
    elim (Option-cases (offered (lws_sess_gather_candidates env.now env.local_address sess).2)) [
      | inl silent ↦ rw (silent, gather) refl
      | inr (sdp, e) ↦
          rw (e, gather)
            (sdp_ready_address env h d (lws_sess_gather_candidates env.now env.local_address sess).0
              sdp)
    ]

stop_address : (d : Dialog) → (stop_session d).0.address ≡ d.address
unfolding stop_session
stop_address d = ground arith

finish-IsListed :
    (d : Dialog) (agent : Agent)
    → IsListed agent
    → is_some (at_address d.address agent.dialogs) ≡ true
    → IsListed (finish_dialog d agent).0
unfolding finish_dialog
finish-IsListed d agent h there =
    destroy-IsListed (stop_session d).0 agent h (rw (stop_address d) there)

module _ (d : Dialog) (agent : Agent) (h : IsListed agent)
    (there : is_some (at_address d.address agent.dialogs) ≡ true) where
  pub hangup-IsListed : (env : CallEnv) → IsListed (lws_agent_hangup env d agent).0
  unfolding lws_agent_hangup
  hangup-IsListed env =
      ground (arith, finish-IsListed (record d { state = terminated }) agent h there)

  pub cancel-IsListed : (env : CallEnv) → IsListed (lws_agent_cancel_call env d agent).0
  unfolding lws_agent_cancel_call
  cancel-IsListed env =
      ground
        (arith, finish-IsListed (record d { state = terminated; invite_txn = false }) agent h there)

  pub reject-IsListed :
      (env : CallEnv) (code : ℕ) → IsListed (lws_agent_reject_call env code d agent).0
  unfolding lws_agent_reject_call
  reject-IsListed env code =
      ground (arith, destroy-IsListed (record d { state = failed; uas_txn = false }) agent h there)

  pub answer-IsListed : (env : CallEnv) → IsListed (lws_agent_answer_call env d agent).0
  unfolding lws_agent_answer_call
  answer-IsListed env = elim (Option-cases d.sess) [
    | inl bare ↦ ground arith
    | inr (sess, e) ↦
        let saved = save-IsListed (gather env.sdp agent.handler d sess).0 agent h in
        ground (arith, saved)
  ]

  pub uac_oninvite-IsListed :
      (env : ReplyEnv) (dialog : Bool) (code : ℕ)
      → IsListed (uac_oninvite env dialog code d agent).0
  unfolding uac_oninvite
  uac_oninvite-IsListed env dialog code = elim (Bool-cases (code == 401 || code == 407)) [
    | inl challenged ↦ rw (challenged, uac_oninvite) (save-IsListed (retry_invite env d).0 agent h)
    | inr other ↦ rw (other, uac_oninvite) (save-IsListed _ agent h)
  ]
