-- ===== src/Sess/Remote.antt =====
-- The remote SDP of a session: the choice of the transport mode, and what is handed to libice.
use lwsip.Common.{
  ℕ, zero, suc, ◌-◌, Bool, true, Option, none, some, List, [], ◌∷◌, ◌++◌, ◌||◌, if◌then◌else◌,
  is_some, ℤ, pos, negsuc, is_nonzero, Bytes, codes, str_eq, strip_prefix, length,
}
use lwsip.Sess.Types.{
  ice, rtp_direct, is_direct, SessEvent, ice_set_remote_auth, ice_add_remote_candidate, Sess,
}
use lwsip.Sess.Sdp.{sdp_has_ice_attributes, parse_sdp_attribute, line_of}

-- The answers of libice, and of `sscanf` and `inet_pton` on a candidate line: the type field where all
-- seven fields are read, and whether the address is one.
pub record IceEnv : Type 0 where
  pub auth_ret : ℤ
  pub scan_type : Bytes → Option Bytes
  pub ip_valid : Bytes → Bool

unfoldable pub determine_mode : Bytes → Sess → Sess
determine_mode sdp sess = if sess.transport_mode_determined then sess else record sess {
  active_transport_mode = if sdp_has_ice_attributes (some sdp) then ice else rtp_direct;
  transport_mode_determined = true;
}

-- The suffixes of the SDP at which the loop over candidates stops, the first `skip` bytes left out.
unfoldable pub candidate_lines : (skip : ℕ) → Bytes → List Bytes
candidate_lines skip [] = []
candidate_lines (suc skip) (c ∷ s) = candidate_lines skip s
candidate_lines zero (c ∷ s) =
    let behind = candidate_lines (length (line_of (c ∷ s)) - 1) s in
    let further = candidate_lines 0 s in
    if is_some (strip_prefix (codes "a=candidate:") (c ∷ s)) then (c ∷ s) ∷ behind else further

unfoldable pub add_candidate : IceEnv → (agent : Bool) → Bytes → List SessEvent
add_candidate env agent line = elim (env.scan_type line) [
  | none ↦ []
  | some t ↦
      if str_eq t (codes "host") || (str_eq t (codes "srflx") || str_eq t (codes "relay"))
      then (if env.ip_valid line then ice_add_remote_candidate agent ∷ [] else [])
      else []
]

unfoldable pub add_candidates : IceEnv → (agent : Bool) → List Bytes → List SessEvent
add_candidates env agent [] = []
add_candidates env agent (line ∷ lines) =
    add_candidate env agent line ++ add_candidates env agent lines

-- The part behind the choice of the mode, for ICE. LWS_MAX_UFRAG_LEN and LWS_MAX_PWD_LEN are 256.
unfoldable pub process_ice : IceEnv → Bytes → Sess → Sess × ℤ × List SessEvent
process_ice env sdp sess =
    let added = add_candidates env sess.ice_agent (candidate_lines 0 sdp) in
    elim (parse_sdp_attribute sdp (codes "ice-ufrag") 256) [
      | none ↦ (sess, pos 0, added)
      | some ufrag ↦ elim (parse_sdp_attribute sdp (codes "ice-pwd") 256) [
        | none ↦ (sess, pos 0, added)
        | some pwd ↦
            if is_nonzero env.auth_ret
            then (sess, negsuc 0, ice_set_remote_auth sess.ice_agent ufrag pwd ∷ [])
            else (sess, pos 0, ice_set_remote_auth sess.ice_agent ufrag pwd ∷ added)
      ]
    ]

unfoldable pub lws_sess_set_remote_sdp : IceEnv → Option Bytes → Sess → Sess × ℤ × List SessEvent
lws_sess_set_remote_sdp env none sess = (sess, negsuc 0, [])
lws_sess_set_remote_sdp env (some sdp) sess =
    let sess1 = determine_mode sdp sess in
    if is_direct sess1.active_transport_mode then (sess1, pos 0, []) else process_ice env sdp sess1
