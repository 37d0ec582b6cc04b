-- ===== src/Agent/Dialogs.antt =====
-- The list of dialogs (lws_agent_find_dialog, lws_agent_create_dialog, lws_agent_destroy_dialog).
use lwsip.Common.{
  ℕ, ◌+◌, ◌-◌, false, Option, none, some, List, [], ◌∷◌, ◌++◌, ◌==◌, if◌then◌else◌, Bytes, take,
  str_eq,
}
use lwsip.Agent.Types.{Dialog, Agent, AgentEvent, uas_release, null_dialog, unknown_call, media}
use lwsip.Sess.Create.{lws_sess_destroy}

unfoldable pub lws_agent_find_dialog : Bytes → List Dialog → Option Dialog
lws_agent_find_dialog call_id [] = none
lws_agent_find_dialog call_id (d ∷ ds) =
    let rest = lws_agent_find_dialog call_id ds in if str_eq d.call_id call_id then some d else rest

-- The dialog behind a handle of the application; `none` is a dangling pointer.
unfoldable pub at_address : ℕ → List Dialog → Option Dialog
at_address p [] = none
at_address p (d ∷ ds) = let rest = at_address p ds in if d.address == p then some d else rest

-- The dialog behind a pointer is written.
unfoldable pub store : Dialog → List Dialog → List Dialog
store new [] = []
store new (d ∷ ds) =
    let rest = store new ds in if d.address == new.address then new ∷ ds else d ∷ rest

-- `list_remove`
unfoldable pub unlink : ℕ → List Dialog → List Dialog
unlink p [] = []
unlink p (d ∷ ds) = let rest = unlink p ds in if d.address == p then ds else d ∷ rest

-- The dialog that `lws_agent_create_dialog` fills in. LWS_MAX_CALL_ID_LEN is 128.
abbrev pub new_dialog : (address : ℕ) → Bytes → Dialog
new_dialog address call_id = record {
  address = address;
  call_id = take 127 call_id;
  direction = unknown_call;
  state = null_dialog;
  sip_dialog = false;
  invite_txn = false;
  uas_txn = false;
  sess = none;
  local_sdp = [];
  remote_sdp = [];
}

-- `list_insert_after` the head.
unfoldable pub lws_agent_create_dialog : Dialog → Agent → Agent
lws_agent_create_dialog d agent = record agent {
  dialogs = d ∷ agent.dialogs;
  dialog_count = agent.dialog_count + 1;
}

unfoldable pub save_dialog : Dialog → Agent → Agent
save_dialog d agent = record agent { dialogs = store d agent.dialogs }

unfoldable pub destroy_events : Dialog → List AgentEvent
destroy_events d =
    (if d.uas_txn then uas_release d.address ∷ [] else [])
    ++ elim d.sess [ none ↦ [] | some s ↦ media (lws_sess_destroy s).0 ∷ [] ]

unfoldable pub lws_agent_destroy_dialog : Dialog → Agent → Agent × List AgentEvent
lws_agent_destroy_dialog d agent = (
  record agent { dialogs = unlink d.address agent.dialogs; dialog_count = agent.dialog_count - 1 },
  destroy_events d,
)
