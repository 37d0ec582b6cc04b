-- ===== src/Agent/Types.antt =====
-- The data of the agent (include/lws_agent.h and the structures of src/lws_agent.c).
use lwsip.Common.{ℕ, Bool, true, false, Option, List, Bytes}
use lwsip.Sess.Types.{Sess, SessEvent}

pub data AgentState : Type 0 where
  idle registering registered register_failed unregistering unregistered : AgentState

abbrev pub is_registering : AgentState → Bool
is_registering registering = true
is_registering _ = false

pub data DialogState : Type 0 where
  null_dialog calling incoming early confirmed terminated failed : DialogState

abbrev pub same_dialog_state : DialogState → DialogState → Bool
same_dialog_state null_dialog null_dialog = true
same_dialog_state calling calling = true
same_dialog_state incoming incoming = true
same_dialog_state early early = true
same_dialog_state confirmed confirmed = true
same_dialog_state terminated terminated = true
same_dialog_state failed failed = true
same_dialog_state _ _ = false

pub data Direction : Type 0 where
  unknown_call outgoing_call incoming_call : Direction

-- `address` stands for the pointer. Of the transactions and the SIP dialog of libsip only whether
-- there is one counts.
pub record Dialog : Type 0 where
  pub address : ℕ
  pub call_id : Bytes
  pub direction : Direction
  pub state : DialogState
  pub sip_dialog : Bool
  pub invite_txn : Bool
  pub uas_txn : Bool
  pub sess : Option Sess
  pub local_sdp : Bytes
  pub remote_sdp : Bytes

pub record AgentHandler : Type 0 where
  pub on_state_changed : Bool
  pub on_register_result : Bool
  pub on_dialog_state_changed : Bool
  pub on_incoming_call : Bool
  pub on_remote_sdp : Bool

-- `register_txn` is the stored transaction, by its address.
pub record Agent : Type 0 where
  pub handler : AgentHandler
  pub state : AgentState
  pub dialogs : List Dialog
  pub dialog_count : ℕ
  pub register_txn : Option ℕ
  pub has_capture : Bool
  pub has_playback : Bool
  pub has_record : Bool
  pub audio_codec : ℕ

pub data AgentResult : Type 0 where
  ok einval error err_sip_send err_sip_register : AgentResult

-- Calls of the application's handlers and of libsip.
pub data AgentEvent : Type 0 where
  state_changed : AgentState → AgentState → AgentEvent
  register_result : (success : Bool) → ℕ → AgentEvent
  dialog_state_changed : ℕ → DialogState → DialogState → AgentEvent
  incoming_call_event remote_sdp_event : ℕ → AgentEvent
  uas_addref uas_release : ℕ → AgentEvent
  uas_reply : ℕ → AgentEvent
  uac_release uac_send : AgentEvent
  media : List SessEvent → AgentEvent
