-- ===== src/Agent/Lifecycle.antt =====
-- Creation, destruction, the loop and the settings of the agent: lws_agent_create,
-- lws_agent_destroy, lws_agent_loop, lws_agent_get_dialogs, lws_agent_set_media_devices and
-- lws_agent_init_default_config of src/lws_agent.c, over the transport and the timers.
use lwsip.Common.{
  ℕ, Bool, true, false, not, Option, none, some, List, [], ◌∷◌, ◌++◌, map, ◌||◌, ltb, if◌then◌else◌,
  ℤ, pos, is_neg, is_pos, pos_part, Bytes, CString, codes, strncpy, take, length, lws_einval,
  lws_ok,
}
use lwsip.Timer.{TimerManager, lws_timer_init, lws_timer_cleanup}
use lwsip.Timer as Timer
use lwsip.Trans.Types.{TransConfig, TransHandler, Trans, Effect, on_data_call, Addr}
use lwsip.Trans.Udp.{PollAnswer, RecvAnswer}
use lwsip.Trans.Api.{TransEnv, lws_trans_create, lws_trans_destroy, lws_trans_loop, cleared_config}
use lwsip.Sess.Media.{LoopEnv, lws_sess_loop}
use lwsip.Agent.Types.{idle, Agent, AgentHandler, AgentEvent, Dialog, media}
use lwsip.Agent.Dialogs.{lws_agent_destroy_dialog}
use lwsip.Agent.Transport.{AgentConfig}

-- `lws_agent_t`: the members that the calls work on, and those that stay as they were made.
pub record AgentObject : Type 0 where
  pub agent : Agent
  pub trans : Trans
  pub config : AgentConfig
  pub username : Bytes
  pub password : Bytes

-- What creation and destruction do, in order.
pub data LifeEffect : Type 0 where
  memory_acquired memory_released sip_agent_acquired sip_agent_released : LifeEffect
  trans_effect : Effect → LifeEffect
  timer_effect : Timer.Effect → LifeEffect
  dialog_event : AgentEvent → LifeEffect

-- What is answered outside: `thread` is the result of `lws_thread_create`.
pub record AgentEnv : Type 0 where
  pub has_memory : Bool
  pub transports : TransEnv
  pub thread : Option ℕ
  pub has_sip_agent : Bool

-- `memset(0)` and what creation sets.
abbrev pub new_agent : AgentHandler → Agent
new_agent handler = record {
  handler = handler;
  state = idle;
  dialogs = [];
  dialog_count = 0;
  register_txn = none;
  has_capture = false;
  has_playback = false;
  has_record = false;
  audio_codec = 0;
}

abbrev pub new_object : AgentConfig → AgentHandler → Trans → AgentObject
new_object config handler trans = record {
  agent = new_agent handler;
  trans = trans;
  config = config;
  username = strncpy 64 config.username;
  password = strncpy 128 config.password;
}

-- `{0}` with the type UDP and the option to reuse the address.
abbrev pub agent_trans_config : TransConfig
agent_trans_config = record cleared_config {
  sock = record {
    bind_addr = [];
    bind_port = 0;
    reuse_addr = true;
    reuse_port = false;
    enable_ipv6 = false;
  };
}

abbrev pub agent_trans_handler : TransHandler
agent_trans_handler = record { on_data = true; on_connected = false; on_error = true }

-- From the transport on.
unfoldable pub start_sip :
    AgentEnv
    → AgentConfig
    → AgentHandler
    → Trans
    → TimerManager
    → Option AgentObject × TimerManager × List LifeEffect
unfolding lws_timer_init lws_trans_destroy
start_sip env config handler trans timers =
    let init = lws_timer_init env.thread timers in
    if env.has_sip_agent
    then (
      some (new_object config handler trans),
      init.0,
      map timer_effect init.2 ++ (sip_agent_acquired ∷ []),
    )
    else (
      none,
      init.0,
      map timer_effect init.2
          ++ (map trans_effect (lws_trans_destroy (some trans)) ++ (memory_released ∷ [])),
    )

unfoldable pub lws_agent_create :
    AgentEnv
    → Option AgentConfig
    → Option AgentHandler
    → TimerManager
    → Option AgentObject × TimerManager × List LifeEffect
unfolding lws_trans_create start_sip
lws_agent_create env none handler timers = (none, timers, [])
lws_agent_create env (some config) none timers = (none, timers, [])
lws_agent_create env (some config) (some handler) timers =
    let made =
      lws_trans_create env.transports (some agent_trans_config) (some agent_trans_handler) in
    let before = memory_acquired ∷ map trans_effect made.0 in
    if not env.has_memory then (none, timers, []) else elim made.1 [
      | none ↦ (none, timers, before ++ (memory_released ∷ []))
      | some trans ↦
          let started = start_sip env config handler trans timers in
          (started.0, started.1, before ++ started.2)
    ]

-- `list_for_each_safe` over the dialogs that are in the list when it starts.
unfoldable pub destroy_dialogs : List Dialog → Agent → Agent × List AgentEvent
unfolding lws_agent_destroy_dialog
destroy_dialogs [] agent = (agent, [])
destroy_dialogs (d ∷ ds) agent =
    let first = lws_agent_destroy_dialog d agent in
    let rest = destroy_dialogs ds first.0 in (rest.0, first.1 ++ rest.1)

-- The agent as its memory was when it was freed, the timers, and what was done.
unfoldable pub lws_agent_destroy :
    AgentObject → TimerManager → Agent × TimerManager × List LifeEffect
unfolding destroy_dialogs lws_timer_cleanup lws_trans_destroy
lws_agent_destroy object timers =
    let destroyed = destroy_dialogs object.agent.dialogs object.agent in
    let cleaned = lws_timer_cleanup timers in
    (
      destroyed.0,
      cleaned.0,
      map dialog_event destroyed.1
          ++ (sip_agent_released
              ∷ (map timer_effect cleaned.1
                  ++ (map trans_effect (lws_trans_destroy (some object.trans))
                      ++ (memory_released ∷ [])))),
    )

abbrev pub bounded_timeout : ℤ → ℤ
bounded_timeout timeout_ms =
    if not (is_pos timeout_ms) || ltb 500 (pos_part timeout_ms) then pos 500 else timeout_ms

-- What the handler of the transport does with the data that it gets.
unfoldable pub take_data :
    (Bytes → Addr → Agent → Agent × List AgentEvent) → List Effect → Agent → Agent × List AgentEvent
take_data input [] agent = (agent, [])
take_data input (on_data_call bytes from ∷ es) agent =
    let first = input bytes from agent in
    let rest = take_data input es first.0 in (rest.0, first.1 ++ rest.1)
take_data input (_ ∷ es) agent = take_data input es agent

-- `list_for_each` over the dialogs with a session; `envs` answers for each of them.
unfoldable pub loop_dialogs : (ℕ → LoopEnv) → List Dialog → List Dialog × List AgentEvent
unfolding lws_sess_loop
loop_dialogs envs [] = ([], [])
loop_dialogs envs (d ∷ ds) =
    let rest = loop_dialogs envs ds in
    elim d.sess [
      | none ↦ (d ∷ rest.0, rest.1)
      | some s ↦
          let r = lws_sess_loop (envs d.address) s in
          (record d { sess = some r.0 } ∷ rest.0, media r.2 ∷ rest.1)
    ]

-- `input` is trans_on_data with what libsip does from there. The timeout is passed to `poll`.
unfoldable pub lws_agent_loop :
    TransEnv
    → (poll : ℤ → PollAnswer) → RecvAnswer
    → (ℕ → LoopEnv)
    → (input : Bytes → Addr → Agent → Agent × List AgentEvent) → (timeout_ms : ℤ) → AgentObject
    → AgentObject × ℤ × List AgentEvent
unfolding lws_trans_loop take_data loop_dialogs
lws_agent_loop env poll recvfrom envs input timeout_ms object =
    let timeout = bounded_timeout timeout_ms in
    let ret = lws_trans_loop env (poll timeout) recvfrom (some object.trans) timeout in
    let taken = take_data input ret.1 object.agent in
    let driven = loop_dialogs envs taken.0.dialogs in
    if is_neg ret.0 then (record object { agent = taken.0 }, ret.0, taken.1) else (
      record object { agent = record taken.0 { dialogs = driven.0 } },
      lws_ok,
      taken.1 ++ driven.1,
    )

-- The handles that are written to the array, and the result. `none` is NULL.
unfoldable pub lws_agent_get_dialogs :
    Option Agent → (has_array : Bool) → (max_count : ℤ) → List ℕ × ℤ
lws_agent_get_dialogs none has_array max_count = ([], lws_einval)
lws_agent_get_dialogs (some agent) has_array max_count =
    let found = take (pos_part max_count) (map (λ d. d.address) agent.dialogs) in
    if not has_array || not (is_pos max_count)
    then ([], lws_einval)
    else (found, pos (length found))

unfoldable pub lws_agent_set_media_devices :
    Option Agent → (capture playback recorder : Bool) → (audio_codec : ℕ) → Option Agent
lws_agent_set_media_devices none capture playback recorder audio_codec = none
lws_agent_set_media_devices (some agent) capture playback recorder audio_codec =
    some (record agent {
      has_capture = capture;
      has_playback = playback;
      has_record = recorder;
      audio_codec = audio_codec;
    })

abbrev pub copied : (size : ℕ) → CString → Bytes
copied size none = []
copied size (some s) = strncpy size s

unfoldable pub lws_agent_init_default_config :
    Option AgentConfig → (username password domain : CString) → Option AgentConfig
lws_agent_init_default_config none username password domain = none
lws_agent_init_default_config (some config) username password domain = some (record {
  username = copied 64 username;
  password = copied 64 password;
  nickname = [];
  domain = copied 256 domain;
  registrar = copied 256 domain;
  registrar_port = 5060;
  auto_register = true;
  register_expires = 3600;
  user_agent = codes "lwsip/3.0.0";
})
