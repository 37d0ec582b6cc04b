-- ===== src/Cli.antt =====
-- src/cmd/lwsip-cli.c: the command line program. What `getopt_long` finds, and what the library's
-- calls return, are arguments.
pub mod Setup
pub mod Loop
pub mod World
pub mod Cleanup
pub mod Server
mod Examples
use lwsip.Common.{
  ℕ, Bool, true, false, not, Option, none, some, List, [], ◌∷◌, ◌++◌, ◌&&◌, if◌then◌else◌, ℤ, pos,
  negsuc, Bytes, is_empty, strncpy,
}
use lwsip.Agent.Types.{AgentState, registered, DialogState, confirmed, terminated}

-- `app_context_t`; of the objects, whether the pointer is not NULL.
pub record App : Type 0 where
  pub device_path : Bytes
  pub record_path : Bytes
  pub server_addr : Bytes
  pub username : Bytes
  pub password : Bytes
  pub call_target : Bytes
  pub has_call_target : Bool
  pub trans : Bool
  pub audio_capture : Bool
  pub audio_playback : Bool
  pub audio_recorder : Bool
  pub sess : Bool
  pub agent : Bool
  pub is_registered : Bool
  pub in_call : Bool
  pub running : Bool

-- An option that `getopt_long` returns, with its argument.
pub data CliOption : Type 0 where
  device record_to server username_is password_is call : Bytes → CliOption
  help unknown : CliOption

-- `left` is `exit(0)`.
pub data Parsed : Type 0 where
  returned : App → ℤ → Parsed
  left : Parsed

-- What is required, after the options.
unfoldable pub validate : App → ℤ
validate app =
    if is_empty app.server_addr
    then negsuc 0
    else if is_empty app.username
    then negsuc 0
    else if is_empty app.password
    then negsuc 0
    else pos 0

unfoldable pub parse_args : List CliOption → App → Parsed
unfolding validate
parse_args [] app = returned app (validate app)
parse_args (device s ∷ os) app = parse_args os (record app { device_path = strncpy 256 s })
parse_args (record_to s ∷ os) app = parse_args os (record app { record_path = strncpy 256 s })
parse_args (server s ∷ os) app = parse_args os (record app { server_addr = strncpy 256 s })
parse_args (username_is s ∷ os) app = parse_args os (record app { username = strncpy 64 s })
parse_args (password_is s ∷ os) app = parse_args os (record app { password = strncpy 64 s })
parse_args (call s ∷ os) app =
    parse_args os (record app { call_target = strncpy 64 s; has_call_target = true })
parse_args (help ∷ os) app = left
parse_args (unknown ∷ os) app = returned app (negsuc 0)

-- The callbacks that change the program's state, and the signals.
pub data Callback : Type 0 where
  agent_state : AgentState → Callback
  incoming_call : Callback
  dialog_state : DialogState → Callback
  signal : Callback

abbrev pub is_registered_state : AgentState → Bool
is_registered_state registered = true
is_registered_state _ = false

-- The calls that `on_agent_state_changed` makes, by their targets.
unfoldable pub on_agent_state_changed : AgentState → App → App × List Bytes
on_agent_state_changed new_state app =
    if is_registered_state new_state
    then (
      record app { is_registered = true },
      if app.has_call_target then app.call_target ∷ [] else [],
    )
    else (app, [])

unfoldable pub on_incoming_call : App → App
on_incoming_call app = record app { in_call = true }

unfoldable pub on_dialog_state_changed : DialogState → App → App
on_dialog_state_changed confirmed app = record app { in_call = true }
on_dialog_state_changed terminated app =
    if app.has_call_target
    then record app { in_call = false; running = false }
    else record app { in_call = false }
on_dialog_state_changed _ app = app

unfoldable pub signal_handler : App → App
signal_handler app = record app { running = false }

unfoldable pub called_back : Callback → App → App × List Bytes
unfolding on_agent_state_changed on_incoming_call on_dialog_state_changed signal_handler
called_back (agent_state s) app = on_agent_state_changed s app
called_back incoming_call app = (on_incoming_call app, [])
called_back (dialog_state s) app = (on_dialog_state_changed s app, [])
called_back signal app = (signal_handler app, [])

-- One round of the loop of `main`: the callbacks that come in it.
unfoldable pub run_round : List Callback → App → App × List Bytes
unfolding called_back
run_round [] app = (app, [])
run_round (c ∷ cs) app =
    let first = called_back c app in let rest = run_round cs first.0 in (rest.0, first.1 ++ rest.1)

-- `while (g_app.running)` over the rounds to come; `none` where it still runs after the last one.
unfoldable pub main_loop : List (List Callback) → App → Option (App × List Bytes)
unfolding run_round
main_loop [] app = if app.running then none else some (app, [])
main_loop (r ∷ rs) app =
    let now = run_round r app in
    let rest = main_loop rs now.0 in
    if app.running
    then elim rest [ none ↦ none | some (end, calls) ↦ some (end, now.1 ++ calls) ]
    else some (app, [])
