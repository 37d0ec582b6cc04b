-- ===== src/Cli/Setup.antt =====
-- init_lwsip and cleanup_lwsip of src/cmd/lwsip-cli.c: what they make, start and destroy.
use lwsip.Common.{
  Bool, true, false, not, List, [], ◌∷◌, ◌++◌, if◌then◌else◌, ℤ, pos, negsuc, is_neg, is_empty,
}
use lwsip.Cli.{App}

pub data Device : Type 0 where
  capture playback recorder : Device

pub data Object : Type 0 where
  timers trans_object sess_object agent_object : Object
  device_object : Device → Object

-- The calls of the library that concern an object.
pub data LibCall : Type 0 where
  made destroyed : Object → LibCall
  dev_open dev_start dev_stop dev_close : Device → LibCall
  gather_candidates set_media_devices agent_start : LibCall

-- What the calls of the library return; a creation gives NULL or not.
pub record DeviceEnv : Type 0 where
  pub has_device : Bool
  pub open_ret : ℤ
  pub start_ret : ℤ

pub record LibEnv : Type 0 where
  pub timer_ret : ℤ
  pub has_trans : Bool
  pub capture_env : DeviceEnv
  pub playback_env : DeviceEnv
  pub recorder_env : DeviceEnv
  pub has_sess : Bool
  pub gather_ret : ℤ
  pub has_agent : Bool
  pub start_ret : ℤ

abbrev pub set_device : Device → App → App
set_device capture app = record app { audio_capture = true }
set_device playback app = record app { audio_playback = true }
set_device recorder app = record app { audio_recorder = true }

-- Create, open and start; the last component tells whether to go on.
unfoldable pub setup_device : DeviceEnv → Device → App → App × List LibCall × Bool
setup_device env d app =
    let app1 = set_device d app in
    if not env.has_device
    then (app, [], false)
    else if is_neg env.open_ret
    then (app1, made (device_object d) ∷ dev_open d ∷ [], false)
    else (app1, made (device_object d) ∷ dev_open d ∷ dev_start d ∷ [], not (is_neg env.start_ret))

-- What follows a step, unless the step failed.
abbrev pub and_then :
    App × List LibCall × Bool → (App → App × List LibCall × ℤ) → App × List LibCall × ℤ
and_then (app, calls, false) next = (app, calls, negsuc 0)
and_then (app, calls, true) next = let rest = next app in (rest.0, calls ++ rest.1, rest.2)

-- From the agent on.
unfoldable pub setup_agent : LibEnv → App → App × List LibCall × ℤ
setup_agent env app = if not env.has_agent then (app, [], negsuc 0) else (
  record app { agent = true },
  made agent_object ∷ set_media_devices ∷ agent_start ∷ [],
  if is_neg env.start_ret then negsuc 0 else pos 0,
)

-- From the media session on.
unfoldable pub setup_sess : LibEnv → App → App × List LibCall × ℤ
unfolding setup_agent
setup_sess env app =
    let app1 = record app { sess = true } in
    let rest = setup_agent env app1 in
    if not env.has_sess
    then (app, [], negsuc 0)
    else if is_neg env.gather_ret
    then (app1, made sess_object ∷ gather_candidates ∷ [], negsuc 0)
    else (rest.0, made sess_object ∷ gather_candidates ∷ rest.1, rest.2)

-- From the recorder on, which is made if there is a path for it.
unfoldable pub setup_recorder : LibEnv → App → App × List LibCall × ℤ
unfolding setup_device setup_sess
setup_recorder env app =
    if is_empty app.record_path
    then setup_sess env app
    else and_then (setup_device env.recorder_env recorder app) (setup_sess env)

unfoldable pub setup_playback : LibEnv → App → App × List LibCall × ℤ
unfolding setup_device setup_recorder
setup_playback env app = and_then (setup_device env.playback_env playback app) (setup_recorder env)

unfoldable pub setup_capture : LibEnv → App → App × List LibCall × ℤ
unfolding setup_device setup_playback
setup_capture env app = and_then (setup_device env.capture_env capture app) (setup_playback env)

unfoldable pub init_lwsip : LibEnv → App → App × List LibCall × ℤ
unfolding setup_capture
init_lwsip env app =
    let rest = setup_capture env (record app { trans = true }) in
    if is_neg env.timer_ret
    then (app, [], negsuc 0)
    else if not env.has_trans
    then (app, made timers ∷ [], negsuc 0)
    else (rest.0, made timers ∷ made trans_object ∷ rest.1, rest.2)

abbrev pub drop_if : Bool → List LibCall → List LibCall
drop_if present calls = if present then calls else []

abbrev pub drop_device : Device → List LibCall
drop_device d = dev_stop d ∷ dev_close d ∷ destroyed (device_object d) ∷ []

unfoldable pub cleanup_lwsip : App → App × List LibCall
cleanup_lwsip app = (
  record app {
    agent = false;
    sess = false;
    audio_capture = false;
    audio_playback = false;
    audio_recorder = false;
    trans = false;
  },
  drop_if app.agent (destroyed agent_object ∷ [])
      ++ (drop_if app.sess (destroyed sess_object ∷ [])
          ++ (drop_if app.audio_capture (drop_device capture)
              ++ (drop_if app.audio_playback (drop_device playback)
                  ++ (drop_if app.audio_recorder (drop_device recorder)
                      ++ (drop_if app.trans (destroyed trans_object ∷ [])
                          ++ (destroyed timers ∷ [])))))),
)
