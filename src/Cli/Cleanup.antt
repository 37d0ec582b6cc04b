-- ===== src/Cli/Cleanup.antt =====
-- cleanup_lwsip gives back what init_lwsip made, in an order in which nothing is used after it is
-- gone (src/cmd/lwsip-cli.c).
use lwsip.Common.{
  ℤ, ◌≡◌, refl, sym, ◌∙◌, ap, Bool, true, false, some, List, ◌++◌, arith, is_neg, is_empty,
  Bool-cases, inl, inr,
}
use lwsip.Cli.{App}
use lwsip.Cli.World.{World, empty_world, has_device, world_step, world_steps, world_steps-append}
use lwsip.Cli.Setup.{
  Device, capture, playback, recorder, LibCall, DeviceEnv, LibEnv, set_device, setup_device,
  and_then, setup_agent, setup_sess, setup_recorder, setup_playback, setup_capture, init_lwsip,
  cleanup_lwsip,
}

-- What the program's pointers say that there is, while the timers are there.
abbrev pub world : App → World
world app = record {
  has_timers = true;
  has_trans = app.trans;
  has_capture = app.audio_capture;
  has_playback = app.audio_playback;
  has_recorder = app.audio_recorder;
  has_sess = app.sess;
  has_agent = app.agent;
}

-- A part of the initialisation does what the pointers say.
abbrev pub Reflects : App → App × List LibCall → Type 0
Reflects app r = world_steps r.1 (world app) ≡ some (world r.0)

setup_agent-Reflects :
    (env : LibEnv) (app : App)
    → app.agent ≡ false
    → let r = setup_agent env app in Reflects app (r.0, r.1)
unfolding setup_agent world_steps
setup_agent-Reflects env app h = ground arith

setup_sess-Reflects :
    (env : LibEnv) (app : App)
    → app.agent ≡ false
    → app.sess ≡ false
    → app.audio_capture ≡ true
    → app.audio_playback ≡ true
    → let r = setup_sess env app in Reflects app (r.0, r.1)
unfolding setup_sess world_steps world_step
setup_sess-Reflects env app h k c p =
    ground (arith, setup_agent-Reflects env (record app { sess = true }) h)

setup_device-Reflects :
    (env : DeviceEnv) (d : Device) (app : App)
    → app.agent ≡ false
    → app.sess ≡ false
    → has_device d (world app) ≡ false
    → let r = setup_device env d app in
      Reflects app (r.0, r.1) × ((r.2 ≡ true) → r.0 ≡ set_device d app)
unfolding setup_device world_steps world_step
setup_device-Reflects env capture app h k f = ground arith
setup_device-Reflects env playback app h k f = ground arith
setup_device-Reflects env recorder app h k f = ground arith

and_then-Reflects :
    (app : App) (first : App × List LibCall × Bool) (next : App → App × List LibCall × ℤ)
    → Reflects app (first.0, first.1)
    → ((first.2 ≡ true) → let r = next first.0 in Reflects first.0 (r.0, r.1))
    → let r = and_then first next in Reflects app (r.0, r.1)
and_then-Reflects app (app1, calls, false) next h k = h
and_then-Reflects app (app1, calls, true) next h k =
    world_steps-append calls (next app1).1 (world app) (world app1) h ∙ k refl

-- Nothing but the transport and some devices.
record IsFresh (app : App) : Type 0 where
  no_agent : app.agent ≡ false
  no_sess : app.sess ≡ false
  no_recorder : app.audio_recorder ≡ false

setup_recorder-Reflects :
    (env : LibEnv) (app : App)
    → IsFresh app
    → app.audio_capture ≡ true
    → app.audio_playback ≡ true
    → let r = setup_recorder env app in Reflects app (r.0, r.1)
unfolding setup_recorder
setup_recorder-Reflects env app v c p =
    let device =
      setup_device-Reflects env.recorder_env recorder app v.no_agent v.no_sess v.no_recorder in
    elim (Bool-cases (is_empty app.record_path)) [
      | inl without ↦ rw without (setup_sess-Reflects env app v.no_agent v.no_sess c p)
      | inr given ↦ rw given (
          and_then-Reflects app (setup_device env.recorder_env recorder app) (setup_sess env)
            device.0
            (λ go.
              let made_it = device.1 go in
              setup_sess-Reflects env (setup_device env.recorder_env recorder app).0
                (ap (λ a. a.agent) made_it ∙ v.no_agent) (ap (λ a. a.sess) made_it ∙ v.no_sess)
                (ap (λ a. a.audio_capture) made_it ∙ c) (ap (λ a. a.audio_playback) made_it ∙ p)))
    ]

setup_playback-Reflects :
    (env : LibEnv) (app : App)
    → IsFresh app
    → app.audio_capture ≡ true
    → app.audio_playback ≡ false
    → let r = setup_playback env app in Reflects app (r.0, r.1)
unfolding setup_playback
setup_playback-Reflects env app v c p =
    let device = setup_device-Reflects env.playback_env playback app v.no_agent v.no_sess p in
    and_then-Reflects app (setup_device env.playback_env playback app) (setup_recorder env) device.0
      (λ go.
        let made_it = device.1 go in
        setup_recorder-Reflects env (setup_device env.playback_env playback app).0
          (record {
            no_agent = ap (λ a. a.agent) made_it ∙ v.no_agent;
            no_sess = ap (λ a. a.sess) made_it ∙ v.no_sess;
            no_recorder = ap (λ a. a.audio_recorder) made_it ∙ v.no_recorder;
          })
          (ap (λ a. a.audio_capture) made_it ∙ c) (ap (λ a. a.audio_playback) made_it))

setup_capture-Reflects :
    (env : LibEnv) (app : App)
    → IsFresh app
    → app.audio_capture ≡ false
    → app.audio_playback ≡ false
    → let r = setup_capture env app in Reflects app (r.0, r.1)
unfolding setup_capture
setup_capture-Reflects env app v c p =
    let device = setup_device-Reflects env.capture_env capture app v.no_agent v.no_sess c in
    and_then-Reflects app (setup_device env.capture_env capture app) (setup_playback env) device.0
      (λ go.
        let made_it = device.1 go in
        setup_playback-Reflects env (setup_device env.capture_env capture app).0
          (record {
            no_agent = ap (λ a. a.agent) made_it ∙ v.no_agent;
            no_sess = ap (λ a. a.sess) made_it ∙ v.no_sess;
            no_recorder = ap (λ a. a.audio_recorder) made_it ∙ v.no_recorder;
          })
          (ap (λ a. a.audio_capture) made_it) (ap (λ a. a.audio_playback) made_it ∙ p))

-- The pointers of the program as it starts.
abbrev pub IsBlank : App → Type 0
IsBlank app = world app ≡ record empty_world { has_timers = true }

cleanup-empty : (app : App) → world_steps (cleanup_lwsip app).1 (world app) ≡ some empty_world
unfolding cleanup_lwsip world_steps world_step
cleanup-empty app = ground arith

cleanup-blank :
    (app : App) → IsBlank app → world_steps (cleanup_lwsip app).1 empty_world ≡ some empty_world
unfolding cleanup_lwsip world_steps world_step
cleanup-blank app blank =
    rw
      (
        ap (λ w. w.has_agent) blank,
        ap (λ w. w.has_sess) blank,
        ap (λ w. w.has_capture) blank,
        ap (λ w. w.has_playback) blank,
        ap (λ w. w.has_recorder) blank,
        ap (λ w. w.has_trans) blank,
      )
      refl

-- Whatever each call of the library returns, so wherever the initialisation stops: after it and the
-- cleanup, all that was made is destroyed, each thing once; no device is opened, started, stopped
-- or closed that is not there, and none is destroyed while the media session or the agent has it.
pub cleanup-init :
    (env : LibEnv) (app : App)
    → IsBlank app
    → let r = init_lwsip env app in
      world_steps (r.1 ++ (cleanup_lwsip r.0).1) empty_world ≡ some empty_world
unfolding init_lwsip world_steps world_step
cleanup-init env app blank =
    let app1 = record app { trans = true } in
    let started = setup_capture env app1 in
    let fresh : IsFresh app1 = record {
      no_agent = ap (λ w. w.has_agent) blank;
      no_sess = ap (λ w. w.has_sess) blank;
      no_recorder = ap (λ w. w.has_recorder) blank;
    } in
    let good =
      setup_capture-Reflects env app1 fresh (ap (λ w. w.has_capture) blank)
        (ap (λ w. w.has_playback) blank) in
    let all =
      world_steps-append started.1 (cleanup_lwsip started.0).1 (world app1) (world started.0)
        good in
    let calls = (cleanup_lwsip app).1 in
    elim (Bool-cases (is_neg env.timer_ret)) [
      | inl failed ↦ rw failed (cleanup-blank app blank)
      | inr ready ↦ elim (Bool-cases env.has_trans) [
        | inr absent ↦ rw (ready, absent) (ap (world_steps calls) (sym blank) ∙ cleanup-empty app)
        | inl present ↦
            rw (ready, present)
              (ap
                  (λ w.
                    world_steps (started.1 ++ (cleanup_lwsip started.0).1)
                      (record w { has_trans = true }))
                  (sym blank)
                ∙ all
                ∙ cleanup-empty started.0)
      ]
    ]
