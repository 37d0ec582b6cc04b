-- ===== src/Cli/World.antt =====
-- A ledger of the objects that src/cmd/lwsip-cli.c makes, uses and destroys.
use lwsip.Common.{
  ◌≡◌, Bool, true, false, not, Option, none, some, List, [], ◌∷◌, ◌++◌, arith, if◌then◌else◌, ◌||◌,
  ◌&&◌, Option-cases, inl, inr,
}
use lwsip.Cli.Setup.{
  Device, capture, playback, recorder, timers, trans_object, sess_object, agent_object,
  device_object, LibCall, made, destroyed, dev_open, dev_start, dev_stop, dev_close,
  gather_candidates, set_media_devices, agent_start,
}

-- What exists.
pub record World : Type 0 where
  pub has_timers : Bool
  pub has_trans : Bool
  pub has_capture : Bool
  pub has_playback : Bool
  pub has_recorder : Bool
  pub has_sess : Bool
  pub has_agent : Bool

abbrev pub empty_world : World
empty_world = record {
  has_timers = false;
  has_trans = false;
  has_capture = false;
  has_playback = false;
  has_recorder = false;
  has_sess = false;
  has_agent = false;
}

abbrev pub has_device : Device → World → Bool
has_device capture w = w.has_capture
has_device playback w = w.has_playback
has_device recorder w = w.has_recorder

abbrev pub with_device : Device → Bool → World → World
with_device capture b w = record w { has_capture = b }
with_device playback b w = record w { has_playback = b }
with_device recorder b w = record w { has_recorder = b }

-- `none` is an object that is made twice, used or destroyed while it is not there, or a device that
-- is made or destroyed while the media session or the agent holds it. `lws_timer_cleanup` may be
-- called without timers.
unfoldable pub world_step : LibCall → World → Option World
world_step (made timers) w = if w.has_timers then none else some (record w { has_timers = true })
world_step (made trans_object) w =
    if w.has_trans then none else some (record w { has_trans = true })
world_step (made (device_object d)) w =
    if has_device d w || w.has_sess || w.has_agent then none else some (with_device d true w)
world_step (made sess_object) w =
    if w.has_sess || not (w.has_capture && w.has_playback)
    then none
    else some (record w { has_sess = true })
world_step (made agent_object) w =
    if w.has_agent then none else some (record w { has_agent = true })
world_step (destroyed timers) w = some (record w { has_timers = false })
world_step (destroyed trans_object) w =
    if w.has_trans then some (record w { has_trans = false }) else none
world_step (destroyed (device_object d)) w =
    if has_device d w && not (w.has_sess || w.has_agent) then some (with_device d false w) else none
world_step (destroyed sess_object) w =
    if w.has_sess then some (record w { has_sess = false }) else none
world_step (destroyed agent_object) w =
    if w.has_agent then some (record w { has_agent = false }) else none
world_step (dev_open d) w = if has_device d w then some w else none
world_step (dev_start d) w = if has_device d w then some w else none
world_step (dev_stop d) w = if has_device d w then some w else none
world_step (dev_close d) w = if has_device d w then some w else none
world_step gather_candidates w = if w.has_sess then some w else none
world_step set_media_devices w = if w.has_agent then some w else none
world_step agent_start w = if w.has_agent then some w else none

unfoldable pub world_steps : List LibCall → World → Option World
unfolding world_step
world_steps [] w = some w
world_steps (c ∷ cs) w = elim (world_step c w) [ none ↦ none | some w' ↦ world_steps cs w' ]

pub world_steps-append :
    (cs ds : List LibCall) (w w' : World)
    → world_steps cs w ≡ some w'
    → world_steps (cs ++ ds) w ≡ world_steps ds w'
unfolding world_steps
world_steps-append [] ds w w' q = ground arith
world_steps-append (c ∷ cs) ds w w' q = elim (Option-cases (world_step c w)) [
  | inl refused ↦ ground arith
  | inr (k, e) ↦ ground (arith, world_steps-append cs ds k w')
]
