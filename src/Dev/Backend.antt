-- ===== src/Dev/Backend.antt =====
-- What the device layer (src/lws_dev.c) needs of a backend that owns something while it is open,
-- and what a backend that keeps to it gets: the resources follow the state of the device.
pub mod Control
pub mod Transfer
pub mod Calls
use lwsip.Common.{
  ◌≡◌, refl, ℕ, Bool, true, false, Option, some, List, [], ◌∷◌, ◌⊎◌, inl, inr, is_neg, not,
  if◌then◌else◌, ℤ, Bytes, Bool-cases, arith,
}
use lwsip.Dev.Types.{
  DevState, idle, opening, opened, started, stopped, closed, error, same_state, may_open, may_start,
  DevOps, Dev,
}
use lwsip.Dev.Control.{change_state, trigger_error}

-- The operations of a backend that leaves no entry of its table NULL.
pub record Operations (P : Type 0) : Type 0 where
  pub open_it : P → P × ℤ
  pub close_it : P → P
  pub start_it : P → P × ℤ
  pub stop_it : P → P
  pub read_it : ℕ → P → P × ℤ × Bytes
  pub write_it : Bytes → ℕ → P → P × ℤ
  pub avail_it : P → P × ℤ
  pub flush_it : P → P × ℤ
  pub read_video_it : ℕ → P → P × ℤ × Bytes
  pub write_video_it : Bytes → ℕ → P → P × ℤ

abbrev pub table : {P : Type 0} → Operations P → DevOps P
table o = record {
  open_op = some o.open_it;
  close_op = some o.close_it;
  start_op = some o.start_it;
  stop_op = some o.stop_it;
  read_audio_op = some o.read_it;
  write_audio_op = some o.write_it;
  get_audio_avail_op = some o.avail_it;
  flush_audio_op = some o.flush_it;
  read_video_op = some o.read_video_it;
  write_video_op = some o.write_video_it;
}

-- `Held` and `Free` say of the platform data what the backend has taken.
pub record Contract {P : Type 0} (o : Operations P) (Held Free : P → Type 0) : Type 0 where
  pub opens : (p : P) → Free p → is_neg (o.open_it p).1 ≡ false → Held (o.open_it p).0
  pub open_fails : (p : P) → Free p → is_neg (o.open_it p).1 ≡ true → Free (o.open_it p).0
  pub closes : (p : P) → Held p → Free (o.close_it p)
  pub closes_free : (p : P) → Free p → Free (o.close_it p)
  pub starts : (p : P) → Held p → Held (o.start_it p).0
  pub stops : (p : P) → Held p → Held (o.stop_it p)
  pub reads : (n : ℕ) (p : P) → Held p → Held (o.read_it n p).0
  pub writes : (s : Bytes) (n : ℕ) (p : P) → Held p → Held (o.write_it s n p).0
  pub avails : (p : P) → Held p → Held (o.avail_it p).0
  pub avails_free : (p : P) → Free p → Free (o.avail_it p).0
  pub flushes : (p : P) → Held p → Held (o.flush_it p).0
  pub flushes_free : (p : P) → Free p → Free (o.flush_it p).0
  pub reads_video : (n : ℕ) (p : P) → Held p → Held (o.read_video_it n p).0
  pub writes_video : (s : Bytes) (n : ℕ) (p : P) → Held p → Held (o.write_video_it s n p).0

abbrev pub is_open : DevState → Bool
is_open opened = true
is_open started = true
is_open stopped = true
is_open _ = false

-- The backend holds what it needs while the device is open, and nothing while it may be opened. In
-- the error state it may be either.
pub record Owned {P : Type 0} (o : Operations P) (Held Free : P → Type 0) (dev : Dev P)
    : Type 0 where
  pub works : dev.ops ≡ some (table o)
  pub held_when : is_open dev.state ≡ true → Held dev.platform_data
  pub free_when : may_open dev.state ≡ true → Free dev.platform_data
  pub either : Held dev.platform_data ⊎ Free dev.platform_data

pub same_state_eq : (s t : DevState) → same_state s t ≡ true → s ≡ t
same_state_eq idle t h = ground arith
same_state_eq opening t h = ground arith
same_state_eq opened t h = ground arith
same_state_eq started t h = ground arith
same_state_eq stopped t h = ground arith
same_state_eq closed t h = ground arith
same_state_eq error t h = ground arith

pub may_start-is_open : (s : DevState) → may_start s ≡ true → is_open s ≡ true
may_start-is_open s h = ground arith

module _ {P : Type 0} {o : Operations P} {Held Free : P → Type 0} where
  -- A device that works through `o` and goes over to the state `s`.
  pub change-Owned :
      (s : DevState) (dev : Dev P)
      → dev.ops ≡ some (table o)
      → (is_open s ≡ true → Held dev.platform_data)
      → (may_open s ≡ true → Free dev.platform_data)
      → Held dev.platform_data ⊎ Free dev.platform_data
      → Owned o Held Free (change_state s dev).0
  unfolding change_state
  change-Owned s dev w h f e = elim (Bool-cases (same_state dev.state s)) [
    | inl same ↦
        let q = same_state_eq dev.state s same in
        rw same (record {
          works = w;
          held_when = λ t. h (rw (← q) t);
          free_when = λ t. f (rw (← q) t);
          either = e;
        })
    | inr other ↦ rw other (record { works = w; held_when = h; free_when = f; either = e })
  ]

  pub error-Owned :
      (code : ℤ) (dev : Dev P)
      → dev.ops ≡ some (table o)
      → Held dev.platform_data ⊎ Free dev.platform_data
      → Owned o Held Free (trigger_error code dev).0
  unfolding trigger_error
  error-Owned code dev w e = change-Owned error dev w (λ t. cc) (λ t. cc) e

  -- Platform data that is replaced without a change of state.
  pub replace-Owned :
      (p : P) (dev : Dev P)
      → Owned o Held Free dev
      → (Held dev.platform_data → Held p)
      → (Free dev.platform_data → Free p)
      → Owned o Held Free (record dev { platform_data = p })
  replace-Owned p dev v h f = record {
    works = v.works;
    held_when = λ t. h (v.held_when t);
    free_when = λ t. f (v.free_when t);
    either = elim v.either [ inl a ↦ inl (h a) | inr b ↦ inr (f b) ];
  }

  -- The same in a state in which the device is open.
  pub replace_open-Owned :
      (p : P) (dev : Dev P)
      → Owned o Held Free dev
      → same_state dev.state started ≡ true
      → (Held dev.platform_data → Held p)
      → Owned o Held Free (record dev { platform_data = p })
  replace_open-Owned p dev v s h =
      let q = same_state_eq dev.state started s in
      let held = h (v.held_when (rw q)) in
      record {
        works = v.works;
        held_when = λ t. held;
        free_when = λ t. absurd (ground arith);
        either = inl held;
      }
