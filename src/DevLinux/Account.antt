-- ===== src/DevLinux/Account.antt =====
-- What src/lws_dev_linux.c takes and gives back, by the calls of ALSA and the allocator, when a device
-- is opened and closed.
use lwsip.Common.{
  ◌≡◌, refl, ◌∙◌, ℕ, Bool, true, false, not, Option, none, some, List, [], ◌∷◌, ◌++◌, ◌⊎◌, inl, inr,
  arith, is_neg, if◌then◌else◌, ◌&&◌, ◌||◌, ℤ, negsuc, Option-cases, take,
}
use lwsip.DevLinux.{
  Effect, malloc_data, free_data, pcm_open, pcm_close, pcm_prepare, pcm_drop, pcm_drain,
  params_malloc, params_free, params_any, params_access, params_format, params_rate,
  params_channels, params_apply, pcm_readi, pcm_writei, pcm_recover, pcm_avail, configuring,
  open_failed, opened_data, pcm_name, is_capture_type, LinuxData, Platform, OpenEnv, linux_open,
  linux_close, close_calls, begun, undo, note,
}

pub record Taken : Type 0 where
  pub memory : Bool
  pub handle : Bool
  pub params : Bool

abbrev pub nothing : Taken
nothing = record { memory = false; handle = false; params = false }

abbrev pub everything : Taken
everything = record { memory = true; handle = true; params = true }

abbrev only_if : Bool → Taken → Option Taken
only_if true t = some t
only_if false t = none

-- One call; `none` is a call that uses or gives back what is not held, or takes it twice. Memory is
-- given back last.
unfoldable pub account : Effect → Taken → Option Taken
account malloc_data t = only_if (not t.memory) (record t { memory = true })
account free_data t = only_if (t.memory && not (t.handle || t.params)) (record t { memory = false })
account (pcm_open name capture true) t = only_if (t.memory && not t.handle) t
account (pcm_open name capture false) t =
    only_if (t.memory && not t.handle) (record t { handle = true })
account pcm_close t = only_if t.handle (record t { handle = false })
account (params_malloc true) t = only_if (t.memory && not t.params) (record t { params = true })
account (params_malloc false) t = only_if (t.memory && not t.params) t
account params_free t = only_if t.params (record t { params = false })
account params_any t = only_if (t.handle && t.params) t
account params_access t = only_if (t.handle && t.params) t
account params_format t = only_if (t.handle && t.params) t
account params_rate t = only_if (t.handle && t.params) t
account params_channels t = only_if (t.handle && t.params) t
account params_apply t = only_if (t.handle && t.params) t
account pcm_prepare t = only_if t.handle t
account pcm_drop t = only_if t.handle t
account pcm_drain t = only_if t.handle t
account (pcm_readi n) t = only_if t.handle t
account (pcm_writei n) t = only_if t.handle t
account pcm_recover t = only_if t.handle t
account pcm_avail t = only_if t.handle t

unfoldable pub accounts : List Effect → Taken → Option Taken
unfolding account
accounts [] t = some t
accounts (e ∷ es) t = elim (account e t) [ none ↦ none | some t' ↦ accounts es t' ]

pub accounts-append :
    (es fs : List Effect) (t t' : Taken)
    → accounts es t ≡ some t'
    → accounts (es ++ fs) t ≡ accounts fs t'
unfolding accounts
accounts-append [] fs t t' q = ground arith
accounts-append (x ∷ es) fs t t' q = elim (Option-cases (account x t)) [
  | inl refused ↦ ground arith
  | inr (k, e) ↦ ground (arith, accounts-append es fs k t')
]

-- The backend has an open device, and by its calls all that belongs to one.
pub record IsHeld (p : Platform) : Type 0 where
  pub present : (d : LinuxData) × (p.data_ptr ≡ some d) × (d.hw_params ≡ true)
  pub booked : accounts p.calls nothing ≡ some everything

-- It has none, and by its calls nothing at all.
pub record IsFree (p : Platform) : Type 0 where
  pub absent : p.data_ptr ≡ none
  pub settled : accounts p.calls nothing ≡ some nothing

pub note-IsHeld :
    (p : Platform) (d : LinuxData) (es : List Effect)
    → IsHeld p
    → d.hw_params ≡ true
    → accounts es everything ≡ some everything
    → IsHeld (record { data_ptr = some d; calls = p.calls ++ es })
note-IsHeld p d es v given h = record {
  present = (d, refl, given);
  booked = accounts-append p.calls es nothing everything v.booked ∙ h;
}

-- What an opening leaves: nothing with a failure, and everything with success.
unfoldable pub Outcome : Platform × ℤ → Type 0
Outcome r = ((is_neg r.1 ≡ true) × IsFree r.0) ⊎ ((is_neg r.1 ≡ false) × IsHeld r.0)

if-Outcome : (b : Bool) (x y : Platform × ℤ) → Outcome x → Outcome y → Outcome (if b then x else y)
if-Outcome true x y hx hy = hx
if-Outcome false x y hx hy = hy

pub note-IsFree :
    (p : Platform) (es : List Effect)
    → IsFree p
    → accounts es nothing ≡ some nothing
    → IsFree (note es p)
note-IsFree p es v h = record {
  absent = v.absent;
  settled = accounts-append p.calls es nothing nothing v.settled ∙ h;
}

begun-everything :
    (env : OpenEnv) → env.has_params ≡ true → accounts (begun env) nothing ≡ some everything
unfolding accounts account
begun-everything env given = rw given refl

failed-Outcome :
    (n : ℕ) (env : OpenEnv) (p : Platform)
    → env.has_params ≡ true
    → IsFree p
    → accounts (take n configuring ++ undo) everything ≡ some nothing
    → Outcome (open_failed n env p)
unfolding open_failed Outcome
failed-Outcome n env p given v back =
    let es = take n configuring ++ undo in
    let all = accounts-append (begun env) es nothing everything (begun-everything env given) in
    inl (refl, note-IsFree p (begun env ++ es) v (all ∙ back))

pub open-Outcome :
    (env : OpenEnv) (p : Platform) → env.has_params ≡ true → IsFree p → Outcome (linux_open env p)
unfolding linux_open Outcome accounts account
open-Outcome env p given v =
    let name = pcm_name env.device_name in
    let refused_calls =
      malloc_data ∷ pcm_open name (is_capture_type env.type) true ∷ free_data ∷ [] in
    let refused : Outcome (note refused_calls p, negsuc 0) =
      inl (refl, note-IsFree p refused_calls v refl) in
    let used =
      accounts-append (begun env) configuring nothing everything (begun-everything env given) in
    if-Outcome (not env.has_data) _ _ (inl (refl, v)) (
      if-Outcome (is_neg env.open_err) _ _ refused (
        if-Outcome (is_neg env.any_err) _ _ (failed-Outcome 1 env p given v refl) (
          if-Outcome (is_neg env.access_err) _ _ (failed-Outcome 2 env p given v refl) (
            if-Outcome (is_neg env.format_err) _ _ (failed-Outcome 3 env p given v refl) (
              if-Outcome (is_neg env.rate_err) _ _ (failed-Outcome 4 env p given v refl) (
                if-Outcome (is_neg env.channels_err) _ _ (failed-Outcome 5 env p given v refl) (
                  if-Outcome (is_neg env.params_err) _ _ (failed-Outcome 6 env p given v refl) (
                    inr (
                      refl,
                      record {
                        present = (opened_data env, refl, given);
                        booked =
                            accounts-append p.calls (begun env ++ configuring) nothing nothing
                              v.settled
                            ∙ used;
                      },
                    )))))))))

pub close-IsFree : (p : Platform) → IsHeld p → IsFree (linux_close p)
unfolding linux_close accounts account
close-IsFree p v =
    let (d, e, given) = v.present in
    let all = accounts-append p.calls (close_calls d) nothing everything v.booked in
    let back : accounts (close_calls d) everything ≡ some nothing = rw given refl in
    rw e (record { absent = refl; settled = all ∙ back })
