-- ===== src/Dev/Backend/Control.antt =====
-- Opening, starting, stopping and closing a device whose backend keeps to its contract.
use lwsip.Common.{◌≡◌, refl, ◌∙◌, ℕ, true, some, inl, inr, is_neg, if◌then◌else◌, Bool-cases, arith}
use lwsip.Dev.Types.{
  DevState, opening, opened, started, stopped, closed, same_state, may_open, may_start, Dev,
}
use lwsip.Dev.Control.{
  change_state, trigger_error, lws_dev_open, lws_dev_start, lws_dev_stop, lws_dev_close,
  finish_close,
}
use lwsip.Dev.Backend.{
  Operations, table, Contract, Owned, same_state_eq, may_start-is_open, change-Owned, error-Owned,
}

module _ {P : Type 0} {o : Operations P} {Held Free : P → Type 0} (c : Contract o Held Free) where
  -- `dev` is on its way to be opened.
  opening-Owned :
      (now : ℕ) (dev : Dev P)
      → dev.ops ≡ some (table o)
      → Free dev.platform_data
      → let r = o.open_it dev.platform_data in
        let dev2 = record dev { platform_data = r.0 } in
        Owned o Held Free (
          if is_neg r.1
          then (trigger_error r.1 dev2).0
          else (change_state opened (record dev2 { start_timestamp_us = now })).0)
  opening-Owned now dev w free =
      let r = o.open_it dev.platform_data in
      let dev2 = record dev { platform_data = r.0 } in
      elim (Bool-cases (is_neg r.1)) [
        | inl failed ↦
            let left = c.open_fails dev.platform_data free failed in
            rw failed (error-Owned r.1 dev2 w (inr left))
        | inr good ↦
            let held = c.opens dev.platform_data free good in
            rw good (
              change-Owned opened (record dev2 { start_timestamp_us = now }) w (λ t. held) (λ t. cc)
                (inl held))
      ]

  change-kept :
      (s : DevState) (dev : Dev P)
      → ((change_state s dev).0.ops ≡ dev.ops)
        × ((change_state s dev).0.platform_data ≡ dev.platform_data)
  unfolding change_state
  change-kept s dev = elim (Bool-cases (same_state dev.state s)) [
    | inl same ↦ rw same (refl, refl)
    | inr other ↦ rw other (refl, refl)
  ]

  open-opened :
      (now : ℕ) (dev : Dev P)
      → may_open dev.state ≡ true
      → dev.ops ≡ some (table o)
      → let dev1 = (change_state opening dev).0 in
        let r = o.open_it dev1.platform_data in
        let dev2 = record dev1 { platform_data = r.0 } in
        (lws_dev_open now dev).0 ≡ (
          if is_neg r.1
          then (trigger_error r.1 dev2).0
          else (change_state opened (record dev2 { start_timestamp_us = now })).0)
  unfolding lws_dev_open
  open-opened now dev may w = ground arith

  pub open-Owned :
      (now : ℕ) (dev : Dev P) → Owned o Held Free dev → Owned o Held Free (lws_dev_open now dev).0
  open-Owned now dev v = elim (Bool-cases (may_open dev.state)) [
    | inr closed_to ↦ unfold lws_dev_open in rw closed_to v
    | inl may ↦
        let kept = change-kept opening dev in
        rw (open-opened now dev may v.works) (
          opening-Owned now (change_state opening dev).0 (kept.0 ∙ v.works)
            (rw kept.1 (v.free_when may)))
  ]

  pub start-Owned : (dev : Dev P) → Owned o Held Free dev → Owned o Held Free (lws_dev_start dev).0
  unfolding lws_dev_start
  start-Owned dev v = elim (Bool-cases (may_start dev.state)) [
    | inr no_start ↦ rw no_start v
    | inl may ↦
        let held = c.starts dev.platform_data (v.held_when (may_start-is_open dev.state may)) in
        let ret = (o.start_it dev.platform_data).1 in
        let dev1 = record dev { platform_data = (o.start_it dev.platform_data).0 } in
        rw (may, v.works)
          (elim (Bool-cases (is_neg ret)) [
            | inl failed ↦ rw failed (error-Owned ret dev1 v.works (inl held))
            | inr good ↦
                rw good (change-Owned started dev1 v.works (λ t. held) (λ t. cc) (inl held))
          ])
  ]

  pub stop-Owned : (dev : Dev P) → Owned o Held Free dev → Owned o Held Free (lws_dev_stop dev).0
  unfolding lws_dev_stop
  stop-Owned dev v = elim (Bool-cases (same_state dev.state started)) [
    | inr other ↦ rw other v
    | inl running ↦
        let q = same_state_eq dev.state started running in
        let held = c.stops dev.platform_data (v.held_when (rw q)) in
        let dev1 = record dev { platform_data = o.stop_it dev.platform_data } in
        rw (running, v.works) (change-Owned stopped dev1 v.works (λ t. held) (λ t. cc) (inl held))
  ]

  finish_close-closed :
      (dev : Dev P)
      → dev.ops ≡ some (table o)
      → (finish_close dev).0
        ≡ (change_state closed (record dev { platform_data = o.close_it dev.platform_data })).0
  unfolding finish_close
  finish_close-closed dev w = ground arith

  finish_close-Owned :
      (dev : Dev P)
      → Owned o Held Free dev
      → Owned o Held Free (finish_close dev).0 × Free (finish_close dev).0.platform_data
  finish_close-Owned dev v =
      let free : Free (o.close_it dev.platform_data) = elim v.either [
        | inl h ↦ c.closes dev.platform_data h
        | inr f ↦ c.closes_free dev.platform_data f
      ] in
      let dev1 = record dev { platform_data = o.close_it dev.platform_data } in
      rw (finish_close-closed dev v.works) (
        change-Owned closed dev1 v.works (λ t. cc) (λ t. free) (inr free),
        rw (change-kept closed dev1).1 free,
      )

  pub close-Owned :
      (dev : Dev P)
      → Owned o Held Free dev
      → Owned o Held Free (lws_dev_close dev).0 × Free (lws_dev_close dev).0.platform_data
  unfolding lws_dev_close
  close-Owned dev v = elim (Bool-cases (may_open dev.state)) [
    | inl shut ↦ rw shut (v, v.free_when shut)
    | inr running ↦ rw running (finish_close-Owned (lws_dev_stop dev).0 (stop-Owned dev v))
  ]
