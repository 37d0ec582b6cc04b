-- ===== src/Dev/Control.antt =====
-- Opening, starting, stopping and closing a device (src/lws_dev.c).
use lwsip.Common.{
  ℕ, not, Option, none, some, List, [], ◌∷◌, ◌++◌, if◌then◌else◌, ℤ, pos, negsuc, is_neg,
}
use lwsip.Dev.Types.{
  DevState, opening, opened, started, stopped, closed, error, same_state, may_open, may_start,
  DevEvent, op_open, op_close, op_start, op_stop, on_state_changed, on_error, Dev,
}

module _ {P : Type 0} where
  unfoldable pub change_state : DevState → Dev P → Dev P × List DevEvent
  change_state new dev = if same_state dev.state new then (dev, []) else (
    record dev { state = new },
    if dev.has_state_handler then on_state_changed dev.state new ∷ [] else [],
  )

  unfoldable pub trigger_error : ℤ → Dev P → Dev P × List DevEvent
  trigger_error code dev =
      let (dev', es) = change_state error dev in
      (dev', es ++ (if dev'.has_error_handler then on_error code ∷ [] else []))

  abbrev pub open_entry : Dev P → Option (P → P × ℤ)
  open_entry dev = elim dev.ops [ none ↦ none | some ops ↦ ops.open_op ]

  -- `now` is the clock's reading in microseconds.
  unfoldable pub lws_dev_open : (now : ℕ) → Dev P → Dev P × ℤ × List DevEvent
  lws_dev_open now dev =
      if not (may_open dev.state) then (dev, negsuc 0, []) else elim (open_entry dev) [
        | none ↦ (dev, negsuc 0, [])
        | some open_it ↦
            let (dev1, es1) = change_state opening dev in
            let (p, ret) = open_it dev1.platform_data in
            let dev2 = record dev1 { platform_data = p } in
            if is_neg ret
            then (let (dev3, es3) = trigger_error ret dev2 in
                (dev3, ret, es1 ++ (op_open ret ∷ es3)))
            else (let (dev3, es3) =
                  change_state opened (record dev2 { start_timestamp_us = now }) in
                (dev3, pos 0, es1 ++ (op_open ret ∷ es3)))
      ]

  abbrev pub stop_entry : Dev P → Option (P → P)
  stop_entry dev = elim dev.ops [ none ↦ none | some ops ↦ ops.stop_op ]

  unfoldable pub lws_dev_stop : Dev P → Dev P × List DevEvent
  lws_dev_stop dev =
      if not (same_state dev.state started) then (dev, []) else elim (stop_entry dev) [
        | none ↦ change_state stopped dev
        | some stop_it ↦
            let (dev', es) =
              change_state stopped (record dev { platform_data = stop_it dev.platform_data }) in
            (dev', op_stop ∷ es)
      ]

  abbrev pub close_entry : Dev P → Option (P → P)
  close_entry dev = elim dev.ops [ none ↦ none | some ops ↦ ops.close_op ]

  -- The part of `lws_dev_close` behind the stop.
  unfoldable pub finish_close : Dev P → Dev P × List DevEvent
  finish_close dev = elim (close_entry dev) [
    | none ↦ change_state closed dev
    | some close_it ↦
        let (dev', es) =
          change_state closed (record dev { platform_data = close_it dev.platform_data }) in
        (dev', op_close ∷ es)
  ]

  unfoldable pub lws_dev_close : Dev P → Dev P × List DevEvent
  lws_dev_close dev =
      if may_open dev.state
      then (dev, [])
      else (let (dev1, es1) = lws_dev_stop dev in
          let (dev2, es2) = finish_close dev1 in (dev2, es1 ++ es2))

  abbrev pub start_entry : Dev P → Option (P → P × ℤ)
  start_entry dev = elim dev.ops [ none ↦ none | some ops ↦ ops.start_op ]

  unfoldable pub lws_dev_start : Dev P → Dev P × ℤ × List DevEvent
  lws_dev_start dev =
      if not (may_start dev.state) then (dev, negsuc 0, []) else elim (start_entry dev) [
        | none ↦ (dev, negsuc 0, [])
        | some start_it ↦
            let (p, ret) = start_it dev.platform_data in
            let dev1 = record dev { platform_data = p } in
            if is_neg ret
            then (let (dev2, es) = trigger_error ret dev1 in (dev2, ret, op_start ret ∷ es))
            else (let (dev2, es) = change_state started dev1 in (dev2, pos 0, op_start ret ∷ es))
      ]

  -- The device is freed; what is left are the calls made on the way.
  unfoldable pub lws_dev_destroy : Dev P → List DevEvent
  lws_dev_destroy dev = if may_open dev.state then [] else (lws_dev_close dev).1
