-- ===== src/Cli/Loop.antt =====
-- The loop of `main` ends (src/cmd/lwsip-cli.c).
use lwsip.Common.{
  ◌≡◌, refl, ap, ◌∙◌, Bool, true, false, some, List, [], ◌∷◌, ◌++◌, arith, if◌then◌else◌, Bytes,
  Bool-cases, inl, inr,
}
use lwsip.Agent.Types.{terminated}
use lwsip.Cli.{
  App, Callback, agent_state, incoming_call, dialog_state, signal, on_agent_state_changed,
  on_incoming_call, on_dialog_state_changed, signal_handler, called_back, run_round, main_loop,
}

-- A signal, or the end of a call in a program that was to make one.
abbrev pub ends : Bool → Callback → Bool
ends has_target signal = true
ends has_target (dialog_state terminated) = has_target
ends has_target _ = false

abbrev pub any_ends : Bool → List Callback → Bool
any_ends has_target [] = false
any_ends has_target (c ∷ cs) = if ends has_target c then true else any_ends has_target cs

-- What a callback keeps.
called_back-running :
    (c : Callback) (app : App)
    → let app' = (called_back c app).0 in
      (app'.has_call_target ≡ app.has_call_target)
      × (app'.running ≡ (if ends app.has_call_target c then false else app.running))
unfolding called_back on_agent_state_changed on_incoming_call on_dialog_state_changed signal_handler
called_back-running (agent_state s) app = ground arith
called_back-running incoming_call app = ground arith
called_back-running (dialog_state s) app = ground arith
called_back-running signal app = ground arith

run_round-running :
    (cs : List Callback) (app : App)
    → let app' = (run_round cs app).0 in
      (app'.has_call_target ≡ app.has_call_target)
      × (app'.running ≡ (if any_ends app.has_call_target cs then false else app.running))
unfolding run_round
run_round-running [] app = (refl, refl)
run_round-running (c ∷ cs) app =
    let first = called_back-running c app in
    let rest = run_round-running cs (called_back c app).0 in ground arith

main_loop-stopped :
    (rs : List (List Callback)) (app : App)
    → app.running ≡ false
    → main_loop rs app ≡ some (app, [])
unfolding main_loop
main_loop-stopped [] app h = rw h refl
main_loop-stopped (r ∷ rs) app h = rw h refl

main_loop-cons :
    (r : List Callback) (rs : List (List Callback)) (app : App) (end : App × List Bytes)
    → app.running ≡ true
    → main_loop rs (run_round r app).0 ≡ some end
    → main_loop (r ∷ rs) app ≡ some (end.0, (run_round r app).1 ++ end.1)
unfolding main_loop
main_loop-cons r rs app end h e = ground arith

-- Whatever happens before: when a signal comes, or when a call ends in a program that was started to
-- make one, the loop has ended by the end of that round at the latest.
pub main_loop-ends :
    (before after : List (List Callback)) (r : List Callback) (app : App)
    → any_ends app.has_call_target r ≡ true
    → (end : App × List Bytes) × (main_loop (before ++ (r ∷ [])) app ≡ some end)
      × (main_loop (before ++ (r ∷ after)) app ≡ some end)
      × (end.0.running ≡ false)
unfolding main_loop
main_loop-ends [] after r app h =
    let now = run_round r app in
    let facts = run_round-running r app in
    let over : now.0.running ≡ false = facts.1 ∙ rw h refl in
    elim (Bool-cases app.running) [
      | inr idle ↦ ((app, []), rw idle refl, rw idle refl, idle)
      | inl going ↦ (
        (now.0, now.1 ++ []),
        main_loop-cons r [] app (now.0, []) going (main_loop-stopped [] now.0 over),
        main_loop-cons r after app (now.0, []) going (main_loop-stopped after now.0 over),
        over,
      )
    ]
main_loop-ends (b ∷ before) after r app h =
    let now = run_round b app in
    let facts = run_round-running b app in
    let (end, one, two, over) =
      main_loop-ends before after r now.0 (ap (λ x. any_ends x r) facts.0 ∙ h) in
    elim (Bool-cases app.running) [
      | inr idle ↦ ((app, []), rw idle refl, rw idle refl, idle)
      | inl going ↦ (
        (end.0, now.1 ++ end.1),
        main_loop-cons b (before ++ (r ∷ [])) app end going one,
        main_loop-cons b (before ++ (r ∷ after)) app end going two,
        over,
      )
    ]
