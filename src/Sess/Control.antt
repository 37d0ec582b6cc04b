-- ===== src/Sess/Control.antt =====
-- The state machine of a session: gathering, connecting, stopping (src/lws_sess.c).
use lwsip.Common.{
  ℕ, ltb, Bool, true, Option, none, some, List, [], ◌∷◌, ◌++◌, ◌||◌, not, if◌then◌else◌, ℤ, pos,
  Bytes,
}
use lwsip.Sess.Types.{
  SessState, gathering, gathered, connecting, connected, disconnected, same_state, state_number,
  is_direct, SessEvent, state_changed, sdp_ready, connected_callback, disconnected_callback,
  ice_start, ice_stop, Sess,
}
use lwsip.Sess.Sdp.{generate_local_sdp}

unfoldable pub change_state : SessState → Sess → Sess × List SessEvent
change_state new sess = if same_state sess.state new then (sess, []) else (
  record sess { state = new },
  if sess.handler.on_state_changed then state_changed sess.state new ∷ [] else [],
)

unfoldable pub notify_sdp : Sess → List SessEvent
notify_sdp sess = if sess.handler.on_sdp_ready then sdp_ready sess.local_sdp ∷ [] else []

unfoldable pub notify_connected : Sess → List SessEvent
notify_connected sess = if sess.handler.on_connected then connected_callback ∷ [] else []

-- `now` is `time(NULL)`, `address` what `get_local_ipv4` finds.
unfoldable pub lws_sess_gather_candidates :
    (now : ℕ) → (address : Option Bytes) → Sess → Sess × ℤ × List SessEvent
lws_sess_gather_candidates now address sess =
    let (sess1, es1) = change_state gathering sess in
    let generated = generate_local_sdp now address sess1.local_port sess1.config in
    let sess2 : Sess = record sess1 { local_sdp = generated.0 } in
    if generated.1
    then (let (sess3, es3) = change_state gathered sess2 in
        (sess3, pos 0, es1 ++ (es3 ++ notify_sdp sess3)))
    else (sess2, pos 0, es1)

-- libice calls this for an agent; the session creates none.
unfoldable pub on_ice_gather : (now : ℕ) → (address : Option Bytes) → Sess → Sess × List SessEvent
on_ice_gather now address sess =
    let (sess1, es1) = change_state gathered (record sess { ice_gathering_done = true }) in
    let generated = generate_local_sdp now address sess1.local_port sess1.config in
    let sess2 : Sess = record sess1 { local_sdp = generated.0 } in
    if generated.1 then (sess2, es1 ++ notify_sdp sess2) else (sess2, es1)

-- `flag` is bit 0 of `flags`.
unfoldable pub on_ice_connected : (flag : Bool) → Sess → Sess × List SessEvent
on_ice_connected flag sess =
    if flag
    then (let (sess1, es1) = change_state connected (record sess { ice_connected = true }) in
        (sess1, es1 ++ notify_connected sess1))
    else (sess, [])

-- `ret` is what `ice_agent_start` returns.
unfoldable pub lws_sess_start_ice : (ret : ℤ) → Sess → Sess × ℤ × List SessEvent
lws_sess_start_ice ret sess =
    if not sess.transport_mode_determined || is_direct sess.active_transport_mode
    then (let (sess1, es1) = change_state connected sess in
        (sess1, pos 0, es1 ++ notify_connected sess1))
    else (let (sess1, es1) = change_state connecting sess in
        (sess1, ret, es1 ++ (ice_start sess1.ice_agent ∷ [])))

unfoldable pub lws_sess_stop : Sess → Sess × List SessEvent
lws_sess_stop sess =
    let ice : List SessEvent = if sess.ice_agent then ice_stop true ∷ [] else [] in
    if same_state sess.state connected
    then (let (sess1, es1) = change_state disconnected sess in
        (
          sess1,
          es1
              ++ ((if sess1.handler.on_disconnected then disconnected_callback ∷ [] else [])
                  ++ ice),
        ))
    else (sess, ice)

-- `none` is NULL.
unfoldable pub lws_sess_get_local_sdp : Sess → Option Bytes
lws_sess_get_local_sdp sess = if ltb (state_number sess.state) 2 then none else some sess.local_sdp
