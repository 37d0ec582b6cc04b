-- ===== src/Agent/Runs.antt =====
-- Whole runs of an agent: created, used and destroyed.
use lwsip.Common.{
  ◌≡◌, refl, true, false, none, some, List, [], ◌∷◌, ◌++◌, map, pos, codes, arith, str_eq,
}
use lwsip.Common.Decimal.{decimal, decimal_fuel}
use lwsip.Timer.{TimerManager}
use lwsip.Trans.Types.{Addr, UdpImpl, udp_trans, sendto}
use lwsip.Trans.Udp.{
  lws_trans_udp_create, configure_socket, bind_socket, lws_trans_parse_addr, initial_impl,
  lws_trans_set_nonblocking, lws_trans_set_reuseaddr, poll_timeout, no_data,
}
use lwsip.Trans.Api.{TransEnv, lws_trans_create}
use lwsip.Trans.Address.{IsPlain, addr_text}
use lwsip.Trans.Calls.{loop, steps}
use lwsip.Agent.Types.{Agent, AgentHandler, AgentEvent}
use lwsip.Sess.Create.{lws_sess_create, create_codecs}
use lwsip.Agent.Media.{sess_config}
use lwsip.Agent.Incoming.{sip_uas_oninvite, take_invite, announce, incoming_dialog}
use lwsip.Agent.Dialogs.{lws_agent_create_dialog}
use lwsip.Agent.Sequence.{Happening, invited, happen, happen_all}
use lwsip.Agent.References.{given, taken}
use lwsip.Agent.Ledger.{AreFresh}
use lwsip.Agent.Examples.{libsip, libice}
use lwsip.Agent.Transport.{AgentConfig, sip_transport_send}
use lwsip.Agent.Lifecycle.{
  AgentObject, AgentEnv, new_object, agent_trans_config, agent_trans_handler, start_sip,
  lws_agent_create, destroy_dialogs, lws_agent_destroy, trans_effect,
}
use lwsip.Agent.Belongings.{no_belongings, life_steps}
use lwsip.Agent.Teardown.{destroy-created}
use lwsip.Agent.Delivery.{transport_send-delivered}

abbrev network : TransEnv
network = record {
  trans_mqtt = false;
  sockets = record {
    has_trans = true;
    has_impl = true;
    socket = pos 5;
    getfl = pos 2;
    setfl = pos 0;
    setsockopt = pos 0;
    bind = pos 0;
    inet_pton = λ s. some 7;
  };
  lwip = record {
    has_trans = true;
    has_impl = true;
    has_client = true;
    ipaddr_aton = λ s. some 7;
    connect_err = pos 0;
  };
  inet_ntop = λ a. codes "10.0.0.1";
}

abbrev world : AgentEnv
world = record { has_memory = true; transports = network; thread = some 3; has_sip_agent = true }

abbrev account : AgentConfig
account = record {
  username = codes "al";
  password = codes "pw";
  nickname = [];
  domain = codes "x.org";
  registrar = codes "10.0.0.1:5070";
  registrar_port = 5060;
  auto_register = true;
  register_expires = 3600;
  user_agent = [];
}

abbrev silent : AgentHandler
silent = record {
  on_state_changed = true;
  on_register_result = false;
  on_dialog_state_changed = false;
  on_incoming_call = false;
  on_remote_sdp = false;
}

abbrev timers : TimerManager
timers = record { timers = []; thread = none; running = false }

abbrev socket : UdpImpl
socket = record (initial_impl agent_trans_config (some agent_trans_handler)) { fd = pos 5 }

abbrev created : AgentObject
created = new_object account silent (udp_trans socket)

is_created : (lws_agent_create world (some account) (some silent) timers).0 ≡ some created
unfolding lws_agent_create lws_trans_create lws_trans_udp_create configure_socket bind_socket
    lws_trans_parse_addr lws_trans_set_nonblocking lws_trans_set_reuseaddr start_sip
is_created = refl

-- An INVITE comes in, and its dialog is still there when the agent is destroyed.
abbrev call : List Happening
call = invited libsip libice true [] ∷ []

abbrev used : Agent
used = (sip_uas_oninvite libsip libice true [] created.agent).0

abbrev reported : List AgentEvent
reported = (sip_uas_oninvite libsip libice true [] created.agent).2 ++ []

is_used : happen_all call created.agent ≡ some (used, reported)
unfolding happen_all happen
is_used = refl

is_fresh : AreFresh call created.agent
unfolding happen
is_fresh = (tt, tt)

destroy-created_example :
    let made = lws_agent_create world (some account) (some silent) timers in
    let polled = steps world.transports (loop poll_timeout no_data (pos 500) ∷ []) created.trans in
    let done = lws_agent_destroy (record created { agent = used; trans = polled.0 }) timers in
    (life_steps (made.2 ++ (map trans_effect polled.1 ++ done.2)) no_belongings
      ≡ some no_belongings)
    × (given (reported ++ (destroy_dialogs used.dialogs used).1) ≡ taken reported)
    × (done.0.dialogs ≡ [])
    × (done.0.dialog_count ≡ 0)
    × (done.1.running ≡ false)
destroy-created_example =
    destroy-created world (some account) (some silent) timers timers created call used reported
      (loop poll_timeout no_data (pos 500) ∷ []) is_created is_fresh is_used

one_taken : taken reported ≡ 1
unfolding sip_uas_oninvite take_invite lws_sess_create create_codecs sess_config announce
    incoming_dialog lws_agent_create_dialog
one_taken = refl

abbrev server : Addr
server = record { ip = codes "10.0.0.1"; port = 5070; family = none }

server-IsPlain : IsPlain server
server-IsPlain = record {
  named = refl;
  short = omega arith;
  plain = ground arith;
  ranged = omega arith;
}

is_server : account.registrar ≡ addr_text server
unfolding decimal decimal_fuel
is_server = refl

transport_send-delivered_example :
    sip_transport_send network (pos 8) (udp_trans socket) account (codes "REGISTER") 8
    ≡ (pos 0, sendto (pos 5) (codes "REGISTER") 7 5070 ∷ [])
unfolding lws_trans_parse_addr str_eq
transport_send-delivered_example =
    transport_send-delivered network (pos 8) socket account server (codes "REGISTER") 7
      server-IsPlain is_server (omega arith)
