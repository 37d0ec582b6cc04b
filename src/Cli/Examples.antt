-- ===== src/Cli/Examples.antt =====
-- The command line program on concrete inputs.
use lwsip.Common.{
  ◌≡◌, refl, true, false, none, some, List, [], ◌∷◌, ◌++◌, arith, Bytes, codes, pos, negsuc, str_eq,
}
use lwsip.Common.Decimal.{decimal, decimal_fuel}
use lwsip.Dev.Timestamp.{pcma}
use lwsip.Agent.Types.{registered, terminated, confirmed}
use lwsip.Agent.Transport.{request_peer, peer_addr, strrchr}
use lwsip.Trans.Types.{Addr}
use lwsip.Trans.Address.{addr_text}
use lwsip.Cli.{
  App, server, username_is, password_is, call, returned, parse_args, validate, agent_state,
  dialog_state, signal, main_loop, Callback,
}
use lwsip.Cli.Setup.{DeviceEnv, LibEnv, init_lwsip, cleanup_lwsip}
use lwsip.Cli.World.{empty_world, world_steps}
use lwsip.Cli.Cleanup.{cleanup-init}
use lwsip.Cli.Loop.{main_loop-ends}
use lwsip.Cli.Server.{
  cli_agent_config, request_peer-agent_config, detect_audio_file_format, lower_extension,
}

abbrev blank : App
blank = record {
  device_path = [];
  record_path = [];
  server_addr = [];
  username = [];
  password = [];
  call_target = [];
  has_call_target = false;
  trans = false;
  audio_capture = false;
  audio_playback = false;
  audio_recorder = false;
  sess = false;
  agent = false;
  is_registered = false;
  in_call = false;
  running = false;
}

abbrev caller : App
caller = record blank {
  server_addr = codes "sip:10.0.0.1:5070";
  username = codes "al";
  password = codes "pw";
  call_target = codes "1002";
  has_call_target = true;
}

reads_options :
    parse_args
      (server (codes "sip:10.0.0.1:5070")
        ∷ username_is (codes "al")
        ∷ password_is (codes "pw")
        ∷ call (codes "1002")
        ∷ [])
      blank
    ≡ returned caller (pos 0)
unfolding parse_args validate
reads_options = refl

abbrev working : DeviceEnv
working = record { has_device = true; open_ret = pos 0; start_ret = pos 0 }

-- The playback device does not start.
abbrev library : LibEnv
library = record {
  timer_ret = pos 0;
  has_trans = true;
  capture_env = working;
  playback_env = record working { start_ret = negsuc 0 };
  recorder_env = working;
  has_sess = true;
  gather_ret = pos 0;
  has_agent = true;
  start_ret = pos 0;
}

cleanup-init_example :
    world_steps
      ((init_lwsip library caller).1 ++ (cleanup_lwsip (init_lwsip library caller).0).1)
      empty_world
    ≡ some empty_world
cleanup-init_example = cleanup-init library caller refl

abbrev talking : List (List Callback)
talking = (agent_state registered ∷ []) ∷ (dialog_state confirmed ∷ []) ∷ []

main_loop-ends_example :
    (end : App × List Bytes) × (main_loop
        (talking ++ ((dialog_state terminated ∷ []) ∷ []))
        (record caller { running = true })
      ≡ some end)
    × (main_loop
          (talking ++ ((dialog_state terminated ∷ []) ∷ (signal ∷ []) ∷ []))
          (record caller { running = true })
        ≡ some end)
    × (end.0.running ≡ false)
main_loop-ends_example =
    main_loop-ends talking ((signal ∷ []) ∷ []) (dialog_state terminated ∷ [])
      (record caller { running = true }) refl

abbrev peer : Addr
peer = record { ip = codes "10.0.0.1"; port = 5070; family = none }

is_peer : caller.server_addr ≡ codes "sip:" ++ addr_text peer
unfolding decimal decimal_fuel
is_peer = refl

caller_peer : request_peer (cli_agent_config caller) ≡ peer_addr (codes "10.0.0.1") 5070
caller_peer =
    request_peer-agent_config caller peer
      (record { named = refl; short = omega arith; plain = ground arith; ranged = omega arith })
      (omega arith) is_peer

upper_case : detect_audio_file_format (codes "a.b/song.M4A") ≡ some (pcma, 8000, 1)
unfolding detect_audio_file_format lower_extension strrchr str_eq
upper_case = refl
