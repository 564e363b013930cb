-- ===== src/Tests/Boot.antt =====
-- A start of the program.
use galileo_terremoti.Base.{
  ◌≡◌, refl, true, false, none, some, [], ◌∷◌, arith, c_string, bytes_eq, to_bytes, of_bytes,
  memcpy, Option, List, inr, Bytes,
}
use galileo_terremoti.Floats.{whole}
use galileo_terremoti.Config
use galileo_terremoti.Config.{Config}
use galileo_terremoti.Config.Server.{Parts, returns, set_trace, apply_config}
use galileo_terremoti.Config.Split.{config_split, value_at, find}
use galileo_terremoti.Net.Ntp.{set_ntp_server, sync}
use galileo_terremoti.Command.{check_command_packet}
use galileo_terremoti.Command.Packet.{read_packet, packet_type_of, packet_bytes}
use galileo_terremoti.Config.{
  set_latitude, set_longitude, mac_address_bytes, behind_colon, has_position, has_mac_address,
}
use galileo_terremoti.Utils.{reverse_float}
use galileo_terremoti.Seismometer.{create}
use galileo_terremoti.Command.Packet.Read.{position_request}
use galileo_terremoti.Core.Setup.{
  Progress, reached, Poll, Boot, Answer, Station, wait_position, setup,
}
use galileo_terremoti.Core.Setup.Position.{Ends, wait_position-Ends}
use galileo_terremoti.Core.Setup.Ready.{IsReady, setup-IsReady}
use galileo_terremoti.Core.{Effect, Pass, loop}
use galileo_terremoti.Core.Rotation.{has_rotation}
use galileo_terremoti.Core.Program.{run, main}
use galileo_terremoti.Core.Program.FirstDay.{main-FirstDay}
use galileo_terremoti.Tests.Loop.{pass}
use galileo_terremoti.Tests.Packets.{own, packet, packet-IsPacket, discovery_datagram}
use galileo_terremoti.Tests.Requests.{device, status, build}

abbrev station : Station whole
station = record {
  device = device;
  settings = record {
    base_url = b'h' ∷ [];
    ntp = record {
      unix_time_ts = 0;
      unix_time_update = 0;
      last_ntp_server = 0;
      ntpserver = [];
      requests = [];
    };
    seismometer = create whole true;
    tracing = false;
    upgrades = [];
  };
  log_rotation_ms = 0;
  beats = 0;
}

abbrev silence : Poll whole
silence = record { beat_returns = true; status = status; input = none; stack = packet }

abbrev discovered : Poll whole
discovered = record {
  beat_returns = true;
  status = status;
  input = some discovery_datagram;
  stack = packet;
}

abbrev placed_by_app : Poll whole
placed_by_app = record {
  beat_returns = true;
  status = status;
  input =
      some (record { address = 16777343; payload = position_request own 1109000000 1095000000 });
  stack = packet;
}

wait_position-Ends_example :
    Ends whole
      (wait_position whole build (silence ∷ discovered ∷ placed_by_app ∷ silence ∷ []) station)
wait_position-Ends_example =
    wait_position-Ends whole build true status own 1109000000 1095000000 16777343 packet
      (silence ∷ discovered ∷ []) (silence ∷ []) station refl (omega arith) (omega arith) refl refl
      (unfold mac_address_bytes in refl) refl
      ((packet-IsPacket, inr refl), ((packet-IsPacket, inr refl), tt))

abbrev parts : Parts
parts = record { can_trace = true; upgrade_returns = false }

abbrev sigma_text : Bytes
sigma_text = b's' ∷ b'i' ∷ b'g' ∷ b'm' ∷ b'a' ∷ b':' ∷ b'2' ∷ []

abbrev empty_answer : Answer
empty_answer = record { cfg = some []; parts = parts }

abbrev sigma_answer : Answer
sigma_answer = record { cfg = some sigma_text; parts = parts }

-- The second answer of the server is of use: "sigma:2", and the position comes from the app.
abbrev boot : Boot whole
boot = record {
  now = 5000;
  green_pin = 0;
  yellow_pin = 1;
  red_pin = 2;
  log_path = b'l' ∷ [];
  interface_macs = [] ∷ own ∷ [];
  default_mac = own;
  has_accelerometer = true;
  answers = empty_answer ∷ sigma_answer ∷ [];
  word = 32;
  attempts = [];
  polls = silence ∷ placed_by_app ∷ [];
}

abbrev left : Progress (Station whole) → Station whole
left (reached s) = s
left _ = station

setup-IsReady_example : IsReady whole (left (setup whole build boot station))
unfolding setup Config.init behind_colon c_string returns set_trace apply_config config_split
    bytes_eq value_at find set_ntp_server has_position has_mac_address check_command_packet
    read_packet to_bytes packet_type_of of_bytes sync mac_address_bytes packet_bytes memcpy
    set_latitude set_longitude reverse_float
setup-IsReady_example =
    setup-IsReady whole build boot station (left (setup whole build boot station)) refl

abbrev config : Config whole
config = unwrap (Config.init whole own device.config)
  where
    unwrap : Option (Config whole) → Config whole
    unwrap none = device.config
    unwrap (some c) = c

abbrev done : Progress (List Effect) → List Effect
done (reached es) = es
done _ = []

abbrev passes : List Pass
passes = pass 60000 ∷ pass 86404999 ∷ []

main-FirstDay_example : has_rotation (done (main whole 32 build boot passes station)) ≡ false
unfolding main run loop setup Config.init behind_colon c_string returns set_trace apply_config
    config_split bytes_eq value_at find set_ntp_server has_position has_mac_address
    check_command_packet read_packet to_bytes packet_type_of of_bytes sync mac_address_bytes
    packet_bytes memcpy set_latitude set_longitude reverse_float
main-FirstDay_example =
    main-FirstDay whole 32 build boot passes station
      (done (main whole 32 build boot passes station))
      (omega arith, omega arith, omega arith, (omega arith, omega arith, omega arith, tt)) refl
