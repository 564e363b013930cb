-- ===== src/Tests/Requests.antt =====
-- Requests to the device.
use galileo_terremoti.Base.{
  ◌≡◌, refl, true, false, some, none, [], ◌∷◌, ◌++◌, Bytes, arith, length, zeros, of_bytes,
  bytes_eq, decimal, ℕ, ◌≤◌, ap, drop, ◌⊎◌, ◌==◌, inr,
}
use galileo_terremoti.Floats.{whole}
use galileo_terremoti.Config
use galileo_terremoti.Config.{mac_address_bytes}
use galileo_terremoti.Config.File.{IsStorable, reloaded}
use galileo_terremoti.Command.Restart.{placed, check_command_packet-init}
use galileo_terremoti.Log.{info}
use galileo_terremoti.Command.{Build, Device, Status, command_port, check_command_packet}
use galileo_terremoti.Command.Packet.{
  Packet, Datagram, read_packet, fill, packet_type_of, getinfo, magic, packet_size,
}
use galileo_terremoti.Command.Packet.Read.{position_request, read_packet-request}
use galileo_terremoti.Command.Reply.{Answered, check_command_packet-Answered}
use galileo_terremoti.Command.Position.{moved, check_command_packet-position_request}
use galileo_terremoti.Command.Handler.{answered, IsStatus, Tells, check_command_packet-getinfo}
use galileo_terremoti.Config.Lines.{IsValue}
use galileo_terremoti.Tests.Settings.{config-IsStorable}
use galileo_terremoti.Net.Udp.{Sockaddr}
use galileo_terremoti.Command.{Sent}
use galileo_terremoti.Command.Listen.{command_interface_init, transmit, serve}
use galileo_terremoti.Command.Listen.Sender.{answers_to, serve-transmit}
use galileo_terremoti.Log.Filter.{Message, log_all}
use galileo_terremoti.Log.Syslog.{syslog_packets}
use galileo_terremoti.Command.Syslog.{
  syslog_request, with_syslog, check_command_packet-syslog_request,
}
use galileo_terremoti.Base.{if◌then◌else◌}
use galileo_terremoti.Tests.Parts.{stamp}
use galileo_terremoti.Tests.Packets.{own, packet, packet-IsPacket, discovery_datagram}

abbrev pub device : Device whole
device = record {
  config = record {
    mac_address =
        b'0' ∷ b'2' ∷ b'0' ∷ b'0' ∷ b'0' ∷ b'0' ∷ b'1' ∷ b'1' ∷ b'2' ∷ b'2' ∷ b'3' ∷ b'3' ∷ [];
    lat = 0;
    lon = 0;
    syslog = 0;
    file = some (b'x' ∷ []);
    writable = true;
  };
  logger = record {
    syslog_server = 0;
    syslog_enabled = false;
    log_file = none;
    log_file_path = [];
    log_level = info;
    stdout_debug = false;
    files = λ p. none;
    can_open = λ p. true;
    printed = [];
    sent = [];
  };
  led = record {
    green_pin = 13;
    yellow_pin = 12;
    red_pin = 11;
    green_status = true;
    yellow_status = false;
    red_status = false;
    animation = false;
    green_blink = false;
    red_blink = false;
    yellow_blink = false;
    level = λ p. false;
  };
  tracing = false;
  sent = [];
  rebooting = false;
}

abbrev pub status : Status whole
status = record {
  quake_threshold = 1;
  uptime = 60;
  unix_time = 1400000000;
  free_ram = 1048576;
  latency = 20;
  ntp_server = 16777343;
  base_url = b'h' ∷ [];
  platform_name = b'p' ∷ [];
  accelerometer_name = b'A' ∷ [];
  stat_probe_speed = 40;
  can_trace = true;
}

abbrev pub build : Build
build = record { is_debug = true; platform_tag = b'd' ∷ b'e' ∷ b'v' ∷ [] }

check_command_packet-Answered_example :
    (d' : Device whole) × (check_command_packet whole build status
        (some discovery_datagram)
        packet
        device
      ≡ some d')
    × Answered 16777343 [] d'.sent
check_command_packet-Answered_example =
    check_command_packet-Answered whole build status discovery_datagram packet device
      packet-IsPacket (inr refl) (omega arith)

check_command_packet-position_request_example :
    check_command_packet whole build status
      (some (record { address = 16777343; payload = position_request own 1109000000 1095000000 }))
      packet
      device
    ≡ some (moved whole 1109000000 1095000000 16777343 device)
unfolding mac_address_bytes bytes_eq
check_command_packet-position_request_example =
    check_command_packet-position_request whole build status own 1109000000 1095000000 16777343
      packet device refl (omega arith) (omega arith)

abbrev getinfo_datagram : Datagram
getinfo_datagram = record { address = 16777343; payload = magic ++ (11 ∷ zeros 246) }

abbrev getinfo_packet : Packet
getinfo_packet = record packet { kind = getinfo; source = 16777343 }

abbrev getinfo_read : read_packet (some getinfo_datagram) packet ≡ some getinfo_packet
unfolding fill packet_type_of of_bytes bytes_eq
getinfo_read = read_packet-request getinfo_datagram packet

abbrev status-IsStatus : IsStatus whole status device
status-IsStatus = record {
  syslog_word = omega arith;
  threshold_word = omega arith;
  latency_word = omega arith;
  ntp_word = omega arith;
  speed_word = omega arith;
  base_text = ((λ e. omega (arith, e)), tt);
  platform_text = ((λ e. omega (arith, e)), tt);
  accelerometer_text = ((λ e. omega (arith, e)), tt);
}

check_command_packet-getinfo_example :
    (buf : Bytes) × (check_command_packet whole build status (some getinfo_datagram) packet device
      ≡ some
          (record (answered whole
            (record { address = 16777343; port = command_port; payload = buf })
            device) { config = record (device.config) { file = none }; rebooting = true }))
    × Tells whole status device buf
check_command_packet-getinfo_example =
    check_command_packet-getinfo whole build status getinfo_datagram packet getinfo_packet device
      packet-IsPacket status-IsStatus getinfo_read refl

abbrev digit-IsValue : (c : ℕ) → 48 ≤ c → IsValue (c ∷ [])
digit-IsValue c h = record {
  plain = (
    ((λ e. omega (arith, e)), tt),
    ((λ e. omega (arith, e)), tt),
    ((λ e. omega (arith, e)), tt),
    ((λ e. omega (arith, e)), tt),
  );
  some_text = λ e. omega (arith, ap length e);
  short = omega arith;
}

abbrev seven_five : IsStorable whole (placed whole 7 5 device.config)
unfolding decimal
seven_five = record {
  mac_value = config-IsStorable.mac_value;
  mac_size = config-IsStorable.mac_size;
  lat_value = digit-IsValue b'7' (omega arith);
  lon_value = digit-IsValue b'5' (omega arith);
}

check_command_packet-init_example :
    (d' : Device whole) × (check_command_packet whole build status
        (some (record { address = 16777343; payload = position_request own 7 5 }))
        packet
        device
      ≡ some d')
    × (Config.init whole [] (record (device.config) { file = d'.config.file })
        ≡ some (record (reloaded whole (placed whole 7 5 device.config) device.config) {
          file = d'.config.file;
        }))
check_command_packet-init_example =
    check_command_packet-init whole build status own 7 5 16777343 packet device [] device.config
      refl (omega arith) (omega arith) (unfold mac_address_bytes in refl) refl seven_five

abbrev app : Sockaddr
app = record { port = 5000; address = 16777343 }

abbrev discovery_rest : Bytes
discovery_rest = drop 1 discovery_datagram.payload

serve-transmit_example :
    (d' : Device whole) × (serve whole build status
        (some (b'I' ∷ discovery_rest, app))
        packet
        device
      ≡ some d')
    × ((d'.sent ≡ [])
        ⊎ ((s : Sent) × (d'.sent ≡ s ∷ [])
            × (transmit (command_interface_init (some 7) true).1 s
                ≡ answers_to 7 16777343 s.payload ∷ [])
            × (length s.payload ≡ packet_size)))
serve-transmit_example =
    serve-transmit whole build status 7 b'I' discovery_rest app packet device (omega arith)
      packet-IsPacket (inr refl) (omega arith)

abbrev message : Message
message = record { stamp = stamp; level = info; text = b'm' ∷ [] }

check_command_packet-syslog_request_example :
    (check_command_packet whole build status
        (some (record { address = 16777343; payload = syslog_request 16909060 }))
        packet
        device
      ≡ some (with_syslog whole 16909060 16777343 device))
    × ((log_all (message ∷ []) (with_syslog whole 16909060 16777343 device).logger).sent
        ≡ (if 16909060 == 0 then [] else syslog_packets 16909060 info (message ∷ []) ++ []))
check_command_packet-syslog_request_example =
    check_command_packet-syslog_request whole build status 16909060 16777343 packet device
      (message ∷ []) (omega arith)
