-- ===== src/Tests/Packets.antt =====
-- The packets of the command interface on concrete data.
use galileo_terremoti.Base.{◌≡◌, refl, some, [], ◌∷◌, ◌++◌, Bytes, arith, zeros}
use galileo_terremoti.Command.Packet.{
  Packet, Datagram, getinfo_reply, magic, software_version, packet_bytes,
}
use galileo_terremoti.Command.Packet.Encode.{IsPacket, IsFull, packet_bytes-IsFull}
use galileo_terremoti.Command.Packet.Decode.{IsInfo, read_info, info_of, read_info-packet_bytes}
use galileo_terremoti.Base.{bytes_eq, of_bytes}
use galileo_terremoti.Command.Packet.{read_packet, fill, packet_type_of, discovery}
use galileo_terremoti.Command.Packet.Read.{read_packet-request}

abbrev pub own : Bytes
own = 2 ∷ 0 ∷ 0 ∷ 17 ∷ 34 ∷ 51 ∷ []

abbrev pub packet : Packet
packet = record {
  kind = getinfo_reply;
  source = 16777343;
  syslog_server = 0;
  latitude = 0;
  longitude = 0;
  mac = own;
  threshold = 1065353216;
  uptime = 60;
  unixts = 1400000000;
  software_version = software_version;
  free_ram = 1024;
  latency = 20;
  ntp_server = 16777343;
  http_base_address = b'h' ∷ b't' ∷ b't' ∷ b'p' ∷ [];
  platform_name = b'p' ∷ b'c' ∷ [];
  accelerometer_name = b'A' ∷ [];
  stat_probe_speed = 40;
}

abbrev pub packet-IsPacket : IsPacket packet
packet-IsPacket = record { mac_size = refl; version_size = refl }

abbrev packet-IsInfo : IsInfo packet
packet-IsInfo = record {
  syslog_word = omega arith;
  threshold_word = omega arith;
  uptime_word = omega arith;
  unixts_word = omega arith;
  ram_word = omega arith;
  latency_word = omega arith;
  ntp_word = omega arith;
  speed_word = omega arith;
  base_text = (
    (λ e. omega (arith, e)),
    ((λ e. omega (arith, e)), ((λ e. omega (arith, e)), ((λ e. omega (arith, e)), tt))),
  );
  platform_text = ((λ e. omega (arith, e)), ((λ e. omega (arith, e)), tt));
  accelerometer_text = ((λ e. omega (arith, e)), tt);
}

abbrev tag : Bytes
tag = b'd' ∷ b'e' ∷ b'v' ∷ []

packet_bytes-IsFull_example : IsFull (packet_bytes tag own packet)
packet_bytes-IsFull_example = packet_bytes-IsFull tag own packet packet-IsPacket refl

read_info-packet_bytes_example :
    (buf : Bytes) × (packet_bytes tag own packet ≡ some buf) × (read_info buf ≡ info_of packet)
read_info-packet_bytes_example =
    read_info-packet_bytes tag own packet packet-IsPacket packet-IsInfo refl

abbrev pub discovery_datagram : Datagram
discovery_datagram = record { address = 16777343; payload = magic ++ (1 ∷ zeros 246) }

read_packet-request_example :
    read_packet (some discovery_datagram) packet
    ≡ some (record packet { kind = discovery; source = 16777343 })
unfolding fill packet_type_of of_bytes bytes_eq
read_packet-request_example = read_packet-request discovery_datagram packet
