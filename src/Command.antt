-- ===== src/Command.antt =====
-- CommandInterface.cpp: `checkCommandPacket`, the local command interface on UDP port 62001.
-- `platformReboot` does not return on any platform (vendor/*/generic.cpp), so a request that
-- reboots ends there. What the handler asks of other parts on GETINFO is a `Status`. Lines written
-- to the log are left out. `none` is a fault: a write outside the packet buffer, or one through the
-- null pointer that `fopen` leaves when it cannot open the trace file.
pub mod Packet
pub mod Reply
pub mod Position
pub mod Handler
pub mod Restart
pub mod Listen
pub mod Syslog
use galileo_terremoti.Base.{
  ℕ, ◌/◌, ◌%◌, ◌^◌, Bool, true, false, not, Option, none, some, List, [], ◌∷◌, ◌++◌, Bytes, take,
  drop, bytes_eq, if◌then◌else◌, ◌>>=◌,
}
use galileo_terremoti.Floats.{Doubles}
use galileo_terremoti.Config.{Config, mac_address_bytes, set_latitude, set_longitude}
use galileo_terremoti.Log.{Logger, set_syslog_server}
use galileo_terremoti.Led
use galileo_terremoti.Led.{Led}
use Packet.{
  PacketType, discovery, discovery_reply, ping, pong, sendgps, ok, setsyslog, reboot, getinfo,
  getinfo_reply, reset, trace, Datagram, software_version, read_packet, packet_bytes,
}
use Packet

-- `CMD_INTERFACE_PORT`.
abbrev pub command_port : ℕ
command_port = 62001

-- What the build decides: whether DEBUG is defined, and PLATFORM_TAG.
pub record Build : Type 0 where
  pub is_debug : Bool
  pub platform_tag : Bytes

pub record Sent : Type 0 where
  pub address : ℕ
  pub port : ℕ
  pub payload : Bytes

module _ (D : Doubles) where
  open D use {Double, of_float, to_float}

  pub record Device : Type 0 where
    pub config : Config D
    pub logger : Logger
    pub led : Led
    -- Whether the trace file is open.
    pub tracing : Bool
    -- The datagrams sent, the newest first.
    pub sent : List Sent
    -- `platformReboot` was called.
    pub rebooting : Bool

  pub record Status : Type 0 where
    pub quake_threshold : Double
    pub uptime : ℕ
    pub unix_time : ℕ
    pub free_ram : ℕ
    pub latency : ℕ
    pub ntp_server : ℕ
    pub base_url : Bytes
    pub platform_name : Bytes
    pub accelerometer_name : Bytes
    pub stat_probe_speed : ℕ
    -- Whether `fopen` would open the trace file for writing.
    pub can_trace : Bool

  -- `sendPacket`.
  unfoldable pub send_packet : Build → Packet.Packet → Device → Option Device
  send_packet b pkt d = do
    buf ← packet_bytes b.platform_tag (mac_address_bytes d.config.mac_address) pkt
    some (record d {
      sent = record { address = pkt.source; port = command_port; payload = buf } ∷ d.sent;
    })

  unfoldable pub reply : Build → PacketType → Packet.Packet → Device → Option Device
  unfolding send_packet
  reply b kind pkt d = send_packet b (record pkt { kind = kind }) d

  -- The branch of SENDGPS, once the address is known to be the device's.
  unfoldable pub set_position : Packet.Packet → Device → Device
  set_position pkt d = record d {
    config =
        set_latitude D (set_longitude D d.config (of_float pkt.longitude)) (of_float pkt.latitude);
  }

  -- The branch of REBOOT after its reply.
  unfoldable pub reboot_now : Device → Device
  reboot_now d = record d {
    led = Led.red (Led.yellow (Led.green d.led false) false) true;
    rebooting = true;
  }

  -- The branch of RESET in a debug build.
  unfoldable pub reset_now : Device → Device
  reset_now d = record d { config = record (d.config) { file = none }; rebooting = true }

  -- The packet that answers GETINFO.
  unfoldable pub info_packet : Status → Device → Packet.Packet → Packet.Packet
  info_packet st d pkt = record pkt {
    kind = getinfo_reply;
    mac = mac_address_bytes d.config.mac_address;
    syslog_server = d.logger.syslog_server;
    threshold = to_float st.quake_threshold;
    uptime = st.uptime % 2 ^ 32;
    unixts = st.unix_time % 2 ^ 32;
    software_version = take 4 software_version ++ drop 4 pkt.software_version;
    free_ram = st.free_ram / 1024 % 2 ^ 32;
    latency = st.latency;
    ntp_server = st.ntp_server;
    http_base_address = st.base_url;
    platform_name = st.platform_name;
    accelerometer_name = st.accelerometer_name;
    stat_probe_speed = st.stat_probe_speed;
  }

  -- `TraceAccumulator::setTrace(true)`, as far as it concerns the device: the header of three bytes
  -- is written to the file without a test.
  unfoldable pub start_tracing : Status → Device → Option Device
  start_tracing st d =
      if d.tracing
      then some d
      else if st.can_trace
      then some (record d { tracing = true })
      else none

  -- The switch. In a debug build the branch of GETINFO falls through into that of RESET, and that of
  -- TRACE is compiled in.
  unfoldable pub handle : Build → Status → PacketType → Packet.Packet → Device → Option Device
  unfolding reply set_position reboot_now reset_now info_packet start_tracing
  handle b st discovery pkt d = reply b discovery_reply pkt d
  handle b st ping pkt d = reply b pong pkt d
  handle b st sendgps pkt d =
      if not (bytes_eq (mac_address_bytes d.config.mac_address) pkt.mac)
      then some d
      else reply b ok pkt (set_position pkt d)
  handle b st setsyslog pkt d =
      reply b ok pkt (record d { logger = set_syslog_server d.logger pkt.syslog_server })
  handle b st reboot pkt d = reply b ok pkt d >>= λ d. some (reboot_now d)
  handle b st getinfo pkt d =
      send_packet b (info_packet st d pkt) d >>= λ d. some (if b.is_debug then reset_now d else d)
  handle b st reset pkt d = some (if b.is_debug then reset_now d else d)
  handle b st trace pkt d = if b.is_debug then start_tracing st d else some d
  handle b st _ pkt d = some d

  -- The switch is reached when `readPacket` was true.
  unfoldable pub dispatch : Build → Status → Option Packet.Packet → Device → Option Device
  unfolding handle
  dispatch b st none d = some d
  dispatch b st (some pkt) d = handle b st pkt.kind pkt d

  -- `checkCommandPacket`. `pkt` is what the struct on the stack held before.
  unfoldable pub check_command_packet :
      Build → Status → Option Datagram → Packet.Packet → Device → Option Device
  unfolding dispatch
  check_command_packet b st input pkt d = dispatch b st (read_packet input pkt) d
