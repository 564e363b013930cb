-- ===== src/Command/Packet.antt =====
-- CommandInterface.h and the two packet routines of CommandInterface.cpp: the struct `PACKET`,
-- `readPacket` and `sendPacket`. Words are 32-bit numbers, floats are their bit patterns; memory
-- is little-endian. `PACKET` is not initialised before `readPacket` fills it: what it held is an
-- argument. The bytes go out by the caller (`Command`).
pub mod Buffer
pub mod Encode
pub mod Decode
pub mod Read
use galileo_terremoti.Base.{
  ℕ, suc, ◌+◌, ◌-◌, ◌≤◌, Bool, true, false, ◌&&◌, Option, none, some, List, [], ◌∷◌, ◌++◌, Bytes,
  to_bytes, of_bytes, take, drop, length, replicate, min, ltb, ◌==◌, if◌then◌else◌, zeros, bytes_eq,
  memcpy, strncpy, padded, ◌>>=◌,
}
use galileo_terremoti.Utils.{reverse_float}

pub data PacketType : Type 0 where
  discovery discovery_reply ping pong start stop sendgps ok setsyslog reboot : PacketType
  getinfo getinfo_reply reset trace : PacketType
  unknown : ℕ → PacketType

-- The cast of a byte to `PacketType`, and the byte of a type.
unfoldable pub packet_type_of : ℕ → PacketType
packet_type_of b =
    if b == 1
    then discovery
    else if b == 2
    then discovery_reply
    else if b == 3
    then ping
    else if b == 4
    then pong
    else if b == 5
    then start
    else if b == 6
    then stop
    else if b == 7
    then sendgps
    else if b == 8
    then ok
    else if b == 9
    then setsyslog
    else if b == 10
    then reboot
    else if b == 11
    then getinfo
    else if b == 12
    then getinfo_reply
    else if b == 13
    then reset
    else if b == 14
    then trace
    else unknown b

unfoldable pub code_of : PacketType → ℕ
code_of discovery = 1
code_of discovery_reply = 2
code_of ping = 3
code_of pong = 4
code_of start = 5
code_of stop = 6
code_of sendgps = 7
code_of ok = 8
code_of setsyslog = 9
code_of reboot = 10
code_of getinfo = 11
code_of getinfo_reply = 12
code_of reset = 13
code_of trace = 14
code_of (unknown b) = b

pub record Packet : Type 0 where
  pub kind : PacketType
  pub source : ℕ
  pub syslog_server : ℕ
  pub latitude : ℕ
  pub longitude : ℕ
  pub mac : Bytes
  pub threshold : ℕ
  pub uptime : ℕ
  pub unixts : ℕ
  pub software_version : Bytes
  pub free_ram : ℕ
  pub latency : ℕ
  pub ntp_server : ℕ
  pub http_base_address : Bytes
  pub platform_name : Bytes
  pub accelerometer_name : Bytes
  pub stat_probe_speed : ℕ

abbrev pub packet_size : ℕ
packet_size = 252

-- "INGV\0".
abbrev pub magic : Bytes
magic = b'I' ∷ b'N' ∷ b'G' ∷ b'V' ∷ 0 ∷ []

-- A datagram as the socket has it; `receive` hands over its first `PACKET_SIZE` bytes.
pub record Datagram : Type 0 where
  pub address : ℕ
  pub payload : Bytes

-- The `n` bytes of the buffer at an offset.
abbrev pub slice : ℕ → ℕ → Bytes → Bytes
slice offset n buf = take n (drop offset buf)

unfoldable pub fill : PacketType → Packet → Bytes → Packet
fill sendgps pkt buf = record pkt {
  mac = slice 6 6 buf;
  latitude = reverse_float (of_bytes (slice 12 4 buf));
  longitude = reverse_float (of_bytes (slice 16 4 buf));
}
fill setsyslog pkt buf = record pkt { syslog_server = of_bytes (slice 6 4 buf) }
fill _ pkt buf = pkt

-- `readPacket`; `none` is `false`. The buffer is zeroed before the call of `receive`.
unfoldable pub read_packet : Option Datagram → Packet → Option Packet
unfolding fill
read_packet none pkt = none
read_packet (some d) pkt =
    let received = take packet_size d.payload in
    let buf = received ++ zeros (packet_size - length received) in
    if ltb 0 (length received)
    then if length received == packet_size && bytes_eq (take 5 buf) magic
      then some (
          fill (packet_type_of (of_bytes (slice 5 1 buf)))
            (record pkt { kind = packet_type_of (of_bytes (slice 5 1 buf)); source = d.address })
            buf)
      else none
    else none

-- `SOFTWARE_VERSION`.
abbrev pub software_version : Bytes
software_version = b'2' ∷ b'.' ∷ b'1' ∷ b'5' ∷ 0 ∷ []

-- The buffer with the running `offset` of `sendPacket`.
pub record Cursor : Type 0 where
  pub buf : Bytes
  pub offset : ℕ

-- `memcpy(pktbuf + offset, src, n); offset += n;`
unfoldable pub put : Bytes → ℕ → Cursor → Option Cursor
put src n c = do
  buf ← memcpy c.buf c.offset src n
  some (record { buf = buf; offset = c.offset + n })

-- `strncpy(pktbuf + offset, s.c_str(), max); offset += MINVAL(s.length(), max) + 1;`
unfoldable pub put_string : Bytes → ℕ → Cursor → Option Cursor
put_string s max c = do
  buf ← strncpy c.buf c.offset s max
  some (record { buf = buf; offset = c.offset + (min (length s) max + 1) })

-- The branch of `PKTTYPE_GETINFO_REPLY`, from offset 6.
unfoldable pub put_info : Packet → Cursor → Option Cursor
put_info pkt c = do
  c ← put pkt.mac 6 c
  c ← put (to_bytes pkt.syslog_server) 4 c
  c ← put (to_bytes pkt.threshold) 4 c
  c ← put (to_bytes pkt.uptime) 4 c
  c ← put (to_bytes pkt.unixts) 4 c
  c ← put pkt.software_version 4 c
  c ← put (to_bytes pkt.free_ram) 4 c
  c ← put (to_bytes pkt.latency) 4 c
  c ← put (to_bytes pkt.ntp_server) 4 c
  c ← put_string pkt.http_base_address 169 c
  c ← put_string pkt.platform_name 19 c
  c ← put_string pkt.accelerometer_name 9 c
  put (to_bytes pkt.stat_probe_speed) 4 c

-- The branch of `PKTTYPE_DISCOVERY_REPLY`. `own` is the configured MAC address, and
-- `platform_tag` the macro `PLATFORM_TAG` that the build sets.
unfoldable pub put_discovery : Bytes → Bytes → Bytes → Option Bytes
put_discovery platform_tag own buf = do
  buf ← memcpy buf 6 own 6
  buf ← memcpy buf 12 software_version 4
  memcpy buf 16 platform_tag (min (length platform_tag) 8)

branch : Bytes → Bytes → PacketType → Packet → Bytes → Option Bytes
unfolding put_discovery put_info
branch tag own discovery_reply pkt buf = put_discovery tag own buf
branch tag own getinfo_reply pkt buf = do
  c ← put_info pkt (record { buf = buf; offset = 6 })
  some c.buf
branch tag own _ pkt buf = some buf

-- `sendPacket`, up to the call that sends the whole buffer.
unfoldable pub packet_bytes : Bytes → Bytes → Packet → Option Bytes
unfolding branch
packet_bytes tag own pkt = do
  buf ← memcpy (zeros packet_size) 0 magic 5
  buf ← memcpy buf 5 (code_of pkt.kind ∷ []) 1
  branch tag own pkt.kind pkt buf
