-- ===== src/Command/Handler.antt =====
-- GETINFO and what follows it in the switch.
use galileo_terremoti.Base.{
  ◌/◌, ◌%◌, ◌<◌, ◌^◌, ◌≡◌, ◌∙◌, ◌>>=◌, refl, ap, sym, true, none, some, [], ◌∷◌, ◌++◌, Bytes, arith,
  length, length-drop, take, if◌then◌else◌, IsText, some_inj,
}
use galileo_terremoti.Floats.{Doubles}
use galileo_terremoti.Config.{mac_address_bytes}
use galileo_terremoti.Command.Packet.{
  getinfo, packet_size, magic, code_of, Packet, Datagram, read_packet, packet_bytes,
}
use galileo_terremoti.Command.Packet.Encode.{
  IsPacket, packet_bytes-IsFull, packet_bytes-getinfo_reply,
}
use galileo_terremoti.Command.Packet.Decode.{Info, IsInfo, read_info, read_info-packet_bytes}
use galileo_terremoti.Command.Packet.Read.{read_packet-IsPacket}
use galileo_terremoti.Command.Reply.{length-mac_address_bytes}
use galileo_terremoti.Command.{
  command_port, Build, Sent, Device, Status, send_packet, info_packet, reset_now, handle, dispatch,
  check_command_packet,
}

module _ (D : Doubles) where
  open D use {to_float}

  -- The device once a datagram is sent.
  abbrev pub answered : Sent → Device D → Device D
  answered datagram d = record d { sent = datagram ∷ d.sent }

  -- What the parts say fits the packet: words of 32 bits, and texts without a zero byte.
  pub record IsStatus (st : Status D) (d : Device D) : Type 0 where
    pub syslog_word : d.logger.syslog_server < 2 ^ 32
    pub threshold_word : to_float st.quake_threshold < 2 ^ 32
    pub latency_word : st.latency < 2 ^ 32
    pub ntp_word : st.ntp_server < 2 ^ 32
    pub speed_word : st.stat_probe_speed < 2 ^ 32
    pub base_text : IsText st.base_url
    pub platform_text : IsText st.platform_name
    pub accelerometer_text : IsText st.accelerometer_name

  -- What the device tells of itself: "2.15" is the version.
  abbrev pub told : Status D → Device D → Info
  told st d = record {
    mac = mac_address_bytes d.config.mac_address;
    syslog_server = d.logger.syslog_server;
    threshold = to_float st.quake_threshold;
    uptime = st.uptime % 2 ^ 32;
    unixts = st.unix_time % 2 ^ 32;
    version = b'2' ∷ b'.' ∷ b'1' ∷ b'5' ∷ [];
    free_ram = st.free_ram / 1024 % 2 ^ 32;
    latency = st.latency;
    ntp_server = st.ntp_server;
    http_base_address = take 169 st.base_url;
    platform_name = take 19 st.platform_name;
    accelerometer_name = take 9 st.accelerometer_name;
    stat_probe_speed = st.stat_probe_speed;
  }

  -- A full packet of the type 12 with these values.
  abbrev pub Tells : Status D → Device D → Bytes → Type 0
  Tells st d buf =
      (length buf ≡ packet_size) × (take 6 buf ≡ magic ++ 12 ∷ []) × (read_info buf ≡ told st d)

  info_bytes :
      (tag : Bytes) (st : Status D) (d : Device D) (pkt : Packet)
      → IsPacket pkt
      → IsStatus st d
      → let own = mac_address_bytes d.config.mac_address in
        (buf : Bytes) × (packet_bytes tag own (info_packet D st d pkt) ≡ some buf) × Tells st d buf
  unfolding info_packet code_of
  info_bytes tag st d pkt v i =
      let own = mac_address_bytes d.config.mac_address in
      let info = info_packet D st d pkt in
      let full : IsPacket info = record {
        mac_size = length-mac_address_bytes d.config.mac_address;
        version_size = omega (arith, length-drop 4 pkt.software_version, v.version_size);
      } in
      let words : IsInfo info = record {
        syslog_word = i.syslog_word;
        threshold_word = i.threshold_word;
        uptime_word = omega arith;
        unixts_word = omega arith;
        ram_word = omega arith;
        latency_word = i.latency_word;
        ntp_word = i.ntp_word;
        speed_word = i.speed_word;
        base_text = i.base_text;
        platform_text = i.platform_text;
        accelerometer_text = i.accelerometer_text;
      } in
      let (buf, e, read) = read_info-packet_bytes tag own info full words refl in
      let (buf', e', size) =
        packet_bytes-IsFull tag own info full (length-mac_address_bytes d.config.mac_address) in
      let same : buf' ≡ buf = some_inj (sym e' ∙ e) in
      let starts = some_inj (sym e ∙ packet_bytes-getinfo_reply tag own info full refl) in
      (buf, e, (ap length (sym same) ∙ size, ap (take 6) starts, read))

  handle_lem :
      (b : Build) (st : Status D) (pkt : Packet) (d : Device D)
      → IsPacket pkt
      → IsStatus st d
      → (buf : Bytes) × (handle D b st getinfo pkt d
          ≡ some (
              if b.is_debug
              then reset_now D
                  (answered (record { address = pkt.source; port = command_port; payload = buf }) d)
              else answered
                  (record { address = pkt.source; port = command_port; payload = buf })
                  d))
        × Tells st d buf
  unfolding handle send_packet
  handle_lem b st pkt d v i =
      let (buf, e, tells) = info_bytes b.platform_tag st d pkt v i in
      let answer : Sent = record { address = pkt.source; port = command_port; payload = buf } in
      let sent : send_packet D b (info_packet D st d pkt) d ≡ some (answered answer d) =
        unfold info_packet in
        ap (λ o. o >>= λ buf. some (answered (record answer { payload = buf }) d)) e in
      (buf, ap (λ o. o >>= λ d. some (if b.is_debug then reset_now D d else d)) sent, tells)

  -- A datagram that is read as a GETINFO request is answered with one full packet of the type
  -- GETINFO_REPLY to its source, in which a reader that walks over the fields finds the device's own
  -- address, its syslog server, the threshold, the times, the version, the free memory in kilobytes,
  -- the latency, the servers, the names cut to their limits, and the rate of the sensor. In a release
  -- build nothing else changes; in a debug build the device also deletes its configuration file and
  -- reboots. (The packet struct held texts of its fixed sizes before; what the other parts say are
  -- words of 32 bits, and texts without a zero byte.)
  pub check_command_packet-getinfo :
      (b : Build) (st : Status D) (datagram : Datagram) (old pkt : Packet) (d : Device D)
      → IsPacket old
      → IsStatus st d
      → read_packet (some datagram) old ≡ some pkt
      → pkt.kind ≡ getinfo
      → (buf : Bytes) × (check_command_packet D b st (some datagram) old d
          ≡ some (
              if b.is_debug
              then record (answered
                  (record { address = pkt.source; port = command_port; payload = buf })
                  d) { config = record (d.config) { file = none }; rebooting = true }
              else answered
                  (record { address = pkt.source; port = command_port; payload = buf })
                  d))
        × Tells st d buf
  unfolding check_command_packet reset_now
  check_command_packet-getinfo b st datagram old pkt d v i e k =
      let (v', source) = read_packet-IsPacket datagram old pkt v e in
      let (buf, done, tells) = handle_lem b st pkt d v' i in
      (buf, ap (λ o. dispatch D b st o d) e ∙ ap (λ t. handle D b st t pkt d) k ∙ done, tells)
