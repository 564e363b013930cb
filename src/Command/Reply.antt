-- ===== src/Command/Reply.antt =====
-- Every request is served without a fault, and answered at most once, to its sender.
use galileo_terremoti.Base.{
  false, ◌≤◌, sym, if_true, if_false, ℕ, ◌≡◌, refl, ap, ◌∙◌, ◌⊎◌, inl, inr, true, not, Option, some,
  List, ◌∷◌, Bytes, arith, length, length-drop, bytes_eq, if◌then◌else◌, ◌>>=◌, Option-cases,
  if_cases,
}
use mathlib.Core.Path.{subst}
use galileo_terremoti.Floats.{Doubles}
use galileo_terremoti.Command.Packet.Read.{read_packet-IsPacket}
use galileo_terremoti.Config.{mac_address_bytes}
use galileo_terremoti.Log.{set_syslog_server}
use galileo_terremoti.Command.Packet.{
  PacketType, discovery, discovery_reply, ping, pong, sendgps, ok, setsyslog, reboot, getinfo,
  reset, trace, Packet, Datagram, packet_size, read_packet,
}
use galileo_terremoti.Command.Packet.Encode.{IsPacket, packet_bytes-IsFull}
use galileo_terremoti.Command.{
  start_tracing, command_port, Build, Sent, Device, Status, send_packet, reply, set_position,
  reboot_now, reset_now, info_packet, handle, check_command_packet, dispatch,
}

pub length-mac_address_bytes : (s : Bytes) → length (mac_address_bytes s) ≡ 6
unfolding mac_address_bytes
length-mac_address_bytes s = refl

-- Nothing new was sent, or one full buffer to an address.
abbrev pub Answered : ℕ → List Sent → List Sent → Type 0
Answered address old new =
    (new ≡ old)
    ⊎ ((buf : Bytes) × (new
          ≡ record { address = address; port = command_port; payload = buf } ∷ old)
        × (length buf ≡ packet_size))

module _ (D : Doubles) where
  abbrev Served : ℕ → Device D → Option (Device D) → Type 0
  Served address d o = (d' : Device D) × (o ≡ some d') × Answered address d.sent d'.sent

  pub send_packet_lem :
      (b : Build) (pkt : Packet) (d : Device D)
      → IsPacket pkt
      → (buf : Bytes) × (send_packet D b pkt d
          ≡ some (record d {
            sent = record { address = pkt.source; port = command_port; payload = buf } ∷ d.sent;
          }))
        × (length buf ≡ packet_size)
  unfolding send_packet
  send_packet_lem b pkt d v =
      let own = mac_address_bytes d.config.mac_address in
      let (buf, e, size) =
        packet_bytes-IsFull b.platform_tag own pkt v
          (length-mac_address_bytes d.config.mac_address) in
      (buf, rw e, size)

  reply-Served :
      (b : Build) (kind : PacketType) (pkt : Packet) (d d' : Device D)
      → IsPacket pkt
      → d'.sent ≡ d.sent
      → Served pkt.source d (reply D b kind pkt d')
  unfolding reply
  reply-Served b kind pkt d d' v same =
      let (buf, e, size) =
        send_packet_lem b (record pkt { kind = kind }) d'
          (record { mac_size = v.mac_size; version_size = v.version_size }) in
      let answer : Sent = record { address = pkt.source; port = command_port; payload = buf } in
      (_, e, inr (buf, ap (◌∷◌ answer) same, size))

  -- What a branch does after its reply leaves the list of datagrams alone.
  then-Served :
      (address : ℕ) (d : Device D) (o : Option (Device D)) (f : Device D → Device D)
      → ((e : Device D) → (f e).sent ≡ e.sent)
      → Served address d o
      → Served address d (o >>= λ e. some (f e))
  then-Served address d o f same (d', e, inl s) = (f d', rw e, inl (same d' ∙ s))
  then-Served address d o f same (d', e, inr (buf, s, size)) =
      (f d', rw e, inr (buf, same d' ∙ s, size))

  -- The answer to GETINFO is sent, and that is all it changes.
  pub info_sent :
      (b : Build) (st : Status D) (pkt : Packet) (d : Device D)
      → IsPacket pkt
      → (buf : Bytes) × (send_packet D b (info_packet D st d pkt) d
          ≡ some (record d {
            sent = record { address = pkt.source; port = command_port; payload = buf } ∷ d.sent;
          }))
        × (length buf ≡ packet_size)
  unfolding info_packet
  info_sent b st pkt d v = send_packet_lem b (info_packet D st d pkt) d (record {
    mac_size = length-mac_address_bytes d.config.mac_address;
    version_size = omega (arith, length-drop 4 pkt.software_version, v.version_size);
  })

  info-Served :
      (b : Build) (st : Status D) (pkt : Packet) (d : Device D)
      → IsPacket pkt
      → Served pkt.source d (send_packet D b (info_packet D st d pkt) d)
  info-Served b st pkt d v =
      let (buf, e, size) = info_sent b st pkt d v in (_, e, inr (buf, refl, size))

  -- The trace file can be opened, or the build does not know the request.
  abbrev pub CanTrace : Build → Status D → Type 0
  CanTrace b st = (b.is_debug ≡ false) ⊎ (st.can_trace ≡ true)

  trace-Served :
      (b : Build) (st : Status D) (address : ℕ) (d : Device D)
      → CanTrace b st
      → Served address d (if b.is_debug then start_tracing D st d else some d)
  unfolding start_tracing
  trace-Served b st address d (inl release) =
      subst (Served address d) (sym (if_false _ _ release)) (d, refl, inl refl)
  trace-Served b st address d (inr opens) =
      if_cases (Served address d) b.is_debug _ _
        (if_cases (Served address d) d.tracing _ _ (d, refl, inl refl)
          (subst (Served address d) (sym (if_true _ _ opens)) (_, refl, inl refl)))
        (d, refl, inl refl)

  handle-Served :
      (b : Build) (st : Status D) (kind : PacketType) (pkt : Packet) (d : Device D)
      → IsPacket pkt
      → CanTrace b st
      → Served pkt.source d (handle D b st kind pkt d)
  unfolding handle
  handle-Served b st discovery pkt d v t = reply-Served b discovery_reply pkt d d v refl
  handle-Served b st ping pkt d v t = reply-Served b pong pkt d d v refl
  handle-Served b st sendgps pkt d v t =
      if_cases (Served pkt.source d)
        (not (bytes_eq (mac_address_bytes d.config.mac_address) pkt.mac)) _ _ (d, refl, inl refl)
        (reply-Served b ok pkt d (set_position D pkt d) v refl)
  handle-Served b st setsyslog pkt d v t =
      reply-Served b ok pkt d (record d { logger = set_syslog_server d.logger pkt.syslog_server }) v
        refl
  handle-Served b st reboot pkt d v t =
      then-Served pkt.source d _ (reboot_now D) (λ e. refl) (reply-Served b ok pkt d d v refl)
  handle-Served b st getinfo pkt d v t =
      then-Served pkt.source d _ (λ e. if b.is_debug then reset_now D e else e)
        (λ e. if_cases (λ x. x.sent ≡ e.sent) b.is_debug (reset_now D e) e refl refl)
        (info-Served b st pkt d v)
  handle-Served b st reset pkt d v t =
      (_, refl, inl (if_cases (λ x. x.sent ≡ d.sent) b.is_debug (reset_now D d) d refl refl))
  handle-Served b st trace pkt d v t = trace-Served b st pkt.source d t
  handle-Served b st _ pkt d v t = (d, refl, inl refl)

  pub check_command_packet-Served :
      (b : Build) (st : Status D) (datagram : Datagram) (pkt : Packet) (d : Device D)
      → IsPacket pkt
      → CanTrace b st
      → (d' : Device D) × (check_command_packet D b st (some datagram) pkt d ≡ some d')
        × Answered datagram.address d.sent d'.sent
  unfolding check_command_packet
  check_command_packet-Served b st datagram pkt d v t =
      elim (Option-cases (read_packet (some datagram) pkt)) [
        | inl e ↦ (d, ap (λ o. dispatch D b st o d) e, inl refl)
        | inr (pkt', e) ↦
            let (v', source) = read_packet-IsPacket datagram pkt pkt' v e in
            let (d', same, answered) = handle-Served b st pkt'.kind pkt' d v' t in
            (
              d',
              ap (λ o. dispatch D b st o d) e ∙ same,
              subst (λ x. Answered x d.sent d'.sent) source answered,
            )
      ]

  -- The source reads twelve characters of the device's address.
  abbrev pub HasAddress : Device D → Type 0
  HasAddress d = 12 ≤ length d.config.mac_address

  -- For every build, every state of the device and of the parts it asks, every datagram: the handler
  -- ends without a write outside its buffer or through a null pointer, and it has sent nothing, or
  -- exactly one datagram of 252 bytes, to the command port of the host the received one came from.
  -- (The packet struct has arrays of their declared sizes; in a debug build the trace file can be
  -- opened; the device's address has at least twelve characters, so that nothing is read past its
  -- end.)
  pub check_command_packet-Answered :
      (b : Build) (st : Status D) (datagram : Datagram) (pkt : Packet) (d : Device D)
      → IsPacket pkt
      → CanTrace b st
      → HasAddress d
      → (d' : Device D) × (check_command_packet D b st (some datagram) pkt d ≡ some d')
        × Answered datagram.address d.sent d'.sent
  check_command_packet-Answered b st datagram pkt d v t long =
      check_command_packet-Served b st datagram pkt d v t
