-- ===== src/Command/Position.antt =====
-- SENDGPS: a request with the device's own address moves the device, any other does nothing.
use galileo_terremoti.Base.{
  ℕ, ◌≡◌, ◌<◌, ◌^◌, ◌∙◌, refl, ap, Bool, true, false, Option, some, Bytes, ◌∷◌, ◌++◌, length, zeros,
  memcpy, bytes_eq, not, if◌then◌else◌,
}
use galileo_terremoti.Floats.{Doubles}
use galileo_terremoti.Config.{mac_address_bytes, set_latitude, set_longitude}
use galileo_terremoti.Command.Packet.{
  Packet, Datagram, magic, code_of, ok, sendgps, packet_bytes, read_packet,
}
use galileo_terremoti.Command.Packet.Read.{position_request, read_packet-position_request}
use galileo_terremoti.Command.{
  command_port, Build, Device, Status, send_packet, reply, set_position, handle, dispatch,
  check_command_packet,
}

-- The packet that says OK.
abbrev pub ok_bytes : Bytes
ok_bytes = magic ++ (code_of ok ∷ zeros 246)

packet_bytes-ok :
    (tag own : Bytes) (pkt : Packet)
    → packet_bytes tag own (record pkt { kind = ok }) ≡ some ok_bytes
unfolding packet_bytes memcpy code_of
packet_bytes-ok tag own pkt = refl

module _ (D : Doubles) where
  open D use {of_float}

  -- The device at the new position, with OK sent to an address.
  abbrev pub moved : ℕ → ℕ → ℕ → Device D → Device D
  moved lat lon address d = record d {
    config = set_latitude D (set_longitude D d.config (of_float lon)) (of_float lat);
    sent = record { address = address; port = command_port; payload = ok_bytes } ∷ d.sent;
  }

  pub accepted_lem :
      (b : Build) (st : Status D) (input : Option Datagram) (pkt pkt' : Packet) (d : Device D)
      → read_packet input pkt ≡ some pkt'
      → check_command_packet D b st input pkt d ≡ handle D b st pkt'.kind pkt' d
  unfolding check_command_packet
  accepted_lem b st input pkt pkt' d e = ap (λ o. dispatch D b st o d) e

  pub reply_ok :
      (b : Build) (pkt : Packet) (d : Device D)
      → reply D b ok pkt d
        ≡ some (record d {
          sent = record { address = pkt.source; port = command_port; payload = ok_bytes } ∷ d.sent;
        })
  unfolding reply send_packet
  reply_ok b pkt d =
      rw (packet_bytes-ok b.platform_tag (mac_address_bytes d.config.mac_address) pkt)

  swapped :
      (c : Bool) (x y z : Option (Device D))
      → y ≡ z
      → (if not c then x else y) ≡ (if c then z else x)
  swapped true x y z e = e
  swapped false x y z e = refl

  handle_lem :
      (b : Build) (st : Status D) (pkt : Packet) (d : Device D)
      → handle D b st sendgps pkt d ≡ (
          if bytes_eq (mac_address_bytes d.config.mac_address) pkt.mac
          then some (moved pkt.latitude pkt.longitude pkt.source d)
          else some d)
  unfolding handle set_position
  handle_lem b st pkt d =
      swapped (bytes_eq (mac_address_bytes d.config.mac_address) pkt.mac) (some d) _ _
        (reply_ok b pkt (set_position D pkt d))

  -- A SENDGPS request (a six-byte address and the 32-bit patterns of two floats, as the app encodes
  -- them) moves the device to that position and answers OK, provided that the address is the
  -- device's own; for another address nothing at all happens.
  pub check_command_packet-position_request :
      (b : Build) (st : Status D) (mac : Bytes) (lat lon address : ℕ) (pkt : Packet) (d : Device D)
      → length mac ≡ 6
      → lat < 2 ^ 32
      → lon < 2 ^ 32
      → check_command_packet D b st
          (some (record { address = address; payload = position_request mac lat lon }))
          pkt
          d
        ≡ (if bytes_eq (mac_address_bytes d.config.mac_address) mac
            then some (moved lat lon address d)
            else some d)
  check_command_packet-position_request b st mac lat lon address pkt d m p q =
      accepted_lem b st _ pkt _ d (read_packet-position_request mac lat lon address pkt m p q)
      ∙ handle_lem b st _ d
