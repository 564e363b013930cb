-- ===== src/Command/Listen/Sender.antt =====
-- From a datagram at the socket to the answer.
use galileo_terremoti.Base.{
  ℕ, ◌<◌, ◌^◌, ◌≡◌, ap, ◌⊎◌, inl, inr, true, some, [], ◌∷◌, Bytes, length, take,
}
use galileo_terremoti.Floats.{Doubles}
use galileo_terremoti.Net.IpAddr.{byte_swap}
use galileo_terremoti.Net.Udp.{Sockaddr, Call, sends, swap_short}
use galileo_terremoti.Net.Udp.Reply.{byte_swap-byte_swap}
use galileo_terremoti.Command.Packet.{Packet, packet_size}
use galileo_terremoti.Command.Packet.Encode.{IsPacket}
use galileo_terremoti.Command.Reply.{CanTrace, HasAddress, check_command_packet-Answered}
use galileo_terremoti.Command.{command_port, Build, Sent, Device, Status}
use galileo_terremoti.Command.Listen.{command_interface_init, transmit, serve}

-- A call that sends the bytes to the command port of a host, given in network order.
abbrev pub answers_to : ℕ → ℕ → Bytes → Call
answers_to fd address buf =
    sends (some fd) buf (record { port = swap_short command_port; address = address })

-- Whatever arrives at the socket that `commandInterfaceInit` has opened, the handler serves it
-- without a write outside its buffer or through a null pointer, and it sends nothing, or makes one
-- call that sends 252 bytes on this socket to the command port of the very host from which the
-- datagram has come. (The datagram is not empty; the sender's address has 32 bits; the struct on the
-- stack has arrays of their declared sizes; in a debug build the trace file can be opened; the
-- device's own address has at least twelve characters.)
pub serve-transmit :
    (D : Doubles) (b : Build) (st : Status D) (fd c : ℕ) (buf : Bytes) (sender : Sockaddr)
    (pkt : Packet) (d : Device D)
    → sender.address < 2 ^ 32
    → IsPacket pkt
    → CanTrace D b st
    → HasAddress D d
    → let (_, u, _) = command_interface_init (some fd) true in
      (d' : Device D) × (serve D b st (some (c ∷ buf, sender)) pkt d ≡ some d')
      × ((d'.sent ≡ d.sent)
          ⊎ ((s : Sent) × (d'.sent ≡ s ∷ d.sent)
              × (transmit u s ≡ answers_to fd sender.address s.payload ∷ [])
              × (length s.payload ≡ packet_size)))
unfolding serve transmit command_interface_init
serve-transmit D b st fd c buf sender pkt d h v t long =
    let (d', e, answered) =
      check_command_packet-Answered D b st
        (record { address = byte_swap sender.address; payload = take packet_size (c ∷ buf) }) pkt d
        v t long in
    (
      d',
      e,
      elim answered [
        | inl nothing ↦ inl nothing
        | inr (sent, new, size) ↦ inr (
          record { address = byte_swap sender.address; port = command_port; payload = sent },
          new,
          ap (λ a. answers_to fd a sent ∷ []) (byte_swap-byte_swap sender.address h),
          size,
        )
      ],
    )
