-- ===== src/Command/Listen.antt =====
-- CommandInterface.cpp: `commandInterfaceInit`, and the calls of the socket in `readPacket` and
-- `sendPacket`.
pub mod Sender
use galileo_terremoti.Base.{ℕ, Bool, Option, none, some, List, ◌++◌, Bytes}
use galileo_terremoti.Floats.{Doubles}
use galileo_terremoti.Net.IpAddr.{of_int}
use galileo_terremoti.Net.Udp.{
  Udp, Sockaddr, Call, Received, listen, set_nonblocking, receive, send,
}
use galileo_terremoti.Command.Packet.{Datagram, Packet, packet_size}
use galileo_terremoti.Command.{command_port, Build, Sent, Device, Status, check_command_packet}

-- `commandInterfaceInit`, with the descriptor that `socket` returns and whether `bind` succeeds: its
-- result, the socket, and the calls. The mode is set even if there is no socket.
unfoldable pub command_interface_init : Option ℕ → Bool → Bool × Udp × List Call
unfolding listen set_nonblocking
command_interface_init socket ok =
    let done = listen socket ok command_port in
    (done.result, done.udp, done.calls ++ set_nonblocking done.udp)

-- What `readPacket` gets, in variables that hold zeros.
datagram_of : Received → Option Bytes → Option Datagram
datagram_of r none = none
datagram_of r (some buf) = some (record { address = r.source.ipaddr; payload = buf })

unfoldable pub received : Option (Bytes × Sockaddr) → Option Datagram
unfolding datagram_of receive
received arrived = let r = receive packet_size arrived (of_int 0) 0 in datagram_of r r.bytes

-- What `sendPacket` does with a datagram.
unfoldable pub transmit : Udp → Sent → List Call
unfolding send
transmit u s = send s.payload (of_int s.address) s.port u

module _ (D : Doubles) where
  -- `checkCommandPacket`, on what has arrived at the socket.
  unfoldable pub serve :
      Build → Status D → Option (Bytes × Sockaddr) → Packet → Device D → Option (Device D)
  unfolding check_command_packet received
  serve b st arrived pkt d = check_command_packet D b st (received arrived) pkt d
