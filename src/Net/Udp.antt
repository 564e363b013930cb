-- ===== src/Net/Udp.antt =====
-- net/Udp.cpp: the wrapper of a UDP socket. What the system answers is an argument, and the calls
-- that a method makes are a result. A descriptor is a number, or -1, which is `none`.
pub mod Reply
use galileo_terremoti.Base.{
  ℕ, ◌+◌, ◌*◌, ◌/◌, ◌%◌, ◌<◌, ◌^◌, ◌≡◌, Bool, true, false, Option, none, some, List, [], ◌∷◌, Bytes,
  take, if◌then◌else◌,
}
use galileo_terremoti.Net.IpAddr.{IpAddr, of_int, byte_swap}

pub record Udp : Type 0 where
  pub fd : Option ℕ

-- `sockaddr_in`: the port and the address, both in network order.
pub record Sockaddr : Type 0 where
  pub port : ℕ
  pub address : ℕ

-- The calls of the system.
pub data Call : Type 0 where
  opened : ℕ → Call
  sends : Option ℕ → Bytes → Sockaddr → Call
  receives : Option ℕ → ℕ → Call
  connects binds : ℕ → Sockaddr → Call
  closes nonblocking : Option ℕ → Call

-- The constructor.
abbrev pub create : Udp
create = record { fd = some 0 }

-- `htons` and `ntohs`.
unfoldable pub swap_short : ℕ → ℕ
swap_short p = p % 256 * 256 + p / 256 % 256

-- `addr.sin_port = htons(port)`, `addr.sin_addr.s_addr = htonl(ipaddr)`.
unfoldable pub sockaddr_of : IpAddr → ℕ → Sockaddr
unfolding swap_short byte_swap
sockaddr_of a port = record { port = swap_short port; address = byte_swap a.ipaddr }

-- `send`: there is no test of the descriptor.
unfoldable pub send : Bytes → IpAddr → ℕ → Udp → List Call
unfolding sockaddr_of
send buf dst port u = sends u.fd buf (sockaddr_of dst port) ∷ []

-- What `receive` leaves: its result, the bytes or none, and the two variables of the caller.
pub record Received : Type 0 where
  pub bytes : Option Bytes
  pub source : IpAddr
  pub port : ℕ

-- `receive`, with the datagram that `recvfrom` has, if there is one, and its sender; an empty one is
-- passed on, but not its sender.
unfoldable pub receive : ℕ → Option (Bytes × Sockaddr) → IpAddr → ℕ → Received
unfolding swap_short byte_swap
receive maxsize none old port = record { bytes = none; source = old; port = port }
receive maxsize (some ([], sender)) old port = record { bytes = some []; source = old; port = port }
receive maxsize (some (c ∷ buf, sender)) old port = record {
  bytes = some (take maxsize (c ∷ buf));
  source = of_int (byte_swap sender.address);
  port = swap_short sender.port;
}

-- What `connectTo` and `listen` return, the object after it, and the calls: with the descriptor of
-- `socket`, and whether the second call succeeds.
pub record Done : Type 0 where
  pub result : Bool
  pub udp : Udp
  pub calls : List Call

unfoldable pub connect_to : Option ℕ → Bool → IpAddr → ℕ → Done
unfolding sockaddr_of
connect_to none ok a port = record { result = false; udp = record { fd = none }; calls = [] }
connect_to (some fd) ok a port = record {
  result = ok;
  udp = record { fd = some fd };
  calls = opened fd ∷ connects fd (sockaddr_of a port) ∷ [];
}

unfoldable pub listen : Option ℕ → Bool → ℕ → Done
unfolding swap_short
listen none ok port = record { result = false; udp = record { fd = none }; calls = [] }
listen (some fd) ok port = record {
  result = ok;
  udp = record { fd = some fd };
  calls = opened fd ∷ binds fd (record { port = swap_short port; address = 0 }) ∷ [];
}

-- `end`, which closes the descriptor 0, too.
unfoldable pub end : Udp → Udp × List Call
end u = (record { fd = some 0 }, closes u.fd ∷ [])

unfoldable pub set_nonblocking : Udp → List Call
set_nonblocking u = nonblocking u.fd ∷ []
