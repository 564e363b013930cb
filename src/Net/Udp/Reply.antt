-- ===== src/Net/Udp/Reply.antt =====
-- A datagram and the answer to it.
use galileo_terremoti.Base.{ℕ, ◌<◌, ◌^◌, ◌≡◌, refl, some, [], ◌∷◌, Bytes, arith, to_bytes, of_bytes}
use galileo_terremoti.Net.IpAddr.{IpAddr, byte_swap}
use galileo_terremoti.Net.Udp.{Udp, Sockaddr, sends, swap_short, receive, send}

pub byte_swap-byte_swap : (x : ℕ) → x < 2 ^ 32 → byte_swap (byte_swap x) ≡ x
unfolding byte_swap to_bytes of_bytes
byte_swap-byte_swap x h = omega arith

swap_short-swap_short : (p : ℕ) → p < 2 ^ 16 → swap_short (swap_short p) ≡ p
unfolding swap_short
swap_short-swap_short p h = omega arith

-- An answer that is sent to the source and the port that `receive` has noted goes to the very sender
-- of the datagram: its address and its port, both in network order. (The datagram is not empty; the
-- address has 32 bits and the port 16.)
pub send-receive :
    (maxsize c : ℕ) (buf answer : Bytes) (sender : Sockaddr) (old : IpAddr) (port : ℕ) (u : Udp)
    → sender.address < 2 ^ 32
    → sender.port < 2 ^ 16
    → let got = receive maxsize (some (c ∷ buf, sender)) old port in
      send answer got.source got.port u ≡ sends u.fd answer sender ∷ []
unfolding send receive
send-receive maxsize c buf answer sender old port u h k =
    rw (byte_swap-byte_swap sender.address h, swap_short-swap_short sender.port k) refl
