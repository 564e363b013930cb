-- ===== src/Net/Network.antt =====
-- net/NetworkManager.cpp (the Linux branches): the echo request of `ping` with its checksum, and the
-- latency and the cached test of the connection. What the system answers in a ping is a `Ping`.
pub mod Checksum
pub mod Cache
use galileo_terremoti.Base.{
  ℕ, zero, suc, ◌+◌, ◌-◌, ◌*◌, ◌/◌, ◌%◌, ◌^◌, Bool, true, false, not, ◌&&◌, ◌||◌, List, [], ◌∷◌,
  ◌++◌, Bytes, ◌==◌, ltb, if◌then◌else◌, get_or, Option, none, some, word_sub,
}

-- The loop of `checksum` over the 16-bit words, which the hardware keeps low byte first.
unfoldable pub words_sum : ℕ → Bytes → ℕ
words_sum sum [] = sum
words_sum sum (a ∷ []) = (sum + a) % 2 ^ 32
words_sum sum (a ∷ b ∷ rest) = words_sum ((sum + (a + 256 * b)) % 2 ^ 32) rest

-- The two foldings and the complement.
unfoldable pub fold_sum : ℕ → ℕ
fold_sum sum =
    let once = (sum / 65536 + sum % 65536) % 2 ^ 32 in
    let twice = (once + once / 65536) % 2 ^ 32 in 65535 - twice % 65536

unfoldable pub checksum : Bytes → ℕ
unfolding words_sum fold_sum
checksum b = fold_sum (words_sum 0 b)

-- The message: 55 characters from '0' on, as bytes, and a zero.
unfoldable pub message_from : ℕ → ℕ → Bytes
message_from zero i = 0 ∷ []
message_from (suc n) i = (i + b'0') ∷ message_from n (i + 1)

abbrev pub word_bytes : ℕ → Bytes → Bytes
word_bytes x rest = x % 256 ∷ x / 256 % 256 ∷ rest

-- What stands behind the checksum: the process and the number of the request, both 16 bits.
abbrev pub echo_rest : ℕ → ℕ → Bytes
echo_rest pid sequence = word_bytes pid (word_bytes sequence (message_from 55 0))

-- The packet of `ping`, with its checksum.
unfoldable pub echo_packet : ℕ → ℕ → Bytes
unfolding checksum message_from
echo_packet pid sequence =
    8 ∷ 0 ∷ word_bytes (checksum (8 ∷ 0 ∷ 0 ∷ 0 ∷ echo_rest pid sequence)) (echo_rest pid sequence)

-- Whether the socket was opened and the request sent, what is received while `ping` waits, and
-- what stood in its buffer where a datagram is too short.
pub record Ping : Type 0 where
  pub sent : Bool
  pub received : List Bytes
  pub stale : ℕ

-- A datagram with an echo reply behind its 20 bytes of IP header ends the wait.
unfoldable pub has_reply : ℕ → List Bytes → Bool
has_reply stale [] = false
has_reply stale ([] ∷ later) = has_reply stale later
has_reply stale ((c ∷ buf) ∷ later) = get_or (c ∷ buf) 20 stale == 0 || has_reply stale later

unfoldable pub ping : Ping → Bool
unfolding has_reply
ping p = p.sent && has_reply p.stale p.received

pub record Network : Type 0 where
  pub connection_available : Bool
  pub connection_checked : Bool

-- `isConnectedToInternet`, with the first ping and the second one, which is sent only if the first
-- fails.
unfoldable pub is_connected_to_internet : Bool → Ping → Ping → Network → Bool × Network
unfolding ping
is_connected_to_internet force first second s =
    let available = if ping first then true else ping second in
    if not s.connection_checked || force
    then (available, record { connection_available = available; connection_checked = true })
    else (s.connection_available, s)

-- `latency`: the milliseconds from the start of the ping that was answered to the end, as a word of
-- `w` bits, or -1, which is `none`.
unfoldable pub latency : ℕ → Ping → Ping → ℕ → ℕ → ℕ → Option ℕ
unfolding ping
latency w first second start restart stop =
    if ping first
    then some (word_sub w stop start)
    else if ping second
    then some (word_sub w stop restart)
    else none
