-- ===== src/Net/Ntp.antt =====
-- net/NTP.cpp: the clock, and `sync`. `w` is the width of `time_t` and `unsigned long`; a time is its
-- bit pattern. What the world does in one round of the loop of `sync` is an `Attempt`: the address
-- that the host's name has, what `receive` hands over while the round waits, the clock, and the
-- lines that the system's `date` command prints.
pub mod Sync
pub mod Clock
use galileo_terremoti.Base.{
  ℕ, ◌+◌, ◌-◌, ◌*◌, ◌/◌, ◌%◌, ◌^◌, Bool, true, false, not, ◌&&◌, ◌||◌, Option, none, some, ◌>>=◌,
  List, [], ◌∷◌, ◌++◌, Bytes, ltb, leb, ◌==◌, if◌then◌else◌, length, take, drop, zeros, word_sub,
}
use galileo_terremoti.Utils.{hton64, trim}
use galileo_terremoti.Net.Udp.{Udp, Call, listen, set_nonblocking}

abbrev pub ntp_packet_size : ℕ
ntp_packet_size = 48

abbrev pub jan_1970 : ℕ
jan_1970 = 2208988800

-- "2015-07-23 12:45:00", roughly.
abbrev pub oldest_time : ℕ
oldest_time = 1437648361

pub record Ntp : Type 0 where
  pub unix_time_ts : ℕ
  pub unix_time_update : ℕ
  pub last_ntp_server : ℕ
  pub ntpserver : Bytes
  -- The requests sent to port 123: address and payload, the newest first.
  pub requests : List (ℕ × Bytes)

pub record Attempt : Type 0 where
  pub address : ℕ
  pub datagrams : List Bytes
  pub now : ℕ
  pub printed : List Bytes

-- The packet of `sendNTPpacket`.
abbrev pub request_packet : Bytes
request_packet = 227 ∷ 0 ∷ 6 ∷ 236 ∷ (zeros 8 ++ (49 ∷ 78 ∷ 49 ∷ 52 ∷ zeros 32))

unfoldable pub send_ntp_packet : ℕ → Ntp → Ntp
send_ntp_packet address s = record s { requests = (address, request_packet) ∷ s.requests }

-- The loop of `execSystemTimeUpdate` over the lines printed: `none` is the exception of `trim`. The
-- step that `date -s` makes in the system's clock is not followed: readings of `millis` are data.
unfoldable pub exec_system_time_update : List Bytes → Ntp → Option Ntp
exec_system_time_update [] s = some s
exec_system_time_update (l ∷ ls) s =
    trim b'\r' l >>= trim b'\n' >>= trim 32 >>= λ line. exec_system_time_update ls s

-- `getUNIXTime` and `getUNIXTimeMS`, `millis` being what the clock says.
unfoldable pub get_unix_time : ℕ → ℕ → Ntp → ℕ
get_unix_time w millis s = (s.unix_time_ts + word_sub w millis s.unix_time_update / 1000) % 2 ^ w

-- The conversion of a signed number to `uint64_t`.
abbrev pub widen : ℕ → ℕ → ℕ
widen w t = if leb (2 ^ (w - 1)) t then t + (2 ^ 64 - 2 ^ w) else t

unfoldable pub get_unix_time_ms : ℕ → ℕ → Ntp → ℕ
get_unix_time_ms w millis s =
    (widen w s.unix_time_ts * 1000 + word_sub w millis s.unix_time_update) % 2 ^ 64

unfoldable pub set_ntp_server : Bytes → Ntp → Ntp
set_ntp_server server s = record s { ntpserver = server }

-- The first datagram of the wait that is long enough; `receive` hands over its first 48 bytes.
unfoldable pub first_reply : List Bytes → Option Bytes
first_reply [] = none
first_reply (p ∷ ps) =
    if leb ntp_packet_size (length (take ntp_packet_size p))
    then some (take ntp_packet_size p)
    else first_reply ps

-- `unixTimeTS < 1437648361`, a comparison of signed numbers.
unfoldable pub is_old : ℕ → ℕ → Bool
is_old w t = leb (2 ^ (w - 1)) t || ltb t oldest_time

-- What the loop makes of a reply.
unfoldable pub set_time : ℕ → Attempt → Bytes → Ntp → Option Ntp
unfolding hton64 exec_system_time_update
set_time w a p s =
    exec_system_time_update a.printed (record s {
      unix_time_ts = word_sub w (hton64 (drop 40 p)) jan_1970;
      unix_time_update = a.now;
    })

pub data Outcome : Type 0 where
  -- `sync` returned; the loop goes on; an exception.
  returned : Bool → Ntp → Outcome
  looping : Bool → Ntp → Outcome
  fault : Outcome

-- The end of a round: the condition of the loop.
unfoldable pub end_round : ℕ → Bool → Option Ntp → Outcome
unfolding is_old
end_round w ret none = fault
end_round w ret (some s) = if is_old w s.unix_time_ts then looping ret s else returned ret s

-- The wait for the reply, which is skipped if there was one in an earlier round.
unfoldable pub wait_reply : ℕ → Attempt → Bool → Option Bytes → Ntp → Outcome
unfolding end_round set_time
wait_reply w a true reply s = end_round w true (some s)
wait_reply w a false none s = end_round w false (some s)
wait_reply w a false (some p) s = end_round w true (set_time w a p s)

-- One round of the loop.
unfoldable pub round : ℕ → Attempt → Bool → Ntp → Outcome
unfolding send_ntp_packet wait_reply first_reply
round w a ret s =
    let s = record s { last_ntp_server = a.address } in
    if a.address == 0
    then returned false s
    else wait_reply w a ret (first_reply a.datagrams) (send_ntp_packet a.address s)

-- The loop over the rounds that the world has answers for; `looping` at their end is a loop that has
-- not ended then.
unfoldable pub rounds : ℕ → List Attempt → Bool → Ntp → Outcome
unfolding round
rounds w [] ret s = looping ret s
rounds w (a ∷ later) ret s = elim (round w a ret s) [
  | returned b t ↦ returned b t
  | looping b t ↦ rounds w later b t
  | fault ↦ fault
]

unfoldable pub sync : ℕ → List Attempt → Ntp → Outcome
unfolding rounds
sync w attempts s = if length s.ntpserver == 0 then returned false s else rounds w attempts false s

-- `init`, with the descriptor that `socket` returns and whether `bind` succeeds; neither is looked
-- at.
unfoldable pub init : Option ℕ → Bool → Udp × List Call
unfolding listen set_nonblocking
init socket ok =
    let done = listen socket ok 63451 in (done.udp, done.calls ++ set_nonblocking done.udp)
