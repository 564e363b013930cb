-- ===== src/Tests/Sockets.antt =====
-- A connection, and the clock.
use galileo_terremoti.Base.{
  ℕ, ◌≡◌, refl, inl, true, some, none, List, [], ◌∷◌, arith, inl, Bytes, word_sub, zeros, drop,
  ◌++◌, ◌+◌, ◌%◌, ◌^◌,
}
use galileo_terremoti.Utils.{hton64}
use galileo_terremoti.Utils.Clock.{Timespec, millis}
use galileo_terremoti.Net.Ntp.{Ntp, Attempt, jan_1970, get_unix_time, set_time}
use galileo_terremoti.Net.Ntp.Clock.{get_unix_time-set_time}
use galileo_terremoti.Net.Tcp.{create, has_data, ready}
use galileo_terremoti.Net.Tcp.Safe.{
  Op, op_connect, op_println, op_readchar, op_stop, run, follow, run-follow,
}

-- A line is sent, a character is read, and a read behind the end does nothing.
abbrev session : List Op
session =
    op_connect (record { socket = some 5; dialling = true; selected = ready; peek = has_data })
    ∷ op_println (b'G' ∷ []) (some 3)
    ∷ op_readchar true (some b'H')
    ∷ op_stop
    ∷ op_readchar true none
    ∷ []

run-follow_example : (o : ℕ) × (follow 0 (run session create) ≡ some o)
run-follow_example =
    run-follow session 0 create (inl refl) (omega arith, (tt, (tt, (tt, (tt, tt)))))

-- The counter of milliseconds wraps 296 milliseconds behind the first time.
abbrev before_wrap : Timespec
before_wrap = record { sec = 4294967; nsec = 0 }

abbrev behind_wrap : Timespec
behind_wrap = record { sec = 4295000; nsec = 0 }

abbrev attempt : Attempt
attempt = record { address = 1; datagrams = []; now = millis before_wrap; printed = [] }

abbrev reply : Bytes
reply = zeros 40 ++ (220 ∷ 0 ∷ 0 ∷ 0 ∷ zeros 4)

abbrev client : Ntp
client = record {
  unix_time_ts = 0;
  unix_time_update = 0;
  last_ntp_server = 1;
  ntpserver = b'n' ∷ [];
  requests = [];
}

abbrev set_client : Ntp
set_client = record client {
  unix_time_ts = word_sub 32 (hton64 (drop 40 reply)) jan_1970;
  unix_time_update = millis before_wrap;
}

get_unix_time-set_time_example :
    get_unix_time 32 (millis behind_wrap) set_client
    ≡ (word_sub 32 (hton64 (drop 40 reply)) jan_1970 + 33) % 2 ^ 32
unfolding set_time
get_unix_time-set_time_example =
    get_unix_time-set_time attempt reply client set_client before_wrap behind_wrap refl refl
      (omega arith) (omega arith)
