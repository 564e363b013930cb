-- ===== src/Tests/Loop.antt =====
-- The loop and the network manager on concrete data.
use galileo_terremoti.Base.{
  ℕ, ◌≡◌, refl, true, false, some, [], ◌∷◌, arith, zeros, ◌<◌, ◌^◌, ◌≤◌, ◌*◌, ◌+◌, ◌-◌, List, ◌%◌,
  ◌/◌,
}
use galileo_terremoti.Net.Network.{Ping, Network, checksum, echo_packet}
use galileo_terremoti.Net.Network.Checksum.{checksum-echo_packet}
use galileo_terremoti.Watchdog.{Watched, Beat, watch}
use galileo_terremoti.Watchdog.Alive.{IsBeat, IsBeating, beats, last_call, watch-beats}
use galileo_terremoti.Core.{Core, Pass}
use galileo_terremoti.Core.Timers.{Apart, tick_times, tick_times-Apart}
use galileo_terremoti.Core.Rotation.{IsGood, RotateAlways, loop-RotateAlways}

checksum-echo_packet_example : checksum (echo_packet 1234 1) ≡ 0
checksum-echo_packet_example = checksum-echo_packet 1234 1

abbrev lost : Ping
lost = record { sent = true; received = []; stale = 7 }

abbrev answered : Ping
answered = record { sent = true; received = (zeros 21) ∷ []; stale = 7 }

abbrev network : Network
network = record { connection_available = false; connection_checked = false }

-- Every call of the clock in a pass answers with the same time.
abbrev pub pass : ℕ → Pass
pass time = record {
  net_check = time;
  net_set = time;
  cfg_check = time;
  cfg_set = time;
  ntp_check = time;
  ntp_set = time;
  seismo_check = time;
  seismo_set = time;
  rotate_check = time;
  has_mac = true;
  connected = true;
  failed_syncs = some 1;
  beat_returns = true;
  command_returns = true;
  config_returns = true;
  tick_returns = true;
}

abbrev core : Core
core = record {
  net_last_ms = 0;
  ntp_last_ms = 0;
  cfg_last_ms = 0;
  seismo_last_ms = 0;
  log_rotation_ms = 0;
}

tick_times-Apart_example : Apart 0 (tick_times 32 (pass 60 ∷ pass 100 ∷ pass 120 ∷ []) core)
tick_times-Apart_example =
    tick_times-Apart 32 (pass 60 ∷ pass 100 ∷ pass 120 ∷ []) 0 core (omega arith) (
      omega arith,
      omega arith,
      omega arith,
      (omega arith, omega arith, omega arith, (omega arith, omega arith, omega arith, tt)),
    )

abbrev pass-IsGood : (time : ℕ) → IsGood (pass time)
pass-IsGood time = record {
  mac_there = refl;
  beat_back = refl;
  command_back = refl;
  config_back = refl;
  tick_back = refl;
  failed = 1;
  syncs = refl;
}

loop-RotateAlways_example : RotateAlways 32 (pass 90000000 ∷ pass 90000050 ∷ []) core
loop-RotateAlways_example = loop-RotateAlways 32 (pass 90000000 ∷ pass 90000050 ∷ []) core (
  pass-IsGood 90000000,
  omega arith,
  omega arith,
  (pass-IsGood 90000050, omega arith, omega arith, tt),
)

-- Half a minute around a time, in 2026, at which the counter of milliseconds wraps.
abbrev wrap : ℕ
wrap = 412 * 2 ^ 32

abbrev beat : ℕ → Beat
beat time = record { check = time; written = time; set = time; can_open = true }

abbrev beat-IsBeat : (time now : ℕ) → now ≤ time → time < now + 2 ^ 31 → IsBeat now (beat time)
beat-IsBeat time now h k = record {
  forward = h;
  soon = k;
  written_after = omega arith;
  set_after = omega arith;
  quick = omega arith;
  opens = refl;
}

abbrev watched : Watched
watched = record {
  last_beat = (wrap - 10000) % 2 ^ 32;
  file = some ((wrap - 10000) / 1000);
  rebooting = false;
}

abbrev watched-IsBeating : IsBeating (wrap - 10000) watched
watched-IsBeating = record {
  last = wrap - 10000;
  written = (wrap - 10000) / 1000;
  file_is = refl;
  noted = refl;
  fresh = omega arith;
  recent = omega arith;
  before = omega arith;
}

abbrev two_beats : List Beat
two_beats = beat wrap ∷ beat (wrap + 20000) ∷ []

watch-beats_example :
    (watch true (beats 32 two_beats watched) ((wrap + 50000) / 1000) ≡ false)
    × ((beats 32 two_beats watched).rebooting ≡ false)
unfolding last_call
watch-beats_example =
    watch-beats (wrap - 10000) (wrap + 50000) two_beats watched watched-IsBeating
      (
        beat-IsBeat wrap (wrap - 10000) (omega arith) (omega arith),
        (beat-IsBeat (wrap + 20000) wrap (omega arith) (omega arith), tt),
      )
      (omega arith)
