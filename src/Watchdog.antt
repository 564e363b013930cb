-- ===== src/Watchdog.antt =====
-- Watchdog.cpp (the Linux branches): `heartBeat`, which the program calls in its loop, and one round
-- of the loop in `launch`, in the process that watches it. `w` is the width of `unsigned long`. A time
-- is in milliseconds since 1970: `millis` has its low 32 bits, and the file's time of modification and
-- `time` have its seconds. What the world says in a call is a `Beat`.
pub mod Alive
pub mod Crash
use galileo_terremoti.Base.{
  ℕ, ◌+◌, ◌-◌, ◌/◌, ◌%◌, ◌^◌, Bool, true, false, not, ◌||◌, Option, none, some, ltb, if◌then◌else◌,
  word_sub,
}

-- `WATCHDOG_TIMER`, in milliseconds.
abbrev pub watchdog_timer : ℕ
watchdog_timer = 60000

pub record Watched : Type 0 where
  pub last_beat : ℕ
  -- The time of modification of `WATCHDOG_FILE`, if there is one.
  pub file : Option ℕ
  -- `platformReboot` was called.
  pub rebooting : Bool

-- The time when `heartBeat` tests it, when the file is written and when the beat is noted, and
-- whether the file can be opened.
pub record Beat : Type 0 where
  pub check : ℕ
  pub written : ℕ
  pub set : ℕ
  pub can_open : Bool

unfoldable pub heart_beat : ℕ → Beat → Watched → Watched
heart_beat w b s =
    if ltb (watchdog_timer / 3) (word_sub w (b.check % 2 ^ 32) s.last_beat)
    then if b.can_open
      then record s { last_beat = b.set % 2 ^ 32; file = some (b.written / 1000) }
      else record s { file = none; rebooting = true }
    else s

-- Whether the file is older than the timer, at a time in seconds.
unfoldable pub is_missed : Option ℕ → ℕ → Bool
is_missed none now = false
is_missed (some modified) now = ltb (modified + watchdog_timer / 1000) now

-- One round of the watching loop: whether it reboots.
unfoldable pub watch : Bool → Watched → ℕ → Bool
unfolding is_missed
watch running s now = not running || is_missed s.file now
