-- ===== src/Utils/Clock.antt =====
-- Utils.cpp: `millis` and what else asks the system for numbers. The answers of the system are
-- arguments; `none` is a failed call.
use galileo_terremoti.Base.{
  ℕ, ◌+◌, ◌-◌, ◌*◌, ◌/◌, ◌%◌, ◌^◌, ◌≤◌, ◌<◌, ◌≡◌, Option, none, some, [], arith, Bytes, take,
  c_string, word_sub,
}

-- `clock_gettime`, as seconds and nanoseconds.
pub record Timespec : Type 0 where
  pub sec : ℕ
  pub nsec : ℕ

-- The Linux branch of `millis`, on unsigned numbers of 32 bits.
unfoldable pub millis : Timespec → ℕ
millis t = (t.nsec / 1000000 % 2 ^ 32 + t.sec * 1000 % 2 ^ 32) % 2 ^ 32

-- The branch of the BSDs and of macOS, on the seconds and the milliseconds of `ftime`.
unfoldable pub millis_bsd : ℕ → ℕ → ℕ
millis_bsd time millitm = (millitm + time % 2 ^ 20 * 1000) % 2 ^ 32

-- `getFreeRam`, and `uptime`, which is cut to 32 bits, with what `sysinfo` says.
unfoldable pub get_free_ram : Option ℕ → ℕ
get_free_ram none = 0
get_free_ram (some free) = free

unfoldable pub uptime : Option ℕ → ℕ
uptime none = 0
uptime (some seconds) = seconds % 2 ^ 32

-- `readFirstLine`, with the file's content if it can be opened: its first 1023 bytes, up to a zero
-- byte, and not its first line.
unfoldable pub read_first_line : Option Bytes → Bytes
read_first_line none = []
read_first_line (some content) = c_string (take 1023 content)

-- The milliseconds of a time.
abbrev pub total_ms : Timespec → ℕ
total_ms t = t.sec * 1000 + t.nsec / 1000000

sum_mod : (a b : ℕ) → (a % 2 ^ 32 + b % 2 ^ 32) % 2 ^ 32 ≡ (b + a) % 2 ^ 32
sum_mod a b = omega arith

millis_lem : (t : Timespec) → millis t ≡ total_ms t % 2 ^ 32
unfolding millis
millis_lem t = sum_mod (t.nsec / 1000000) (t.sec * 1000)

elapsed : (a b : ℕ) → a ≤ b → b - a < 2 ^ 32 → word_sub 32 (b % 2 ^ 32) (a % 2 ^ 32) ≡ b - a
elapsed a b h k = omega arith

-- On a platform whose `unsigned long` has 32 bits the difference of two readings of `millis`, the
-- later one less the earlier one, is the time in between, in whole milliseconds of the clock, also
-- when the counter has wrapped. (The clock does not run backwards, and less than 2^32 milliseconds,
-- about 49 days, lie between.)
pub millis-word_sub :
    (t u : Timespec)
    → total_ms t ≤ total_ms u
    → total_ms u - total_ms t < 2 ^ 32
    → word_sub 32 (millis u) (millis t) ≡ total_ms u - total_ms t
millis-word_sub t u h k = rw (millis_lem t, millis_lem u) (elapsed (total_ms t) (total_ms u) h k)
