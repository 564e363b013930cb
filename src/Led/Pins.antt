-- ===== src/Led/Pins.antt =====
-- The status of the three LEDs against their pins.
use galileo_terremoti.Base.{
  ℕ, ◌≡◌, ◌≢◌, Bool, true, false, not, ◌&&◌, ◌||◌, arith, ◌==◌, if◌then◌else◌, Bool-cases, inl, inr,
  if_cases, ◌+◌, ◌%◌,
}
use galileo_terremoti.Led.{
  Led, set, get, green, red, yellow, animate, blink, LedThread, work, blink_green, blink_red,
  blink_yellow,
}

abbrev pub is_led : Led → ℕ → Bool
is_led s pin = pin == s.green_pin || pin == s.red_pin || pin == s.yellow_pin

-- `LED::get` answers with what `LED::set` was last given for the same pin, if an LED is on that pin;
-- every other pin keeps its answer.
pub get-set :
    (s : Led) (pin q : ℕ) (on : Bool)
    → get (set s pin on) q ≡ (if pin == q && is_led s pin then on else get s q)
unfolding get set
get-set s pin q on = ground arith

-- Three pins, and the level of each is the status that the program keeps.
abbrev pub IsSynced : Led → Type 0
IsSynced s =
    (s.green_pin ≢ s.red_pin)
    × (s.green_pin ≢ s.yellow_pin)
    × (s.red_pin ≢ s.yellow_pin)
    × (s.level s.green_pin ≡ s.green_status)
    × (s.level s.red_pin ≡ s.red_status)
    × (s.level s.yellow_pin ≡ s.yellow_status)

set-IsSynced : (s : Led) (pin : ℕ) (on : Bool) → IsSynced s → IsSynced (set s pin on)
unfolding set
set-IsSynced s pin on v = ground arith

green-IsSynced : (s : Led) (on : Bool) → IsSynced s → IsSynced (green s on)
unfolding green
green-IsSynced s on v = set-IsSynced s s.green_pin on v

red-IsSynced : (s : Led) (on : Bool) → IsSynced s → IsSynced (red s on)
unfolding red
red-IsSynced s on v = set-IsSynced s s.red_pin on v

yellow-IsSynced : (s : Led) (on : Bool) → IsSynced s → IsSynced (yellow s on)
unfolding yellow
yellow-IsSynced s on v = set-IsSynced s s.yellow_pin on v

three-IsSynced : (s : Led) (g r y : Bool) → IsSynced s → IsSynced (yellow (red (green s g) r) y)
three-IsSynced s g r y v =
    yellow-IsSynced (red (green s g) r) y (red-IsSynced (green s g) r (green-IsSynced s g v))

animate-IsSynced : (i : ℕ) (s : Led) → IsSynced s → IsSynced (animate i s)
unfolding animate
animate-IsSynced i s v = elim (Bool-cases (i == 1)) [
  | inl a ↦ rw a (three-IsSynced s false true false v)
  | inr a ↦ elim (Bool-cases (i == 2)) [
    | inl b ↦ rw (a, b) (three-IsSynced s false false true v)
    | inr b ↦ rw (a, b) (three-IsSynced s true false false v)
  ]
]

blink_green-IsSynced : (on : Bool) (s : Led) → IsSynced s → IsSynced (blink_green on s)
unfolding blink_green
blink_green-IsSynced on s v =
    if_cases IsSynced s.green_blink (green s on) s (green-IsSynced s on v) v

blink_red-IsSynced : (on : Bool) (s : Led) → IsSynced s → IsSynced (blink_red on s)
unfolding blink_red
blink_red-IsSynced on s v = if_cases IsSynced s.red_blink (red s on) s (red-IsSynced s on v) v

blink_yellow-IsSynced : (on : Bool) (s : Led) → IsSynced s → IsSynced (blink_yellow on s)
unfolding blink_yellow
blink_yellow-IsSynced on s v =
    if_cases IsSynced s.yellow_blink (yellow s on) s (yellow-IsSynced s on v) v

blink-IsSynced : (on : Bool) (s : Led) → IsSynced s → IsSynced (blink on s)
unfolding blink
blink-IsSynced on s v =
    blink_yellow-IsSynced on (blink_red on (blink_green on s))
      (blink_red-IsSynced on (blink_green on s) (blink_green-IsSynced on s v))

-- A round of the thread keeps the levels of the three pins equal to the statuses.
-- (The three pins differ.)
pub work-IsSynced : (t : LedThread) → IsSynced t.led → IsSynced (work t).led
unfolding work
work-IsSynced t v =
    let i = (t.i + 1) % 3 in
    let still = not t.last_blink in
    let moved : LedThread = record t { i = i; led = animate i t.led } in
    let blinked : LedThread = record t { last_blink = still; led = blink still t.led } in
    if_cases (λ u. IsSynced u.led) t.led.animation moved _ (animate-IsSynced i t.led v)
      (if_cases (λ u. IsSynced u.led) (t.led.green_blink || t.led.red_blink || t.led.yellow_blink)
        blinked t (blink-IsSynced still t.led v) v)
