-- ===== src/Led.antt =====
-- The LED class as vendor/raspi/LED.cpp and vendor/galileo/LED.cpp implement it (the two differ in
-- the GPIO set-up alone). `level` is what `digitalWrite` has last written to a pin. The thread
-- `led_doWork` is a step function; its delays are left out.
pub mod Pins
pub mod Animation
use galileo_terremoti.Base.{
  ℕ, zero, suc, ◌+◌, ◌%◌, Bool, true, false, not, ◌||◌, ◌==◌, if◌then◌else◌,
}

pub record Led : Type 0 where
  pub green_pin : ℕ
  pub yellow_pin : ℕ
  pub red_pin : ℕ
  pub green_status : Bool
  pub yellow_status : Bool
  pub red_status : Bool
  pub animation : Bool
  pub green_blink : Bool
  pub red_blink : Bool
  pub yellow_blink : Bool
  pub level : ℕ → Bool

abbrev pub write_pin : (ℕ → Bool) → ℕ → Bool → ℕ → Bool
write_pin level pin on p = if pin == p then on else level p

-- The static variables before `LED::init` fills in the pins.
unfoldable pub init : ℕ → ℕ → ℕ → Led → Led
init green yellow red s = record s { green_pin = green; yellow_pin = yellow; red_pin = red }

unfoldable pub set : Led → ℕ → Bool → Led
set s pin on =
    let level = write_pin s.level pin on in
    if pin == s.green_pin
    then record s { green_status = on; level = level }
    else if pin == s.red_pin
    then record s { red_status = on; level = level }
    else if pin == s.yellow_pin
    then record s { yellow_status = on; level = level }
    else s

unfoldable pub get : Led → ℕ → Bool
get s pin =
    if pin == s.green_pin
    then s.green_status
    else if pin == s.red_pin
    then s.red_status
    else if pin == s.yellow_pin
    then s.yellow_status
    else false

unfoldable pub green : Led → Bool → Led
unfolding set
green s on = set s s.green_pin on

unfoldable pub red : Led → Bool → Led
unfolding set
red s on = set s s.red_pin on

unfoldable pub yellow : Led → Bool → Led
unfolding set
yellow s on = set s s.yellow_pin on

-- `clearLedBlinking()`, `clearLedBlinking(pin)` and `setLedBlinking(pin)`.
unfoldable pub clear_all_blinking : Led → Led
clear_all_blinking s = record s { green_blink = false; red_blink = false; yellow_blink = false }

clear_green : Led → ℕ → Led
unfolding green
clear_green s pin = if pin == s.green_pin then green (record s { green_blink = false }) false else s

clear_red : Led → ℕ → Led
unfolding red
clear_red s pin = if pin == s.red_pin then red (record s { red_blink = false }) false else s

clear_yellow : Led → ℕ → Led
unfolding yellow
clear_yellow s pin =
    if pin == s.yellow_pin then yellow (record s { yellow_blink = false }) false else s

unfoldable pub clear_led_blinking : Led → ℕ → Led
unfolding clear_green clear_red clear_yellow
clear_led_blinking s pin = clear_yellow (clear_red (clear_green s pin) pin) pin

unfoldable pub set_led_blinking : Led → ℕ → Led
set_led_blinking s pin = record s {
  green_blink = (if pin == s.green_pin then true else s.green_blink);
  red_blink = (if pin == s.red_pin then true else s.red_blink);
  yellow_blink = (if pin == s.yellow_pin then true else s.yellow_blink);
}

unfoldable pub all_off : Led → Led
unfolding green red yellow
all_off s = yellow (red (green s false) false) false

unfoldable pub set_led_animation : Led → Bool → Led
unfolding all_off
set_led_animation s b = let s' = record s { animation = b } in if b then s' else all_off s'

-- The loop of `startupBlink`, with a number of rounds; it has ten.
unfoldable pub blink_rounds : ℕ → Led → Led
unfolding green red yellow
blink_rounds zero s = s
blink_rounds (suc n) s =
    blink_rounds n (yellow (red (green (yellow (red (green s true) true) true) false) false) false)

unfoldable pub startup_blink : Led → Led
unfolding blink_rounds
startup_blink s = blink_rounds 10 s

-- The variables of `led_doWork`, beside the shared ones.
pub record LedThread : Type 0 where
  pub led : Led
  pub i : ℕ
  pub last_blink : Bool

-- The switch on `i`.
unfoldable pub animate : ℕ → Led → Led
unfolding green red yellow
animate i s =
    if i == 1
    then yellow (red (green s false) true) false
    else if i == 2
    then yellow (red (green s false) false) true
    else yellow (red (green s true) false) false

blink_green : Bool → Led → Led
blink_green on s = if s.green_blink then green s on else s

blink_red : Bool → Led → Led
blink_red on s = if s.red_blink then red s on else s

blink_yellow : Bool → Led → Led
blink_yellow on s = if s.yellow_blink then yellow s on else s

unfoldable pub blink : Bool → Led → Led
unfolding blink_green blink_red blink_yellow green red yellow
blink on s = blink_yellow on (blink_red on (blink_green on s))

-- One round of the loop.
unfoldable pub work : LedThread → LedThread
unfolding animate blink
work t =
    if t.led.animation
    then (let i = (t.i + 1) % 3 in record t { i = i; led = animate i t.led })
    else if t.led.green_blink || t.led.red_blink || t.led.yellow_blink
    then record t { last_blink = not t.last_blink; led = blink (not t.last_blink) t.led }
    else t
