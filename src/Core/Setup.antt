-- ===== src/Core/Setup.antt =====
-- galileo-core.cpp: `setup`, which runs before the first pass of the loop. What the world says while
-- it runs is a `Boot`: the answers of `getInterfaceMAC`, of the server, of the time servers, and what
-- the command interface receives while the device waits for its position. `NetworkManager::init`,
-- `NTP::init` and `commandInterfaceInit` only set up a signal and sockets and are left out, as are
-- the delays and the lines written to the log. An upgrade restarts the device, unless
-- `platformUpgrade` returns, as on the desktop platforms. The flag of a running trace stands both
-- in the handler's state and in that of `checkServerConfig`: a trace runs if one of them is set.
pub mod Position
pub mod Ready
pub mod Completes
pub mod Timer
use galileo_terremoti.Base.{
  ℕ, zero, suc, ◌+◌, Bool, true, false, Option, none, some, List, [], ◌∷◌, Bytes, leb, ltb, length,
  if◌then◌else◌,
}
use galileo_terremoti.Floats.{Doubles}
use galileo_terremoti.Log.{Logger, debug, set_log_file, update_from_config}
use galileo_terremoti.Led
use galileo_terremoti.Led.{
  Led, set_led_animation, set_led_blinking, clear_led_blinking, startup_blink,
}
use galileo_terremoti.Config
use galileo_terremoti.Config.{Config, has_mac_address, has_position, set_mac_address}
use galileo_terremoti.Config.Server.{
  Settings, Parts, Verdict, useless, useful, restarting, apply_config,
}
use galileo_terremoti.Seismometer.{create}
use galileo_terremoti.Net.Ntp.{Attempt, Outcome, returned, looping, fault, sync}
use galileo_terremoti.Command.Packet.{Packet, Datagram}
use galileo_terremoti.Command.{Build, Device, Status, check_command_packet}

-- How far a part of `setup` came: it went through; `platformReboot` was called, which does not
-- return; a fault ended the program; or it still waits at the end of what the world says.
pub data Progress {ℓ} (A : Type ℓ) : Type ℓ where
  reached : A → Progress A
  rebooted crashed pending : Progress A

infixl 5 ◌>>=◌
abbrev pub ◌>>=◌ {ℓ κ} : {A : Type ℓ} {B : Type κ} → Progress A → (A → Progress B) → Progress B
reached a >>= f = f a
rebooted >>= f = rebooted
crashed >>= f = crashed
pending >>= f = pending

abbrev pub unless_fault {ℓ} : {A : Type ℓ} → Option A → Progress A
unless_fault none = crashed
unless_fault (some a) = reached a

-- The loop that asks for the interface's address, after `i` failures.
unfoldable pub get_mac : ℕ → List Bytes → Progress Bytes
get_mac i [] = pending
get_mac i (mac ∷ macs) =
    let more = get_mac (i + 1) macs in
    if leb 20 i then rebooted else if ltb 0 (length mac) then reached mac else more

-- What `getConfig` comes to in a call of `checkServerConfig` (`none` is a fault of the client), and
-- the answers of other parts.
pub record Answer : Type 0 where
  pub cfg : Option Bytes
  pub parts : Parts

module _ (D : Doubles) where
  -- One round of the wait for a position: whether `heartBeat` comes back (it reboots the device if it
  -- cannot write its file), the other parts' answers, a datagram, and the struct on the stack of the
  -- handler.
  pub record Poll : Type 0 where
    pub beat_returns : Bool
    pub status : Status D
    pub input : Option Datagram
    pub stack : Packet

  pub record Boot : Type 0 where
    -- `Utils::millis` at the beginning.
    pub now : ℕ
    pub green_pin : ℕ
    pub yellow_pin : ℕ
    pub red_pin : ℕ
    pub log_path : Bytes
    pub interface_macs : List Bytes
    -- What `loadDefault` gets from `getInterfaceMAC`.
    pub default_mac : Bytes
    pub has_accelerometer : Bool
    pub answers : List Answer
    -- The width of `time_t`.
    pub word : ℕ
    pub attempts : List Attempt
    pub polls : List Poll

  pub record Station : Type 0 where
    pub device : Device D
    pub settings : Settings D
    pub log_rotation_ms : ℕ
    -- How often `Watchdog::heartBeat` was called.
    pub beats : ℕ

  abbrev pub with_led : (Led → Led) → Device D → Device D
  with_led f d = record d { led = f d.led }

  -- The first lines, up to the first message.
  start_log : Build → Bytes → Logger → Logger
  start_log b path l =
      let l' = set_log_file l path in
      if b.is_debug then record l' { stdout_debug = true; log_level = debug } else l'

  unfoldable pub start : Build → Boot → Device D → Device D
  unfolding start_log
  start b x d = record d {
    led = set_led_animation (Led.init x.green_pin x.yellow_pin x.red_pin d.led) true;
    logger = start_log b x.log_path d.logger;
  }

  unfoldable pub choose_mac : Bytes → Config D → Config D
  choose_mac mac c = if has_mac_address D c then c else set_mac_address D c mac

  unfoldable pub load_config : Boot → Bytes → Device D → Progress (Device D)
  unfolding choose_mac
  load_config x mac d = unless_fault (Config.init D x.default_mac d.config) >>= λ c.
      reached (record d { config = choose_mac mac c })

  -- `while (!Config::checkServerConfig())`, over what the calls find; an upgrade restarts the device.
  again : (Settings D → Progress (Settings D)) → Settings D × Verdict → Progress (Settings D)
  again later (s, useful) = reached s
  again later (s, useless) = later s
  again later (s, restarting) = rebooted

  unfoldable pub get_server_config : List Answer → Settings D → Progress (Settings D)
  unfolding again
  get_server_config [] s = pending
  get_server_config (a ∷ answers) s =
      unless_fault (apply_config D a.parts a.cfg s) >>= again (get_server_config answers)

  -- The call of `NTP::sync`, whose result is not looked at.
  synced : Settings D → Outcome → Progress (Settings D)
  synced s (returned done ntp) = reached (record s { ntp = ntp })
  synced s (looping done ntp) = pending
  synced s fault = crashed

  -- One round of the wait.
  served : Option (Device D) → Progress (Device D)
  served none = crashed
  served (some d) = if d.rebooting then rebooted else reached d

  unfoldable pub poll : Build → Poll → Station → Progress Station
  unfolding served
  poll b p s =
      let handled = served (check_command_packet D b p.status p.input p.stack s.device) >>= λ d.
      reached (record s { device = d; beats = s.beats + 1 }) in
      if p.beat_returns then handled else rebooted

  -- `while (!Config::hasPosition())`, given what `hasPosition` returns.
  unfoldable pub until : (Station → Progress Station) → Station → Bool → Progress Station
  until later s true = reached s
  until later s false = later s

  unfoldable pub wait_position : Build → List Poll → Station → Progress Station
  unfolding poll until
  wait_position b [] s = pending
  wait_position b (p ∷ ps) s =
      poll b p s >>= λ t. until (wait_position b ps) t (has_position D t.device.config)

  abbrev pub on_led : (Led → Led) → Station → Station
  on_led f s = record s { device = with_led f s.device }

  -- The wait with the LEDs before and behind it.
  unfoldable pub show_wait : Build → Boot → Station → Progress Station
  unfolding wait_position
  show_wait b x s =
      wait_position b x.polls
        (on_led (λ l. set_led_blinking (set_led_animation l false) x.yellow_pin) s)
      >>= λ s. reached (on_led (λ l. set_led_animation (clear_led_blinking l x.yellow_pin) true) s)

  unfoldable pub get_position : Build → Boot → Station → Progress Station
  unfolding show_wait until
  get_position b x s = until (show_wait b x) s (has_position D s.device.config)

  -- The last lines.
  unfoldable pub finish : Station → Station
  finish s = on_led (λ l. Led.green (startup_blink (set_led_animation l false)) true) s

  update_log : Device D → Device D
  update_log d = record d { logger = update_from_config d.config.syslog d.logger }

  -- The part of `setup` behind the server's answer.
  unfoldable pub locate : Build → Boot → Station → Device D → Settings D → Progress Station
  unfolding get_position finish update_log
  locate b x s d t = get_position b x (record s { device = update_log d; settings = t }) >>= λ s.
      reached (finish s)

  unfoldable pub contact : Build → Boot → Station → Device D → Progress Station
  unfolding get_server_config synced locate
  contact b x s d = do
    t ←
        get_server_config x.answers
          (record (s.settings) { seismometer = create D x.has_accelerometer })
    t' ← synced t (sync x.word x.attempts t.ntp)
    locate b x s d t'

  unfoldable pub setup : Build → Boot → Station → Progress Station
  unfolding get_mac start load_config contact
  setup b x s = do
    mac ← get_mac 0 x.interface_macs
    d ← load_config x mac (start b x s.device)
    contact b x (record s { log_rotation_ms = x.now }) d
