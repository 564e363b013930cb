-- ===== src/Core/Setup/Ready.antt =====
-- What `setup` leaves behind, and its first loop.
use galileo_terremoti.Base.{
  ℕ, zero, suc, ◌+◌, ◌≤◌, ◌<◌, ◌≡◌, ◌∙◌, refl, ap, sym, Bool, true, false, Option, none, some, List,
  [], ◌∷◌, ◌++◌, Bytes, arith, leb, ltb, length, replicate, if◌then◌else◌, Bool-cases, inl, inr,
}
use mathlib.Core.Path.{subst}
use galileo_terremoti.Floats.{Doubles}
use galileo_terremoti.Led.{
  Led, set, green, red, yellow, all_off, blink_rounds, set_led_animation, startup_blink,
}
use galileo_terremoti.Config.{Config, has_mac_address, has_position, set_mac_address}
use galileo_terremoti.Command.{Build, Device}
use galileo_terremoti.Core.Setup.Position.{check_command_packet-Owns}
use galileo_terremoti.Core.Setup.{
  Progress, reached, rebooted, crashed, pending, ◌>>=◌, get_mac, Poll, Boot, Station, poll,
  load_config, wait_position, get_position, finish, setup, choose_mac, unless_fault, served, until,
  start, get_server_config, synced, show_wait, on_led, set_led_blinking, locate, contact,
  update_log, create, Settings, sync,
}

-- The loop that asks for the interface's address takes the first one that there is, if fewer than 20
-- answers before it were empty; otherwise the device reboots. (The address is not empty.)
pub get_mac_lem :
    (failures : ℕ) (mac : Bytes) (later : List Bytes)
    → 0 < length mac
    → get_mac 0 (replicate failures [] ++ (mac ∷ later))
      ≡ (if ltb failures 20 then reached mac else rebooted)
unfolding get_mac
get_mac_lem failures mac later h =
    let count : 0 + failures ≡ failures = omega arith in rw count at (from 0 failures (omega arith))
  where
    from :
        (i n : ℕ)
        → i ≤ 20
        → get_mac i (replicate n [] ++ (mac ∷ later))
          ≡ (if ltb (i + n) 20 then reached mac else rebooted)
    from i zero b = ground (arith, h)
    from i (suc n) b = elim (Bool-cases (leb 20 i)) [
      | inl late ↦ ground (arith, late)
      | inr early ↦
          let room : i + 1 ≤ 20 = ground arith in
          let count : i + 1 + n ≡ i + suc n = omega arith in
          rw early (rw count at (from (i + 1) n room))
    ]

rebooted-ne {ℓ} : {A : Type ℓ} {a : A} → Progress.rebooted ≡ reached a → ⊥
rebooted-ne e = cc

crashed-ne {ℓ} : {A : Type ℓ} {a : A} → crashed ≡ reached a → ⊥
crashed-ne e = cc

pub pending-ne {ℓ} : {A : Type ℓ} {a : A} → pending ≡ reached a → ⊥
pending-ne e = cc

set_kept : (l : Led) (pin : ℕ) (on : Bool) → (set l pin on).animation ≡ l.animation
unfolding set
set_kept l pin on = ground arith

all_kept : (l : Led) (on : Bool) → (yellow (red (green l on) on) on).animation ≡ l.animation
unfolding green red yellow
all_kept l on =
    let g = green l on in
    let r = red g on in
    set_kept r r.yellow_pin on ∙ set_kept g g.red_pin on ∙ set_kept l l.green_pin on

blink_rounds_kept : (n : ℕ) (l : Led) → (blink_rounds n l).animation ≡ l.animation
unfolding blink_rounds
blink_rounds_kept zero l = refl
blink_rounds_kept (suc n) l =
    let lit = yellow (red (green l true) true) true in
    blink_rounds_kept n (yellow (red (green lit false) false) false)
    ∙ all_kept lit false
    ∙ all_kept l true

animation_off : (l : Led) → (set_led_animation l false).animation ≡ false
unfolding set_led_animation all_off
animation_off l = all_kept (record l { animation = false }) false

green_kept : (l : Led) → (green l true).animation ≡ l.animation
unfolding green
green_kept l = set_kept l l.green_pin true

green-lit : (l : Led) → (green l true).green_status ≡ true
unfolding green set
green-lit l = ground arith

-- A part that does not end in a reboot.
pub reached_then {ℓ} :
    {A : Type ℓ} (b : Bool) (o : Progress A) (a : A)
    → (if b then o else rebooted) ≡ reached a
    → o ≡ reached a
reached_then true o a e = e
reached_then false o a e = absurd (rebooted-ne e)

-- A part that went through, went through its first step.
pub bind_reached {ℓ κ} :
    {A : Type ℓ} {B : Type κ} (o : Progress A) (f : A → Progress B) (b : B)
    → (o >>= f) ≡ reached b
    → (a : A) × (o ≡ reached a) × (f a ≡ reached b)
bind_reached (reached a) f b e = (a, refl, e)
bind_reached rebooted f b e = absurd (rebooted-ne e)
bind_reached crashed f b e = absurd (crashed-ne e)
bind_reached pending f b e = absurd (pending-ne e)

get_mac_some :
    (i : ℕ) (macs : List Bytes) (mac : Bytes) → get_mac i macs ≡ reached mac → 0 < length mac
unfolding get_mac
get_mac_some i [] mac e = absurd (pending-ne e)
get_mac_some i (m ∷ macs) mac e = ground (arith, get_mac_some (i + 1) macs mac)

pub reached-inj {ℓ} : {A : Type ℓ} {a b : A} → reached a ≡ reached b → a ≡ b
reached-inj e = cc

module _ (D : Doubles) where
  choose_mac-has_mac :
      (mac : Bytes) (c : Config D) → 0 < length mac → has_mac_address D (choose_mac D mac c) ≡ true
  unfolding choose_mac has_mac_address set_mac_address
  choose_mac-has_mac mac c h = ground (arith, h)

  loaded_mac :
      (mac : Bytes) (d d' : Device D) (o : Option (Config D))
      → 0 < length mac
      → (unless_fault o >>= λ c. reached (record d { config = choose_mac D mac c })) ≡ reached d'
      → has_mac_address D d'.config ≡ true
  loaded_mac mac d d' none h e = absurd (crashed-ne e)
  loaded_mac mac d d' (some c) h e =
      ap (λ x. has_mac_address D x.config) (sym (reached-inj e)) ∙ choose_mac-has_mac mac c h

  load_config_mac :
      (x : Boot D) (mac : Bytes) (d d' : Device D)
      → 0 < length mac
      → load_config D x mac d ≡ reached d'
      → has_mac_address D d'.config ≡ true
  unfolding load_config
  load_config_mac x mac d d' h e = loaded_mac mac d d' _ h e

  served_poll :
      (s s' : Station D) (o : Option (Device D))
      → (served D o >>= λ d. reached (record s { device = d; beats = s.beats + 1 })) ≡ reached s'
      → (d : Device D) × (o ≡ some d) × (s'.device.config ≡ d.config)
  unfolding served
  served_poll s s' none e = absurd (crashed-ne e)
  served_poll s s' (some d) e = elim (Bool-cases d.rebooting) [
    | inl gone ↦ absurd (rebooted-ne (rw gone at e))
    | inr here ↦ (d, refl, ap (λ x. x.device.config) (sym (reached-inj (rw here at e))))
  ]

  poll_kept :
      (b : Build) (p : Poll D) (s s' : Station D)
      → poll D b p s ≡ reached s'
      → s'.device.config.mac_address ≡ s.device.config.mac_address
  unfolding poll
  poll_kept b p s s' e =
      let (d, f, g) = served_poll s s' _ (reached_then p.beat_returns _ s' e) in
      ap (λ c. c.mac_address) g
      ∙ check_command_packet-Owns D b p.status p.input s.device.config.mac_address p.stack s.device
          d refl f

  -- What holds when the wait is over.
  wait_position_lem :
      (b : Build) (ps : List (Poll D)) (s s' : Station D)
      → wait_position D b ps s ≡ reached s'
      → (has_position D s'.device.config ≡ true)
        × (s'.device.config.mac_address ≡ s.device.config.mac_address)
  unfolding wait_position until
  wait_position_lem b [] s s' e = absurd (pending-ne e)
  wait_position_lem b (p ∷ ps) s s' e =
      let (t, f, g) = bind_reached (poll D b p s) _ s' e in
      let same = poll_kept b p s t f in
      elim (Bool-cases (has_position D t.device.config)) [
        | inl found ↦
            let last = reached-inj (rw found at g) in
            (
              ap (λ x. has_position D x.device.config) (sym last) ∙ found,
              ap (λ x. x.device.config.mac_address) (sym last) ∙ same,
            )
        | inr later ↦ let (h, k) = wait_position_lem b ps t s' (rw later at g) in (h, k ∙ same)
      ]

  get_position_lem :
      (b : Build) (x : Boot D) (s s' : Station D)
      → get_position D b x s ≡ reached s'
      → (has_position D s'.device.config ≡ true)
        × (s'.device.config.mac_address ≡ s.device.config.mac_address)
  unfolding get_position until show_wait
  get_position_lem b x s s' e = elim (Bool-cases (has_position D s.device.config)) [
    | inl found ↦
        let last = reached-inj (rw found at e) in
        (
          ap (λ x. has_position D x.device.config) (sym last) ∙ found,
          ap (λ x. x.device.config.mac_address) (sym last),
        )
    | inr later ↦
        let (t, f, g) =
          bind_reached
            (wait_position D b x.polls
              (on_led D (λ l. set_led_blinking (set_led_animation l false) x.yellow_pin) s))
            _ s' (rw later at e) in
        let (h, k) = wait_position_lem b x.polls _ t f in
        let last = reached-inj g in
        (
          ap (λ x. has_position D x.device.config) (sym last) ∙ h,
          ap (λ x. x.device.config.mac_address) (sym last) ∙ k,
        )
  ]

  -- The device that `setup` leaves: it knows its address and its position, the green LED is on and
  -- the animation is off.
  pub record IsReady (s : Station D) : Type 0 where
    pub has_mac : has_mac_address D s.device.config ≡ true
    pub has_place : has_position D s.device.config ≡ true
    pub shows_green : s.device.led.green_status ≡ true
    pub is_still : s.device.led.animation ≡ false

  finish-IsReady :
      (s : Station D)
      → has_mac_address D s.device.config ≡ true
      → has_position D s.device.config ≡ true
      → IsReady (finish D s)
  unfolding finish startup_blink
  finish-IsReady s h k = record {
    has_mac = h;
    has_place = k;
    shows_green = green-lit (startup_blink (set_led_animation s.device.led false));
    is_still =
        green_kept (startup_blink (set_led_animation s.device.led false))
        ∙ blink_rounds_kept 10 (set_led_animation s.device.led false)
        ∙ animation_off s.device.led;
  }

  locate-IsReady :
      (b : Build) (x : Boot D) (s s' : Station D) (d : Device D) (t : Settings D)
      → has_mac_address D d.config ≡ true
      → locate D b x s d t ≡ reached s'
      → IsReady s'
  unfolding locate has_mac_address update_log
  locate-IsReady b x s s' d t own e =
      let placed = get_position D b x (record s { device = update_log D d; settings = t }) in
      let (s'', p, f) = bind_reached placed (λ s. reached (finish D s)) s' e in
      let (place, same) = get_position_lem b x _ s'' p in
      subst IsReady (reached-inj f)
        (finish-IsReady s'' (ap (λ m. ltb 0 (length m)) same ∙ own) place)

  contact-IsReady :
      (b : Build) (x : Boot D) (s s' : Station D) (d : Device D)
      → has_mac_address D d.config ≡ true
      → contact D b x s d ≡ reached s'
      → IsReady s'
  unfolding contact
  contact-IsReady b x s s' d own e =
      let answered =
        get_server_config D x.answers
          (record (s.settings) { seismometer = create D x.has_accelerometer }) in
      let (t, _, f) =
        bind_reached answered (λ t. synced D t (sync x.word x.attempts t.ntp) >>= locate D b x s d)
          s' e in
      let (t', _, g) =
        bind_reached (synced D t (sync x.word x.attempts t.ntp)) (locate D b x s d) s' f in
      locate-IsReady b x s s' d t' own g

  -- If `setup` comes to its end, then whatever the world said on the way, the device knows its own
  -- address and its position, the green LED is on and the LEDs' animation is off.
  pub setup-IsReady :
      (b : Build) (x : Boot D) (s s' : Station D) → setup D b x s ≡ reached s' → IsReady s'
  unfolding setup
  setup-IsReady b x s s' e =
      let begun : Station D = record s { log_rotation_ms = x.now } in
      let (mac, m, f) =
        bind_reached (get_mac 0 x.interface_macs)
          (λ mac. load_config D x mac (start D b x s.device) >>= contact D b x begun) s' e in
      let (d, l, g) =
        bind_reached (load_config D x mac (start D b x s.device)) (contact D b x begun) s' f in
      let own = load_config_mac x mac _ d (get_mac_some 0 x.interface_macs mac m) l in
      contact-IsReady b x begun s' d own g
