-- ===== src/Core/Setup/Timer.antt =====
-- The timer of the rotation, which `setup` sets.
use galileo_terremoti.Base.{
  ◌≡◌, ◌∙◌, ap, sym, inl, inr, true, false, List, [], ◌∷◌, Bool-cases, ◌+◌,
}
use galileo_terremoti.Floats.{Doubles}
use galileo_terremoti.Config.{has_position}
use galileo_terremoti.Config.Server.{Settings}
use galileo_terremoti.Command.{Build, Device, check_command_packet}
use galileo_terremoti.Seismometer.{create}
use galileo_terremoti.Net.Ntp.{sync}
use galileo_terremoti.Led.{set_led_animation, set_led_blinking, clear_led_blinking}
use galileo_terremoti.Core.Setup.{
  reached, ◌>>=◌, Poll, Boot, Station, get_mac, start, load_config, get_server_config, synced,
  served, poll, until, wait_position, on_led, show_wait, get_position, finish, update_log, locate,
  contact, setup,
}
use galileo_terremoti.Core.Setup.Ready.{reached_then, bind_reached, reached-inj, pending-ne}

module _ (D : Doubles) where
  -- The timer of a station.
  abbrev Same : Station D → Station D → Type 0
  Same s s' = s'.log_rotation_ms ≡ s.log_rotation_ms

  poll-Same : (b : Build) (p : Poll D) (s s' : Station D) → poll D b p s ≡ reached s' → Same s s'
  unfolding poll
  poll-Same b p s s' e =
      let (d, _, f) =
        bind_reached (served D (check_command_packet D b p.status p.input p.stack s.device))
          (λ d. reached (record s { device = d; beats = s.beats + 1 })) s'
          (reached_then p.beat_returns _ s' e) in
      ap (λ (t : Station D). t.log_rotation_ms) (sym (reached-inj f))

  wait_position-Same :
      (b : Build) (ps : List (Poll D)) (s s' : Station D)
      → wait_position D b ps s ≡ reached s'
      → Same s s'
  unfolding wait_position until
  wait_position-Same b [] s s' e = absurd (pending-ne e)
  wait_position-Same b (p ∷ ps) s s' e =
      let (t, f, g) =
        bind_reached (poll D b p s)
          (λ t. until D (wait_position D b ps) t (has_position D t.device.config)) s' e in
      let same = poll-Same b p s t f in
      elim (Bool-cases (has_position D t.device.config)) [
        | inl found ↦
            let here = ap (until D (wait_position D b ps) t) found in
            ap (λ (t : Station D). t.log_rotation_ms) (sym (reached-inj (sym here ∙ g))) ∙ same
        | inr missing ↦
            let on = ap (until D (wait_position D b ps) t) missing in
            wait_position-Same b ps t s' (sym on ∙ g) ∙ same
      ]

  get_position-Same :
      (b : Build) (x : Boot D) (s s' : Station D) → get_position D b x s ≡ reached s' → Same s s'
  unfolding get_position until show_wait
  get_position-Same b x s s' e = elim (Bool-cases (has_position D s.device.config)) [
    | inl found ↦
        let here = ap (until D (show_wait D b x) s) found in
        ap (λ (t : Station D). t.log_rotation_ms) (sym (reached-inj (sym here ∙ e)))
    | inr missing ↦
        let begun = on_led D (λ l. set_led_blinking (set_led_animation l false) x.yellow_pin) s in
        let (t, f, g) =
          bind_reached (wait_position D b x.polls begun)
            (λ s.
              reached
                (on_led D (λ l. set_led_animation (clear_led_blinking l x.yellow_pin) true) s))
            s' (sym (ap (until D (show_wait D b x) s) missing) ∙ e) in
        ap (λ (t : Station D). t.log_rotation_ms) (sym (reached-inj g))
        ∙ wait_position-Same b x.polls begun t f
  ]

  locate-Same :
      (b : Build) (x : Boot D) (s s' : Station D) (d : Device D) (t : Settings D)
      → locate D b x s d t ≡ reached s'
      → Same s s'
  unfolding locate finish
  locate-Same b x s s' d t e =
      let begun : Station D = record s { device = update_log D d; settings = t } in
      let (s'', f, g) = bind_reached (get_position D b x begun) (λ s. reached (finish D s)) s' e in
      ap (λ (t : Station D). t.log_rotation_ms) (sym (reached-inj g))
      ∙ get_position-Same b x begun s'' f

  contact-Same :
      (b : Build) (x : Boot D) (s s' : Station D) (d : Device D)
      → contact D b x s d ≡ reached s'
      → Same s s'
  unfolding contact
  contact-Same b x s s' d e =
      let answered =
        get_server_config D x.answers
          (record (s.settings) { seismometer = create D x.has_accelerometer }) in
      let (t, _, f) =
        bind_reached answered (λ t. synced D t (sync x.word x.attempts t.ntp) >>= locate D b x s d)
          s' e in
      let (t', _, g) =
        bind_reached (synced D t (sync x.word x.attempts t.ntp)) (locate D b x s d) s' f in
      locate-Same b x s s' d t' g

  -- The timer holds the time of the start.
  pub setup-log_rotation_ms :
      (b : Build) (x : Boot D) (s s' : Station D)
      → setup D b x s ≡ reached s'
      → s'.log_rotation_ms ≡ x.now
  unfolding setup
  setup-log_rotation_ms b x s s' e =
      let begun : Station D = record s { log_rotation_ms = x.now } in
      let (mac, _, f) =
        bind_reached (get_mac 0 x.interface_macs)
          (λ mac. load_config D x mac (start D b x s.device) >>= contact D b x begun) s' e in
      let (d, _, g) =
        bind_reached (load_config D x mac (start D b x s.device)) (contact D b x begun) s' f in
      contact-Same b x begun s' d g
