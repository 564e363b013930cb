-- ===== src/Core/Rotation.antt =====
-- When `loop` rotates the log.
use mathlib.Core.Path.{subst, sym}
use galileo_terremoti.Base.{
  ℕ, ◌+◌, ◌≤◌, ◌<◌, ◌^◌, ◌≡◌, refl, ◌∙◌, Bool, true, false, some, List, [], ◌∷◌, ◌++◌, arith,
  if_cases,
}
use galileo_terremoti.Core.{
  Core, Pass, Effect, led_tick, heart_beat, check_command, reboot, config_check, ntp_sync,
  seismo_tick, rotate_log, yellow, Step, and_then, due, always, check_network, check_config,
  sync_until, sync_ntp, tick_seismometer, rotate_when_due, loop, rotation_interval, ntp_interval,
}
use galileo_terremoti.Seismometer.Quiet.{word_sub_le}

unfoldable pub has_rotation : List Effect → Bool
has_rotation [] = false
has_rotation (rotate_log ∷ es) = true
has_rotation (_ ∷ es) = has_rotation es

has_rotation-append :
    (xs ys : List Effect) → has_rotation ys ≡ true → has_rotation (xs ++ ys) ≡ true
unfolding has_rotation
has_rotation-append [] ys h = h
has_rotation-append (rotate_log ∷ xs) ys h = refl
has_rotation-append (led_tick ∷ xs) ys h = has_rotation-append xs ys h
has_rotation-append (heart_beat ∷ xs) ys h = has_rotation-append xs ys h
has_rotation-append (check_command ∷ xs) ys h = has_rotation-append xs ys h
has_rotation-append (reboot ∷ xs) ys h = has_rotation-append xs ys h
has_rotation-append (config_check ∷ xs) ys h = has_rotation-append xs ys h
has_rotation-append (ntp_sync ∷ xs) ys h = has_rotation-append xs ys h
has_rotation-append (seismo_tick ∷ xs) ys h = has_rotation-append xs ys h
has_rotation-append (yellow b ∷ xs) ys h = has_rotation-append xs ys h

-- A part that comes back and leaves the time of the last rotation alone.
abbrev Steady : Core → Step → Type 0
Steady c s = (s.core.log_rotation_ms ≡ c.log_rotation_ms) × (s.comes_back ≡ true)

and_then-Steady :
    (c : Core) (s : Step) (f : Core → Step)
    → Steady c s
    → ((c' : Core) → Steady c' (f c'))
    → Steady c (and_then s f)
and_then-Steady c s f (e, on) h = rw on ((h s.core).0 ∙ e, (h s.core).1)

check_network-Steady :
    (w : ℕ) (p : Pass) → p.has_mac ≡ true → (c : Core) → Steady c (check_network w p c)
unfolding check_network
check_network-Steady w p m c = ground (arith, m)

check_config-Steady :
    (w : ℕ) (p : Pass) → p.config_returns ≡ true → (c : Core) → Steady c (check_config w p c)
unfolding check_config
check_config-Steady w p r c = ground (arith, r)

always-Steady :
    (p : Pass)
    → p.beat_returns ≡ true
    → p.command_returns ≡ true
    → (c : Core) → Steady c (always p c)
unfolding always
always-Steady p b r c = ground (arith, b, r)

sync_ntp-Steady :
    (w : ℕ) (p : Pass) (n : ℕ) → p.failed_syncs ≡ some n → (c : Core) → Steady c (sync_ntp w p c)
unfolding sync_ntp sync_until
sync_ntp-Steady w p n e c = rw e (
    if_cases (Steady c) (due w ntp_interval p.ntp_check c.ntp_last_ms) _ _ (refl, refl)
      (refl, refl))

tick_seismometer-Steady :
    (w : ℕ) (p : Pass) → p.tick_returns ≡ true → (c : Core) → Steady c (tick_seismometer w p c)
unfolding tick_seismometer
tick_seismometer-Steady w p r c = ground (arith, r)

-- Every call of another part comes back, the network is up, and a time server answers at last.
pub record IsGood (p : Pass) : Type 0 where
  pub mac_there : p.has_mac ≡ true
  pub beat_back : p.beat_returns ≡ true
  pub command_back : p.command_returns ≡ true
  pub config_back : p.config_returns ≡ true
  pub tick_back : p.tick_returns ≡ true
  pub failed : ℕ
  pub syncs : p.failed_syncs ≡ some failed

-- The parts of `loop` in front of the rotation.
upto_rotation : ℕ → Pass → Core → Step
upto_rotation w p c =
    and_then
      (and_then (and_then (and_then (always p c) (check_network w p)) (check_config w p))
        (sync_ntp w p))
      (tick_seismometer w p)

upto_rotation-Steady : (w : ℕ) (p : Pass) (c : Core) → IsGood p → Steady c (upto_rotation w p c)
unfolding upto_rotation
upto_rotation-Steady w p c g =
    let s1 = and_then (always p c) (check_network w p) in
    let s2 = and_then s1 (check_config w p) in
    let s3 = and_then s2 (sync_ntp w p) in
    and_then-Steady c s3 (tick_seismometer w p)
      (and_then-Steady c s2 (sync_ntp w p)
        (and_then-Steady c s1 (check_config w p)
          (and_then-Steady c (always p c) (check_network w p)
            (always-Steady p g.beat_back g.command_back c) (check_network-Steady w p g.mac_there))
          (check_config-Steady w p g.config_back))
        (sync_ntp-Steady w p g.failed g.syncs))
      (tick_seismometer-Steady w p g.tick_back)

rotate_when_due_lem :
    (w : ℕ) (p : Pass) (c : Core)
    → due w rotation_interval p.rotate_check c.log_rotation_ms ≡ true
    → (has_rotation (rotate_when_due w p c).effects ≡ true)
      × ((rotate_when_due w p c).core.log_rotation_ms ≡ c.log_rotation_ms)
unfolding rotate_when_due has_rotation
rotate_when_due_lem w p c h = rw h (refl, refl)

loop_rotates :
    (w : ℕ) (p : Pass) (c : Core)
    → IsGood p
    → due w rotation_interval p.rotate_check c.log_rotation_ms ≡ true
    → (has_rotation (loop w p c).effects ≡ true)
      × ((loop w p c).core.log_rotation_ms ≡ c.log_rotation_ms)
unfolding loop upto_rotation
loop_rotates w p c g h =
    let s = upto_rotation w p c in
    let (kept, on) = upto_rotation-Steady w p c g in
    let (r, same) = rotate_when_due_lem w p s.core (rw kept h) in
    rw on (has_rotation-append s.effects (rotate_when_due w p s.core).effects r, same ∙ kept)

-- Passes in which the network is up, a day after the last rotation.
abbrev pub AreLate : ℕ → ℕ → List Pass → Type 0
AreLate w since [] = Unit {0}
AreLate w since (p ∷ ps) =
    IsGood p
    × (since + rotation_interval ≤ p.rotate_check)
    × (p.rotate_check < 2 ^ w)
    × AreLate w since ps

-- Every pass rotates the log.
abbrev pub RotateAlways : ℕ → List Pass → Core → Type 0
RotateAlways w [] c = Unit {0}
RotateAlways w (p ∷ ps) c =
    (has_rotation (loop w p c).effects ≡ true) × RotateAlways w ps (loop w p c).core

-- From a day after the start on, every single pass that gets as far as the rotation rotates the log:
-- one in which no other part ends in a fault, reboots the device or installs an upgrade, the network
-- is up and a time server answers at last. (The clock does not wrap.)
pub loop-RotateAlways :
    (w : ℕ) (ps : List Pass) (c : Core) → AreLate w c.log_rotation_ms ps → RotateAlways w ps c
loop-RotateAlways w [] c h = tt
loop-RotateAlways w (p ∷ ps) c (g, late, word, h) =
    let plain = word_sub_le w p.rotate_check c.log_rotation_ms (omega arith) word in
    let elapsed : due w rotation_interval p.rotate_check c.log_rotation_ms ≡ true =
      ground (arith, plain) in
    let (r, same) = loop_rotates w p c g elapsed in
    (r, loop-RotateAlways w ps (loop w p c).core (subst (λ x. AreLate w x ps) (sym same) h))
