-- ===== src/Core/Program/FirstDay.antt =====
-- The rotation of the log on the first day.
use mathlib.Core.Path.{subst}
use galileo_terremoti.Base.{
  ℕ, zero, suc, ◌+◌, ◌≤◌, ◌<◌, ◌^◌, ◌≡◌, ◌∙◌, refl, ap, sym, inl, inr, false, Option, none, some,
  List, [], ◌∷◌, ◌++◌, arith, if_cases, Bool-cases, replicate,
}
use galileo_terremoti.Floats.{Doubles}
use galileo_terremoti.Command.{Build}
use galileo_terremoti.Seismometer.Quiet.{word_sub_le}
use galileo_terremoti.Core.{
  Core, Pass, Effect, led_tick, heart_beat, check_command, reboot, config_check, ntp_sync,
  seismo_tick, rotate_log, yellow, Step, and_then, due, always, check_network, check_config,
  sync_until, sync_ntp, tick_seismometer, rotate_when_due, loop, rotation_interval, ntp_interval,
}
use galileo_terremoti.Core.Rotation.{has_rotation}
use galileo_terremoti.Core.Setup.{reached, Boot, Station, setup}
use galileo_terremoti.Core.Setup.Ready.{bind_reached, reached-inj}
use galileo_terremoti.Core.Setup.Timer.{setup-log_rotation_ms}
use galileo_terremoti.Core.Program.{run, begin, main}

has_rotation-none :
    (xs ys : List Effect)
    → has_rotation xs ≡ false
    → has_rotation ys ≡ false
    → has_rotation (xs ++ ys) ≡ false
unfolding has_rotation
has_rotation-none [] ys h k = k
has_rotation-none (rotate_log ∷ xs) ys h k = cc
has_rotation-none (led_tick ∷ xs) ys h k = has_rotation-none xs ys h k
has_rotation-none (heart_beat ∷ xs) ys h k = has_rotation-none xs ys h k
has_rotation-none (check_command ∷ xs) ys h k = has_rotation-none xs ys h k
has_rotation-none (reboot ∷ xs) ys h k = has_rotation-none xs ys h k
has_rotation-none (config_check ∷ xs) ys h k = has_rotation-none xs ys h k
has_rotation-none (ntp_sync ∷ xs) ys h k = has_rotation-none xs ys h k
has_rotation-none (seismo_tick ∷ xs) ys h k = has_rotation-none xs ys h k
has_rotation-none (yellow b ∷ xs) ys h k = has_rotation-none xs ys h k

-- A part of `loop` that does not rotate the log and leaves the time of the last rotation alone.
abbrev Calm : Core → Step → Type 0
Calm c s = (s.core.log_rotation_ms ≡ c.log_rotation_ms) × (has_rotation s.effects ≡ false)

and_then-Calm :
    (c : Core) (s : Step) (f : Core → Step)
    → Calm c s
    → ((c' : Core) → c'.log_rotation_ms ≡ c.log_rotation_ms → Calm c' (f c'))
    → Calm c (and_then s f)
and_then-Calm c s f (e, q) h = elim (Bool-cases s.comes_back) [
  | inl on ↦
      let (same, none_there) = h s.core e in
      rw on (same ∙ e, has_rotation-none s.effects (f s.core).effects q none_there)
  | inr off ↦ rw off (e, q)
]

check_network-Calm : (w : ℕ) (p : Pass) (c : Core) → Calm c (check_network w p c)
unfolding check_network has_rotation
check_network-Calm w p c = ground arith

check_config-Calm : (w : ℕ) (p : Pass) (c : Core) → Calm c (check_config w p c)
unfolding check_config has_rotation
check_config-Calm w p c = ground arith

always-Calm : (p : Pass) (c : Core) → Calm c (always p c)
unfolding always has_rotation
always-Calm p c = ground arith

replicate-Calm : (n : ℕ) → has_rotation (replicate n ntp_sync ++ ntp_sync ∷ []) ≡ false
unfolding has_rotation
replicate-Calm zero = refl
replicate-Calm (suc n) = replicate-Calm n

sync_until-Calm : (o : Option ℕ) (now : ℕ) (c : Core) → Calm c (sync_until o now c)
unfolding sync_until has_rotation
sync_until-Calm none now c = (refl, refl)
sync_until-Calm (some n) now c = (refl, replicate-Calm n)

sync_ntp-Calm : (w : ℕ) (p : Pass) (c : Core) → Calm c (sync_ntp w p c)
unfolding sync_ntp has_rotation
sync_ntp-Calm w p c =
    if_cases (Calm c) (due w ntp_interval p.ntp_check c.ntp_last_ms) _ _
      (sync_until-Calm p.failed_syncs p.ntp_set c) (refl, refl)

tick_seismometer-Calm : (w : ℕ) (p : Pass) (c : Core) → Calm c (tick_seismometer w p c)
unfolding tick_seismometer has_rotation
tick_seismometer-Calm w p c = ground arith

rotate_when_due-Calm :
    (w : ℕ) (p : Pass) (c : Core)
    → due w rotation_interval p.rotate_check c.log_rotation_ms ≡ false
    → Calm c (rotate_when_due w p c)
unfolding rotate_when_due has_rotation
rotate_when_due-Calm w p c h = rw h (refl, refl)

loop-Calm :
    (w : ℕ) (p : Pass) (c : Core)
    → due w rotation_interval p.rotate_check c.log_rotation_ms ≡ false
    → Calm c (loop w p c)
unfolding loop
loop-Calm w p c h =
    let s1 = and_then (always p c) (check_network w p) in
    let s2 = and_then s1 (check_config w p) in
    let s3 = and_then s2 (sync_ntp w p) in
    let s4 = and_then s3 (tick_seismometer w p) in
    and_then-Calm c s4 (rotate_when_due w p)
      (and_then-Calm c s3 (tick_seismometer w p)
        (and_then-Calm c s2 (sync_ntp w p)
          (and_then-Calm c s1 (check_config w p)
            (and_then-Calm c (always p c) (check_network w p) (always-Calm p c)
              (λ c' e. check_network-Calm w p c'))
            (λ c' e. check_config-Calm w p c'))
          (λ c' e. sync_ntp-Calm w p c'))
        (λ c' e. tick_seismometer-Calm w p c'))
      (λ c' e. rotate_when_due-Calm w p c' (rw e h))

-- Passes on the first day behind that time.
abbrev pub AreEarly : ℕ → ℕ → List Pass → Type 0
AreEarly w since [] = Unit {0}
AreEarly w since (p ∷ ps) =
    (since ≤ p.rotate_check)
    × (p.rotate_check < since + rotation_interval)
    × (p.rotate_check < 2 ^ w)
    × AreEarly w since ps

run-early :
    (w : ℕ) (ps : List Pass) (c : Core)
    → AreEarly w c.log_rotation_ms ps
    → has_rotation (run w ps c) ≡ false
unfolding run
run-early w [] c h = unfold has_rotation in refl
run-early w (p ∷ ps) c (since, soon, word, h) =
    let plain = word_sub_le w p.rotate_check c.log_rotation_ms since word in
    let waits : due w rotation_interval p.rotate_check c.log_rotation_ms ≡ false =
      ground (arith, plain) in
    let (same, none_there) = loop-Calm w p c waits in
    let later = run w ps (loop w p c).core in
    has_rotation-none (loop w p c).effects _ none_there (
      if_cases (λ es. has_rotation es ≡ false) (loop w p c).comes_back later []
        (run-early w ps (loop w p c).core (subst (λ t. AreEarly w t ps) (sym same) h))
        (unfold has_rotation in refl))

-- On the first day after the start of the program the loop does not rotate the log, however the
-- start went and whatever the passes bring. (The start has come to its end; the clock, as the passes
-- read it for this, is not behind the start and does not wrap.)
pub main-FirstDay :
    (D : Doubles) (w : ℕ) (b : Build) (x : Boot D) (ps : List Pass) (s : Station D)
    (es : List Effect)
    → AreEarly w x.now ps
    → main D w b x ps s ≡ reached es
    → has_rotation es ≡ false
unfolding main
main-FirstDay D w b x ps s es h e =
    let (s', up, f) = bind_reached (setup D b x s) (λ s. reached (run w ps (begin D s))) es e in
    let timer = setup-log_rotation_ms D b x s s' up in
    ap has_rotation (sym (reached-inj f))
    ∙ run-early w ps (begin D s') (subst (λ t. AreEarly w t ps) (sym timer) h)
