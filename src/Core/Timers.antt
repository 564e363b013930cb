-- ===== src/Core/Timers.antt =====
-- When the tasks of `loop` run.
use mathlib.Core.Path.{subst}
use galileo_terremoti.Base.{
  ℕ, zero, suc, ◌+◌, ◌≤◌, ◌<◌, ◌^◌, ◌≡◌, refl, ◌∙◌, Bool, true, false, ◌&&◌, ◌||◌, Option, none,
  some, List, [], ◌∷◌, ◌++◌, arith, if◌then◌else◌, replicate, word_sub, Bool-cases, inl, inr,
  if_cases,
}
use galileo_terremoti.Core.{
  Core, Pass, Effect, led_tick, heart_beat, check_command, reboot, config_check, ntp_sync,
  seismo_tick, rotate_log, yellow, Step, and_then, due, always, check_network, check_config,
  sync_until, sync_ntp, tick_seismometer, rotate_when_due, loop, tick_interval,
}
use galileo_terremoti.Seismometer.Quiet.{word_sub_le}

-- Whether the seismometer ticked, and whether the log was rotated.
pub has_tick : List Effect → Bool
has_tick [] = false
has_tick (seismo_tick ∷ es) = true
has_tick (_ ∷ es) = has_tick es

has_tick-append : (xs ys : List Effect) → has_tick (xs ++ ys) ≡ (has_tick xs || has_tick ys)
unfolding has_tick
has_tick-append [] ys = refl
has_tick-append (seismo_tick ∷ xs) ys = refl
has_tick-append (led_tick ∷ xs) ys = has_tick-append xs ys
has_tick-append (heart_beat ∷ xs) ys = has_tick-append xs ys
has_tick-append (check_command ∷ xs) ys = has_tick-append xs ys
has_tick-append (reboot ∷ xs) ys = has_tick-append xs ys
has_tick-append (config_check ∷ xs) ys = has_tick-append xs ys
has_tick-append (ntp_sync ∷ xs) ys = has_tick-append xs ys
has_tick-append (rotate_log ∷ xs) ys = has_tick-append xs ys
has_tick-append (yellow b ∷ xs) ys = has_tick-append xs ys

-- A part of `loop` that has nothing to do with the seismometer.
abbrev Quiet : Core → Step → Type 0
Quiet c s = (s.core.seismo_last_ms ≡ c.seismo_last_ms) × (has_tick s.effects ≡ false)

and_then-Quiet :
    (c : Core) (s : Step) (f : Core → Step)
    → Quiet c s
    → ((c' : Core) → Quiet c' (f c'))
    → Quiet c (and_then s f)
and_then-Quiet c s f (e, q) h = elim (Bool-cases s.comes_back) [
  | inl on ↦
      rw on
        ((h s.core).0 ∙ e, has_tick-append s.effects (f s.core).effects ∙ rw (q, (h s.core).1) refl)
  | inr off ↦ rw off (e, q)
]

check_network-Quiet : (w : ℕ) (p : Pass) (c : Core) → Quiet c (check_network w p c)
unfolding check_network has_tick
check_network-Quiet w p c = ground arith

check_config-Quiet : (w : ℕ) (p : Pass) (c : Core) → Quiet c (check_config w p c)
unfolding check_config has_tick
check_config-Quiet w p c = ground arith

always-Quiet : (p : Pass) (c : Core) → Quiet c (always p c)
unfolding always has_tick
always-Quiet p c = ground arith

replicate-Quiet : (n : ℕ) → has_tick (replicate n ntp_sync ++ ntp_sync ∷ []) ≡ false
unfolding has_tick
replicate-Quiet zero = refl
replicate-Quiet (suc n) = replicate-Quiet n

sync_until-Quiet : (o : Option ℕ) (now : ℕ) (c : Core) → Quiet c (sync_until o now c)
unfolding sync_until has_tick
sync_until-Quiet none now c = (refl, refl)
sync_until-Quiet (some n) now c = (refl, replicate-Quiet n)

sync_ntp-Quiet : (w : ℕ) (p : Pass) (c : Core) → Quiet c (sync_ntp w p c)
unfolding sync_ntp has_tick
sync_ntp-Quiet w p c =
    if_cases (Quiet c) (due w 3600000 p.ntp_check c.ntp_last_ms) _ _
      (sync_until-Quiet p.failed_syncs p.ntp_set c) (refl, refl)

rotate_when_due-Quiet : (w : ℕ) (p : Pass) (c : Core) → Quiet c (rotate_when_due w p c)
unfolding rotate_when_due has_tick
rotate_when_due-Quiet w p c = ground arith

-- The parts of `loop` in front of the tick.
before : ℕ → Pass → Core → Step
before w p c =
    and_then (and_then (and_then (always p c) (check_network w p)) (check_config w p))
      (sync_ntp w p)

before-Quiet : (w : ℕ) (p : Pass) (c : Core) → Quiet c (before w p c)
unfolding before has_tick
before-Quiet w p c =
    and_then-Quiet c (and_then (and_then (always p c) (check_network w p)) (check_config w p))
      (sync_ntp w p)
      (and_then-Quiet c (and_then (always p c) (check_network w p)) (check_config w p)
        (and_then-Quiet c (always p c) (check_network w p) (always-Quiet p c)
          (check_network-Quiet w p))
        (check_config-Quiet w p))
      (sync_ntp-Quiet w p)

after-Quiet :
    (s : Step) (f : Core → Step)
    → ((c' : Core) → Quiet c' (f c'))
    → (has_tick (and_then s f).effects ≡ has_tick s.effects)
      × ((and_then s f).core.seismo_last_ms ≡ s.core.seismo_last_ms)
after-Quiet s f h = elim (Bool-cases s.comes_back) [
  | inl on ↦ rw on (
    has_tick-append s.effects (f s.core).effects ∙ rw (h s.core).1 (or_false (has_tick s.effects)),
    (h s.core).0,
  )
  | inr off ↦ rw off (refl, refl)
]
  where
    or_false : (b : Bool) → (b || false) ≡ b
    or_false true = refl
    or_false false = refl

tick_lem :
    (w : ℕ) (p : Pass) (c : Core)
    → (has_tick (tick_seismometer w p c).effects
        ≡ due w tick_interval p.seismo_check c.seismo_last_ms)
      × ((tick_seismometer w p c).core.seismo_last_ms ≡ (
          if due w tick_interval p.seismo_check c.seismo_last_ms
          then p.seismo_set
          else c.seismo_last_ms))
unfolding tick_seismometer has_tick
tick_lem w p c = ground arith

-- Whether a pass ticks.
abbrev ticks : ℕ → Pass → Core → Bool
ticks w p c = (before w p c).comes_back && due w tick_interval p.seismo_check c.seismo_last_ms

upto_tick :
    (w : ℕ) (p : Pass) (c : Core)
    → (has_tick (and_then (before w p c) (tick_seismometer w p)).effects ≡ ticks w p c)
      × ((and_then (before w p c) (tick_seismometer w p)).core.seismo_last_ms
          ≡ (if ticks w p c then p.seismo_set else c.seismo_last_ms))
upto_tick w p c =
    let (kept, quiet) = before-Quiet w p c in
    let (t, l) = tick_lem w p (before w p c).core in
    elim (Bool-cases (before w p c).comes_back) [
      | inl on ↦ rw on (
        has_tick-append (before w p c).effects (tick_seismometer w p (before w p c).core).effects
            ∙ rw (quiet, t, kept) refl,
        l ∙ rw kept refl,
      )
      | inr off ↦ rw off (quiet, kept)
    ]

loop_tick :
    (w : ℕ) (p : Pass) (c : Core)
    → (has_tick (loop w p c).effects ≡ ticks w p c)
      × ((loop w p c).core.seismo_last_ms
          ≡ (if ticks w p c then p.seismo_set else c.seismo_last_ms))
unfolding loop before
loop_tick w p c =
    let (t, l) =
      after-Quiet (and_then (before w p c) (tick_seismometer w p)) (rotate_when_due w p)
        (rotate_when_due-Quiet w p) in
    let (t', l') = upto_tick w p c in (t ∙ t', l ∙ l')

ticks_elapsed :
    (w : ℕ) (p : Pass) (c : Core)
    → ticks w p c ≡ true
    → tick_interval ≤ word_sub w p.seismo_check c.seismo_last_ms
ticks_elapsed w p c h = ground arith

-- The clock never runs backwards and does not wrap.
abbrev pub Forward : ℕ → ℕ → List Pass → Type 0
Forward w now [] = Unit {0}
Forward w now (p ∷ ps) =
    (now ≤ p.seismo_check)
    × (p.seismo_check ≤ p.seismo_set)
    × (p.seismo_set < 2 ^ w)
    × Forward w p.seismo_set ps

-- The times, as `loop` notes them, of the ticks of a run of passes; a pass that does not come back
-- is the last one.
pub tick_times : ℕ → List Pass → Core → List ℕ
tick_times w [] c = []
tick_times w (p ∷ ps) c =
    let later = tick_times w ps (loop w p c).core in
    (if has_tick (loop w p c).effects then p.seismo_set ∷ [] else [])
    ++ (if (loop w p c).comes_back then later else [])

-- Each time is at least one interval behind the one before it.
abbrev pub Apart : ℕ → List ℕ → Type 0
Apart since [] = Unit {0}
Apart since (t ∷ ts) = (since + tick_interval ≤ t) × Apart t ts

-- Two ticks of the seismometer are at least 50 milliseconds apart, whatever the other tasks of the
-- loop do. (The clock, as `loop` reads it around the ticks, never runs backwards and does not wrap,
-- and the last tick was not later than its first reading.)
pub tick_times-Apart :
    (w : ℕ) (ps : List Pass) (now : ℕ) (c : Core)
    → c.seismo_last_ms ≤ now
    → Forward w now ps
    → Apart c.seismo_last_ms (tick_times w ps c)
unfolding tick_times
tick_times-Apart w [] now c h f = tt
tick_times-Apart w (p ∷ ps) now c h (a, b, d, f) =
    let (t, l) = loop_tick w p c in
    let later = tick_times w ps (loop w p c).core in
    let here : (since : ℕ)
        → (loop w p c).core.seismo_last_ms ≡ since
        → since ≤ p.seismo_set
        → Apart since (if (loop w p c).comes_back then later else []) =
      λ since e le.
        if_cases (Apart since) (loop w p c).comes_back later []
          (subst (λ x. Apart x later) e
            (tick_times-Apart w ps p.seismo_set (loop w p c).core (omega (arith, e)) f))
          tt in
    elim (Bool-cases (ticks w p c)) [
      | inl on ↦
          let elapsed : tick_interval ≤ word_sub w p.seismo_check c.seismo_last_ms =
            ticks_elapsed w p c on in
          let plain = word_sub_le w p.seismo_check c.seismo_last_ms (omega arith) (omega arith) in
          rw (t, on)
            (omega (arith, elapsed, plain), here p.seismo_set (l ∙ rw on refl) (omega arith))
      | inr off ↦ rw (t, off) (here c.seismo_last_ms (l ∙ rw off refl) (omega arith))
    ]
