-- ===== src/Tests/Detector.antt =====
-- The detector on a few readings.
use galileo_terremoti.Base.{ℕ, ◌≡◌, refl, true, [], ◌∷◌, arith}
use galileo_terremoti.Floats.{whole}
use galileo_terremoti.Seismometer.{Reading, create, tick, record_of}
use galileo_terremoti.Seismometer.Alert.{alerts, alerts-tick}
use galileo_terremoti.Seismometer.Quiet.{AreSpaced, alert_times, alert_times-AreSpaced}
use galileo_terremoti.Seismometer.Machine.{Run, phase_of, ticks, ticks-Run}

-- Every call of the clock in a tick answers with the same time.
abbrev reading : ℕ → ℕ → Reading whole
reading time value = record {
  unix_time = 1400000000;
  total_vector = value;
  at = record {
    stat_check = time;
    stat_set = time;
    leave_check = time;
    stay_check = time;
    event_set = time;
  };
}

alerts-tick_example :
    alerts whole (tick whole 32 (reading 7000 9) (create whole true)).1
    ≡ record { ts = 1400000000; accel = 9; over_threshold = true } ∷ []
unfolding create record_of
alerts-tick_example = alerts-tick whole 32 (reading 7000 9) (create whole true)

alert_times-AreSpaced_example : AreSpaced (
    alert_times whole 32
      (reading 7000 9 ∷ reading 9000 99 ∷ reading 13000 999 ∷ [])
      (create whole true))
alert_times-AreSpaced_example =
    alert_times-AreSpaced whole 32 (reading 7000 9 ∷ reading 9000 99 ∷ reading 13000 999 ∷ []) 0
      (create whole true) (unfold create in refl)
      (
        omega arith,
        omega arith,
        omega arith,
        (omega arith, omega arith, omega arith, (omega arith, omega arith, omega arith, tt)),
      )

ticks-Run_example :
    Run whole 32
      (reading 7000 9 ∷ reading 9000 99 ∷ reading 13000 999 ∷ [])
      (phase_of whole 32 (create whole true))
      (alert_times whole 32
        (reading 7000 9 ∷ reading 9000 99 ∷ reading 13000 999 ∷ [])
        (create whole true))
      (phase_of whole 32 (
        ticks whole 32
          (reading 7000 9 ∷ reading 9000 99 ∷ reading 13000 999 ∷ [])
          (create whole true)))
unfolding create
ticks-Run_example =
    ticks-Run whole 32 (reading 7000 9 ∷ reading 9000 99 ∷ reading 13000 999 ∷ []) 0
      (create whole true) refl (λ e. omega arith)
      (
        omega arith,
        omega arith,
        omega arith,
        (omega arith, omega arith, omega arith, (omega arith, omega arith, omega arith, tt)),
      )
