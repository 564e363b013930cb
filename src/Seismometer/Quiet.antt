-- ===== src/Seismometer/Quiet.antt =====
-- The quiet time of five seconds between two alerts.
use galileo_terremoti.Base.{
  ℕ, ◌+◌, ◌-◌, ◌%◌, ◌^◌, ◌≤◌, ◌<◌, ◌≡◌, ◌⊎◌, inl, inr, Bool, true, false, not, ◌&&◌, List, [], ◌∷◌,
  ◌++◌, arith, word_sub, leb, if◌then◌else◌, Bool-cases,
}
use galileo_terremoti.Floats.{Doubles}
use galileo_terremoti.Seismometer.{
  Millis, Record, Seismometer, Reading, tick, record_of, check_event, count_probe,
  add_value_to_avg_var,
}
use galileo_terremoti.Seismometer.Alert.{
  alerts, alerts-tick, listening, add_value_lem, count_probe_lem,
}

-- A difference of two times with no wrap between them.
pub word_sub_le : (w a b : ℕ) → b ≤ a → a < 2 ^ w → word_sub w a b ≡ a - b
word_sub_le w a b h k =
    let n = 2 ^ w in
    let e : a + n - b ≡ (a - b) + n = omega arith in rw e (mod_wrap (a - b) n (omega arith))
  where
    mod_wrap : (x n : ℕ) → x < n → (x + n) % n ≡ x
    mod_wrap x n h = grind arith

-- Each time is at least five seconds behind the one before it.
abbrev pub Spaced : ℕ → List ℕ → Type 0
Spaced since [] = Unit {0}
Spaced since (t ∷ ts) = (since + 5000 ≤ t) × Spaced t ts

abbrev pub AreSpaced : List ℕ → Type 0
AreSpaced [] = Unit {0}
AreSpaced (t ∷ ts) = Spaced t ts

module _ (D : Doubles) (w : ℕ) where
  open D use {lt}

  -- A clock that never runs backwards, from a time on, and that does not wrap.
  abbrev pub Forward : ℕ → List (Reading D) → Type 0
  Forward now [] = Unit {0}
  Forward now (r ∷ rs) =
      (now ≤ r.at.leave_check)
      × (r.at.leave_check ≤ r.at.event_set)
      × (r.at.event_set < 2 ^ w)
      × Forward r.at.event_set rs

  abbrev pub fires : Reading D → Seismometer D → Bool
  fires r s = s.present && lt s.quake_threshold r.total_vector && listening D w r.at s

  abbrev pub times_of : Reading D → List (Record D) → List ℕ
  times_of r [] = []
  times_of r (a ∷ as') = r.at.event_set ∷ []

  -- The times, as the detector notes them, of the alerts of a run of ticks.
  unfoldable pub alert_times : List (Reading D) → Seismometer D → List ℕ
  alert_times [] s = []
  alert_times (r ∷ rs) s = times_of r (alerts D (tick D w r s).1) ++ alert_times rs (tick D w r s).0

  -- The two fields that the quiet time rests on.
  abbrev pub still_in_event : Reading D → Seismometer D → Bool
  still_in_event r s =
      if s.present
      then s.in_event && not (leb 5000 (word_sub w r.at.leave_check s.last_event_was))
      else s.in_event

  check_event_state :
      (m : Millis) (db : Record D) (s : Seismometer D)
      → ((check_event D w m db s).0.in_event ≡ (
          if db.over_threshold && listening D w m s
          then true
          else s.in_event && not (leb 5000 (word_sub w m.leave_check s.last_event_was))))
        × ((check_event D w m db s).0.last_event_was
            ≡ (if db.over_threshold && listening D w m s then m.event_set else s.last_event_was))
  unfolding check_event
  check_event_state m db s = ground arith

  pub tick_state :
      (r : Reading D) (s : Seismometer D)
      → ((tick D w r s).0.in_event ≡ (if fires r s then true else still_in_event r s))
        × ((tick D w r s).0.last_event_was
            ≡ (if fires r s then r.at.event_set else s.last_event_was))
  unfolding tick record_of
  tick_state r s =
      let counted = count_probe D w r.at (add_value_to_avg_var D s r.total_vector) in
      let step = check_event_state r.at (record_of D r s) counted in
      let (p, q) = count_probe_lem D w r.at (add_value_to_avg_var D s r.total_vector) in
      let (p', q') = add_value_lem D s r.total_vector in ground (arith, step, p, p', q, q')

  -- What the detector knows of the last alert, sent at `since`: its event still runs, or it is over,
  -- and so long ago.
  abbrev Knows : ℕ → ℕ → Seismometer D → Type 0
  Knows since now s =
      ((s.in_event ≡ true) × (s.last_event_was ≡ since))
      ⊎ ((s.in_event ≡ false) × (since + 5000 ≤ now))

  Knows-quiet :
      (since now : ℕ) (r : Reading D) (s : Seismometer D)
      → Knows since now s
      → since ≤ now
      → now ≤ r.at.leave_check
      → r.at.leave_check ≤ r.at.event_set
      → r.at.event_set < 2 ^ w
      → fires r s ≡ false
      → Knows since r.at.event_set (tick D w r s).0
  Knows-quiet since now r s k h a b c f =
      let elapsed : word_sub w r.at.leave_check since ≡ r.at.leave_check - since =
        word_sub_le w r.at.leave_check since (omega arith) (omega arith) in
      ground (arith, tick_state r s, elapsed)

  Knows-fired :
      (since now : ℕ) (r : Reading D) (s : Seismometer D)
      → Knows since now s
      → since ≤ now
      → now ≤ r.at.leave_check
      → r.at.leave_check ≤ r.at.event_set
      → r.at.event_set < 2 ^ w
      → fires r s ≡ true
      → (since + 5000 ≤ r.at.event_set) × Knows r.at.event_set r.at.event_set (tick D w r s).0
  Knows-fired since now r s k h a b c f =
      let elapsed : word_sub w r.at.leave_check since ≡ r.at.leave_check - since =
        word_sub_le w r.at.leave_check since (omega arith) (omega arith) in
      (ground (arith, elapsed), ground (arith, tick_state r s))

  pub alert_times_fired :
      (r : Reading D) (rs : List (Reading D)) (s : Seismometer D)
      → fires r s ≡ true
      → alert_times (r ∷ rs) s ≡ r.at.event_set ∷ alert_times rs (tick D w r s).0
  unfolding alert_times
  alert_times_fired r rs s f = rw (alerts-tick D w r s, f)

  pub alert_times_quiet :
      (r : Reading D) (rs : List (Reading D)) (s : Seismometer D)
      → fires r s ≡ false
      → alert_times (r ∷ rs) s ≡ alert_times rs (tick D w r s).0
  unfolding alert_times
  alert_times_quiet r rs s f = rw (alerts-tick D w r s, f)

  alert_times-Spaced :
      (rs : List (Reading D)) (since now : ℕ) (s : Seismometer D)
      → Knows since now s
      → since ≤ now
      → Forward now rs
      → Spaced since (alert_times rs s)
  alert_times-Spaced [] since now s k h f = unfold alert_times in tt
  alert_times-Spaced (r ∷ rs) since now s k h (a, b, c, f) = elim (Bool-cases (fires r s)) [
    | inl fired ↦
        let (gap, k') = Knows-fired since now r s k h a b c fired in
        rw (alert_times_fired r rs s fired)
          (gap, alert_times-Spaced rs r.at.event_set r.at.event_set _ k' (omega arith) f)
    | inr quiet ↦ rw (alert_times_quiet r rs s quiet) (
        alert_times-Spaced rs since r.at.event_set _ (Knows-quiet since now r s k h a b c quiet)
          (omega arith) f)
  ]

  fresh_quiet :
      (r : Reading D) (s : Seismometer D)
      → s.in_event ≡ false
      → fires r s ≡ false
      → (tick D w r s).0.in_event ≡ false
  fresh_quiet r s e f = ground (arith, tick_state r s)

  fresh_fired :
      (r : Reading D) (s : Seismometer D)
      → fires r s ≡ true
      → Knows r.at.event_set r.at.event_set (tick D w r s).0
  fresh_fired r s f = ground (arith, tick_state r s)

  -- Whatever the sensor reads, two alerts of a run of ticks are at least five seconds apart by the
  -- clock that the detector reads. (No event runs at the start; the clock does not run backwards
  -- between its calls and does not wrap.)
  pub alert_times-AreSpaced :
      (rs : List (Reading D)) (now : ℕ) (s : Seismometer D)
      → s.in_event ≡ false
      → Forward now rs
      → AreSpaced (alert_times rs s)
  alert_times-AreSpaced [] now s e f = unfold alert_times in tt
  alert_times-AreSpaced (r ∷ rs) now s e (a, b, c, f) = elim (Bool-cases (fires r s)) [
    | inl fired ↦ rw (alert_times_fired r rs s fired) (
        alert_times-Spaced rs r.at.event_set r.at.event_set _ (fresh_fired r s fired) (omega arith)
          f)
    | inr quiet ↦
        rw (alert_times_quiet r rs s quiet)
          (alert_times-AreSpaced rs r.at.event_set _ (fresh_quiet r s e quiet) f)
  ]
