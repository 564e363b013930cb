-- ===== src/Seismometer/Machine.antt =====
-- The detector as a state machine of two phases, and the ticks of `Seismometer` as its steps.
use galileo_terremoti.Base.{
  ℕ, refl, ◌+◌, ◌≤◌, ◌<◌, ◌≡◌, inl, inr, Bool, true, false, not, ◌&&◌, List, [], ◌∷◌, ◌++◌, arith,
  leb, if◌then◌else◌, Bool-cases, ◌||◌, word_sub, ◌^◌, ◌∙◌, if_cases,
}
use galileo_terremoti.Floats.{Doubles}
use galileo_terremoti.Seismometer.{
  Seismometer, Reading, tick, check_event, count_probe, add_value_to_avg_var, Millis, record_of,
  Record, Effect,
}
use galileo_terremoti.Seismometer.Quiet.{Forward, alert_times, tick_state, times_of, word_sub_le}
use galileo_terremoti.Seismometer.Alert.{alerts, alerts-tick}

-- No event is running, or one that began at a time.
pub data Phase : Type 0 where
  listening : Phase
  shaking : ℕ → Phase

-- A step at the time `now`, at which an event that begins is noted with the time `at`: whether the
-- value exceeds the threshold, the times of the alerts that the step sends, and the two phases.
pub data Step (now at : ℕ) : Bool → Phase → List ℕ → Phase → Type 0 where
  silence : Step now at false listening [] listening
  begin : Step now at true listening (at ∷ []) (shaking at)
  hold :
      (over : Bool) (since : ℕ)
      → now < since + 5000
      → Step now at over (shaking since) [] (shaking since)
  finish : (since : ℕ) → since + 5000 ≤ now → Step now at false (shaking since) [] listening
  again : (since : ℕ) → since + 5000 ≤ now → Step now at true (shaking since) (at ∷ []) (shaking at)

abbrev pub phase : Bool → ℕ → Phase
phase true since = shaking since
phase false since = listening

-- What a tick finds: no event, or one that began at least five seconds ago.
abbrev is_over : Bool → ℕ → Bool
is_over running elapsed = not running || leb 5000 elapsed

late-Step :
    (now at : ℕ) (over : Bool) (since : ℕ)
    → since + 5000 ≤ now
    → Step now at over
        (shaking since)
        (if over && true then at ∷ [] else [])
        (phase (if over && true then true else false) (if over && true then at else since))
late-Step now at true since gap = again since gap
late-Step now at false since gap = finish since gap

early-Step :
    (now at : ℕ) (over : Bool) (since : ℕ)
    → now < since + 5000
    → Step now at over
        (shaking since)
        (if over && false then at ∷ [] else [])
        (phase (if over && false then true else true) (if over && false then at else since))
early-Step now at true since gap = hold true since gap
early-Step now at false since gap = hold false since gap

-- The two fields after a tick, as `tick_state` has them, make a step of the machine.
Step_of :
    (now at : ℕ) (over running : Bool) (since elapsed : ℕ)
    → (running ≡ true → elapsed + since ≡ now)
    → Step now at over
        (phase running since)
        (if over && is_over running elapsed then at ∷ [] else [])
        (phase
          (if over && is_over running elapsed then true else running && not (leb 5000 elapsed))
          (if over && is_over running elapsed then at else since))
Step_of now at true false since elapsed h = begin
Step_of now at false false since elapsed h = silence
Step_of now at over true since elapsed h =
    let e = h refl in
    elim (Bool-cases (leb 5000 elapsed)) [
      | inl long ↦
          let gap : since + 5000 ≤ now = ground (arith, e) in
          rw long (late-Step now at over since gap)
      | inr short ↦
          let gap : now < since + 5000 = ground (arith, e) in
          rw short (early-Step now at over since gap)
    ]

module _ (D : Doubles) (w : ℕ) where
  open D use {lt}

  abbrev pub phase_of : Seismometer D → Phase
  phase_of s = phase s.in_event s.last_event_was

  -- A run of the machine at the times of the readings. Which values exceed the threshold is open.
  pub data Run : List (Reading D) → Phase → List ℕ → Phase → Type 0 where
    here : {p : Phase} → Run [] p [] p
    next :
        {r : Reading D} {rs : List (Reading D)} {over : Bool} {p q u : Phase} {ts us : List ℕ}
        → Step r.at.leave_check r.at.event_set over p ts q
        → Run rs q us u
        → Run (r ∷ rs) p (ts ++ us) u

  -- The detector after a run of ticks.
  pub ticks : List (Reading D) → Seismometer D → Seismometer D
  ticks [] s = s
  ticks (r ∷ rs) s = ticks rs (tick D w r s).0

  -- The event that runs, if any, did not begin later than the time.
  abbrev pub Begun : ℕ → Seismometer D → Type 0
  Begun now s = s.in_event ≡ true → s.last_event_was ≤ now

  Begun-tick :
      (r : Reading D) (s : Seismometer D) (now : ℕ)
      → Begun now s
      → now ≤ r.at.event_set
      → Begun r.at.event_set (tick D w r s).0
  Begun-tick r s now h a = ground (arith, tick_state D w r s, h)

  sent_times :
      (r : Reading D) (s : Seismometer D)
      → s.present ≡ true
      → times_of D w r (alerts D (tick D w r s).1) ≡ (
          if lt s.quake_threshold r.total_vector
            && is_over s.in_event (word_sub w r.at.leave_check s.last_event_was)
          then r.at.event_set ∷ []
          else [])
  sent_times r s p = ground (arith, alerts-tick D w r s)

  tick-Step :
      (r : Reading D) (s : Seismometer D)
      → s.present ≡ true
      → Begun r.at.leave_check s
      → r.at.leave_check < 2 ^ w
      → Step r.at.leave_check r.at.event_set
          (lt s.quake_threshold r.total_vector)
          (phase_of s)
          (times_of D w r (alerts D (tick D w r s).1))
          (phase_of (tick D w r s).0)
  tick-Step r s p h b =
      let (e, f) = tick_state D w r s in
      rw (sent_times r s p, e, f, p)
        (Step_of r.at.leave_check r.at.event_set (lt s.quake_threshold r.total_vector) s.in_event
          s.last_event_was (word_sub w r.at.leave_check s.last_event_was)
          (λ q. omega (arith, h q, word_sub_le w r.at.leave_check s.last_event_was (h q) b)))

  check_event_present :
      (m : Millis) (db : Record D) (s : Seismometer D)
      → (check_event D w m db s).0.present ≡ s.present
  unfolding check_event
  check_event_present m db s = ground arith

  count_probe_present : (m : Millis) (s : Seismometer D) → (count_probe D w m s).present ≡ s.present
  unfolding count_probe
  count_probe_present m s = ground arith

  add_value_present :
      (s : Seismometer D) (v : D.Double) → (add_value_to_avg_var D s v).present ≡ s.present
  unfolding add_value_to_avg_var
  add_value_present s v = ground arith

  present-tick : (r : Reading D) (s : Seismometer D) → (tick D w r s).0.present ≡ s.present
  unfolding tick record_of
  present-tick r s =
      let added = add_value_to_avg_var D s r.total_vector in
      let counted = count_probe D w r.at added in
      if_cases (λ (x : Seismometer D × List (Effect D)). x.0.present ≡ s.present) s.present _
        (s, [])
        (check_event_present r.at (record_of D r s) counted
          ∙ count_probe_present r.at added
          ∙ add_value_present s r.total_vector)
        refl

  -- Every run of ticks is a run of the machine: the alerts that the detector sends are those of the
  -- machine's steps, and its two fields are the machine's phase. (The sensor is there; the event
  -- that runs at the start, if any, did not begin in the future; the clock does not run backwards
  -- and does not wrap.)
  pub ticks-Run :
      (rs : List (Reading D)) (now : ℕ) (s : Seismometer D)
      → s.present ≡ true
      → Begun now s
      → Forward D w now rs
      → Run rs (phase_of s) (alert_times D w rs s) (phase_of (ticks rs s))
  unfolding ticks alert_times
  ticks-Run [] now s p h f = here
  ticks-Run (r ∷ rs) now s p h (a, b, c, f) =
      next (tick-Step r s p (λ q. omega (arith, h q)) (omega arith)) (
        ticks-Run rs r.at.event_set (tick D w r s).0 (present-tick r s ∙ p)
          (Begun-tick r s now h (omega arith)) f)
