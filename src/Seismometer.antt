-- ===== src/Seismometer.antt =====
-- Seismometer.cpp and Seismometer.h: the detector. `w` is the width of `unsigned long`, 32 on the
-- Raspberry Pi and 64 on the desktop platforms; `Utils::millis` is a 32-bit word. What the outside
-- says in one tick (the sensor, the clock at each of its calls, the UNIX time) is a `Reading`, and
-- what the tick does outside is a list of effects, the first one first.
pub mod Quiet
pub mod Alert
pub mod Machine
use galileo_terremoti.Base.{
  ℕ, ◌+◌, ◌%◌, ◌^◌, Bool, true, false, not, ◌&&◌, List, [], ◌∷◌, ◌++◌, ltb, leb, if◌then◌else◌,
  word_sub,
}
use galileo_terremoti.Floats.{Doubles}

-- The milliseconds that `Utils::millis` returns at its calls in one tick, in the code's order; a
-- call that the tick does not reach has a value too, which nothing reads.
pub record Millis : Type 0 where
  pub stat_check : ℕ
  pub stat_set : ℕ
  pub leave_check : ℕ
  pub stay_check : ℕ
  pub event_set : ℕ

module _ (D : Doubles) where
  open D use {Double, of_nat, add, sub, mul, div, sqrt, lt}

  -- `RECORD`.
  pub record Record : Type 0 where
    pub ts : ℕ
    pub accel : Double
    pub over_threshold : Bool

  pub record Seismometer : Type 0 where
    -- `accelero != NULL`.
    pub present : Bool
    pub in_event : Bool
    pub last_event_was : ℕ
    pub partial_avg : Double
    pub partial_std_dev : Double
    pub elements : ℕ
    pub quake_threshold : Double
    pub sigma_iter : Double
    pub stat_last_counter_time : ℕ
    pub stat_last_counter : ℕ
    pub stat_probe_speed : ℕ

  pub data Effect : Type 0 where
    -- `LED::red`.
    red : Bool → Effect
    -- `HTTPClient::httpSendAlert`.
    alert : Record → Effect
    -- `TraceAccumulator::traceValue`: time, value, threshold, average, deviation, sigma.
    traced : ℕ → Double → Double → Double → Double → Double → Effect

  -- The constructor, with the fields' initial values.
  unfoldable pub create : Bool → Seismometer
  create present = record {
    present = present;
    in_event = false;
    last_event_was = 0;
    partial_avg = of_nat 0;
    partial_std_dev = of_nat 0;
    elements = 0;
    quake_threshold = of_nat 1;
    sigma_iter = of_nat 3;
    stat_last_counter_time = 0;
    stat_last_counter = 0;
    stat_probe_speed = 0;
  }

  -- `sqrt(partialStdDev / (elements - 1))`, on an unsigned counter.
  unfoldable pub current_std_dev : Seismometer → Double
  current_std_dev s = sqrt (div s.partial_std_dev (of_nat (word_sub 32 s.elements 1)))

  unfoldable pub set_sigma_iter : Seismometer → Double → Seismometer
  set_sigma_iter s i = record s { sigma_iter = i }

  unfoldable pub reset_last_period : Seismometer → Seismometer
  reset_last_period s = record s {
    partial_avg = of_nat 0;
    partial_std_dev = of_nat 0;
    elements = 0;
  }

  -- The running mean and the sum of squares, before the threshold is set.
  unfoldable pub add_value : Seismometer → Double → Seismometer
  add_value s val =
      let elements = (s.elements + 1) % 2 ^ 32 in
      let delta = sub val s.partial_avg in
      let avg = add s.partial_avg (div delta (of_nat elements)) in
      record s {
        elements = elements;
        partial_avg = avg;
        partial_std_dev = add s.partial_std_dev (mul delta (sub val avg));
      }

  unfoldable pub set_threshold : Seismometer → Seismometer
  unfolding current_std_dev
  set_threshold s =
      if ltb 1 s.elements
      then record s { quake_threshold = add s.partial_avg (mul (current_std_dev s) s.sigma_iter) }
      else s

  unfoldable pub add_value_to_avg_var : Seismometer → Double → Seismometer
  unfolding add_value set_threshold
  add_value_to_avg_var s val = set_threshold (add_value s val)

  pub record Reading : Type 0 where
    pub unix_time : ℕ
    pub total_vector : Double
    pub at : Millis

  unfoldable pub count_probe : ℕ → Millis → Seismometer → Seismometer
  count_probe w m s =
      let counted = (s.stat_last_counter + 1) % 2 ^ 32 in
      if ltb 1000 (word_sub w m.stat_check s.stat_last_counter_time)
      then record s {
        stat_probe_speed = counted;
        stat_last_counter = 0;
        stat_last_counter_time = m.stat_set;
      }
      else record s { stat_last_counter = counted }

  -- The last part of `tick`, behind the two tests of a running event.
  unfoldable pub detect : Millis → Record → Seismometer → Seismometer × List Effect
  detect m db s =
      if db.over_threshold && not s.in_event
      then (record s { in_event = true; last_event_was = m.event_set }, red true ∷ alert db ∷ [])
      else (s, [])

  -- The two tests: 5 seconds after an event it is over, and until then nothing is detected.
  unfoldable pub check_event : ℕ → Millis → Record → Seismometer → Seismometer × List Effect
  unfolding detect
  check_event w m db s =
      if s.in_event && leb 5000 (word_sub w m.leave_check s.last_event_was)
      then (let (s', effects) = detect m db (record s { in_event = false }) in
          (s', red false ∷ effects))
      else if s.in_event && ltb (word_sub w m.stay_check s.last_event_was) 5000
      then (s, [])
      else detect m db s

  unfoldable pub record_of : Reading → Seismometer → Record
  record_of r s = record {
    ts = r.unix_time;
    accel = r.total_vector;
    over_threshold = lt s.quake_threshold r.total_vector;
  }

  unfoldable pub tick : ℕ → Reading → Seismometer → Seismometer × List Effect
  unfolding record_of count_probe check_event add_value_to_avg_var
  tick w r s =
      let db = record_of r s in
      let trace =
        traced db.ts db.accel s.quake_threshold s.partial_avg (current_std_dev s) s.sigma_iter in
      let (s', effects) =
        check_event w r.at db (count_probe w r.at (add_value_to_avg_var s db.accel)) in
      if s.present then (s', trace ∷ effects) else (s, [])
