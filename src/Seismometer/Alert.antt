-- ===== src/Seismometer/Alert.antt =====
-- When a tick sends an alert, and what the red LED shows.
use galileo_terremoti.Base.{
  not, ◌&&◌, ◌||◌, leb, if◌then◌else◌, ℕ, ◌≡◌, Bool, List, [], ◌∷◌, arith, word_sub,
}
use galileo_terremoti.Floats.{Doubles}
use galileo_terremoti.Seismometer.{
  Millis, Record, Seismometer, Effect, red, alert, traced, Reading, tick, record_of, check_event,
  count_probe, add_value_to_avg_var,
}

module _ (D : Doubles) where
  open D use {lt}

  -- The records that the effects send to the server, the first one first.
  pub alerts : List (Effect D) → List (Record D)
  alerts [] = []
  alerts (red b ∷ es) = alerts es
  alerts (alert r ∷ es) = r ∷ alerts es
  alerts (traced _ _ _ _ _ _ ∷ es) = alerts es

  -- The red LED after the effects.
  pub red_after : Bool → List (Effect D) → Bool
  red_after b [] = b
  red_after b (red on ∷ es) = red_after on es
  red_after b (alert r ∷ es) = red_after b es
  red_after b (traced _ _ _ _ _ _ ∷ es) = red_after b es

  -- No event is running, or the one that runs began at least five seconds ago.
  abbrev pub listening : ℕ → Millis → Seismometer D → Bool
  listening w m s = not s.in_event || leb 5000 (word_sub w m.leave_check s.last_event_was)

  pub add_value_lem :
      (s : Seismometer D) (v : D.Double)
      → ((add_value_to_avg_var D s v).in_event ≡ s.in_event)
        × ((add_value_to_avg_var D s v).last_event_was ≡ s.last_event_was)
  unfolding add_value_to_avg_var
  add_value_lem s v = ground arith

  pub count_probe_lem :
      (w : ℕ) (m : Millis) (s : Seismometer D)
      → ((count_probe D w m s).in_event ≡ s.in_event)
        × ((count_probe D w m s).last_event_was ≡ s.last_event_was)
  unfolding count_probe
  count_probe_lem w m s = ground arith

  check_event-alerts :
      (w : ℕ) (m : Millis) (db : Record D) (s : Seismometer D)
      → alerts (check_event D w m db s).1
        ≡ (if db.over_threshold && listening w m s then db ∷ [] else [])
  unfolding check_event alerts
  check_event-alerts w m db s = ground arith

  listening_lem :
      (w : ℕ) (m : Millis) (s : Seismometer D) (v : D.Double)
      → listening w m (count_probe D w m (add_value_to_avg_var D s v)) ≡ listening w m s
  listening_lem w m s v =
      let (p, q) = count_probe_lem w m (add_value_to_avg_var D s v) in
      let (p', q') = add_value_lem s v in rw (p, q, p', q')

  -- A tick sends the server exactly one alert, the record that it read, if the sensor is there, the
  -- value exceeds the threshold that stood before this value was counted, and no event is running or
  -- the last one began at least five seconds ago; and otherwise none.
  pub alerts-tick :
      (w : ℕ) (r : Reading D) (s : Seismometer D)
      → alerts (tick D w r s).1 ≡ (
          if s.present && lt s.quake_threshold r.total_vector && listening w r.at s
          then record_of D r s ∷ []
          else [])
  unfolding tick alerts record_of
  alerts-tick w r s =
      let step =
        check_event-alerts w r.at (record_of D r s)
          (count_probe D w r.at (add_value_to_avg_var D s r.total_vector)) in
      let same = listening_lem w r.at s r.total_vector in ground (arith, step, same)

  check_event-red_after :
      (w : ℕ) (m : Millis) (db : Record D) (s : Seismometer D)
      → red_after s.in_event (check_event D w m db s).1 ≡ (check_event D w m db s).0.in_event
  unfolding check_event red_after
  check_event-red_after w m db s = ground arith

  -- The red LED is on after a tick exactly if an event is running then, provided that it was so
  -- before the tick.
  pub red_after-tick :
      (w : ℕ) (r : Reading D) (s : Seismometer D)
      → red_after s.in_event (tick D w r s).1 ≡ (tick D w r s).0.in_event
  unfolding tick red_after
  red_after-tick w r s =
      let counted = count_probe D w r.at (add_value_to_avg_var D s r.total_vector) in
      let step = check_event-red_after w r.at (record_of D r s) counted in
      let (p, q) = count_probe_lem w r.at (add_value_to_avg_var D s r.total_vector) in
      let (p', q') = add_value_lem s r.total_vector in ground (arith, step, p, p')
