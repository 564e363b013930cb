-- ===== src/Led/Animation.antt =====
-- The animation shown while the program loads.
use galileo_terremoti.Base.{ℕ, ◌+◌, ◌%◌, ◌≡◌, true, arith, ◌==◌, ◌<◌}
use galileo_terremoti.Led.{Led, animate, LedThread, work}
use galileo_terremoti.Led.Pins.{IsSynced}

-- One LED is on: green in round 0, red in round 1, yellow in round 2.
pub record Shows (i : ℕ) (s : Led) : Type 0 where
  pub green_on : s.green_status ≡ (i == 0)
  pub red_on : s.red_status ≡ (i == 1)
  pub yellow_on : s.yellow_status ≡ (i == 2)

animate-Shows : (i : ℕ) (s : Led) → IsSynced s → i < 3 → Shows i (animate i s)
unfolding animate
animate-Shows i s v h = record {
  green_on = ground arith;
  red_on = ground arith;
  yellow_on = ground arith;
}

work_animation :
    (t : LedThread) → t.led.animation ≡ true → (work t).led ≡ animate ((t.i + 1) % 3) t.led
unfolding work
work_animation t a = rw (a, work)

-- While the animation runs, each round of the thread lights exactly one LED, and the three take
-- turns: green, red, yellow. (The three pins differ.)
pub work-Shows :
    (t : LedThread)
    → IsSynced t.led
    → t.led.animation ≡ true
    → ((work t).i ≡ (t.i + 1) % 3) × Shows ((t.i + 1) % 3) (work t).led
unfolding work
work-Shows t v a =
    (ground arith, rw (work_animation t a) (animate-Shows ((t.i + 1) % 3) t.led v (omega arith)))
