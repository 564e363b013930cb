-- ===== src/Core/Program.antt =====
-- galileo-core.cpp: `main`, the start and then the loop for ever, over the passes that the world
-- brings. `vendor_init`, the modes of the debug build, `Watchdog::launch` and the upload of the crash
-- reports, which runs beside the loop, are left out here, and so is the delay between two passes.
pub mod FirstDay
use galileo_terremoti.Base.{ℕ, List, [], ◌∷◌, ◌++◌, if◌then◌else◌}
use galileo_terremoti.Floats.{Doubles}
use galileo_terremoti.Command.{Build}
use galileo_terremoti.Core.{Core, Pass, Effect, loop}
use galileo_terremoti.Core.Setup.{Progress, reached, ◌>>=◌, Boot, Station, setup}

-- `while (1)`: what the passes do, up to one that does not come back.
unfoldable pub run : ℕ → List Pass → Core → List Effect
unfolding loop
run w [] c = []
run w (p ∷ ps) c =
    let s = loop w p c in
    let later = run w ps s.core in s.effects ++ (if s.comes_back then later else [])

module _ (D : Doubles) where
  -- The timers are zero, but that of the rotation, which `setup` has set.
  abbrev pub begin : Station D → Core
  begin s = record {
    net_last_ms = 0;
    ntp_last_ms = 0;
    cfg_last_ms = 0;
    seismo_last_ms = 0;
    log_rotation_ms = s.log_rotation_ms;
  }

  unfoldable pub main : ℕ → Build → Boot D → List Pass → Station D → Progress (List Effect)
  unfolding setup run
  main w b x ps s = setup D b x s >>= λ s. reached (run w ps (begin s))
