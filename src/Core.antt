-- ===== src/Core.antt =====
-- galileo-core.cpp: `loop`, which runs each task when its interval has passed. `w` is the width of
-- `unsigned long`. What the world says in one pass (the clock at each of its calls, the state of
-- the network) is a `Pass`, and the calls of other parts are effects, the first one first. The
-- debug build's `--valgrind` exit is left out.
pub mod Timers
pub mod Rotation
pub mod Setup
pub mod Program
use galileo_terremoti.Base.{
  ℕ, zero, suc, ◌+◌, ◌-◌, ◌%◌, ◌^◌, Bool, true, false, not, ◌&&◌, Option, none, some, List, [], ◌∷◌,
  ◌++◌, leb, if◌then◌else◌, replicate, word_sub,
}

abbrev pub network_interval : ℕ
network_interval = 30000

abbrev pub config_interval : ℕ
config_interval = 900000

abbrev pub ntp_interval : ℕ
ntp_interval = 3600000

abbrev pub tick_interval : ℕ
tick_interval = 50

abbrev pub rotation_interval : ℕ
rotation_interval = 86400000

pub record Core : Type 0 where
  pub net_last_ms : ℕ
  pub ntp_last_ms : ℕ
  pub cfg_last_ms : ℕ
  pub seismo_last_ms : ℕ
  pub log_rotation_ms : ℕ

pub record Pass : Type 0 where
  pub net_check : ℕ
  pub net_set : ℕ
  pub cfg_check : ℕ
  pub cfg_set : ℕ
  pub ntp_check : ℕ
  pub ntp_set : ℕ
  pub seismo_check : ℕ
  pub seismo_set : ℕ
  pub rotate_check : ℕ
  -- `Utils::getInterfaceMAC` finds an address; the host answers a ping; how many calls of
  -- `NTP::sync` fail before one succeeds, if one ever does.
  pub has_mac : Bool
  pub connected : Bool
  pub failed_syncs : Option ℕ
  -- Whether these calls come back: `heartBeat`, which reboots if its file cannot be opened;
  -- `checkCommandPacket`, which reboots on some requests; `checkServerConfig`, which may install an
  -- upgrade; and `tick`. The last three can also end in a fault of another part.
  pub beat_returns : Bool
  pub command_returns : Bool
  pub config_returns : Bool
  pub tick_returns : Bool

pub data Effect : Type 0 where
  led_tick heart_beat check_command reboot config_check ntp_sync seismo_tick rotate_log : Effect
  -- `LED::yellow(!NetworkManager::isConnectedToInternet(true))`.
  yellow : Bool → Effect

-- What a part of `loop` does; one that does not come back ends it.
pub record Step : Type 0 where
  pub core : Core
  pub effects : List Effect
  pub comes_back : Bool

abbrev pub and_then : Step → (Core → Step) → Step
and_then s f =
    let t = f s.core in if s.comes_back then record t { effects = s.effects ++ t.effects } else s

abbrev pub due : ℕ → ℕ → ℕ → ℕ → Bool
due w interval now last = leb interval (word_sub w now last)

abbrev pub idle : Core → Step
idle c = record { core = c; effects = []; comes_back = true }

unfoldable pub check_network : ℕ → Pass → Core → Step
check_network w p c =
    if due w network_interval p.net_check c.net_last_ms
    then if p.has_mac
      then record {
        core = record c { net_last_ms = p.net_set };
        effects = yellow (not p.connected) ∷ [];
        comes_back = true;
      }
      else record { core = c; effects = reboot ∷ []; comes_back = false }
    else idle c

unfoldable pub check_config : ℕ → Pass → Core → Step
check_config w p c =
    if due w config_interval p.cfg_check c.cfg_last_ms
    then if p.config_returns
      then record {
        core = record c { cfg_last_ms = p.cfg_set };
        effects = config_check ∷ [];
        comes_back = true;
      }
      else record { core = c; effects = config_check ∷ []; comes_back = false }
    else idle c

-- `while (!NTP::sync());`
unfoldable pub sync_until : Option ℕ → ℕ → Core → Step
sync_until none now c = record { core = c; effects = []; comes_back = false }
sync_until (some failed) now c = record {
  core = record c { ntp_last_ms = now };
  effects = replicate failed ntp_sync ++ ntp_sync ∷ [];
  comes_back = true;
}

unfoldable pub sync_ntp : ℕ → Pass → Core → Step
unfolding sync_until
sync_ntp w p c =
    if due w ntp_interval p.ntp_check c.ntp_last_ms
    then sync_until p.failed_syncs p.ntp_set c
    else idle c

-- If the tick does not come back, the state behind it is of no use.
unfoldable pub tick_seismometer : ℕ → Pass → Core → Step
tick_seismometer w p c =
    if due w tick_interval p.seismo_check c.seismo_last_ms
    then record {
      core = record c { seismo_last_ms = p.seismo_set };
      effects = seismo_tick ∷ [];
      comes_back = p.tick_returns;
    }
    else idle c

unfoldable pub rotate_when_due : ℕ → Pass → Core → Step
rotate_when_due w p c =
    if due w rotation_interval p.rotate_check c.log_rotation_ms
    then record { core = c; effects = rotate_log ∷ []; comes_back = true }
    else idle c

-- The part of `loop` that is not timed.
unfoldable pub always : Pass → Core → Step
always p c =
    if p.beat_returns
    then record {
      core = c;
      effects = led_tick ∷ heart_beat ∷ check_command ∷ [];
      comes_back = p.command_returns;
    }
    else record { core = c; effects = led_tick ∷ heart_beat ∷ []; comes_back = false }

unfoldable pub loop : ℕ → Pass → Core → Step
unfolding always check_network check_config sync_ntp tick_seismometer rotate_when_due
loop w p c =
    and_then
      (and_then
        (and_then (and_then (and_then (always p c) (check_network w p)) (check_config w p))
          (sync_ntp w p))
        (tick_seismometer w p))
      (rotate_when_due w p)
