-- ===== src/Config/Server.antt =====
-- `Config::checkServerConfig`: the device asks the server and does what its answer says. `none` is a
-- fault: that of `getConfig` on a malformed reply, that of `setBaseURL`, or that of `setTrace`, which
-- writes through the null pointer of a trace file that cannot be opened.
pub mod Effects
pub mod Useful
use mathlib.Core.Option
use galileo_terremoti.Base.{
  ℕ, ◌+◌, Bool, true, false, Option, none, some, ◌>>=◌, List, [], ◌∷◌, ◌++◌, Bytes, c_string,
  bytes_eq, if◌then◌else◌,
}
use galileo_terremoti.Floats.{Doubles}
use galileo_terremoti.Config.Split.{Map, find, value_at, config_split}
use galileo_terremoti.Seismometer.{Seismometer, set_sigma_iter, reset_last_period}
use galileo_terremoti.Net.Http.{scheme, set_base_url, Exchange}
use galileo_terremoti.Net.Http.Request.{Alive, get_config}
use galileo_terremoti.Net.Ntp.{Ntp, set_ntp_server}

-- "path", "server", "ntpserver", "sigma" and "trace".
abbrev pub path_key : Bytes
path_key = b'p' ∷ b'a' ∷ b't' ∷ b'h' ∷ []

abbrev pub server_key : Bytes
server_key = b's' ∷ b'e' ∷ b'r' ∷ b'v' ∷ b'e' ∷ b'r' ∷ []

abbrev pub ntpserver_key : Bytes
ntpserver_key = b'n' ∷ b't' ∷ b'p' ∷ b's' ∷ b'e' ∷ b'r' ∷ b'v' ∷ b'e' ∷ b'r' ∷ []

abbrev pub sigma_key : Bytes
sigma_key = b's' ∷ b'i' ∷ b'g' ∷ b'm' ∷ b'a' ∷ []

abbrev pub trace_key : Bytes
trace_key = b't' ∷ b'r' ∷ b'a' ∷ b'c' ∷ b'e' ∷ []

-- What other parts do: whether `fopen` would open the trace file, and whether `platformUpgrade`
-- returns, as on the desktop platforms; on the boards it restarts the device.
pub record Parts : Type 0 where
  pub can_trace : Bool
  pub upgrade_returns : Bool

-- How `checkServerConfig` ends: it returns false or true, or `platformUpgrade` does not return.
pub data Verdict : Type 0 where
  useless useful restarting : Verdict

-- Whether the call of `platformUpgrade`, which an empty path leaves out, comes back.
unfoldable pub returns : Parts → Bytes → Bool
returns p [] = true
returns p (c ∷ path) = p.upgrade_returns

module _ (D : Doubles) where
  open D use {scan}

  pub record Settings : Type 0 where
    pub base_url : Bytes
    pub ntp : Ntp
    pub seismometer : Seismometer D
    -- Whether the trace file is open.
    pub tracing : Bool
    -- The paths given to `platformUpgrade`, the newest first.
    pub upgrades : List Bytes

  unfoldable pub upgrade : Bytes → Settings → Settings
  upgrade [] s = s
  upgrade (c ∷ path) s = record s { upgrades = (c ∷ path) ∷ s.upgrades }

  -- The workaround for old configurations.
  unfoldable pub set_server : Bytes → Settings → Option Settings
  set_server server s =
      let changed = set_base_url server >>= λ url. some (record s { base_url = url }) in
      if bytes_eq (c_string server) scheme then changed else some s

  -- The setter, with the value of "sigma" or with the old one, and the reset of the statistics.
  unfoldable pub set_sigma : Option Bytes → Seismometer D → Seismometer D
  set_sigma (some value) m = reset_last_period D (set_sigma_iter D m (scan (c_string value)))
  set_sigma none m = reset_last_period D (set_sigma_iter D m m.sigma_iter)

  unfoldable pub set_trace : Bool → Option Bytes → Settings → Option Settings
  set_trace opens (some value) s =
      if s.tracing then some s else if opens then some (record s { tracing = true }) else none
  set_trace opens none s = some s

  -- The part of `checkServerConfig` behind the upgrade.
  unfoldable pub apply_rest : Parts → Map → Settings → Option (Settings × Verdict)
  unfolding set_server set_sigma set_trace
  apply_rest p params s = do
    t ← set_server (value_at server_key params) s
    t' ← set_trace p.can_trace (find trace_key params) (record t {
      ntp = set_ntp_server (value_at ntpserver_key params) t.ntp;
      seismometer = set_sigma (find sigma_key params) t.seismometer;
    })
    some (t', useful)

  unfoldable pub apply_params : Parts → Map → Settings → Option (Settings × Verdict)
  unfolding upgrade returns apply_rest
  apply_params p params s =
      let t = upgrade (value_at path_key params) s in
      let rest = apply_rest p params t in
      if returns p (value_at path_key params) then rest else some (t, restarting)

  apply_some : Parts → Map → Settings → Option (Settings × Verdict)
  unfolding apply_params
  apply_some p [] s = some (s, useless)
  apply_some p (e ∷ params) s = apply_params p (e ∷ params) s

  -- What `checkServerConfig` does with `cfg`, which `getConfig` has returned, or not.
  unfoldable pub apply_config : Parts → Option Bytes → Settings → Option (Settings × Verdict)
  unfolding apply_some
  apply_config p none s = none
  apply_config p (some []) s = some (s, useless)
  apply_config p (some (c ∷ cfg)) s = apply_some p (config_split (c ∷ cfg) b'|') s

  -- `checkServerConfig`, with the exchange with the server and the values that are sent to it.
  unfoldable pub check_server_config :
      Parts → Exchange → Alive → Settings → Option (Settings × Verdict)
  unfolding apply_config get_config
  check_server_config p x v s = apply_config p (get_config x s.base_url v) s
