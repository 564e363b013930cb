-- ===== src/Core/Setup/Completes.antt =====
-- When `setup` comes to its end.
use galileo_terremoti.Base.{ℕ, ◌≡◌, ◌≢◌, ◌⊎◌, Bool, true, some, List, [], ◌∷◌, ◌++◌, Bytes}
use galileo_terremoti.Floats.{Doubles}
use galileo_terremoti.Config
use galileo_terremoti.Config.{Config}
use galileo_terremoti.Config.Split.{config_split, value_at}
use galileo_terremoti.Config.Server.{Settings, ntpserver_key}
use galileo_terremoti.Config.Server.Useful.{IsUseless}
use galileo_terremoti.Command.{Build, Device, Status}
use galileo_terremoti.Command.Packet.{Packet}
use galileo_terremoti.Command.Packet.Read.{position_request}
use galileo_terremoti.Net.Ntp.{Ntp, Attempt, is_old, set_ntp_server}
use galileo_terremoti.Net.Ntp.Sync.{IsWide, AreSilent, IsReply, IsRecent}
use galileo_terremoti.Core.Setup.{
  Answer, Progress, reached, rebooted, Poll, Boot, start, choose_mac,
}

-- What `NTP::sync` does at the start: without a server it gives up at once; with one, rounds without
-- a reply are followed by one that brings it.
abbrev pub Synchronizes : ℕ → List Attempt → Bytes → ℕ → Type 0
Synchronizes w attempts server old =
    (server ≡ [])
    ⊎ ((silent : List Attempt) × (later : List Attempt) × (a : Attempt) × (time : ℕ) × (attempts
          ≡ silent ++ (a ∷ later))
        × (server ≢ [])
        × IsWide w
        × (is_old w old ≡ true)
        × AreSilent silent
        × IsReply a time
        × IsRecent time)

-- It went through, or the device reboots.
abbrev Arrives {ℓ} : {A : Type ℓ} → Progress A → Type ℓ
Arrives {A = A} o = ((a : A) × (o ≡ reached a)) ⊎ (o ≡ rebooted)

-- The client has brought these answers, and none has an entry.
abbrev pub AreUseless : List Answer → Type 0
AreUseless [] = Unit {0}
AreUseless (a ∷ answers) =
    ((text : Bytes) × (a.cfg ≡ some text) × IsUseless text) × AreUseless answers

-- An answer with an entry, and the trace file can be opened.
pub record IsGood (a : Answer) (text : Bytes) : Type 0 where
  pub cfg_is : a.cfg ≡ some text
  pub has_entry : ¬ IsUseless text
  pub opens : a.parts.can_trace ≡ true

module _ (D : Doubles) where
  open D use {of_float, of_nat, eq}

  -- The settings are there, or an upgrade has restarted the device.
  abbrev Told : Bytes → Settings D → Progress (Settings D) → Type 0
  Told text s o =
      ((t : Settings D) × (o ≡ reached t)
        × (t.ntp ≡ set_ntp_server (value_at ntpserver_key (config_split text b'|')) s.ntp))
      ⊎ (o ≡ rebooted)

  -- A request for the address `mac`, with the place where the app says that the device is.
  abbrev pub request_for : Bool → Status D → Packet → ℕ → Bytes → ℕ → ℕ → Poll D
  request_for beats st stack address mac lat lon = record {
    beat_returns = beats;
    status = st;
    input = some (record { address = address; payload = position_request mac lat lon });
    stack = stack;
  }

  -- What the device has loaded when it asks the server.
  abbrev loaded : Build → Boot D → Bytes → Config D → Device D → Device D
  loaded b x mac c d = record (start D b x d) { config = choose_mac D mac c }
