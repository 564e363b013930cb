-- ===== src/Config/Server/Useful.antt =====
-- Which answers of the server are of use.
use galileo_terremoti.Base.{◌≡◌, ◌∙◌, sym, ◌⊎◌, inl, inr, true, false, some, [], Bytes}
use galileo_terremoti.Floats.{Doubles}
use galileo_terremoti.Config.Split.{config_split, value_at}
use galileo_terremoti.Net.Ntp.{set_ntp_server}
use galileo_terremoti.Config.Server.{
  ntpserver_key, Settings, Parts, useless, useful, restarting, apply_config,
}
use galileo_terremoti.Config.Server.Effects.{apply_config-Checked}

-- An answer without an entry.
abbrev pub IsUseless : Bytes → Type 0
IsUseless answer = config_split answer b'|' ≡ []

true-ne : true ≡ false → ⊥
true-ne e = cc

module _ (D : Doubles) where
  -- An answer of no use changes nothing.
  pub apply_config-useless :
      (p : Parts) (answer : Bytes) (s : Settings D)
      → IsUseless answer
      → apply_config D p (some answer) s ≡ some (s, useless)
  apply_config-useless p answer s e = elim (apply_config-Checked D p (some answer) s) [
    | inl (_, same) ↦ same
    | inr (n, _) ↦ absurd (n e)
  ]

  -- One of use is applied, or the device restarts, provided that the trace file can be opened.
  pub apply_config-useful :
      (p : Parts) (answer : Bytes) (s : Settings D)
      → ¬ IsUseless answer
      → p.can_trace ≡ true
      → ((t : Settings D) × (apply_config D p (some answer) s ≡ some (t, useful))
          × (t.ntp ≡ set_ntp_server (value_at ntpserver_key (config_split answer b'|')) s.ntp))
        ⊎ ((t : Settings D) × (apply_config D p (some answer) s ≡ some (t, restarting)))
  apply_config-useful p answer s n opens = elim (apply_config-Checked D p (some answer) s) [
    | inl (e, _) ↦ absurd (n e)
    | inr (_, inl (_, (t, e, _))) ↦ inr (t, e)
    | inr (_, inr (_, inl (t, e, (_, ntp_is, _)))) ↦ inl (t, e, ntp_is)
    | inr (_, inr (_, inr ((_, _, gone), _))) ↦ absurd (true-ne (sym opens ∙ gone))
  ]
