-- ===== src/Config/Server/Effects.antt =====
-- What the server's answer can change.
use mathlib.Core.Path.{subst}
use galileo_terremoti.Base.{
  ◌≡◌, ◌∙◌, refl, ap, sym, ◌⊎◌, inl, inr, Bool, true, false, Option, none, some, [], ◌∷◌, ◌++◌,
  Bytes, arith, c_string, bytes_eq, bytes_eq_sound, if_true, if_false, ◌≢◌, Bool, if_cases,
  Bool-cases, ◌==◌,
}
use galileo_terremoti.Floats.{Doubles}
use galileo_terremoti.Config.Split.{Map, find, value_at, config_split}
use galileo_terremoti.Seismometer.{Seismometer, set_sigma_iter, reset_last_period}
use galileo_terremoti.Net.Http.{scheme, last_is, set_base_url}
use galileo_terremoti.Net.Ntp.{set_ntp_server}
use galileo_terremoti.Net.Http.{Exchange}
use galileo_terremoti.Net.Http.Request.{Alive, get_config}
use galileo_terremoti.Config.Server.{
  path_key, server_key, ntpserver_key, sigma_key, trace_key, Settings, Parts, Verdict, useless,
  useful, restarting, returns, upgrade, set_server, set_sigma, set_trace, apply_rest, apply_params,
  apply_some, apply_config, check_server_config,
}

-- A text ends at its end or at its first zero.
c_string-cases : (s : Bytes) → (s ≡ c_string s) ⊎ ((rest : Bytes) × (s ≡ c_string s ++ (0 ∷ rest)))
unfolding c_string
c_string-cases [] = inl refl
c_string-cases (c ∷ s) = elim (Bool-cases (c == 0)) [
  | inl z ↦ inr (s, ground (arith, z))
  | inr n ↦ elim (c_string-cases s) [
    | inl e ↦ inl (ground (arith, n, e))
    | inr (rest, e) ↦ inr (rest, ground (arith, n, e))
  ]
]

-- The base URL is "http://", whatever stands behind a zero byte.
abbrev pub IsScheme : Option Bytes → Type 0
IsScheme o = (url : Bytes) × (o ≡ some url) × (c_string url ≡ scheme)

set_base_url-scheme : (rest : Bytes) → IsScheme (set_base_url (scheme ++ (0 ∷ rest)))
unfolding set_base_url c_string
set_base_url-scheme rest = (
  _,
  refl,
  if_cases (λ (u : Bytes). c_string u ≡ scheme) (last_is b'/' (scheme ++ (0 ∷ rest))) _ _ refl refl,
)

set_base_url-IsScheme : (server : Bytes) → c_string server ≡ scheme → IsScheme (set_base_url server)
unfolding set_base_url last_is c_string
set_base_url-IsScheme server e = elim (c_string-cases server) [
  | inl whole ↦ rw (whole ∙ e) (scheme, refl, refl)
  | inr (rest, split) ↦ rw (split ∙ ap (λ t. t ++ (0 ∷ rest)) e) (set_base_url-scheme rest)
]

module _ (D : Doubles) where
  open D use {of_nat, scan}

  -- The base URL is the old one, or "http://".
  abbrev pub KeepsServer : Settings D → Settings D → Type 0
  KeepsServer s s' = (s'.base_url ≡ s.base_url) ⊎ (c_string s'.base_url ≡ scheme)

  set_server_lem :
      (server : Bytes) (s : Settings D)
      → (url : Bytes) × (set_server D server s ≡ some (record s { base_url = url }))
        × ((url ≡ s.base_url) ⊎ (c_string url ≡ scheme))
  unfolding set_server
  set_server_lem server s = elim (Bool-cases (bytes_eq (c_string server) scheme)) [
    | inl same ↦
        let (url, e, is) =
          set_base_url-IsScheme server (bytes_eq_sound (c_string server) scheme same) in
        (url, rw (same, e) refl, inr is)
    | inr other ↦ (s.base_url, rw other refl, inl refl)
  ]

  upgrade_fields :
      (path : Bytes) (s : Settings D)
      → ((upgrade D path s).base_url ≡ s.base_url)
        × ((upgrade D path s).ntp ≡ s.ntp)
        × ((upgrade D path s).seismometer ≡ s.seismometer)
        × ((upgrade D path s).tracing ≡ s.tracing)
  unfolding upgrade
  upgrade_fields [] s = (refl, refl, refl, refl)
  upgrade_fields (c ∷ path) s = (refl, refl, refl, refl)

  -- The trace is asked for, is not running, and cannot be started.
  abbrev pub Faults : Parts → Map → Settings D → Type 0
  Faults p params s =
      ((value : Bytes) × (find trace_key params ≡ some value))
      × (s.tracing ≡ false)
      × (p.can_trace ≡ false)

  -- But for the trace nothing changes.
  abbrev Same : Settings D → Settings D → Type 0
  Same s s' = (s'.base_url ≡ s.base_url) × (s'.ntp ≡ s.ntp) × (s'.seismometer ≡ s.seismometer)

  set_trace_lem :
      (opens : Bool) (t : Option Bytes) (s : Settings D)
      → ((s' : Settings D) × (set_trace D opens t s ≡ some s') × Same s s')
        ⊎ (((value : Bytes) × (t ≡ some value))
            × (s.tracing ≡ false)
            × (opens ≡ false)
            × (set_trace D opens t s ≡ none))
  unfolding set_trace
  set_trace_lem opens none s = inl (s, refl, (refl, refl, refl))
  set_trace_lem opens (some v) s = elim (Bool-cases s.tracing) [
    | inl on ↦ inl (s, if_true _ _ on, (refl, refl, refl))
    | inr off ↦ elim (Bool-cases opens) [
      | inl there ↦ inl (_, if_false _ _ off ∙ if_true _ _ there, (refl, refl, refl))
      | inr gone ↦ inr ((v, refl), off, gone, if_false _ _ off ∙ if_false _ _ gone)
    ]
  ]

  -- The number of deviations in the answer, or the old one.
  abbrev pub sigma_of : Option Bytes → D.Double → D.Double
  sigma_of none old = old
  sigma_of (some value) old = scan (c_string value)

  -- The statistics start again, under the answer's sigma; the threshold stays until new values come.
  abbrev pub IsRestarted : Option Bytes → Seismometer D → Seismometer D → Type 0
  IsRestarted sigma m m' =
      (m'.elements ≡ 0)
      × (m'.partial_avg ≡ of_nat 0)
      × (m'.partial_std_dev ≡ of_nat 0)
      × (m'.sigma_iter ≡ sigma_of sigma m.sigma_iter)
      × (m'.quake_threshold ≡ m.quake_threshold)

  set_sigma-IsRestarted :
      (sigma : Option Bytes) (m : Seismometer D) → IsRestarted sigma m (set_sigma D sigma m)
  unfolding set_sigma set_sigma_iter reset_last_period
  set_sigma-IsRestarted none m = (refl, refl, refl, refl, refl)
  set_sigma-IsRestarted (some v) m = (refl, refl, refl, refl, refl)

  abbrev pub Applied : Map → Settings D → Settings D → Type 0
  Applied params s s' =
      KeepsServer s s'
      × (s'.ntp ≡ set_ntp_server (value_at ntpserver_key params) s.ntp)
      × IsRestarted (find sigma_key params) s.seismometer s'.seismometer

  apply_rest_lem :
      (p : Parts) (params : Map) (s : Settings D)
      → ((s' : Settings D) × (apply_rest D p params s ≡ some (s', useful)) × Applied params s s')
        ⊎ (Faults p params s × (apply_rest D p params s ≡ none))
  unfolding apply_rest set_server
  apply_rest_lem p params s =
      let (url, served, keeps) = set_server_lem (value_at server_key params) s in
      let t : Settings D = record s {
        base_url = url;
        ntp = set_ntp_server (value_at ntpserver_key params) s.ntp;
        seismometer = set_sigma D (find sigma_key params) s.seismometer;
      } in
      elim (set_trace_lem p.can_trace (find trace_key params) t) [
        | inl (t', e, (same_url, same_ntp, same_m)) ↦ inl (
          t',
          rw (served, e) refl,
          (
            subst (λ (u : Bytes). (u ≡ s.base_url) ⊎ (c_string u ≡ scheme)) (sym same_url) keeps,
            same_ntp,
            subst (IsRestarted (find sigma_key params) s.seismometer) (sym same_m)
                (set_sigma-IsRestarted (find sigma_key params) s.seismometer),
          ),
        )
        | inr (asked, off, gone, e) ↦ inr ((asked, off, gone), rw (served, e) refl)
      ]

  -- What may become of the settings for some entries of the answer.
  abbrev pub Handled : Parts → Map → Settings D → Option (Settings D × Verdict) → Type 0
  Handled p params s o =
      ((returns p (value_at path_key params) ≡ false)
        × ((s' : Settings D) × (o ≡ some (s', restarting)) × Same s s'))
      ⊎ ((returns p (value_at path_key params) ≡ true)
          × (((s' : Settings D) × (o ≡ some (s', useful)) × Applied params s s')
              ⊎ (Faults p params s × (o ≡ none))))

  apply_params-Handled :
      (p : Parts) (params : Map) (s : Settings D) → Handled p params s (apply_params D p params s)
  unfolding apply_params
  apply_params-Handled p params s =
      let path = value_at path_key params in
      let t = upgrade D path s in
      let (same_url, same_ntp, same_m, same_trace) = upgrade_fields path s in
      elim (Bool-cases (returns p path)) [
        | inr gone ↦ inl (gone, (t, if_false _ _ gone, (same_url, same_ntp, same_m)))
        | inl back ↦
            let here : apply_params D p params s ≡ apply_rest D p params t = if_true _ _ back in
            elim (apply_rest_lem p params t) [
              | inl (s', e, (keeps, ntp_is, m_is)) ↦ inr (
                back,
                inl (
                  s',
                  here ∙ e,
                  (
                    subst (λ (old : Bytes). (s'.base_url ≡ old) ⊎ (c_string s'.base_url ≡ scheme))
                        same_url keeps,
                    ntp_is ∙ ap (set_ntp_server (value_at ntpserver_key params)) same_ntp,
                    subst (λ m. IsRestarted (find sigma_key params) m s'.seismometer) same_m m_is,
                  ),
                ),
              )
              | inr ((asked, off, gone), e) ↦
                  inr (back, inr ((asked, sym same_trace ∙ off, gone), here ∙ e))
            ]
      ]

  -- The client failed; or the answer is of no use and nothing changes; or its entries are handled.
  abbrev pub Checked : Parts → Option Bytes → Settings D → Option (Settings D × Verdict) → Type 0
  Checked p none s o = o ≡ none
  Checked p (some cfg) s o =
      ((config_split cfg b'|' ≡ []) × (o ≡ some (s, useless)))
      ⊎ ((config_split cfg b'|' ≢ []) × Handled p (config_split cfg b'|') s o)

  pub apply_config-Checked :
      (p : Parts) (cfg : Option Bytes) (s : Settings D) → Checked p cfg s (apply_config D p cfg s)
  unfolding apply_config apply_some
  apply_config-Checked p none s = refl
  apply_config-Checked p (some []) s = inl (unfold config_split in refl, refl)
  apply_config-Checked p (some (c ∷ cfg)) s = some_Checked (config_split (c ∷ cfg) b'|')
    where
      some_Checked :
          (params : Map)
          → ((params ≡ []) × (apply_some D p params s ≡ some (s, useless)))
            ⊎ ((params ≢ []) × Handled p params s (apply_some D p params s))
      some_Checked [] = inl (refl, refl)
      some_Checked (e ∷ params) =
          inr ((λ q. ground (arith, q)), apply_params-Handled p (e ∷ params) s)

  -- Whatever the server answers, `checkServerConfig` faults exactly where its client does, or where
  -- the answer asks for a trace that is not running, the trace file cannot be opened and no upgrade
  -- has restarted the device before. An answer without an entry changes nothing. One that names an
  -- upgrade, on a platform where that does not return, changes nothing else before. Any other restarts
  -- the statistics with the sigma that it names (or the old one), sets the time server to the one that
  -- it names (to none, where it names none) and leaves the clock, and leaves the base URL as it is or
  -- makes it "http://": it never moves the device to another server.
  pub check_server_config-Checked :
      (p : Parts) (x : Exchange) (v : Alive) (s : Settings D)
      → Checked p (get_config x s.base_url v) s (check_server_config D p x v s)
  unfolding check_server_config
  check_server_config-Checked p x v s = apply_config-Checked p (get_config x s.base_url v) s
