-- ===== src/Net/Ntp/Clock.antt =====
-- The time that the NTP client keeps between two synchronisations.
use galileo_terremoti.Base.{
  ◌+◌, ◌-◌, ◌/◌, ◌%◌, ◌^◌, ◌≤◌, ◌<◌, ◌≡◌, ◌∙◌, ap, some, Bytes, drop, word_sub, List, sym, ◌∷◌,
  ◌>>=◌, [], some_inj, bind_some,
}
use galileo_terremoti.Utils.{hton64, trim}
use galileo_terremoti.Utils.Clock.{Timespec, millis, total_ms, millis-word_sub}
use galileo_terremoti.Net.Ntp.{
  Ntp, Attempt, jan_1970, get_unix_time, set_time, exec_system_time_update,
}

-- The update of the system's clock leaves the client's alone.
exec_kept : (ls : List Bytes) (s s' : Ntp) → exec_system_time_update ls s ≡ some s' → s' ≡ s
unfolding exec_system_time_update
exec_kept [] s s' e = sym (some_inj e)
exec_kept (l ∷ ls) s s' e =
    let (line, _, f) =
      bind_some (trim b'\r' l >>= trim b'\n' >>= trim 32) (λ line. exec_system_time_update ls s) s'
        e in
    exec_kept ls s s' f

-- Where `unsigned long` has 32 bits, the time that `getUNIXTime` tells after a reply is the reply's
-- time and the whole seconds that the system's clock has counted since, also when the counter of
-- milliseconds has wrapped in between. (The system's clock does not run backwards, and less than 2^32
-- milliseconds, about 49 days, have passed; the reply was taken without an exception.)
pub get_unix_time-set_time :
    (a : Attempt) (p : Bytes) (s s' : Ntp) (t u : Timespec)
    → set_time 32 a p s ≡ some s'
    → a.now ≡ millis t
    → total_ms t ≤ total_ms u
    → total_ms u - total_ms t < 2 ^ 32
    → get_unix_time 32 (millis u) s'
      ≡ (word_sub 32 (hton64 (drop 40 p)) jan_1970 + (total_ms u - total_ms t) / 1000) % 2 ^ 32
unfolding get_unix_time set_time
get_unix_time-set_time a p s s' t u e n h k =
    let ts = word_sub 32 (hton64 (drop 40 p)) jan_1970 in
    let set : Ntp = record s { unix_time_ts = ts; unix_time_update = a.now } in
    ap (get_unix_time 32 (millis u)) (exec_kept a.printed set s' e)
    ∙ ap (λ m. (ts + word_sub 32 (millis u) m / 1000) % 2 ^ 32) n
    ∙ ap (λ m. (ts + m / 1000) % 2 ^ 32) (millis-word_sub t u h k)
