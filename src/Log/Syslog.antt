-- ===== src/Log/Syslog.antt =====
-- Which messages reach the syslog server.
use galileo_terremoti.Base.{
  ℕ, ◌≡◌, ◌∙◌, refl, ap, sym, true, false, List, [], ◌∷◌, ◌++◌, append_assoc, Bytes, arith, ltb,
  take, if◌then◌else◌,
}
use galileo_terremoti.Log.{Logger, LogLevel, rank, log, log_entry, packet_text}
use galileo_terremoti.Log.Filter.{Message, log_all}

-- The packet of a message, if its level is at least the logger's.
abbrev pub packet_of : ℕ → LogLevel → Message → List (ℕ × Bytes)
packet_of server level m =
    if ltb (rank m.level) (rank level)
    then []
    else (server, take 1023 (packet_text m.level (log_entry m.stamp m.level m.text))) ∷ []

-- Those of all messages, the newest first.
abbrev pub syslog_packets : ℕ → LogLevel → List Message → List (ℕ × Bytes)
syslog_packets server level [] = []
syslog_packets server level (m ∷ ms) = syslog_packets server level ms ++ packet_of server level m

log_kept :
    (m : Message) (s : Logger)
    → ((log m.stamp m.level m.text s).log_level ≡ s.log_level)
      × ((log m.stamp m.level m.text s).syslog_server ≡ s.syslog_server)
      × ((log m.stamp m.level m.text s).syslog_enabled ≡ s.syslog_enabled)
unfolding log
log_kept m s = ground arith

log-sent :
    (m : Message) (s : Logger)
    → s.syslog_enabled ≡ true
    → (log m.stamp m.level m.text s).sent ≡ packet_of s.syslog_server s.log_level m ++ s.sent
unfolding log
log-sent m s e = ground (arith, e)

log-silent :
    (m : Message) (s : Logger)
    → s.syslog_enabled ≡ false
    → (log m.stamp m.level m.text s).sent ≡ s.sent
unfolding log
log-silent m s e = ground (arith, e)

pub log_all-sent :
    (ms : List Message) (s : Logger)
    → s.syslog_enabled ≡ true
    → (log_all ms s).sent ≡ syslog_packets s.syslog_server s.log_level ms ++ s.sent
unfolding log_all
log_all-sent [] s e = refl
log_all-sent (m ∷ ms) s e =
    let (level, server, enabled) = log_kept m s in
    let later = log m.stamp m.level m.text s in
    log_all-sent ms later (enabled ∙ e)
    ∙ ap (λ a. syslog_packets a later.log_level ms ++ later.sent) server
    ∙ ap (λ l. syslog_packets s.syslog_server l ms ++ later.sent) level
    ∙ ap (◌++◌ (syslog_packets s.syslog_server s.log_level ms)) (log-sent m s e)
    ∙ sym (append_assoc (syslog_packets s.syslog_server s.log_level ms) _ s.sent)

pub log_all-silent :
    (ms : List Message) (s : Logger) → s.syslog_enabled ≡ false → (log_all ms s).sent ≡ s.sent
unfolding log_all
log_all-silent [] s e = refl
log_all-silent (m ∷ ms) s e =
    let (_, _, enabled) = log_kept m s in
    log_all-silent ms (log m.stamp m.level m.text s) (enabled ∙ e) ∙ log-silent m s e
