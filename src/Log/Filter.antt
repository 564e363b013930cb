-- ===== src/Log/Filter.antt =====
-- Which messages reach the log file.
use galileo_terremoti.Base.{
  ◌≡◌, ◌∙◌, some, List, [], ◌∷◌, ◌++◌, append-nil, append_assoc, Bytes, arith, ltb, if◌then◌else◌,
  bytes_eq_refl,
}
use galileo_terremoti.Log.{Logger, LogLevel, rank, Stamp, log, log_entry}

pub record Message : Type 0 where
  pub stamp : Stamp
  pub level : LogLevel
  pub text : Bytes

unfoldable pub log_all : List Message → Logger → Logger
log_all [] s = s
log_all (m ∷ ms) s = log_all ms (log m.stamp m.level m.text s)

-- The lines of the messages whose level is at least the logger's.
abbrev pub kept_lines : LogLevel → List Message → Bytes
kept_lines level [] = []
kept_lines level (m ∷ ms) =
    (if ltb (rank m.level) (rank level) then [] else log_entry m.stamp m.level m.text ++ b'\n' ∷ [])
    ++ kept_lines level ms

log_fields :
    (t : Stamp) (level : LogLevel) (message : Bytes) (s : Logger)
    → ((log t level message s).log_level ≡ s.log_level)
      × ((log t level message s).log_file ≡ s.log_file)
unfolding log
log_fields t level message s = ground arith

log-files :
    (t : Stamp) (level : LogLevel) (message path text : Bytes) (s : Logger)
    → s.log_file ≡ some path
    → s.files path ≡ some text
    → (log t level message s).files path
      ≡ some (
          text
          ++ (if ltb (rank level) (rank s.log_level)
              then []
              else log_entry t level message ++ b'\n' ∷ []))
unfolding log
log-files t level message path text s f e = ground (arith, bytes_eq_refl path, append-nil text)

-- After any run of messages the open log file holds its old text and then, in order, one line for
-- each message whose level is at least the configured one, and nothing for the others.
pub log_all-files :
    (ms : List Message) (path text : Bytes) (s : Logger)
    → s.log_file ≡ some path
    → s.files path ≡ some text
    → (log_all ms s).files path ≡ some (text ++ kept_lines s.log_level ms)
unfolding log_all
log_all-files [] path text s f e = rw append-nil e
log_all-files (m ∷ ms) path text s f e =
    let (level, file) = log_fields m.stamp m.level m.text s in
    log_all-files ms path _ (log m.stamp m.level m.text s) (file ∙ f)
      (log-files m.stamp m.level m.text path text s f e)
    ∙ rw (level, append_assoc)
