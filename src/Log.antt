-- ===== src/Log.antt =====
-- Log.cpp: the logger. A message stands here as the text that `vsnprintf` makes of it; the date
-- and the interface's address are arguments. The files are those of `Files`; whether `fopen` for
-- writing succeeds is a parameter of the state. Writes to the open file are appended to its text.
pub mod Rotate
pub mod Filter
pub mod Syslog
use galileo_terremoti.Base.{
  ℕ, ◌+◌, ◌*◌, Bool, true, false, Option, none, some, List, [], ◌∷◌, ◌++◌, Bytes, take, length, ltb,
  ◌==◌, if◌then◌else◌, c_string, decimal,
}
use galileo_terremoti.Files.{Files, put_file, file_exists, unlink, rename}

pub data LogLevel : Type 0 where
  debug info error : LogLevel

-- `LEVEL_DEBUG = 0, LEVEL_INFO = 1, LEVEL_ERROR = 2`.
abbrev pub rank : LogLevel → ℕ
rank debug = 0
rank info = 1
rank error = 2

pub record Logger : Type 0 where
  pub syslog_server : ℕ
  pub syslog_enabled : Bool
  -- The file that is open, by its path.
  pub log_file : Option Bytes
  pub log_file_path : Bytes
  pub log_level : LogLevel
  pub stdout_debug : Bool
  pub files : Files
  pub can_open : Bytes → Bool
  -- What went out: lines on the standard output, and packets to a syslog server.
  pub printed : List Bytes
  pub sent : List (ℕ × Bytes)

-- `setSyslogServer`.
unfoldable pub set_syslog_server : Logger → ℕ → Logger
set_syslog_server s server =
    if server == 0
    then record s { syslog_enabled = false }
    else record s { syslog_server = server; syslog_enabled = true }

-- `updateFromConfig`, with `Config::getSyslogServer()`.
unfoldable pub update_from_config : ℕ → Logger → Logger
update_from_config server s = record s {
  syslog_server = server;
  syslog_enabled = (if server == 0 then false else true);
}

-- ".old".
abbrev pub old_suffix : Bytes
old_suffix = b'.' ∷ b'o' ∷ b'l' ∷ b'd' ∷ []

-- The old text is moved to ".old" before the path is opened anew.
unfoldable pub keep_old : Files → Bytes → Files
unfolding file_exists unlink rename
keep_old fs path =
    if file_exists fs path
    then rename (unlink fs (path ++ old_suffix)) path (path ++ old_suffix)
    else fs

-- `setLogFile`. Opening for writing empties the file.
unfoldable pub set_log_file : Logger → Bytes → Logger
unfolding keep_old
set_log_file s path =
    let files = keep_old s.files path in
    if s.can_open path
    then record s {
      files = put_file files path (some []);
      log_file = some path;
      log_file_path = path;
    }
    else record s { files = files; log_file = none; log_file_path = [] }

unfoldable pub rotate : Logger → Logger
unfolding set_log_file
rotate s = set_log_file s s.log_file_path

unfoldable pub close : Logger → Logger
close s = record s { log_file = none }

abbrev pub level_letter : LogLevel → ℕ
level_letter debug = b'D'
level_letter info = b'I'
level_letter error = b'E'

-- Facility 16, and the severity of the level.
abbrev pub priority : LogLevel → ℕ
priority debug = 16 * 8 + 7
priority info = 16 * 8 + 6
priority error = 16 * 8 + 2

-- What stands on the line beside the message.
pub record Stamp : Type 0 where
  pub date_time : Bytes
  pub mac_address : Bytes
  pub interface_mac : Bytes

-- `[date] [level] [address] message`, and the packet for the syslog server, before they are cut.
abbrev pub entry_text : Stamp → LogLevel → Bytes → Bytes
entry_text t level message =
    let mac = if ltb 0 (length t.mac_address) then t.mac_address else t.interface_mac in
    b'['
    ∷ (t.date_time
        ++ (b']'
            ∷ 32
            ∷ b'['
            ∷ level_letter level
            ∷ b']'
            ∷ 32
            ∷ b'['
            ∷ (mac ++ (b']' ∷ 32 ∷ take 1023 message))))

abbrev pub packet_text : LogLevel → Bytes → Bytes
packet_text level entry = b'<' ∷ (decimal (priority level) ++ (b'>' ∷ entry))

-- `snprintf` keeps 1023 characters.
unfoldable pub log_entry : Stamp → LogLevel → Bytes → Bytes
log_entry t level message = take 1023 (entry_text t level message)

print_entry : Bytes → Logger → Logger
print_entry entry s =
    if s.stdout_debug then record s { printed = (entry ++ b'\n' ∷ []) ∷ s.printed } else s

send_entry : LogLevel → Bytes → Logger → Logger
send_entry level entry s =
    if s.syslog_enabled
    then record s { sent = (s.syslog_server, take 1023 (packet_text level entry)) ∷ s.sent }
    else s

append_entry : Bytes → Logger → Logger
append_entry entry s = elim s.log_file [
  | none ↦ s
  | some path ↦ elim (s.files path) [
    | none ↦ s
    | some text ↦ record s { files = put_file s.files path (some (text ++ (entry ++ b'\n' ∷ []))) }
  ]
]

-- `log`.
unfoldable pub log : Stamp → LogLevel → Bytes → Logger → Logger
unfolding print_entry send_entry append_entry
log t level message s =
    let entry = log_entry t level message in
    if ltb (rank level) (rank s.log_level)
    then s
    else append_entry entry (send_entry level entry (print_entry entry s))
