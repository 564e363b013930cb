-- ===== src/Watchdog/Crash.antt =====
-- Watchdog.cpp: the reason of a reboot in `launch`, and `storeCrashInfos` of debug builds. The crash
-- directory is a `Files` by the names of its entries. What other parts say is a `CrashInfo`. `none`
-- is a fault: a text read past its array, or memory that is not there.
pub mod Lines
pub mod Stored
use galileo_terremoti.Base.{
  ℕ, ◌+◌, Bool, true, false, not, Option, none, some, ◌>>=◌, List, [], ◌∷◌, ◌++◌, Bytes, ltb, leb,
  if◌then◌else◌, length, take, c_string, decimal,
}
use galileo_terremoti.Files.{Files, put_file}

-- "Heartbeat missed;" and "Sketch is not running".
abbrev pub missed_text : Bytes
missed_text =
    b'H' ∷ b'e' ∷ b'a' ∷ b'r' ∷ b't' ∷ b'b' ∷ b'e' ∷ b'a' ∷ b't' ∷ 32 ∷ b'm' ∷ b'i' ∷ b's' ∷ b's'
    ∷ b'e' ∷ b'd' ∷ b';' ∷ []

abbrev pub stopped_text : Bytes
stopped_text =
    b'S' ∷ b'k' ∷ b'e' ∷ b't' ∷ b'c' ∷ b'h' ∷ 32 ∷ b'i' ∷ b's' ∷ 32 ∷ b'n' ∷ b'o' ∷ b't' ∷ 32 ∷ b'r'
    ∷ b'u' ∷ b'n' ∷ b'n' ∷ b'i' ∷ b'n' ∷ b'g' ∷ []

-- The reason, of whether the process runs and whether its beat was seen.
unfoldable pub reboot_reason : Bool → Bool → Bytes
reboot_reason running heartbeat =
    (if not heartbeat then missed_text else []) ++ (if running then stopped_text else [])

pub record CrashInfo : Type 0 where
  pub mac_address : Bytes
  -- `time(NULL)` in the text and in the file's name.
  pub now : ℕ
  pub named_at : ℕ
  pub free_ram : ℕ
  pub uptime : ℕ
  pub platform_tag : Bytes
  pub build_version : Bytes
  pub software_version : Bytes
  -- Whether the report, the stack trace and the core dump can be opened.
  pub can_open : Bool
  pub can_read_trace : Bool
  pub can_read_core : Bool
  -- The largest block that `malloc` grants.
  pub memory : ℕ

pub record CrashFiles : Type 0 where
  pub crashes : Files
  -- `STACKTRACEINFO` and "/media/realroot/core".
  pub stack_trace : Option Bytes
  pub core : Option Bytes

-- `key:value` and a line end.
abbrev pub info_line : Bytes → Bytes → Bytes
info_line key value = key ++ (b':' ∷ (value ++ b'\n' ∷ []))

-- "mac", "time", "freeram", "uptime", "platform", "buildversion", "softwareversion" and "reason".
abbrev pub info_text : CrashInfo → Bytes → Bytes
info_text x reason =
    info_line (b'm' ∷ b'a' ∷ b'c' ∷ []) x.mac_address
    ++ (info_line (b't' ∷ b'i' ∷ b'm' ∷ b'e' ∷ []) (decimal x.now)
        ++ (info_line (b'f' ∷ b'r' ∷ b'e' ∷ b'e' ∷ b'r' ∷ b'a' ∷ b'm' ∷ []) (decimal x.free_ram)
            ++ (info_line (b'u' ∷ b'p' ∷ b't' ∷ b'i' ∷ b'm' ∷ b'e' ∷ []) (decimal x.uptime)
                ++ (info_line (b'p' ∷ b'l' ∷ b'a' ∷ b't' ∷ b'f' ∷ b'o' ∷ b'r' ∷ b'm' ∷ [])
                      x.platform_tag
                    ++ (info_line
                          (b'b' ∷ b'u' ∷ b'i' ∷ b'l' ∷ b'd' ∷ b'v' ∷ b'e' ∷ b'r' ∷ b's' ∷ b'i'
                            ∷ b'o' ∷ b'n' ∷ [])
                          x.build_version
                        ++ (info_line
                              (b's' ∷ b'o' ∷ b'f' ∷ b't' ∷ b'w' ∷ b'a' ∷ b'r' ∷ b'e' ∷ b'v' ∷ b'e'
                                ∷ b'r' ∷ b's' ∷ b'i' ∷ b'o' ∷ b'n' ∷ [])
                              x.software_version
                            ++ info_line (b'r' ∷ b'e' ∷ b'a' ∷ b's' ∷ b'o' ∷ b'n' ∷ []) reason))))))

-- The name of the report: the time and ".dat".
abbrev pub crash_name : CrashInfo → Bytes
crash_name x = decimal x.named_at ++ b'.' ∷ b'd' ∷ b'a' ∷ b't' ∷ []

-- "Crash infos:" and "Core dump:", with their line ends.
abbrev pub trace_title : Bytes
trace_title =
    b'C' ∷ b'r' ∷ b'a' ∷ b's' ∷ b'h' ∷ 32 ∷ b'i' ∷ b'n' ∷ b'f' ∷ b'o' ∷ b's' ∷ b':' ∷ b'\n' ∷ []

abbrev pub core_title : Bytes
core_title = b'C' ∷ b'o' ∷ b'r' ∷ b'e' ∷ 32 ∷ b'd' ∷ b'u' ∷ b'm' ∷ b'p' ∷ b':' ∷ b'\n' ∷ []

-- The text in an array of 1024 bytes, zeroed before the file was read into it; without a zero byte
-- `strlen` runs past its end.
unfoldable pub buffered : Bytes → Option Bytes
buffered content =
    let text = c_string (take 1024 content) in if ltb (length text) 1024 then some text else none

-- What the stack trace and the core dump add to the report.
unfoldable pub trace_part : CrashInfo → Option Bytes → Option Bytes
unfolding buffered
trace_part x none = some []
trace_part x (some content) =
    let read = buffered content >>= λ text. some (trace_title ++ text) in
    if x.can_read_trace then read else some trace_title

unfoldable pub core_part : CrashInfo → Option Bytes → Option Bytes
core_part x none = some []
core_part x (some content) =
    if leb (length content) x.memory
    then some (core_title ++ (if x.can_read_core then content else []))
    else none

-- `storeCrashInfos`.
unfoldable pub store_crash_infos : CrashInfo → Bytes → CrashFiles → Option CrashFiles
unfolding trace_part core_part
store_crash_infos x reason s =
    let store = (do
      trace ← trace_part x s.stack_trace
      core ← core_part x s.core
      some (record {
        crashes = put_file s.crashes (crash_name x) (some (info_text x reason ++ (trace ++ core)));
        stack_trace = none;
        core = none;
      })) in
    if x.can_open then store else some s
