-- ===== src/Watchdog/Crash/Stored.antt =====
-- A crash report from the watchdog to the server.
use galileo_terremoti.Base.{
  ◌∷◌, ℕ, ◌≤◌, ◌<◌, ◌≡◌, ◌∙◌, refl, ap, true, false, Option, none, some, ◌>>=◌, [], ◌++◌, Bytes,
  arith, length, take, take_all, c_string, if_true, bytes_eq, bytes_eq_refl, IsText,
  c_string-IsText, if_false,
}
use galileo_terremoti.Files.{put_file}
use galileo_terremoti.Net.Http.{Host, Exchange, HttpResponse, host_from_url}
use galileo_terremoti.Net.Http.Upload.{upload_text, http_post_file}
use galileo_terremoti.Net.Http.Crash.{answered, http_post_file-sent}
use galileo_terremoti.Watchdog.Crash.Lines.{
  AreTexts, read_report, report_values, read_report-info_text,
}
use galileo_terremoti.Watchdog.Crash.{
  CrashInfo, CrashFiles, info_text, crash_name, trace_title, core_title, buffered, trace_part,
  core_part, store_crash_infos,
}

-- A file that is there adds its title and its text.
abbrev pub titled : Bytes → Option Bytes → Bytes
titled title none = []
titled title (some content) = title ++ content

-- A text that fits the array.
abbrev pub FitsBuffer : Option Bytes → Type 0
FitsBuffer none = Unit {0}
FitsBuffer (some content) = IsText content × (length content < 1024)

abbrev pub FitsMemory : ℕ → Option Bytes → Type 0
FitsMemory memory none = Unit {0}
FitsMemory memory (some content) = length content ≤ memory

buffered_lem :
    (content : Bytes) → IsText content → length content < 1024 → buffered content ≡ some content
unfolding buffered
buffered_lem content t h =
    let whole : c_string (take 1024 content) ≡ content =
      ap c_string (take_all 1024 content (omega arith)) ∙ c_string-IsText content t in
    rw whole (ground (arith, h))

trace_part_lem :
    (x : CrashInfo) (o : Option Bytes)
    → x.can_read_trace ≡ true
    → FitsBuffer o
    → trace_part x o ≡ some (titled trace_title o)
unfolding trace_part
trace_part_lem x none r f = refl
trace_part_lem x (some content) r (t, h) =
    if_true _ _ r ∙ ap (λ o. o >>= λ text. some (trace_title ++ text)) (buffered_lem content t h)

core_part_lem :
    (x : CrashInfo) (o : Option Bytes)
    → x.can_read_core ≡ true
    → FitsMemory x.memory o
    → core_part x o ≡ some (titled core_title o)
unfolding core_part
core_part_lem x none r f = refl
core_part_lem x (some content) r f = ground (arith, f, r)

-- The report that the watchdog stores.
abbrev pub report : CrashInfo → Bytes → CrashFiles → Bytes
report x reason s =
    info_text x reason ++ (titled trace_title s.stack_trace ++ titled core_title s.core)

abbrev pub stored : CrashInfo → Bytes → CrashFiles → CrashFiles
stored x reason s = record {
  crashes = put_file s.crashes (crash_name x) (some (report x reason s));
  stack_trace = none;
  core = none;
}

store_crash_infos_lem :
    (x : CrashInfo) (reason : Bytes) (s : CrashFiles)
    → x.can_open ≡ true
    → x.can_read_trace ≡ true
    → x.can_read_core ≡ true
    → FitsBuffer s.stack_trace
    → FitsMemory x.memory s.core
    → store_crash_infos x reason s ≡ some (stored x reason s)
unfolding store_crash_infos
store_crash_infos_lem x reason s o t c f m =
    if_true _ _ o ∙ rw (trace_part_lem x s.stack_trace t f, core_part_lem x s.core c m) refl

-- "Crash infos:" and "Core dump:" in lines of their own.
abbrev crash_line : Bytes
crash_line =
    b'C' ∷ b'r' ∷ b'a' ∷ b's' ∷ b'h' ∷ 32 ∷ b'i' ∷ b'n' ∷ b'f' ∷ b'o' ∷ b's' ∷ b':' ∷ b'\n' ∷ []

abbrev core_line : Bytes
core_line = b'C' ∷ b'o' ∷ b'r' ∷ b'e' ∷ 32 ∷ b'd' ∷ b'u' ∷ b'm' ∷ b'p' ∷ b':' ∷ b'\n' ∷ []

-- A reader of the body finds the eight values, then the texts of the two files.
abbrev pub IsReport : CrashInfo → Bytes → CrashFiles → Bytes → Type 0
IsReport x reason s body =
    read_report 8 body
    ≡ (report_values x reason, titled crash_line s.stack_trace ++ titled core_line s.core)

-- After a crash the watchdog stores one report, and removes the stack trace and the core dump; every
-- other report stays as it was. A reader that cuts the report at its ends of line, and each of its
-- first eight lines at its first colon, finds under their names the MAC address, the time, the free
-- RAM, the uptime, the platform, the build, the software's version and the reason, and behind them
-- the stack trace and the core dump, each behind its title and only when there is one. When that
-- report is uploaded later, over a connection that brings a response, this text is sent as the body
-- of the request. (The report, the stack trace and the core dump can be opened; the texts of the
-- eight lines hold no end of line; the stack trace has less than 1024 characters and no zero byte;
-- the core dump and the report fit the memory, and the host's name in the URL its buffer.)
pub store_crash_infos-http_post_file :
    (x : CrashInfo) (reason : Bytes) (s : CrashFiles) (e : Exchange) (url : Bytes) (h : Host)
    (resp : HttpResponse)
    → AreTexts x reason
    → x.can_open ≡ true
    → x.can_read_trace ≡ true
    → x.can_read_core ≡ true
    → FitsBuffer s.stack_trace
    → FitsMemory x.memory s.core
    → host_from_url (c_string url) 80 ≡ some h
    → e.connects ≡ true
    → answered e e.answer ≡ some resp
    → length (report x reason s) ≤ e.memory
    → (s' : CrashFiles) × (body : Bytes) × (store_crash_infos x reason s ≡ some s')
      × (s'.stack_trace ≡ none)
      × (s'.core ≡ none)
      × ((name : Bytes) → bytes_eq (crash_name x) name ≡ false → s'.crashes name ≡ s.crashes name)
      × (s'.crashes (crash_name x) ≡ some body)
      × IsReport x reason s body
      × (http_post_file e url (s'.crashes (crash_name x))
          ≡ some (some (upload_text (c_string url) h body, resp)))
store_crash_infos-http_post_file x reason s e url h resp lines o t c f m found connects a fits =
    let here : (stored x reason s).crashes (crash_name x) ≡ some (report x reason s) =
      if_true _ _ (bytes_eq_refl (crash_name x)) in
    (
      stored x reason s,
      report x reason s,
      store_crash_infos_lem x reason s o t c f m,
      refl,
      refl,
      (λ name other. if_false _ _ other),
      here,
      read_report-info_text x reason _ lines,
      ap (http_post_file e url) here
          ∙ http_post_file-sent e url (report x reason s) h resp found connects a fits,
    )
