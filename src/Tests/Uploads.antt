-- ===== src/Tests/Uploads.antt =====
-- Crash reports: ".", one that the server takes, and one for which there is no connection.
use galileo_terremoti.Base.{
  ◌≡◌, refl, true, false, some, none, [], ◌∷◌, Bytes, arith, List, if◌then◌else◌, starts_with,
  c_string, read_digits, ℕ, ◌>>=◌, ◌++◌, to_bytes, decimal, bytes_eq,
}
use galileo_terremoti.Config.{is_space}
use galileo_terremoti.Config.Split.{find}
use galileo_terremoti.Files.{Files}
use galileo_terremoti.Net.Http.{Exchange, HttpResponse, http_ok, host_from_url, read_reply}
use galileo_terremoti.Net.Http.Upload.{Report, send_reports, http_post_file, upload_text}
use galileo_terremoti.Net.Http.Crash.{
  outcome, answered, is_delivered, Fits, send_reports-is_delivered,
}
use galileo_terremoti.Floats.{whole}
use galileo_terremoti.Net.TraceAccumulator.{
  Trace, World, Sample, head, set_trace, sample_bytes, word_bytes,
}
use galileo_terremoti.Net.TraceAccumulator.Read.{read_trace, all_values, read_trace-trace_all}
use galileo_terremoti.Net.TraceAccumulator.Record.{
  trace_all, samples_bytes, sent_trace, trace_all-sent,
}
use galileo_terremoti.Watchdog.Crash.{
  CrashInfo, CrashFiles, stopped_text, crash_name, store_crash_infos,
}
use galileo_terremoti.Watchdog.Crash.Stored.{IsReport, store_crash_infos-http_post_file}
use galileo_terremoti.Net.Http.Sent.{NoneIs-lacks}

-- "HTTP/1.1 200" and an empty line.
abbrev answer : Bytes
answer =
    b'H' ∷ b'T' ∷ b'T' ∷ b'P' ∷ b'/' ∷ b'1' ∷ b'.' ∷ b'1' ∷ 32 ∷ b'2' ∷ b'0' ∷ b'0' ∷ b'\r' ∷ b'\n'
    ∷ b'\r' ∷ b'\n' ∷ []

abbrev taken : Exchange
taken = record {
  word = 32;
  signed = true;
  memory = 100;
  connects = true;
  answer = some answer;
  ready = 100;
}

abbrev refused : Exchange
refused = record taken { connects = false }

abbrev url : Bytes
url = b's' ∷ b'/' ∷ []

abbrev files : Files
files p = some (b'x' ∷ [])

abbrev reports : List Report
reports =
    record { name = b'.' ∷ []; exchange = taken }
    ∷ record { name = b'1' ∷ []; exchange = taken }
    ∷ record { name = b'2' ∷ []; exchange = refused }
    ∷ []

abbrev ok_response : HttpResponse
ok_response = record { error = http_ok; response_code = 200; headers = []; body = none }

abbrev taken_ok : outcome taken ≡ some ok_response
unfolding answered read_reply starts_with find c_string is_space read_digits
taken_ok = refl

abbrev host_found :
    host_from_url (c_string url) 80 ≡ some (record { name = b's' ∷ []; port = 80; offset = 1 })
unfolding host_from_url c_string starts_with
host_found = refl

small : Fits 100 files
small p text e = let same : b'x' ∷ [] ≡ text = inj e in rw (← same) (omega arith)
  where
    inj : {a b : Bytes} → some a ≡ some b → a ≡ b
    inj e = cc

send_reports-is_delivered_example :
    (files' : Files) × (send_reports url reports files ≡ some files')
    × ((p : Bytes) → files' p ≡ (if is_delivered p reports then none else files p))
send_reports-is_delivered_example =
    send_reports-is_delivered url (record { name = b's' ∷ []; port = 80; offset = 1 }) reports files
      host_found ((ok_response, taken_ok), ((ok_response, taken_ok), ((_, refl), tt)))
      (small, (small, (small, tt)))

abbrev quiet : Trace
quiet = record { file = none; is_open = false; started_at = 0; uploads = [] }

abbrev world : ℕ → World
world now = record { now = now; can_open = true; exchange = taken; url = url }

abbrev sample : Sample whole
sample = record { ts = 1500; val = 3; threshold = 5; avg = 2; stddev = 1; sigma = 3 }

trace_all-sent_example :
    (set_trace 8 (world 1000) true quiet
      >>= trace_all whole 8 ((world 1500, sample) ∷ (world 2000, sample) ∷ []))
    ≡ some (
        sent_trace url
          (record { name = b's' ∷ []; port = 80; offset = 1 })
          (head 8 ++ samples_bytes whole 8 ((world 1500, sample) ∷ []))
          quiet)
trace_all-sent_example =
    trace_all-sent whole 8 (world 1000) (world 2000) sample ((world 1500, sample) ∷ []) quiet
      (record { name = b's' ∷ []; port = 80; offset = 1 }) ok_response refl refl (omega arith)
      (omega arith, omega arith, omega arith, tt) (omega arith) (omega arith) host_found refl
      taken_ok (unfold sample_bytes word_bytes to_bytes in omega arith)

abbrev crash : CrashInfo
crash = record {
  mac_address = b'2' ∷ [];
  now = 5;
  named_at = 5;
  free_ram = 7;
  uptime = 9;
  platform_tag = b'd' ∷ [];
  build_version = b'1' ∷ [];
  software_version = b'2' ∷ [];
  can_open = true;
  can_read_trace = true;
  can_read_core = true;
  memory = 100;
}

abbrev crashed : CrashFiles
crashed = record { crashes = λ p. none; stack_trace = some (b'#' ∷ []); core = none }

-- A client with room for the whole report.
abbrev roomy : Exchange
roomy = record taken { memory = 1000 }

abbrev roomy_ok : answered roomy (some answer) ≡ some ok_response
unfolding answered read_reply starts_with find c_string is_space read_digits
roomy_ok = refl

store_crash_infos-http_post_file_example :
    (s' : CrashFiles) × (body : Bytes) × (store_crash_infos crash stopped_text crashed ≡ some s')
    × (s'.stack_trace ≡ none)
    × (s'.core ≡ none)
    × ((name : Bytes)
        → bytes_eq (crash_name crash) name ≡ false
        → s'.crashes name ≡ crashed.crashes name)
    × (s'.crashes (crash_name crash) ≡ some body)
    × IsReport crash stopped_text crashed body
    × (http_post_file roomy url (s'.crashes (crash_name crash))
        ≡ some (
            some (
              upload_text (c_string url) (record { name = b's' ∷ []; port = 80; offset = 1 }) body,
              ok_response,
            )))
unfolding decimal
store_crash_infos-http_post_file_example =
    store_crash_infos-http_post_file crash stopped_text crashed roomy url
      (record { name = b's' ∷ []; port = 80; offset = 1 }) ok_response
      (
        NoneIs-lacks b'\n' crash.mac_address refl,
        NoneIs-lacks b'\n' crash.platform_tag refl,
        NoneIs-lacks b'\n' crash.build_version refl,
        NoneIs-lacks b'\n' crash.software_version refl,
        NoneIs-lacks b'\n' stopped_text refl,
      )
      refl refl refl (((λ e. omega (arith, e)), tt), omega arith) tt host_found refl roomy_ok
      (omega arith)

read_trace-trace_all_example :
    (t' : Trace) × (text : Bytes) × ((set_trace 8 (world 1000) true quiet
        >>= trace_all whole 8 ((world 1500, sample) ∷ []))
      ≡ some t')
    × (t'.is_open ≡ true)
    × (t'.file ≡ some text)
    × (read_trace text ≡ some (all_values whole 8 ((world 1500, sample) ∷ [])))
read_trace-trace_all_example =
    read_trace-trace_all whole 8 (world 1000) ((world 1500, sample) ∷ []) quiet refl refl
      (omega arith, omega arith, omega arith, tt)
      ((omega arith, omega arith, omega arith, omega arith, omega arith, omega arith), tt)
