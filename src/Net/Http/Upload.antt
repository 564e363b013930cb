-- ===== src/Net/Http/Upload.antt =====
-- net/HTTPClient.cpp: `httpPostFile`, and the thread of debug builds that sends the crash reports.
-- `WATCHDOG_CRASHDIR` ends with a slash, so the path that the thread makes of a name is that of the
-- directory's entry: the directory is a `Files` by the names of its entries. The beats of the
-- watchdog while the client waits are left out.
use galileo_terremoti.Base.{
  ℕ, ◌-◌, ◌%◌, ◌^◌, Bool, false, ◌||◌, Option, none, some, ◌>>=◌, List, [], ◌∷◌, ◌++◌, Bytes, ltb,
  leb, ◌==◌, if◌then◌else◌, length, drop, c_string, decimal, bytes_eq,
}
use galileo_terremoti.Files.{Files, unlink}
use galileo_terremoti.Led.{Led, set_led_blinking, clear_led_blinking}
use galileo_terremoti.Net.Http.{
  Host, host_from_url, Exchange, HttpResponse, HttpError, http_ok, http_connection_timeout, failed,
}
use galileo_terremoti.Net.Http.Request.{
  println, line_text, method_text, http_post, version_text, host_text, close_text, length_text,
  respond,
}

-- "Content-Type: application/octet-stream".
abbrev pub octets_text : Bytes
octets_text =
    b'C' ∷ b'o' ∷ b'n' ∷ b't' ∷ b'e' ∷ b'n' ∷ b't' ∷ b'-' ∷ b'T' ∷ b'y' ∷ b'p' ∷ b'e' ∷ b':' ∷ 32
    ∷ b'a' ∷ b'p' ∷ b'p' ∷ b'l' ∷ b'i' ∷ b'c' ∷ b'a' ∷ b't' ∷ b'i' ∷ b'o' ∷ b'n' ∷ b'/' ∷ b'o'
    ∷ b'c' ∷ b't' ∷ b'e' ∷ b't' ∷ b'-' ∷ b's' ∷ b't' ∷ b'r' ∷ b'e' ∷ b'a' ∷ b'm' ∷ []

-- `Utils::toString((int) size)`.
unfoldable pub int_text : ℕ → Bytes
int_text size =
    let n = size % 2 ^ 32 in if ltb n (2 ^ 31) then decimal n else b'-' ∷ decimal (2 ^ 32 - n)

-- What `httpPostFile` writes.
unfoldable pub upload_text : Bytes → Host → Bytes → Bytes
unfolding int_text
upload_text url h content =
    line_text (method_text http_post ++ (32 ∷ (drop h.offset url ++ version_text)))
    ++ (line_text
          (host_text ++ (if h.port == 80 then h.name else h.name ++ (b':' ∷ decimal h.port)))
        ++ (println octets_text
            ++ (println close_text
                ++ (println (length_text ++ int_text (length content))
                    ++ (println [] ++ content)))))

-- `httpPostFile` on what the file holds, if it is there and can be read: what was written and the
-- response, or NULL. The file is first read into a block of its size.
unfoldable pub http_post_file :
    Exchange → Bytes → Option Bytes → Option (Option (Bytes × HttpResponse))
unfolding upload_text respond
http_post_file x url none = some none
http_post_file x url (some content) = do
  h ← host_from_url (c_string url) 80
  let exchange = respond x x.answer (upload_text (c_string url) h content) >>= λ r. some (some r)
  let refused = some (some ([], failed http_connection_timeout))
  if leb (length content) x.memory then if x.connects then exchange else refused else none

-- An entry of the directory, and the exchange that its upload is.
pub record Report : Type 0 where
  pub name : Bytes
  pub exchange : Exchange

-- "crashreport.php?deviceid=".
abbrev pub crash_page : Bytes
crash_page =
    b'c' ∷ b'r' ∷ b'a' ∷ b's' ∷ b'h' ∷ b'r' ∷ b'e' ∷ b'p' ∷ b'o' ∷ b'r' ∷ b't' ∷ b'.' ∷ b'p' ∷ b'h'
    ∷ b'p' ∷ b'?' ∷ b'd' ∷ b'e' ∷ b'v' ∷ b'i' ∷ b'c' ∷ b'e' ∷ b'i' ∷ b'd' ∷ b'=' ∷ []

-- ".." and ".".
abbrev pub is_dots : Bytes → Bool
is_dots name = bytes_eq (b'.' ∷ b'.' ∷ []) name || bytes_eq (b'.' ∷ []) name

-- `resp->error == HTTP_OK && resp->responseCode == 200`.
is_ok : HttpError → ℕ → Bool
is_ok http_ok code = code == 200
is_ok _ code = false

unfoldable pub is_accepted : HttpResponse → Bool
unfolding is_ok
is_accepted resp = is_ok resp.error resp.response_code

unfoldable pub drop_report : Option (Bytes × HttpResponse) → Bytes → Files → Files
unfolding is_accepted unlink
drop_report none name files = files
drop_report (some (text, resp)) name files = if is_accepted resp then unlink files name else files

-- One round of the loop over the entries.
unfoldable pub send_report : Bytes → Report → Files → Option Files
unfolding http_post_file drop_report
send_report url r files =
    let send = http_post_file r.exchange url (files r.name) >>= λ resp.
    some (drop_report resp r.name files) in
    if is_dots r.name then some files else send

unfoldable pub send_reports : Bytes → List Report → Files → Option Files
unfolding send_report
send_reports url [] files = some files
send_reports url (r ∷ rs) files = send_report url r files >>= send_reports url rs

pub record Crashes : Type 0 where
  pub files : Files
  pub led : Led

-- `sendCrashReportDoWork`: with no directory it ends at once. The address is that of the interface.
unfoldable pub send_crash_report_do_work :
    Bytes → Bytes → Option (List Report) → Crashes → Option Crashes
unfolding send_reports
send_crash_report_do_work base mac none s = some s
send_crash_report_do_work base mac (some rs) s =
    let blinking = set_led_blinking s.led s.led.red_pin in
    send_reports (base ++ (crash_page ++ mac)) rs s.files >>= λ files.
    some (record { files = files; led = clear_led_blinking blinking blinking.red_pin })
