-- ===== src/Net/Http/Crash.antt =====
-- Which crash reports the upload of a debug build deletes.
use mathlib.Core.Path.{subst}
use galileo_terremoti.Base.{
  ℕ, ◌≤◌, ◌≡◌, ◌∙◌, refl, ap, sym, inl, inr, Bool, true, false, not, ◌&&◌, ◌||◌, Option, none, some,
  ◌>>=◌, List, [], ◌∷◌, Bytes, arith, leb, length, c_string, bytes_eq, bytes_eq_sound,
  if◌then◌else◌, Bool-cases, Option-cases, if_true, if_cases, if_false, none-ne,
}
use galileo_terremoti.Files.{Files, unlink}
use galileo_terremoti.Net.Http.{
  Host, host_from_url, Exchange, HttpResponse, http_connection_timeout, http_request_timeout,
  failed, read_reply,
}
use galileo_terremoti.Net.Http.Request.{respond}
use galileo_terremoti.Net.Http.Upload.{
  upload_text, http_post_file, Report, is_dots, is_accepted, drop_report, send_report, send_reports,
}

-- What comes back from an exchange, whatever was sent.
unfoldable pub answered : Exchange → Option Bytes → Option HttpResponse
answered x none = some (failed http_request_timeout)
answered x (some answer) = read_reply x answer

abbrev pub outcome : Exchange → Option HttpResponse
outcome x = if x.connects then answered x x.answer else some (failed http_connection_timeout)

-- Each exchange ends with a response, that is, no reply is one that crashes the client.
abbrev pub AreAnswered : List Report → Type 0
AreAnswered [] = Unit {0}
AreAnswered (r ∷ rs) = ((resp : HttpResponse) × (outcome r.exchange ≡ some resp)) × AreAnswered rs

-- Every file fits a block of memory.
abbrev pub Fits : ℕ → Files → Type 0
Fits memory files = (p text : Bytes) → files p ≡ some text → length text ≤ memory

abbrev pub AllFit : List Report → Files → Type 0
AllFit [] files = Unit {0}
AllFit (r ∷ rs) files = Fits r.exchange.memory files × AllFit rs files

accepts : Option HttpResponse → Bool
accepts none = false
accepts (some resp) = is_accepted resp

-- An entry of the list with this name was answered with code 200.
abbrev taken : Bytes → Report → Bool
taken p r = bytes_eq r.name p && not (is_dots r.name) && accepts (outcome r.exchange)

pub is_delivered : Bytes → List Report → Bool
is_delivered p [] = false
is_delivered p (r ∷ rs) = taken p r || is_delivered p rs

respond_lem :
    (x : Exchange) (text : Bytes) (o : Option Bytes) (resp : HttpResponse)
    → answered x o ≡ some resp
    → respond x o text ≡ some (text, resp)
unfolding respond answered
respond_lem x text none resp e = ap (λ o. o >>= λ r. some (text, r)) e
respond_lem x text (some answer) resp e = ap (λ o. o >>= λ r. some (text, r)) e

-- Over a connection, the whole file is sent.
pub http_post_file-sent :
    (x : Exchange) (url content : Bytes) (h : Host) (resp : HttpResponse)
    → host_from_url (c_string url) 80 ≡ some h
    → x.connects ≡ true
    → answered x x.answer ≡ some resp
    → length content ≤ x.memory
    → http_post_file x url (some content) ≡ some (some (upload_text (c_string url) h content, resp))
unfolding http_post_file
http_post_file-sent x url content h resp e c o m =
    let fits : leb (length content) x.memory ≡ true = ground arith in
    let done = respond_lem x (upload_text (c_string url) h content) x.answer resp o in
    rw (e, fits) (if_true _ _ c ∙ ap (λ o. o >>= λ r. some (some r)) done)

-- The upload of a file ends with the outcome of its exchange.
http_post_file_lem :
    (x : Exchange) (url content : Bytes) (h : Host) (resp : HttpResponse)
    → host_from_url (c_string url) 80 ≡ some h
    → outcome x ≡ some resp
    → length content ≤ x.memory
    → (text : Bytes) × (http_post_file x url (some content) ≡ some (some (text, resp)))
unfolding http_post_file
http_post_file_lem x url content h resp e o m =
    let fits : leb (length content) x.memory ≡ true = ground arith in
    elim (Bool-cases x.connects) [
      | inl c ↦ (_, http_post_file-sent x url content h resp e c (sym (if_true _ _ c) ∙ o) m)
      | inr c ↦ (
        [],
        rw (e, fits)
            (if_false _ _ c ∙ ap (λ r. r >>= λ r. some (some ([], r))) (sym (if_false _ _ c) ∙ o)),
      )
    ]

-- The files behind one round.
abbrev Dropped : Bool → Bytes → Files → Files → Type 0
Dropped gone name old new = (p : Bytes) → new p ≡ (if bytes_eq name p && gone then none else old p)

drop_report-Dropped :
    (name text : Bytes) (resp : HttpResponse) (files : Files)
    → Dropped (is_accepted resp) name files (drop_report (some (text, resp)) name files)
unfolding drop_report unlink
drop_report-Dropped name text resp files p = ground arith

none-Dropped :
    (gone : Bool) (name : Bytes) (files : Files) → files name ≡ none → Dropped gone name files files
none-Dropped gone name files e p = elim (Bool-cases (bytes_eq name p)) [
  | inl same ↦
      let here : files p ≡ none = ap files (sym (bytes_eq_sound name p same)) ∙ e in
      here ∙ sym (if_cases (λ o. o ≡ none) (bytes_eq name p && gone) none (files p) refl here)
  | inr other ↦ ground (arith, other)
]

kept-Dropped : (name : Bytes) (files : Files) → Dropped false name files files
kept-Dropped name files p = ground arith

send_report_kept :
    (url : Bytes) (r : Report) (files : Files)
    → is_dots r.name ≡ true
    → send_report url r files ≡ some files
unfolding send_report
send_report_kept url r files d = if_true _ _ d

send_report_sent :
    (url : Bytes) (r : Report) (files : Files) (o : Option (Bytes × HttpResponse))
    → is_dots r.name ≡ false
    → http_post_file r.exchange url (files r.name) ≡ some o
    → send_report url r files ≡ some (drop_report o r.name files)
unfolding send_report
send_report_sent url r files o d e =
    if_false _ _ d ∙ ap (λ a. a >>= λ o. some (drop_report o r.name files)) e

http_post_file-none : (x : Exchange) (url : Bytes) → http_post_file x url none ≡ some none
unfolding http_post_file
http_post_file-none x url = refl

drop_report-none : (name : Bytes) (files : Files) → drop_report none name files ≡ files
unfolding drop_report
drop_report-none name files = refl

send_report_lem :
    (url : Bytes) (h : Host) (r : Report) (resp : HttpResponse) (files : Files)
    → host_from_url (c_string url) 80 ≡ some h
    → outcome r.exchange ≡ some resp
    → Fits r.exchange.memory files
    → (files' : Files) × (send_report url r files ≡ some files')
      × Dropped (not (is_dots r.name) && is_accepted resp) r.name files files'
send_report_lem url h r resp files e o m = elim (Bool-cases (is_dots r.name)) [
  | inl dots ↦
      let same : false ≡ not (is_dots r.name) && is_accepted resp = ground arith in
      (
        files,
        send_report_kept url r files dots,
        subst (λ b. Dropped b r.name files files) same (kept-Dropped r.name files),
      )
  | inr name ↦ elim (Option-cases (files r.name)) [
    | inl missing ↦
        let step : http_post_file r.exchange url (files r.name) ≡ some none =
          ap (http_post_file r.exchange url) missing ∙ http_post_file-none r.exchange url in
        (
          files,
          send_report_sent url r files none name step ∙ ap some (drop_report-none r.name files),
          none-Dropped _ r.name files missing,
        )
    | inr (content, there) ↦
        let (text, done) =
          http_post_file_lem r.exchange url content h resp e o (m r.name content there) in
        let step = ap (http_post_file r.exchange url) there ∙ done in
        let same : is_accepted resp ≡ not (is_dots r.name) && is_accepted resp = ground arith in
        (
          drop_report (some (text, resp)) r.name files,
          send_report_sent url r files (some (text, resp)) name step,
          subst (λ b. Dropped b r.name files (drop_report (some (text, resp)) r.name files)) same
              (drop_report-Dropped r.name text resp files),
        )
  ]
]

taken-accepted :
    (p : Bytes) (r : Report) (resp : HttpResponse)
    → outcome r.exchange ≡ some resp
    → taken p r ≡ (bytes_eq r.name p && (not (is_dots r.name) && is_accepted resp))
unfolding accepts
taken-accepted p r resp e =
    ap (λ o. bytes_eq r.name p && not (is_dots r.name) && accepts o) e ∙ ground arith

-- No file grows.
Fits-Dropped :
    (gone : Bool) (memory : ℕ) (name : Bytes) (old new : Files)
    → Dropped gone name old new
    → Fits memory old
    → Fits memory new
Fits-Dropped gone memory name old new d f p text e =
    f p text (present (bytes_eq name p && gone) (old p) (sym (d p) ∙ e))
  where
    present : (b : Bool) (o : Option Bytes) → (if b then none else o) ≡ some text → o ≡ some text
    present true o e = absurd (none-ne e)
    present false o e = e

AllFit-Dropped :
    (gone : Bool) (name : Bytes) (rs : List Report) (old new : Files)
    → Dropped gone name old new
    → AllFit rs old
    → AllFit rs new
AllFit-Dropped gone name [] old new d f = tt
AllFit-Dropped gone name (r ∷ rs) old new d (f, fs) =
    (Fits-Dropped gone r.exchange.memory name old new d f, AllFit-Dropped gone name rs old new d fs)

merge_lem :
    (b c : Bool) (o : Option Bytes)
    → (if c then none else if b then none else o) ≡ (if b || c then none else o)
merge_lem true true o = refl
merge_lem true false o = refl
merge_lem false c o = refl

-- The upload of the crash reports comes to its end, and deletes exactly the files that the server
-- took with code 200: afterwards a name has no file if an entry with it (other than "." and "..")
-- was answered so, and the file it had before otherwise. (The host's name in the URL fits the
-- client's buffer; each exchange ends with a response, with an error or without one; the files fit
-- the memory.)
pub send_reports-is_delivered :
    (url : Bytes) (h : Host) (rs : List Report) (files : Files)
    → host_from_url (c_string url) 80 ≡ some h
    → AreAnswered rs
    → AllFit rs files
    → (files' : Files) × (send_reports url rs files ≡ some files')
      × ((p : Bytes) → files' p ≡ (if is_delivered p rs then none else files p))
unfolding send_reports is_delivered
send_reports-is_delivered url h [] files e a m = (files, refl, λ p. refl)
send_reports-is_delivered url h (r ∷ rs) files e ((resp, o), a) (m, ms) =
    let (mid, step, dropped) = send_report_lem url h r resp files e o m in
    let (last, steps, rest) =
      send_reports-is_delivered url h rs mid e a
        (AllFit-Dropped _ r.name rs files mid dropped ms) in
    (
      last,
      ap (λ o. o >>= send_reports url rs) step ∙ steps,
      λ p.
          rest p
          ∙ ap (λ o. if is_delivered p rs then none else o) (dropped p)
          ∙ merge_lem _ (is_delivered p rs) (files p)
          ∙ ap (λ b. if b || is_delivered p rs then none else files p)
              (sym (taken-accepted p r resp o)),
    )
