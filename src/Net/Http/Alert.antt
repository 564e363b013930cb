-- ===== src/Net/Http/Alert.antt =====
-- What the server gets from `httpSendAlert`.
use mathlib.Core.Path.{subst}
use galileo_terremoti.Base.{
  ℕ, ◌*◌, ◌%◌, ◌≡◌, ◌<◌, ◌≤◌, ◌^◌, refl, ap, ◌∙◌, sym, true, Option, some, [], ◌∷◌, ◌++◌, Bytes,
  arith, length, length-append, drop, IsText, c_string, c_string-IsText, decimal, decimal-AreDigits,
}
use galileo_terremoti.Utils.Trim.{NoneIs}
use galileo_terremoti.Config.Split.{Map}
use galileo_terremoti.Net.Http.{Host, Exchange}
use galileo_terremoti.Net.Http.Url.{IsName, IsPort, url_of, host_from_url-url_of, atoi-decimal}
use galileo_terremoti.Net.Http.Lines.{
  IsLine-IsText, IsLine-all_printable, all_printable, AreFields, crlf, header_text,
}
use galileo_terremoti.Net.Http.Reply.{
  IsStatus, status_line, with_length, AreDigits-IsText, read_reply-reply_text,
}
use galileo_terremoti.Net.Http.Request.{
  form_text, Alert, alert_values, alert_page, contact_after, http_send_alert,
}
use galileo_terremoti.Net.Http.Client.{
  IsText-append, url_of-append, url_of-IsText, http_request-answered, c_string_end,
}
use galileo_terremoti.Net.Http.Form.{AreValues, joined, form_text-joined}
use galileo_terremoti.Net.Http.Sent.{
  Carries, lacks, NoneIs-lacks, NoneIs-append, sent_text, request_text-sent_text, sent_text-Carries,
}

abbrev AreTexts : Map → Type 0
AreTexts [] = Unit {0}
AreTexts ((k, v) ∷ m) = IsText k × IsText v × AreTexts m

IsText-joined : (k v : Bytes) (m : Map) → AreTexts ((k, v) ∷ m) → IsText (joined (k, v) m)
IsText-joined k v [] (t, u, _) = IsText-append k (b'=' ∷ v) t (omega arith, u)
IsText-joined k v ((j, w) ∷ m) (t, u, h) =
    IsText-append (k ++ (b'=' ∷ v)) (b'&' ∷ joined (j, w) m)
      (IsText-append k (b'=' ∷ v) t (omega arith, u)) (omega arith, IsText-joined j w m h)

-- A value without a `&` and without a zero byte.
abbrev pub IsSendable : Bytes → Type 0
IsSendable s = NoneIs b'&' s × IsText s

abbrev pub AreSendable : Alert → Type 0
AreSendable v = IsSendable v.deviceid × IsSendable v.lat × IsSendable v.lon × IsSendable v.tsstart

-- The keys.
abbrev deviceid_key : Bytes
deviceid_key = b'd' ∷ b'e' ∷ b'v' ∷ b'i' ∷ b'c' ∷ b'e' ∷ b'i' ∷ b'd' ∷ []

abbrev lat_key : Bytes
lat_key = b'l' ∷ b'a' ∷ b't' ∷ []

abbrev lon_key : Bytes
lon_key = b'l' ∷ b'o' ∷ b'n' ∷ []

abbrev tsstart_key : Bytes
tsstart_key = b't' ∷ b's' ∷ b's' ∷ b't' ∷ b'a' ∷ b'r' ∷ b't' ∷ []

-- All values but the first.
abbrev alert_rest : Alert → Map
alert_rest v = (lat_key, v.lat) ∷ (lon_key, v.lon) ∷ (tsstart_key, v.tsstart) ∷ []

key_free : (s : Bytes) → lacks b'&' s ≡ true → lacks b'=' s ≡ true → NoneIs b'&' s × NoneIs b'=' s
key_free s h k = (NoneIs-lacks b'&' s h, NoneIs-lacks b'=' s k)

alert_values-AreValues : (v : Alert) → AreSendable v → AreValues (alert_values v)
alert_values-AreValues v ((a, _), (b, _), (c, _), (d, _)) =
    let (p, q) = key_free deviceid_key refl refl in
    let (r, s) = key_free lat_key refl refl in
    let (t, u) = key_free lon_key refl refl in
    let (w, x) = key_free tsstart_key refl refl in
    ((p, q, a), ((r, s, b), ((t, u, c), ((w, x, d), tt))))

key-IsText : (s : Bytes) → all_printable s ≡ true → IsText s
key-IsText s h = IsLine-IsText s (IsLine-all_printable s h)

alert_values-AreTexts : (v : Alert) → AreSendable v → AreTexts (alert_values v)
alert_values-AreTexts v ((_, a), (_, b), (_, c), (_, d)) = (
  key-IsText deviceid_key refl,
  a,
  (key-IsText lat_key refl, b, (key-IsText lon_key refl, c, (key-IsText tsstart_key refl, d, tt))),
)

-- The text of a request for a URL "http://name[:port]/path" carries its values.
request-Carries :
    (name path : Bytes) (port : Option ℕ) (h : Host) (c : ℕ) (k v : Bytes) (m : Map)
    → NoneIs b'\r' name
    → NoneIs b'\r' path
    → h.name ≡ name
    → drop h.offset (url_of name port path) ≡ b'/' ∷ path
    → AreValues ((c ∷ k, v) ∷ m)
    → length (form_text ((c ∷ k, v) ∷ m)) < 2 ^ 16
    → Carries (sent_text (url_of name port path) h (joined (c ∷ k, v) m)) ((c ∷ k, v) ∷ m)
request-Carries name path port h c k v m n p name_is path_is a size =
    let short : length (joined (c ∷ k, v) m) < 2 ^ 16 = omega (
      arith,
      size,
      ap length (form_text-joined (c ∷ k) v m),
      length-append (joined (c ∷ k, v) m) (b'&' ∷ []),
    ) in
    sent_text-Carries (url_of name port path) h c k v m a short
      (subst (NoneIs b'\r') (sym name_is) n)
      (subst (NoneIs b'\r') (sym path_is) ((λ e. omega (arith, e)), p))

-- An alert reaches the server: behind the empty line of the request that is written, and in the size
-- that stands in front of it, the server finds the device's name, its position and the time as they
-- were given; and the time of the next contact is the number of seconds that the server answers, in
-- milliseconds. (The server's URL is "http://name[:port]/path" and the connection succeeds; the name
-- has no `/` and no `:` and at most 99 characters; URL and values hold no zero byte, the URL no line
-- end and the values no `&`; the form has less than 2^16 characters; the answer is well formed, with
-- any code, its last header names the size of its body, which is the number alone, a word that
-- arrives at once and fits the memory.)
pub http_send_alert-Carries :
    (x : Exchange) (name path reason : Bytes) (port : Option ℕ) (fields : Map) (v : Alert)
    (code_a code_b code_c seconds next_contact : ℕ)
    → IsName name
    → length name < 100
    → IsPort port
    → IsText name × NoneIs b'\r' name
    → IsText path × NoneIs b'\r' path
    → AreSendable v
    → length (form_text (alert_values v)) < 2 ^ 16
    → IsStatus code_a code_b code_c reason
    → AreFields (with_length fields (decimal seconds))
    → length (decimal seconds) < 2 ^ x.word
    → length (decimal seconds) < x.memory
    → length (decimal seconds) ≤ x.ready
    → seconds < 2 ^ x.word
    → x.connects ≡ true
    → x.answer
      ≡ some (
          status_line code_a code_b code_c reason
          ++ crlf (header_text (with_length fields (decimal seconds)) (decimal seconds)))
    → (text : Bytes) × (http_send_alert x (url_of name port path) v next_contact
        ≡ some (text, seconds * 1000 % 2 ^ x.word))
      × Carries text (alert_values v)
unfolding http_send_alert contact_after
http_send_alert-Carries x name path reason port fields v code_a code_b code_c seconds next_contact n
      short p (tn, nn) (tp, np) sendable size s f w m r fits c answer =
    let url = url_of name port (path ++ alert_page) in
    let text : c_string (url_of name port path ++ alert_page) ≡ url =
      ap c_string (url_of-append name path alert_page port)
      ∙ c_string-IsText url (
          url_of-IsText name (path ++ alert_page) port tn
            (IsText-append path alert_page tp (key-IsText alert_page refl))) in
    let (h, found, name_is, _, path_is) =
      host_from_url-url_of name (path ++ alert_page) port n short p in
    let values = alert_values-AreValues v sendable in
    let texts =
      IsText-joined deviceid_key v.deviceid (alert_rest v) (alert_values-AreTexts v sendable) in
    let request =
      request_text-sent_text url h b'd' (drop 1 deviceid_key) v.deviceid (alert_rest v) values
        texts in
    let sent = sent_text url h (joined (deviceid_key, v.deviceid) (alert_rest v)) in
    let answered =
      http_request-answered x (url_of name port path ++ alert_page) url _ sent h (alert_values v) _
        text found c request answer
        (read_reply-reply_text x code_a code_b code_c reason (decimal seconds) fields s f w m r) in
    let digits = AreDigits-IsText (decimal seconds) (decimal-AreDigits seconds) in
    (
      sent,
      rw (answered, c_string_end (decimal seconds) digits, atoi-decimal x.word seconds fits) refl,
      request-Carries name (path ++ alert_page) port h b'd' (drop 1 deviceid_key) v.deviceid
          (alert_rest v) nn
          (NoneIs-append b'\r' path alert_page np (NoneIs-lacks b'\r' alert_page refl)) name_is
          path_is values size,
    )
