-- ===== src/Net/Http/Client.antt =====
-- What `getConfig` returns when the server answers.
use mathlib.Core.Path.{subst}
use galileo_terremoti.Base.{
  ℕ, ◌≡◌, ◌≢◌, ◌<◌, ◌≤◌, ◌^◌, refl, ap, ◌∙◌, inl, inr, true, Option, none, some, ◌>>=◌, [], ◌∷◌,
  ◌++◌, append_assoc, Bytes, arith, length, IsText, c_string, c_string-IsText, Option-cases,
  decimal, decimal-AreDigits, none-ne,
}
use galileo_terremoti.Utils.{trim}
use galileo_terremoti.Utils.Trim.{TrimResult, trim-TrimResult}
use galileo_terremoti.Config.Split.{Map}
use galileo_terremoti.Net.Http.{Host, scheme, HttpResponse, host_from_url, Exchange, read_reply}
use galileo_terremoti.Net.Http.Url.{IsName, IsPort, url_of, port_text, host_from_url-url_of}
use galileo_terremoti.Net.Http.Lines.{
  IsLine-IsText, IsLine-all_printable, AreFields, crlf, header_text,
}
use galileo_terremoti.Net.Http.Reply.{
  IsStatus, status_line, with_length, AreDigits-IsText, read_reply-reply_text,
}
use galileo_terremoti.Net.Http.Request.{
  http_post, form_text, form_lines, request_text, respond, http_request, Alive, alive_rest,
  alive_values, alive_page, config_text, get_config,
}

bind_total {ℓ κ} :
    {A : Type ℓ} {B : Type κ} (o : Option A) (f : A → B)
    → (a : A) × (o ≡ some a)
    → (b : B) × ((o >>= λ x. some (f x)) ≡ some b)
bind_total (some a) f h = (f a, refl)
bind_total none f (a, e) = absurd (none-ne e)

-- The form of a first key that does not begin with `&` is trimmed without an exception.
trim-form :
    (c : ℕ) (k v : Bytes) (m : Map)
    → c ≢ b'&'
    → (body : Bytes) × (trim b'&' (form_text ((c ∷ k, v) ∷ m)) ≡ some body)
unfolding form_text
trim-form c k v m h =
    let form = form_text ((c ∷ k, v) ∷ m) in
    elim (Option-cases (trim b'&' form)) [
      | inl e ↦ absurd (h (subst (TrimResult b'&' form) e (trim-TrimResult b'&' form)).0)
      | inr trimmed ↦ trimmed
    ]

form_lines-some :
    (c : ℕ) (k v : Bytes) (m : Map)
    → c ≢ b'&'
    → (text : Bytes) × (form_lines http_post ((c ∷ k, v) ∷ m) ≡ some text)
unfolding form_lines
form_lines-some c k v m h =
    bind_total (trim b'&' (form_text ((c ∷ k, v) ∷ m))) _ (trim-form c k v m h)

request_text-some :
    (url : Bytes) (h : Host) (c : ℕ) (k v : Bytes) (m : Map)
    → c ≢ b'&'
    → (text : Bytes) × (request_text http_post url h ((c ∷ k, v) ∷ m) ≡ some text)
unfolding request_text
request_text-some url h c k v m n =
    bind_total (form_lines http_post ((c ∷ k, v) ∷ m)) _ (form_lines-some c k v m n)

pub IsText-append : (s t : Bytes) → IsText s → IsText t → IsText (s ++ t)
IsText-append [] t h k = k
IsText-append (c ∷ s) t h k = (h.0, IsText-append s t h.1 k)

port_text-IsText : (port : Option ℕ) → IsText (port_text port)
port_text-IsText none = tt
port_text-IsText (some n) = (omega arith, AreDigits-IsText (decimal n) (decimal-AreDigits n))

pub url_of-append :
    (name path page : Bytes) (port : Option ℕ)
    → url_of name port path ++ page ≡ url_of name port (path ++ page)
url_of-append name path page port = simp append_assoc

pub url_of-IsText :
    (name path : Bytes) (port : Option ℕ)
    → IsText name
    → IsText path
    → IsText (url_of name port path)
url_of-IsText name path port n p =
    IsText-append scheme _ (IsLine-IsText scheme (IsLine-all_printable scheme refl)) (
      IsText-append name _ n
        (IsText-append (port_text port) _ (port_text-IsText port) (omega arith, p)))

pub http_request-answered :
    (x : Exchange) (url url' answer text : Bytes) (h : Host) (values : Map) (resp : HttpResponse)
    → c_string url ≡ url'
    → host_from_url url' 80 ≡ some h
    → x.connects ≡ true
    → request_text http_post url' h values ≡ some text
    → x.answer ≡ some answer
    → read_reply x answer ≡ some resp
    → http_request x http_post url values ≡ some (text, resp)
unfolding http_request respond read_reply
http_request-answered x url url' answer text h values resp u e c t a r = rw (u, e, c, t, a, r) refl

pub c_string_end : (s : Bytes) → IsText s → c_string (s ++ 0 ∷ []) ≡ s
unfolding c_string
c_string_end [] h = refl
c_string_end (c ∷ s) h = ground (arith, c_string_end s h.1, h.0)

-- Where the server's URL is "http://name[:port]/path", the connection succeeds and the server
-- answers with code 200, `getConfig` returns the body of the answer. (The name has no `/` and no
-- `:` and at most 99 characters; the URL and the body hold no zero byte; the answer is well formed
-- and its last header names the size of the body, which arrives at once and fits the memory.)
pub get_config-reply_text :
    (x : Exchange) (name path reason body : Bytes) (port : Option ℕ) (fields : Map) (v : Alive)
    → IsName name
    → length name < 100
    → IsPort port
    → IsText name
    → IsText path
    → IsText body
    → IsStatus 2 0 0 reason
    → AreFields (with_length fields body)
    → length body < 2 ^ x.word
    → length body < x.memory
    → length body ≤ x.ready
    → x.connects ≡ true
    → x.answer
      ≡ some (status_line 2 0 0 reason ++ crlf (header_text (with_length fields body) body))
    → get_config x (url_of name port path) v ≡ some body
unfolding get_config config_text
get_config-reply_text x name path reason body port fields v n short p tn tp tb s f w m r c a =
    let page : IsText alive_page =
      IsLine-IsText alive_page (IsLine-all_printable alive_page refl) in
    let url = url_of name port (path ++ alive_page) in
    let text : c_string (url_of name port path ++ alive_page) ≡ url =
      ap c_string (url_of-append name path alive_page port)
      ∙ c_string-IsText url (
          url_of-IsText name (path ++ alive_page) port tn
            (IsText-append path alive_page tp page)) in
    let (h, found, name_is, port_is, path_is) =
      host_from_url-url_of name (path ++ alive_page) port n short p in
    let (sent, request) =
      request_text-some url h b'a' (b'v' ∷ b'g' ∷ []) v.avg (alive_rest v)
        (λ e. omega (arith, e)) in
    let answered =
      http_request-answered x (url_of name port path ++ alive_page) url _ sent h (alive_values v) _
        text found c request a (read_reply-reply_text x 2 0 0 reason body fields s f w m r) in
    rw answered (ap some (c_string_end body tb))
