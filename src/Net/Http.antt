-- ===== src/Net/Http.antt =====
-- net/HTTPClient.cpp: the client of the project's server. The host names that `connectTo` reaches
-- and what the server answers are data of an `Exchange`. `none` is a fault: a write outside a
-- buffer, a null pointer or an exception. An overflow in `atoi`, which C leaves undefined, is reduced.
pub mod Url
pub mod Lines
pub mod Fuel
pub mod Reply
pub mod Request
pub mod Form
pub mod Sent
pub mod Alert
pub mod Client
pub mod Upload
pub mod Crash
use mathlib.Core.Option
use galileo_terremoti.Base.{
  ℕ, zero, suc, ◌+◌, ◌-◌, ◌*◌, ◌%◌, ◌^◌, Bool, true, false, not, ◌&&◌, ◌||◌, Option, none, some,
  ◌>>=◌, List, [], ◌∷◌, ◌++◌, Bytes, ltb, leb, ◌==◌, if◌then◌else◌, length, take, drop, get_or,
  zeros, min, starts_with, c_string, bytes_eq, decimal, read_digits,
}
use galileo_terremoti.Utils.{trim}
use galileo_terremoti.Config.{is_space}
use galileo_terremoti.Config.Split.{Map, find}

-- `atoi` and `atol`, as a word of `w` bits: blanks, a sign, digits. A number that does not fit is
-- undefined in the source and wraps here.
unfoldable pub atoi : ℕ → Bytes → ℕ
atoi w [] = 0
atoi w (c ∷ s) =
    let blank = atoi w s in
    if is_space c
    then blank
    else if c == b'-'
    then (2 ^ w - read_digits 0 s % 2 ^ w) % 2 ^ w
    else if c == b'+'
    then read_digits 0 s % 2 ^ w
    else read_digits 0 (c ∷ s) % 2 ^ w

-- "http://".
abbrev pub scheme : Bytes
scheme = b'h' ∷ b't' ∷ b't' ∷ b'p' ∷ b':' ∷ b'/' ∷ b'/' ∷ []

-- The text up to the first `/` or `:`, or up to the first `/`.
unfoldable pub host_part : Bytes → Bytes
host_part [] = []
host_part (c ∷ s) = if c == b'/' || c == b':' then [] else c ∷ host_part s

unfoldable pub port_part : Bytes → Bytes
port_part [] = []
port_part (c ∷ s) = if c == b'/' then [] else c ∷ port_part s

pub record Host : Type 0 where
  pub name : Bytes
  pub port : ℕ
  -- Where the path begins in the URL: the result.
  pub offset : ℕ

-- The text behind the host: a port of at most 30 characters, or the old port.
unfoldable pub host_port : Bytes → ℕ → ℕ → Bytes → Host
unfolding port_part atoi
host_port name port host_end [] = record { name = name; port = port; offset = host_end }
host_port name port host_end (c ∷ s) =
    if c == b':'
    then record {
      name = name;
      port = atoi 16 (take 30 (port_part s));
      offset = host_end + 1 + length (port_part s);
    }
    else record { name = name; port = port; offset = host_end }

-- `hostFromURL`, with the port that stands at its third argument; the callers' `hostname` has 100
-- bytes.
unfoldable pub host_from_url : Bytes → ℕ → Option Host
unfolding host_part host_port
host_from_url url port =
    let offset = if starts_with scheme url then 7 else 0 in
    let name = host_part (drop offset url) in
    let host_end = offset + length name in
    if ltb (length name) 100 then some (host_port name port host_end (drop host_end url)) else none

-- `setBaseURL`; an empty text is read outside its bounds.
unfoldable pub last_is : ℕ → Bytes → Bool
last_is c [] = false
last_is c (x ∷ []) = x == c
last_is c (x ∷ y ∷ s) = last_is c (y ∷ s)

unfoldable pub set_base_url : Bytes → Option Bytes
unfolding last_is
set_base_url [] = none
set_base_url (c ∷ s) = some (if last_is b'/' (c ∷ s) then c ∷ s else c ∷ s ++ b'/' ∷ [])

-- A line: its characters, whether the loop ended by a line end or the stream's, and what is left.
pub record HttpLine : Type 0 where
  pub text : Bytes
  pub done : Bool
  pub rest : Bytes

-- The loop of `getLine`, where `room` characters still fit; `toRead` is -1 at its only call. Where
-- `char` is signed the byte 255 is taken for the end of the stream.
unfoldable pub read_chars : Bool → ℕ → Bytes → HttpLine
read_chars signed zero s = record { text = []; done = false; rest = s }
read_chars signed (suc room) [] = record { text = []; done = true; rest = [] }
read_chars signed (suc room) (c ∷ s) =
    let skip = read_chars signed (suc room) s in
    let more = read_chars signed room s in
    if c == b'\r'
    then skip
    else if c == b'\n' || (signed && c == 255)
    then record { text = []; done = true; rest = s }
    else record more { text = c ∷ more.text }

-- `getLine` on the callers' `rBuffer`.
unfoldable pub get_line : Bool → Bytes → HttpLine
unfolding read_chars
get_line signed s = read_chars signed 299 s

-- Its result, which is one short if the line did not fit.
unfoldable pub line_size : HttpLine → ℕ
line_size l = if l.done then length l.text else length l.text - 1

-- `getResponseCode`, on the buffer.
unfoldable pub get_response_code : Bytes → ℕ
unfolding atoi
get_response_code line = atoi 16 (c_string (take 3 (drop 9 (line ++ zeros 301))))

-- `strchr(rBuffer, ':')` and the two texts at its sides, one blank skipped.
unfoldable pub split_header : Bytes → Option (Bytes × Bytes)
split_header [] = none
split_header (c ∷ s) =
    if c == b':'
    then some ([], (if starts_with (32 ∷ []) s then drop 1 s else s))
    else Option.map (λ (k, v). (c ∷ k, v)) (split_header s)

pub record Headers : Type 0 where
  pub fields : Map
  pub rest : Bytes

-- The loop over the headers. A round that goes on takes at least one character.
unfoldable pub read_headers : Bool → ℕ → Bytes → Map → Option Headers
unfolding get_line line_size split_header
read_headers signed zero s m = some (record { fields = m; rest = s })
read_headers signed (suc fuel) s m =
    let l = get_line signed s in
    let text = c_string l.text in
    let more = split_header text >>= λ field. read_headers signed fuel l.rest (field ∷ m) in
    if ltb 0 (line_size l) && ltb 0 (length text)
    then more
    else some (record { fields = m; rest = l.rest })

pub data HttpError : Type 0 where
  http_ok http_connection_timeout http_request_timeout http_malformed_reply : HttpError

pub record HttpResponse : Type 0 where
  pub error : HttpError
  pub response_code : ℕ
  pub headers : Map
  pub body : Option Bytes

-- What the world adds to an exchange: the widths of `size_t` and whether `char` is signed, the
-- largest block that `malloc` grants (less than the address space), whether the connection
-- succeeds, what the server answers, if it does so in time, and how many bytes `read` hands over.
pub record Exchange : Type 0 where
  pub word : ℕ
  pub signed : Bool
  pub memory : ℕ
  pub connects : Bool
  pub answer : Option Bytes
  pub ready : ℕ

-- "Content-Length" and "HTTP/1.".
abbrev pub content_length : Bytes
content_length =
    b'C' ∷ b'o' ∷ b'n' ∷ b't' ∷ b'e' ∷ b'n' ∷ b't' ∷ b'-' ∷ b'L' ∷ b'e' ∷ b'n' ∷ b'g' ∷ b't' ∷ b'h'
    ∷ []

abbrev pub http_1 : Bytes
http_1 = b'H' ∷ b'T' ∷ b'T' ∷ b'P' ∷ b'/' ∷ b'1' ∷ b'.' ∷ []

-- The body that one call of `read` brings, in a zeroed block of its size and one byte, where there
-- is a Content-Length.
unfoldable pub body_of : Exchange → Bytes → Option Bytes → Option (Option Bytes)
unfolding atoi
body_of x rest none = some none
body_of x rest (some value) =
    let size = atoi x.word (c_string value) in
    let got = take (min size x.ready) rest in
    if ltb size x.memory then some (some (got ++ zeros (size + 1 - length got))) else none

unfoldable pub read_body : Exchange → Headers → Option (Option Bytes)
unfolding body_of
read_body x h = body_of x h.rest (find content_length h.fields)

-- The reply whose first line is good.
unfoldable pub read_good : Exchange → HttpLine → Option HttpResponse
unfolding get_response_code read_headers read_body
read_good x l = do
  h ← read_headers x.signed (length l.rest + 1) l.rest []
  body ← read_body x h
  some (record {
    error = http_ok;
    response_code = get_response_code l.text;
    headers = h.fields;
    body = body;
  })

-- A reply without headers and body.
abbrev pub failed : HttpError → HttpResponse
failed error = record { error = error; response_code = 0; headers = []; body = none }

-- The part of `httpRequest` behind the request.
unfoldable pub read_reply : Exchange → Bytes → Option HttpResponse
unfolding get_line read_good
read_reply x answer =
    let l = get_line x.signed answer in
    if starts_with http_1 l.text then read_good x l else some (failed http_malformed_reply)
