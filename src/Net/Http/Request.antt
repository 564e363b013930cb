-- ===== src/Net/Http/Request.antt =====
-- net/HTTPClient.cpp: `httpRequest` as a whole, `getConfig` and `httpSendAlert`.
use galileo_terremoti.Base.{
  ℕ, ◌*◌, ◌%◌, ◌^◌, Option, none, some, ◌>>=◌, [], ◌∷◌, ◌++◌, Bytes, ◌==◌, if◌then◌else◌, length,
  take, drop, c_string, decimal,
}
use galileo_terremoti.Utils.{trim}
use galileo_terremoti.Config.Split.{Map}
use galileo_terremoti.Net.Http.{
  Host, host_from_url, Exchange, HttpResponse, HttpError, http_ok, http_connection_timeout,
  http_request_timeout, failed, read_reply, atoi,
}

pub data HttpMethod : Type 0 where
  http_get http_post : HttpMethod

-- `println`, and `snprintf(linebuf, 1024, ...)` before it.
abbrev pub println : Bytes → Bytes
println s = s ++ b'\r' ∷ b'\n' ∷ []

abbrev pub line_text : Bytes → Bytes
line_text s = println (take 1023 s)

-- "GET", "POST", " HTTP/1.1", "Host: ", "Connection: close", "Content-Length: " and "Content-Type:
-- application/x-www-form-urlencoded".
abbrev pub method_text : HttpMethod → Bytes
method_text http_get = b'G' ∷ b'E' ∷ b'T' ∷ []
method_text http_post = b'P' ∷ b'O' ∷ b'S' ∷ b'T' ∷ []

abbrev pub version_text : Bytes
version_text = 32 ∷ b'H' ∷ b'T' ∷ b'T' ∷ b'P' ∷ b'/' ∷ b'1' ∷ b'.' ∷ b'1' ∷ []

abbrev pub host_text : Bytes
host_text = b'H' ∷ b'o' ∷ b's' ∷ b't' ∷ b':' ∷ 32 ∷ []

abbrev pub close_text : Bytes
close_text =
    b'C' ∷ b'o' ∷ b'n' ∷ b'n' ∷ b'e' ∷ b'c' ∷ b't' ∷ b'i' ∷ b'o' ∷ b'n' ∷ b':' ∷ 32 ∷ b'c' ∷ b'l'
    ∷ b'o' ∷ b's' ∷ b'e' ∷ []

abbrev pub length_text : Bytes
length_text =
    b'C' ∷ b'o' ∷ b'n' ∷ b't' ∷ b'e' ∷ b'n' ∷ b't' ∷ b'-' ∷ b'L' ∷ b'e' ∷ b'n' ∷ b'g' ∷ b't' ∷ b'h'
    ∷ b':' ∷ 32 ∷ []

abbrev pub type_text : Bytes
type_text =
    b'C' ∷ b'o' ∷ b'n' ∷ b't' ∷ b'e' ∷ b'n' ∷ b't' ∷ b'-' ∷ b'T' ∷ b'y' ∷ b'p' ∷ b'e' ∷ b':' ∷ 32
    ∷ b'a' ∷ b'p' ∷ b'p' ∷ b'l' ∷ b'i' ∷ b'c' ∷ b'a' ∷ b't' ∷ b'i' ∷ b'o' ∷ b'n' ∷ b'/' ∷ b'x'
    ∷ b'-' ∷ b'w' ∷ b'w' ∷ b'w' ∷ b'-' ∷ b'f' ∷ b'o' ∷ b'r' ∷ b'm' ∷ b'-' ∷ b'u' ∷ b'r' ∷ b'l'
    ∷ b'e' ∷ b'n' ∷ b'c' ∷ b'o' ∷ b'd' ∷ b'e' ∷ b'd' ∷ []

-- The values in the order of the map, which is that of their keys.
unfoldable pub form_text : Map → Bytes
form_text [] = []
form_text ((k, v) ∷ m) = k ++ (b'=' ∷ (v ++ (b'&' ∷ form_text m)))

-- What follows the lines that every request has.
unfoldable pub form_lines : HttpMethod → Map → Option Bytes
unfolding form_text
form_lines http_get values = some []
form_lines http_post [] = some (println (length_text ++ b'0' ∷ []) ++ println [])
form_lines http_post (value ∷ values) = do
  body ← trim b'&' (form_text (value ∷ values))
  some (
      println type_text
      ++ (line_text (length_text ++ decimal (length body)) ++ (println [] ++ c_string body)))

-- The bytes that `httpRequest` writes; `none` is the exception of `trim`.
unfoldable pub request_text : HttpMethod → Bytes → Host → Map → Option Bytes
unfolding form_lines
request_text method url h values = do
  form ← form_lines method values
  some (
      line_text (method_text method ++ (32 ∷ (drop h.offset url ++ version_text)))
      ++ (line_text
            (host_text ++ (if h.port == 80 then h.name else h.name ++ (b':' ∷ decimal h.port)))
          ++ (println close_text ++ form)))

-- Behind the request: the server's answer, or none in time.
unfoldable pub respond : Exchange → Option Bytes → Bytes → Option (Bytes × HttpResponse)
respond x none text = some (text, failed http_request_timeout)
respond x (some answer) text = read_reply x answer >>= λ resp. some (text, resp)

-- `httpRequest`: what it wrote, and the response.
unfoldable pub http_request : Exchange → HttpMethod → Bytes → Map → Option (Bytes × HttpResponse)
unfolding request_text respond
http_request x method url values = do
  h ← host_from_url (c_string url) 80
  let exchange = request_text method (c_string url) h values >>= respond x x.answer
  let refused = some ([], failed http_connection_timeout)
  if x.connects then exchange else refused

-- The texts of the values that `getConfig` sends, which other parts provide.
pub record Alive : Type 0 where
  pub avg : Bytes
  pub deviceid : Bytes
  pub lat : Bytes
  pub lon : Bytes
  pub memfree : Bytes
  pub model : Bytes
  pub sensor : Bytes
  pub stddev : Bytes
  pub uptime : Bytes
  pub version : Bytes

-- All values but the first.
abbrev pub alive_rest : Alive → Map
alive_rest v =
    (b'd' ∷ b'e' ∷ b'v' ∷ b'i' ∷ b'c' ∷ b'e' ∷ b'i' ∷ b'd' ∷ [], v.deviceid)
    ∷ (b'l' ∷ b'a' ∷ b't' ∷ [], v.lat)
    ∷ (b'l' ∷ b'o' ∷ b'n' ∷ [], v.lon)
    ∷ (b'm' ∷ b'e' ∷ b'm' ∷ b'f' ∷ b'r' ∷ b'e' ∷ b'e' ∷ [], v.memfree)
    ∷ (b'm' ∷ b'o' ∷ b'd' ∷ b'e' ∷ b'l' ∷ [], v.model)
    ∷ (b's' ∷ b'e' ∷ b'n' ∷ b's' ∷ b'o' ∷ b'r' ∷ [], v.sensor)
    ∷ (b's' ∷ b't' ∷ b'd' ∷ b'd' ∷ b'e' ∷ b'v' ∷ [], v.stddev)
    ∷ (b'u' ∷ b'p' ∷ b't' ∷ b'i' ∷ b'm' ∷ b'e' ∷ [], v.uptime)
    ∷ (b'v' ∷ b'e' ∷ b'r' ∷ b's' ∷ b'i' ∷ b'o' ∷ b'n' ∷ [], v.version)
    ∷ []

abbrev pub alive_values : Alive → Map
alive_values v = (b'a' ∷ b'v' ∷ b'g' ∷ [], v.avg) ∷ alive_rest v

-- "alive.php" and "terremoto.php".
abbrev pub alive_page : Bytes
alive_page = b'a' ∷ b'l' ∷ b'i' ∷ b'v' ∷ b'e' ∷ b'.' ∷ b'p' ∷ b'h' ∷ b'p' ∷ []

abbrev pub alert_page : Bytes
alert_page =
    b't' ∷ b'e' ∷ b'r' ∷ b'r' ∷ b'e' ∷ b'm' ∷ b'o' ∷ b't' ∷ b'o' ∷ b'.' ∷ b'p' ∷ b'h' ∷ b'p' ∷ []

-- The text that `getConfig` takes from a response.
config_of : HttpError → ℕ → Option Bytes → Bytes
config_of http_ok code (some body) = if code == 200 then c_string body else []
config_of _ code body = []

unfoldable pub config_text : HttpResponse → Bytes
unfolding config_of
config_text resp = config_of resp.error resp.response_code resp.body

unfoldable pub get_config : Exchange → Bytes → Alive → Option Bytes
unfolding http_request config_text
get_config x base v =
    http_request x http_post (base ++ alive_page) (alive_values v) >>= λ (text, resp).
    some (config_text resp)

pub record Alert : Type 0 where
  pub deviceid : Bytes
  pub lat : Bytes
  pub lon : Bytes
  pub tsstart : Bytes

abbrev pub alert_values : Alert → Map
alert_values v =
    (b'd' ∷ b'e' ∷ b'v' ∷ b'i' ∷ b'c' ∷ b'e' ∷ b'i' ∷ b'd' ∷ [], v.deviceid)
    ∷ (b'l' ∷ b'a' ∷ b't' ∷ [], v.lat)
    ∷ (b'l' ∷ b'o' ∷ b'n' ∷ [], v.lon)
    ∷ (b't' ∷ b's' ∷ b's' ∷ b't' ∷ b'a' ∷ b'r' ∷ b't' ∷ [], v.tsstart)
    ∷ []

-- `nextContact` after a response.
contact_of : ℕ → ℕ → HttpError → Option Bytes → ℕ
unfolding atoi
contact_of w old http_ok (some body) = atoi w (c_string body) * 1000 % 2 ^ w
contact_of w old _ body = old

unfoldable pub contact_after : ℕ → ℕ → HttpResponse → ℕ
unfolding contact_of
contact_after w old resp = contact_of w old resp.error resp.body

-- `httpSendAlert`: what was written, and `nextContact`.
unfoldable pub http_send_alert : Exchange → Bytes → Alert → ℕ → Option (Bytes × ℕ)
unfolding http_request contact_after
http_send_alert x base v next_contact =
    http_request x http_post (base ++ alert_page) (alert_values v) >>= λ (text, resp).
    some (text, contact_after x.word next_contact resp)
