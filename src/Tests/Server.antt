-- ===== src/Tests/Server.antt =====
-- Exchanges with the project's server and with a time server.
use galileo_terremoti.Base.{
  ℕ, ◌≡◌, refl, ap, true, false, some, none, [], ◌∷◌, ◌++◌, Bytes, arith, length, decimal, zeros,
  ◌<◌, ◌^◌, ◌≢◌, ◌*◌, ◌%◌,
}
use galileo_terremoti.Floats.{whole}
use galileo_terremoti.Net.Http.{Exchange, content_length, http_ok, read_reply}
use galileo_terremoti.Net.Http.Url.{IsName, url_of}
use galileo_terremoti.Net.Http.Lines.{AreFields, IsLine-all_printable, crlf, header_text}
use galileo_terremoti.Net.Http.Reply.{
  IsStatus, status_line, with_length, read_reply-reply_text, read_reply-NoColon,
}
use galileo_terremoti.Net.Http.Request.{Alive, get_config}
use galileo_terremoti.Net.Http.Client.{get_config-reply_text}
use galileo_terremoti.Net.Http.Sent.{Carries}
use galileo_terremoti.Net.Http.Alert.{IsSendable, http_send_alert-Carries}
use galileo_terremoti.Net.Http.Request.{Alert, alert_values, http_send_alert, form_text}
use galileo_terremoti.Net.Ntp.{Ntp, Attempt, sync, is_old, first_reply}
use galileo_terremoti.Net.Ntp.Sync.{
  IsReply, IsSynchronized, IsLooping, reply_packet, sync-IsSynchronized, sync-IsLooping,
}
use galileo_terremoti.Seismometer.{create}
use galileo_terremoti.Config.Server.{Settings, Parts, check_server_config}
use galileo_terremoti.Config.Server.Effects.{Checked, check_server_config-Checked}

abbrev name : Bytes
name = b's' ∷ b'v' ∷ []

abbrev name-IsName : IsName name
name-IsName = (
  ((λ e. omega (arith, e)), (λ e. omega (arith, e))),
  (((λ e. omega (arith, e)), (λ e. omega (arith, e))), tt),
)

abbrev body : Bytes
body = b'o' ∷ b'k' ∷ []

abbrev reason : Bytes
reason = 32 ∷ b'O' ∷ b'K' ∷ []

abbrev answer : Bytes
answer = status_line 2 0 0 reason ++ crlf (header_text (with_length [] body) body)

abbrev exchange : Exchange
exchange = record {
  word = 32;
  signed = true;
  memory = 1000000;
  connects = true;
  answer = some answer;
  ready = 100;
}

abbrev status-IsStatus : IsStatus 2 0 0 reason
status-IsStatus =
    (omega arith, omega arith, omega arith, IsLine-all_printable reason refl, omega arith)

abbrev fields-AreFields : AreFields (with_length [] body)
unfolding decimal
fields-AreFields = (
  record {
    key_line = IsLine-all_printable content_length refl;
    key = (
      (λ e. omega (arith, e)),
      (
        (λ e. omega (arith, e)),
        (
          (λ e. omega (arith, e)),
          (
            (λ e. omega (arith, e)),
            (
              (λ e. omega (arith, e)),
              (
                (λ e. omega (arith, e)),
                (
                  (λ e. omega (arith, e)),
                  (
                    (λ e. omega (arith, e)),
                    (
                      (λ e. omega (arith, e)),
                      (
                        (λ e. omega (arith, e)),
                        (
                          (λ e. omega (arith, e)),
                          (
                            (λ e. omega (arith, e)),
                            ((λ e. omega (arith, e)), ((λ e. omega (arith, e)), tt)),
                          ),
                        ),
                      ),
                    ),
                  ),
                ),
              ),
            ),
          ),
        ),
      ),
    );
    value_line = IsLine-all_printable (decimal 2) refl;
    short = omega arith;
  },
  tt,
)

read_reply-reply_text_example :
    read_reply exchange answer
    ≡ some (record {
      error = http_ok;
      response_code = 200;
      headers = (content_length, decimal 2) ∷ [];
      body = some (b'o' ∷ b'k' ∷ 0 ∷ []);
    })
read_reply-reply_text_example =
    read_reply-reply_text exchange 2 0 0 reason body [] status-IsStatus fields-AreFields
      (omega arith) (omega arith) (omega arith)

read_reply-NoColon_example :
    read_reply exchange (status_line 2 0 0 reason ++ crlf (name ++ crlf [])) ≡ none
read_reply-NoColon_example =
    read_reply-NoColon exchange 2 0 0 b's' reason (b'v' ∷ []) [] status-IsStatus
      (IsLine-all_printable name refl) ((λ e. omega (arith, e)), ((λ e. omega (arith, e)), tt))
      (omega arith)

abbrev alive : Alive
alive = record {
  avg = b'1' ∷ [];
  deviceid = b'2' ∷ [];
  lat = b'3' ∷ [];
  lon = b'4' ∷ [];
  memfree = b'5' ∷ [];
  model = b'p' ∷ [];
  sensor = b'A' ∷ [];
  stddev = b'6' ∷ [];
  uptime = b'7' ∷ [];
  version = b'8' ∷ [];
}

get_config-reply_text_example : get_config exchange (url_of name none []) alive ≡ some body
get_config-reply_text_example =
    get_config-reply_text exchange name [] reason body none [] alive name-IsName (omega arith) tt
      ((λ e. omega (arith, e)), ((λ e. omega (arith, e)), tt)) tt
      ((λ e. omega (arith, e)), ((λ e. omega (arith, e)), tt)) status-IsStatus fields-AreFields
      (omega arith) (omega arith) (omega arith) refl refl

abbrev alert_sent : Alert
alert_sent = record { deviceid = b'2' ∷ []; lat = b'3' ∷ []; lon = b'4' ∷ []; tsstart = b'5' ∷ [] }

abbrev sendable : (c : ℕ) → c ≢ b'&' → c ≢ 0 → IsSendable (c ∷ [])
sendable c p q = ((p, tt), (q, tt))

abbrev thirty : Exchange
thirty = record exchange {
  answer =
      some
        (status_line 2 0 0 reason ++ crlf (header_text (with_length [] (decimal 30)) (decimal 30)));
}

abbrev thirty-AreFields : AreFields (with_length [] (decimal 30))
unfolding decimal
thirty-AreFields = fields-AreFields

abbrev server_url : Bytes
server_url = url_of name none []

http_send_alert-Carries_example :
    (text : Bytes) × (http_send_alert thirty server_url alert_sent 0
      ≡ some (text, 30 * 1000 % 2 ^ 32))
    × Carries text (alert_values alert_sent)
unfolding decimal form_text
http_send_alert-Carries_example =
    http_send_alert-Carries thirty name [] reason none [] alert_sent 2 0 0 30 0 name-IsName
      (omega arith) tt
      (
        ((λ e. omega (arith, e)), ((λ e. omega (arith, e)), tt)),
        ((λ e. omega (arith, e)), ((λ e. omega (arith, e)), tt)),
      )
      (tt, tt)
      (
        sendable b'2' (λ e. omega (arith, e)) (λ e. omega (arith, e)),
        sendable b'3' (λ e. omega (arith, e)) (λ e. omega (arith, e)),
        sendable b'4' (λ e. omega (arith, e)) (λ e. omega (arith, e)),
        sendable b'5' (λ e. omega (arith, e)) (λ e. omega (arith, e)),
      )
      (omega arith) status-IsStatus thirty-AreFields (omega arith) (omega arith) (omega arith)
      (omega arith) refl refl

abbrev ntp : Ntp
ntp = record {
  unix_time_ts = 0;
  unix_time_update = 0;
  last_ntp_server = 0;
  ntpserver = name;
  requests = [];
}

abbrev silence : Attempt
silence = record { address = 16777343; datagrams = (1 ∷ []) ∷ []; now = 1000; printed = [] }

abbrev attempt : ℕ → Attempt
attempt time = record {
  address = 16777343;
  datagrams = reply_packet (zeros 40) time (zeros 4) ∷ [];
  now = 7000;
  printed = [];
}

abbrev attempt-IsReply : (time : ℕ) → time < 2 ^ 32 → IsReply (attempt time) time
attempt-IsReply time h = record {
  reached = λ e. omega (arith, e);
  front = zeros 40;
  rest = zeros 4;
  more = [];
  datagrams_are = refl;
  front_size = refl;
  rest_size = refl;
  time_word = h;
  printed_lines = tt;
}

sync-IsSynchronized_example :
    IsSynchronized 32
      (attempt 3700000000)
      3700000000
      (sync 32 (silence ∷ attempt 3700000000 ∷ []) ntp)
unfolding is_old first_reply
sync-IsSynchronized_example =
    sync-IsSynchronized 32 (silence ∷ []) [] (attempt 3700000000) 3700000000 ntp
      (omega arith, omega arith) (λ e. omega (arith, ap length e)) refl
      (record { reached = λ e. omega (arith, e); nothing = refl }, tt)
      (attempt-IsReply 3700000000 (omega arith)) (omega arith)

sync-IsLooping_example : IsLooping (sync 32 (attempt 3000000000 ∷ attempt 3700000000 ∷ []) ntp)
unfolding is_old
sync-IsLooping_example =
    sync-IsLooping 32 (attempt 3000000000) (attempt 3700000000 ∷ []) 3000000000 ntp
      (λ e. omega (arith, ap length e)) (attempt-IsReply 3000000000 (omega arith)) refl
      ((λ e. omega (arith, e)), tt)

abbrev parts : Parts
parts = record { can_trace = true; upgrade_returns = false }

abbrev settings : Settings whole
unfolding create
settings = record {
  base_url = url_of name none [];
  ntp = ntp;
  seismometer = create whole true;
  tracing = false;
  upgrades = [];
}

check_server_config-Checked_example :
    Checked whole parts
      (get_config exchange settings.base_url alive)
      settings
      (check_server_config whole parts exchange alive settings)
check_server_config-Checked_example =
    check_server_config-Checked whole parts exchange alive settings
