-- ===== src/Tests/Parts.antt =====
-- LEDs, log, addresses and texts on concrete data.
use galileo_terremoti.Base.{◌≡◌, refl, true, false, some, List, [], ◌∷◌, Bytes, arith}
use galileo_terremoti.Utils.{trim}
use galileo_terremoti.Utils.Trim.{trim-TrimResult, TrimResult}
use galileo_terremoti.Led.{Led, LedThread}
use galileo_terremoti.Led.Pins.{IsSynced}
use galileo_terremoti.Log.{Logger, debug, info, Stamp}
use galileo_terremoti.Log.Filter.{Message, log_all, kept_lines, log_all-files}

abbrev leds : Led
leds = record {
  green_pin = 13;
  yellow_pin = 12;
  red_pin = 11;
  green_status = false;
  yellow_status = false;
  red_status = false;
  animation = true;
  green_blink = false;
  red_blink = false;
  yellow_blink = false;
  level = λ p. false;
}

abbrev thread : LedThread
thread = record { led = leds; i = 0; last_blink = false }

abbrev leds-IsSynced : IsSynced leds
leds-IsSynced = (omega arith, omega arith, omega arith, refl, refl, refl)

abbrev path : Bytes
path = b'l' ∷ []

abbrev logger : Logger
logger = record {
  syslog_server = 0;
  syslog_enabled = false;
  log_file = some path;
  log_file_path = path;
  log_level = info;
  stdout_debug = false;
  files = λ p. some (b'x' ∷ []);
  can_open = λ p. true;
  printed = [];
  sent = [];
}

abbrev pub stamp : Stamp
stamp = record { date_time = b'd' ∷ []; mac_address = []; interface_mac = b'm' ∷ [] }

abbrev messages : List Message
messages =
    record { stamp = stamp; level = info; text = b'a' ∷ [] }
    ∷ record { stamp = stamp; level = debug; text = b'b' ∷ [] }
    ∷ []

log_all-files_example :
    (log_all messages logger).files path ≡ some (b'x' ∷ kept_lines info messages)
log_all-files_example = log_all-files messages path (b'x' ∷ []) logger refl refl

trim-TrimResult_example : TrimResult 32 (32 ∷ b'a' ∷ 32 ∷ []) (trim 32 (32 ∷ b'a' ∷ 32 ∷ []))
trim-TrimResult_example = trim-TrimResult 32 (32 ∷ b'a' ∷ 32 ∷ [])
