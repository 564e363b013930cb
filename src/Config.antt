-- ===== src/Config.antt =====
-- Config.cpp: the stored configuration. The file system is the one file at `DEFAULT_CONFIG_PATH`;
-- whether it can be opened for writing is a field of the state. Log output is left out.
-- Config/Server has `checkServerConfig`.
pub mod Mac
pub mod Lines
pub mod File
pub mod Split
pub mod Server
use galileo_terremoti.Base.{
  zero, ℕ, suc, ◌+◌, ◌-◌, ◌*◌, ◌≤◌, ◌%◌, ◌/◌, Bool, true, false, not, ◌&&◌, ◌||◌, Option, none,
  some, List, [], ◌∷◌, ◌++◌, Bytes, take, drop, length, ltb, leb, ◌==◌, if◌then◌else◌, get_or,
  c_string, starts_with, ◌>>=◌,
}
use galileo_terremoti.Floats.{Doubles}
use galileo_terremoti.Utils.{trim, atofn}

-- The digit that a character stands for in base 16.
unfoldable pub hex_value : ℕ → Option ℕ
hex_value c =
    if leb b'0' c && leb c b'9'
    then some (c - b'0')
    else if leb b'a' c && leb c b'f'
    then some (c - b'a' + 10)
    else if leb b'A' c && leb c b'F'
    then some (c - b'A' + 10)
    else none

unfoldable pub is_space : ℕ → Bool
is_space c = c == 32 || leb 9 c && leb c 13

-- `strtol(b, NULL, 16)` of a text of two characters, cast to a byte: digits, or one digit behind a
-- blank or a sign.
unfoldable pub strtol_byte : ℕ → ℕ → ℕ
unfolding hex_value is_space
strtol_byte b0 b1 = elim (hex_value b0) [
  | some h ↦ elim (hex_value b1) [ none ↦ h | some l ↦ h * 16 + l ]
  | none ↦ elim (hex_value b1) [
    | none ↦ 0
    | some l ↦ if is_space b0 || b0 == b'+' then l else if b0 == b'-' then (256 - l) % 256 else 0
  ]
]

-- One round of the loop in `getMacAddressAsByte`. The text ends in a zero byte, which indexing at
-- its size gives. An index further behind, in an address of fewer than eleven characters, is
-- undefined in the source and 0 here.
abbrev mac_byte : Bytes → ℕ → ℕ
mac_byte text i = strtol_byte (get_or text (i * 2) 0) (get_or text (i * 2 + 1) 0)

unfoldable pub mac_address_bytes : Bytes → Bytes
unfolding strtol_byte
mac_address_bytes text =
    mac_byte text 0
    ∷ mac_byte text 1
    ∷ mac_byte text 2
    ∷ mac_byte text 3
    ∷ mac_byte text 4
    ∷ mac_byte text 5
    ∷ []

-- The lines of the file, with "deviceid:", "lat:" and "lon:".
abbrev pub deviceid_key : Bytes
deviceid_key = b'd' ∷ b'e' ∷ b'v' ∷ b'i' ∷ b'c' ∷ b'e' ∷ b'i' ∷ b'd' ∷ []

abbrev pub lat_key : Bytes
lat_key = b'l' ∷ b'a' ∷ b't' ∷ []

abbrev pub lon_key : Bytes
lon_key = b'l' ∷ b'o' ∷ b'n' ∷ []

-- `snprintf(buf, 200, ...)` keeps 199 characters.
unfoldable pub line_of : Bytes → Bytes → Bytes
line_of key value = take 199 (key ++ (b':' ∷ (value ++ b'\n' ∷ [])))

-- `fgets(buf, 100, fp)`: up to 99 characters, up to a newline, which is kept. The rest of the
-- stream stands second.
unfoldable pub fgets : ℕ → Bytes → Bytes × Bytes
fgets zero s = ([], s)
fgets (suc n) [] = ([], [])
fgets (suc n) (c ∷ s) =
    let (line, rest) = fgets n s in if c == b'\n' then (c ∷ [], s) else (c ∷ line, rest)

-- `strchr(buf, ':')`, and the text behind.
unfoldable pub behind_colon : Bytes → Option Bytes
behind_colon [] = none
behind_colon (c ∷ s) = if c == b':' then some s else behind_colon s

-- The three calls of `trim`; `none` is the exception that nobody catches.
unfoldable pub trim_argument : Bytes → Option Bytes
trim_argument arg = do argument ← trim 32 arg; argument ← trim b'\n' argument; trim b'\r' argument

module _ (D : Doubles) where
  open D use {Double, print, scan, of_nat, eq}

  pub record Config : Type 0 where
    pub mac_address : Bytes
    pub lat : Double
    pub lon : Double
    -- `Config::syslogServer`, which nothing ever sets.
    pub syslog : ℕ
    -- The file at `DEFAULT_CONFIG_PATH`, and whether `fopen(..., "w")` succeeds.
    pub file : Option Bytes
    pub writable : Bool

  unfoldable pub has_mac_address : Config → Bool
  has_mac_address c = ltb 0 (length c.mac_address)

  -- `lat != 0.0 && lon != 0.0`.
  unfoldable pub has_position : Config → Bool
  has_position c = not (eq c.lat (of_nat 0)) && not (eq c.lon (of_nat 0))

  -- What `save` writes.
  unfoldable pub saved_text : Config → Bytes
  unfolding line_of
  saved_text c =
      line_of deviceid_key (c_string c.mac_address)
      ++ (line_of lat_key (print c.lat) ++ line_of lon_key (print c.lon))

  unfoldable pub save : Config → Config
  save c = if c.writable then record c { file = some (saved_text c) } else c

  unfoldable pub set_mac_address : Config → Bytes → Config
  unfolding save
  set_mac_address c mac = save (record c { mac_address = mac })

  unfoldable pub set_latitude : Config → Double → Config
  unfolding save
  set_latitude c lat = save (record c { lat = lat })

  unfoldable pub set_longitude : Config → Double → Config
  unfolding save
  set_longitude c lon = save (record c { lon = lon })

  -- One line of the loop of `readConfigFile`, once its argument is trimmed.
  unfoldable pub store_argument : Bytes → Bytes → Config → Config
  store_argument buf argument c =
      if starts_with deviceid_key buf
      then if ltb (length argument) 12 then c else record c { mac_address = argument }
      else if starts_with lat_key buf
      then record c { lat = atofn scan (c_string argument) 8 }
      else if starts_with lon_key buf
      then record c { lon = atofn scan (c_string argument) 8 }
      else c

  unfoldable pub read_line : Bytes → Config → Option Config
  read_line buf c = elim (behind_colon buf) [
    | none ↦ some c
    | some arg ↦ trim_argument arg >>= λ argument. some (store_argument buf argument c)
  ]

  -- The loop. Each round takes at least one character, so more fuel than characters is enough.
  unfoldable pub read_lines : ℕ → Bytes → Config → Option Config
  unfolding fgets read_line
  read_lines zero s c = some c
  read_lines (suc fuel) [] c = some c
  read_lines (suc fuel) (x ∷ s) c =
      read_line (c_string (fgets 99 (x ∷ s)).0) c >>= read_lines fuel (fgets 99 (x ∷ s)).1

  -- `readConfigFile`: `none` is an exception; the flag is the result.
  unfoldable pub read_config_file : Config → Option (Config × Bool)
  unfolding read_lines
  read_config_file c = elim c.file [
    | none ↦ some (c, false)
    | some text ↦ read_lines (length text + 1) text c >>= λ c. some (c, true)
  ]

  -- `loadDefault`, with what `Utils::getInterfaceMAC` returns.
  unfoldable pub load_default : Bytes → Config → Config
  load_default interface_mac c = record c {
    lat = of_nat 0;
    lon = of_nat 0;
    mac_address = interface_mac;
  }

  unfoldable pub init : Bytes → Config → Option Config
  unfolding read_config_file load_default
  init interface_mac c =
      read_config_file c >>= λ (c, done). some (if done then c else load_default interface_mac c)
