-- ===== src/Command/Packet/Decode.antt =====
-- Reading a GETINFO_REPLY back, field after field: each string ends at its zero byte, and the next
-- field stands right behind it. (seismocloud.lua, the dissector in the repository, expects three
-- thresholds, and does not step over the zero bytes.)
use galileo_terremoti.Base.{
  zero, suc, ℕ, ◌+◌, ◌-◌, ◌≤◌, ◌<◌, ◌^◌, ◌≡◌, refl, ◌∙◌, some, [], ◌∷◌, ◌++◌, append_assoc, arith,
  Bytes, take, drop, length, min, zeros, to_bytes, of_bytes, ◌==◌, if◌then◌else◌, IsText, suc,
  length-take, c_string-IsText, take_all, of_bytes-to_bytes, SixBytes, six_bytes,
}
use galileo_terremoti.Command.Packet.{getinfo_reply, Packet, magic, packet_bytes}
use galileo_terremoti.Command.Packet.Buffer.{string_field}
use galileo_terremoti.Command.Packet.Encode.{
  IsPacket, header, info_fields, info_rest, packet_bytes-getinfo_reply,
}

pub record Info : Type 0 where
  pub mac : Bytes
  pub syslog_server : ℕ
  pub threshold : ℕ
  pub uptime : ℕ
  pub unixts : ℕ
  pub version : Bytes
  pub free_ram : ℕ
  pub latency : ℕ
  pub ntp_server : ℕ
  pub http_base_address : Bytes
  pub platform_name : Bytes
  pub accelerometer_name : Bytes
  pub stat_probe_speed : ℕ

-- The text up to its zero byte, and what stands behind that byte.
unfoldable pub text_at : Bytes → Bytes × Bytes
text_at [] = ([], [])
text_at (c ∷ cs) = let (s, rest) = text_at cs in if c == 0 then ([], cs) else (c ∷ s, rest)

-- The word at an offset.
unfoldable pub word_at : ℕ → Bytes → ℕ
word_at offset buf = of_bytes (take 4 (drop offset buf))

unfoldable pub read_info : Bytes → Info
unfolding word_at
read_info buf =
    let (base, rest) = text_at (drop 44 buf) in
    let (platform, rest') = text_at rest in
    let (accelerometer, last) = text_at rest' in
    record {
      mac = take 6 (drop 6 buf);
      syslog_server = word_at 12 buf;
      threshold = word_at 16 buf;
      uptime = word_at 20 buf;
      unixts = word_at 24 buf;
      version = take 4 (drop 28 buf);
      free_ram = word_at 32 buf;
      latency = word_at 36 buf;
      ntp_server = word_at 40 buf;
      http_base_address = base;
      platform_name = platform;
      accelerometer_name = accelerometer;
      stat_probe_speed = word_at 0 last;
    }

-- What the packet's receiver is meant to learn: strings are cut at 169, 19 and 9 bytes.
abbrev pub info_of : Packet → Info
info_of pkt = record {
  mac = pkt.mac;
  syslog_server = pkt.syslog_server;
  threshold = pkt.threshold;
  uptime = pkt.uptime;
  unixts = pkt.unixts;
  version = take 4 pkt.software_version;
  free_ram = pkt.free_ram;
  latency = pkt.latency;
  ntp_server = pkt.ntp_server;
  http_base_address = take 169 pkt.http_base_address;
  platform_name = take 19 pkt.platform_name;
  accelerometer_name = take 9 pkt.accelerometer_name;
  stat_probe_speed = pkt.stat_probe_speed;
}

-- Every number of the struct is a 32-bit word, and no string holds a zero byte.
pub record IsInfo (pkt : Packet) : Type 0 where
  pub syslog_word : pkt.syslog_server < 2 ^ 32
  pub threshold_word : pkt.threshold < 2 ^ 32
  pub uptime_word : pkt.uptime < 2 ^ 32
  pub unixts_word : pkt.unixts < 2 ^ 32
  pub ram_word : pkt.free_ram < 2 ^ 32
  pub latency_word : pkt.latency < 2 ^ 32
  pub ntp_word : pkt.ntp_server < 2 ^ 32
  pub speed_word : pkt.stat_probe_speed < 2 ^ 32
  pub base_text : IsText pkt.http_base_address
  pub platform_text : IsText pkt.platform_name
  pub accelerometer_text : IsText pkt.accelerometer_name

take-IsText : (n : ℕ) (s : Bytes) → IsText s → IsText (take n s)
take-IsText zero s h = tt
take-IsText (suc n) [] h = tt
take-IsText (suc n) (c ∷ cs) h = (h.0, take-IsText n cs h.1)

text_at-text : (s rest : Bytes) → IsText s → text_at (s ++ (0 ∷ rest)) ≡ (s, rest)
unfolding text_at
text_at-text [] rest h = refl
text_at-text (c ∷ cs) rest h = ground (arith, text_at-text cs rest h.1, h.0)

-- A string without a zero byte leaves its text and one zero.
string_field-text :
    (max : ℕ) (s rest : Bytes)
    → IsText s
    → text_at (string_field max s ++ rest) ≡ (take max s, rest)
unfolding string_field
string_field-text max s rest h =
    let e : min (length s) max + 1 - length (take max s) ≡ 1 = omega (arith, length-take max s) in
    rw (c_string-IsText s h, e, append_assoc) (text_at-text (take max s) rest (take-IsText max s h))

-- The reader at a buffer whose fixed fields are spelled out byte by byte.
read_info_fields :
    (k a b c d e f w1 w2 w3 w4 v1 v2 v3 v4 w5 w6 w7 w8 : ℕ) (s1 s2 s3 rest : Bytes)
    → IsText s1
    → IsText s2
    → IsText s3
    → read_info (
        magic
        ++ (k
            ∷ a
            ∷ b
            ∷ c
            ∷ d
            ∷ e
            ∷ f
            ∷ (to_bytes w1
                ++ (to_bytes w2
                    ++ (to_bytes w3
                        ++ (to_bytes w4
                            ++ (v1
                                ∷ v2
                                ∷ v3
                                ∷ v4
                                ∷ (to_bytes w5
                                    ++ (to_bytes w6
                                        ++ (to_bytes w7
                                            ++ (string_field 169 s1
                                                ++ (string_field 19 s2
                                                    ++ (string_field 9 s3
                                                        ++ (to_bytes w8 ++ rest))))))))))))))
      ≡ record {
        mac = a ∷ b ∷ c ∷ d ∷ e ∷ f ∷ [];
        syslog_server = of_bytes (to_bytes w1);
        threshold = of_bytes (to_bytes w2);
        uptime = of_bytes (to_bytes w3);
        unixts = of_bytes (to_bytes w4);
        version = v1 ∷ v2 ∷ v3 ∷ v4 ∷ [];
        free_ram = of_bytes (to_bytes w5);
        latency = of_bytes (to_bytes w6);
        ntp_server = of_bytes (to_bytes w7);
        http_base_address = take 169 s1;
        platform_name = take 19 s2;
        accelerometer_name = take 9 s3;
        stat_probe_speed = of_bytes (to_bytes w8);
      }
unfolding read_info to_bytes
read_info_fields k a b c d e f w1 w2 w3 w4 v1 v2 v3 v4 w5 w6 w7 w8 s1 s2 s3 rest h1 h2 h3 =
    rw
      (
        string_field-text 169 s1
            (string_field 19 s2 ++ (string_field 9 s3 ++ (to_bytes w8 ++ rest))) h1,
        string_field-text 19 s2 (string_field 9 s3 ++ (to_bytes w8 ++ rest)) h2,
        string_field-text 9 s3 (to_bytes w8 ++ rest) h3,
      )
      refl

abbrev FourBytes : Bytes → Type 0
FourBytes m = (a : ℕ) × (b : ℕ) × (c : ℕ) × (d : ℕ) × (m ≡ a ∷ b ∷ c ∷ d ∷ [])

four_bytes : (m : Bytes) → 4 ≤ length m → FourBytes (take 4 m)
four_bytes (a ∷ b ∷ c ∷ d ∷ m) h = (a, b, c, d, refl)
four_bytes [] h = absurd (omega arith)
four_bytes (a ∷ []) h = absurd (omega arith)
four_bytes (a ∷ b ∷ []) h = absurd (omega arith)
four_bytes (a ∷ b ∷ c ∷ []) h = absurd (omega arith)

-- The reader at the fields of a packet, for any MAC address and version text of the right size.
read_info_layout :
    (pkt : Packet) (mac ver rest : Bytes)
    → IsInfo pkt
    → SixBytes mac
    → FourBytes ver
    → read_info (
        header getinfo_reply
        ++ (mac
            ++ (to_bytes pkt.syslog_server
                ++ (to_bytes pkt.threshold
                    ++ (to_bytes pkt.uptime
                        ++ (to_bytes pkt.unixts
                            ++ (ver
                                ++ (to_bytes pkt.free_ram
                                    ++ (to_bytes pkt.latency
                                        ++ (to_bytes pkt.ntp_server
                                            ++ (string_field 169 pkt.http_base_address
                                                ++ (string_field 19 pkt.platform_name
                                                    ++ (string_field 9 pkt.accelerometer_name
                                                        ++ (to_bytes pkt.stat_probe_speed
                                                            ++ rest))))))))))))))
      ≡ record (info_of pkt) { mac = mac; version = ver }
read_info_layout pkt mac ver rest i (a, b, c, d, e, f, m) (v1, v2, v3, v4, n) =
    rw (m, n)
      (read_info_fields _ a b c d e f _ _ _ _ v1 v2 v3 v4 _ _ _ _ _ _ _ rest i.base_text
          i.platform_text i.accelerometer_text
        ∙ simp (
          of_bytes-to_bytes pkt.syslog_server i.syslog_word,
          of_bytes-to_bytes pkt.threshold i.threshold_word,
          of_bytes-to_bytes pkt.uptime i.uptime_word,
          of_bytes-to_bytes pkt.unixts i.unixts_word,
          of_bytes-to_bytes pkt.free_ram i.ram_word,
          of_bytes-to_bytes pkt.latency i.latency_word,
          of_bytes-to_bytes pkt.ntp_server i.ntp_word,
          of_bytes-to_bytes pkt.stat_probe_speed i.speed_word,
        ))

-- Whatever the packet holds, a GETINFO_REPLY is built without leaving the buffer, and a reader that
-- walks over its fields finds each of them: the numbers unchanged, the strings cut to their limits.
-- (The arrays have their declared sizes, the numbers are 32-bit words, and the strings hold no zero
-- byte.)
pub read_info-packet_bytes :
    (tag own : Bytes) (pkt : Packet)
    → IsPacket pkt
    → IsInfo pkt
    → pkt.kind ≡ getinfo_reply
    → (buf : Bytes) × (packet_bytes tag own pkt ≡ some buf) × (read_info buf ≡ info_of pkt)
read_info-packet_bytes tag own pkt v i k =
    let size : length pkt.mac ≤ 6 = omega (arith, v.mac_size) in
    let whole : take 6 pkt.mac ≡ pkt.mac = take_all 6 pkt.mac size in
    (
      header getinfo_reply ++ (info_fields pkt ++ zeros (info_rest pkt)),
      packet_bytes-getinfo_reply tag own pkt v k,
      simp (whole, append_assoc)
          (read_info_layout pkt pkt.mac (take 4 pkt.software_version) (zeros (info_rest pkt)) i
            (six_bytes pkt.mac v.mac_size)
            (four_bytes pkt.software_version (omega (arith, v.version_size)))),
    )
