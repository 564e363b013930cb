-- ===== src/Command/Packet/Encode.antt =====
-- The datagrams that `sendPacket` builds, written down as lists of fields.
use galileo_terremoti.Base.{
  refl, none, ℕ, ◌+◌, ◌-◌, ◌≤◌, ◌≡◌, ap, some, ◌++◌, append_assoc, arith, Bytes, take, length, min,
  to_bytes, Option, memcpy, zeros, ◌∙◌, length-append, ◌∷◌, ◌>>=◌, [], length-take,
  length-replicate,
}
use galileo_terremoti.Command.Packet.{
  discovery_reply, Packet, put, put_info, PacketType, packet_bytes, getinfo_reply, put_discovery,
  magic, branch, code_of, packet_size, software_version,
}
use galileo_terremoti.Command.Packet.Buffer.{
  cursor_at, put_lem, put_string_lem, string_field, memcpy_end, memcpy_at, length-string_field,
}

-- What the struct's arrays guarantee: six bytes of MAC address, and five of version text.
pub record IsPacket (pkt : Packet) : Type 0 where
  pub mac_size : length pkt.mac ≡ 6
  pub version_size : length pkt.software_version ≡ 5

-- The fields of a GETINFO_REPLY from offset 6 on, as the code writes them.
abbrev pub info_fields : Packet → Bytes
info_fields pkt =
    take 6 pkt.mac
    ++ (to_bytes pkt.syslog_server
        ++ (to_bytes pkt.threshold
            ++ (to_bytes pkt.uptime
                ++ (to_bytes pkt.unixts
                    ++ (take 4 pkt.software_version
                        ++ (to_bytes pkt.free_ram
                            ++ (to_bytes pkt.latency
                                ++ (to_bytes pkt.ntp_server
                                    ++ (string_field 169 pkt.http_base_address
                                        ++ (string_field 19 pkt.platform_name
                                            ++ (string_field 9 pkt.accelerometer_name
                                                ++ to_bytes pkt.stat_probe_speed)))))))))))

-- The room that is left of 246 bytes behind them: at least four bytes.
abbrev pub info_rest : Packet → ℕ
info_rest pkt =
    208
    - (min (length pkt.http_base_address) 169 + 1)
    - (min (length pkt.platform_name) 19 + 1)
    - (min (length pkt.accelerometer_name) 9 + 1)
    - 4

word_lem :
    (xs : Bytes) (x k : ℕ)
    → 4 ≤ k
    → put (to_bytes x) 4 (cursor_at xs k) ≡ some (cursor_at (xs ++ to_bytes x) (k - 4))
unfolding to_bytes
word_lem xs x k h = put_lem xs (to_bytes x) 4 k h (omega arith)

put_info_lem :
    (pkt : Packet) (xs : Bytes)
    → IsPacket pkt
    → put_info pkt (cursor_at xs 246) ≡ some (cursor_at (xs ++ info_fields pkt) (info_rest pkt))
unfolding put_info
put_info_lem pkt xs v =
    let k1 = 208 - (min (length pkt.http_base_address) 169 + 1) in
    let k2 = k1 - (min (length pkt.platform_name) 19 + 1) in
    let k3 = k2 - (min (length pkt.accelerometer_name) 9 + 1) in
    rw
      (
        put_lem xs pkt.mac 6 246 (omega arith) (omega (arith, v.mac_size)),
        word_lem _ pkt.syslog_server 240 (omega arith),
        word_lem _ pkt.threshold 236 (omega arith),
        word_lem _ pkt.uptime 232 (omega arith),
        word_lem _ pkt.unixts 228 (omega arith),
        put_lem _ pkt.software_version 4 224 (omega arith) (omega (arith, v.version_size)),
        word_lem _ pkt.free_ram 220 (omega arith),
        word_lem _ pkt.latency 216 (omega arith),
        word_lem _ pkt.ntp_server 212 (omega arith),
        put_string_lem _ pkt.http_base_address 169 208 (omega arith),
        put_string_lem _ pkt.platform_name 19 k1 (omega arith),
        put_string_lem _ pkt.accelerometer_name 9 k2 (omega arith),
        word_lem _ pkt.stat_probe_speed k3 (omega arith),
      )
      (ap (λ (b : Bytes). some (cursor_at b (info_rest pkt))) (simp append_assoc))

-- The first six bytes of every datagram.
abbrev pub header : PacketType → Bytes
header kind = magic ++ code_of kind ∷ []

header_lem :
    (kind : PacketType)
    → (memcpy (zeros packet_size) 0 magic 5 >>= λ buf. memcpy buf 5 (code_of kind ∷ []) 1)
      ≡ some (header kind ++ zeros 246)
header_lem kind =
    rw (memcpy_end [] magic 5 252 (omega arith) (omega arith))
      (memcpy_end magic (code_of kind ∷ []) 1 247 (omega arith) (omega arith))

bind_assoc :
    {A B C : Type 0} (m : Option A) (f : A → Option B) (g : B → Option C)
    → (m >>= λ a. f a >>= g) ≡ ((m >>= f) >>= g)
bind_assoc none f g = refl
bind_assoc (some a) f g = refl

packet_bytes_lem :
    (tag own : Bytes) (pkt : Packet)
    → packet_bytes tag own pkt ≡ branch tag own pkt.kind pkt (header pkt.kind ++ zeros 246)
unfolding packet_bytes
packet_bytes_lem tag own pkt =
    bind_assoc (memcpy (zeros packet_size) 0 magic 5)
      (λ buf. memcpy buf 5 (code_of pkt.kind ∷ []) 1) (branch tag own pkt.kind pkt)
    ∙ ap (λ m. m >>= branch tag own pkt.kind pkt) (header_lem pkt.kind)

branch-getinfo_reply :
    (tag own : Bytes) (pkt : Packet)
    → IsPacket pkt
    → branch tag own getinfo_reply pkt (header getinfo_reply ++ zeros 246)
      ≡ some (header getinfo_reply ++ (info_fields pkt ++ zeros (info_rest pkt)))
unfolding branch
branch-getinfo_reply tag own pkt v =
    ap (λ m. m >>= λ c. some c.buf) (put_info_lem pkt (header getinfo_reply) v)

-- A GETINFO_REPLY is the header, the fields, and zeros up to the end of the buffer.
pub packet_bytes-getinfo_reply :
    (tag own : Bytes) (pkt : Packet)
    → IsPacket pkt
    → pkt.kind ≡ getinfo_reply
    → packet_bytes tag own pkt
      ≡ some (header getinfo_reply ++ (info_fields pkt ++ zeros (info_rest pkt)))
packet_bytes-getinfo_reply tag own pkt v e =
    packet_bytes_lem tag own pkt
    ∙ ap (λ k. branch tag own k pkt (header k ++ zeros 246)) e
    ∙ branch-getinfo_reply tag own pkt v

pub put_discovery_lem :
    (tag own xs : Bytes)
    → length own ≡ 6
    → length xs ≡ 6
    → put_discovery tag own (xs ++ zeros 246)
      ≡ some (
          ((xs ++ take 6 own) ++ take 4 software_version)
          ++ (take (min (length tag) 8) tag ++ zeros (236 - min (length tag) 8)))
unfolding put_discovery
put_discovery_lem tag own xs ho hx =
    let ys = xs ++ take 6 own in
    let zs = ys ++ take 4 software_version in
    let m = min (length tag) 8 in
    let ys_size = length-append xs (take 6 own) in
    let mac_size = length-take 6 own in
    let zs_size = length-append ys (take 4 software_version) in
    rw
      (
        memcpy_at xs own 6 6 246 hx (omega arith) (omega arith),
        memcpy_at ys software_version 12 4 240 (omega arith) (omega arith) (omega arith),
        memcpy_at zs tag 16 m 236 (omega arith) (omega arith) (omega arith),
      )
      (ap some (append_assoc zs (take m tag) (zeros (236 - m))))

length-word : (x : ℕ) → length (to_bytes x) ≡ 4
unfolding to_bytes
length-word x = refl

length-info_fields :
    (pkt : Packet) → IsPacket pkt → length (info_fields pkt ++ zeros (info_rest pkt)) ≡ 246
unfolding to_bytes
length-info_fields pkt v =
    let f1 = string_field 169 pkt.http_base_address in
    let f2 = string_field 19 pkt.platform_name in
    let f3 = string_field 9 pkt.accelerometer_name in
    let last = to_bytes pkt.stat_probe_speed in
    omega (
      arith,
      length-append (info_fields pkt) (zeros (info_rest pkt)),
      length-replicate {0} (info_rest pkt) (let z : ℕ = 0 in z),
      length-append (take 6 pkt.mac) _,
      length-take 6 pkt.mac,
      v.mac_size,
      v.version_size,
      length-append (take 4 pkt.software_version) _,
      length-take 4 pkt.software_version,
      length-append f1 (f2 ++ (f3 ++ last)),
      length-append f2 (f3 ++ last),
      length-append f3 last,
      length-string_field 169 pkt.http_base_address,
      length-string_field 19 pkt.platform_name,
      length-string_field 9 pkt.accelerometer_name,
    )

length-discovery :
    (xs own tag : Bytes)
    → length xs ≡ 6
    → length own ≡ 6
    → length (
        ((xs ++ take 6 own) ++ take 4 software_version)
        ++ (take (min (length tag) 8) tag ++ zeros (236 - min (length tag) 8)))
      ≡ 252
length-discovery xs own tag hx ho =
    let m = min (length tag) 8 in
    omega (
      arith,
      length-append ((xs ++ take 6 own) ++ take 4 software_version) (take m tag ++ zeros (236 - m)),
      length-append (xs ++ take 6 own) (take 4 software_version),
      length-append xs (take 6 own),
      length-take 6 own,
      length-append (take m tag) (zeros (236 - m)),
      length-take m tag,
      length-replicate {0} (236 - m) (let z : ℕ = 0 in z),
    )

-- A buffer that was built, with the size that the call of `send` relies on.
abbrev pub IsFull : Option Bytes → Type 0
IsFull o = (buf : Bytes) × (o ≡ some buf) × (length buf ≡ packet_size)

branch-IsFull :
    (tag own : Bytes) (kind : PacketType) (pkt : Packet)
    → IsPacket pkt
    → length own ≡ 6
    → IsFull (branch tag own kind pkt (header kind ++ zeros 246))
unfolding branch
branch-IsFull tag own discovery_reply pkt v h = (
  _,
  put_discovery_lem tag own (header discovery_reply) h refl,
  length-discovery (header discovery_reply) own tag refl h,
)
branch-IsFull tag own getinfo_reply pkt v h =
    (_, branch-getinfo_reply tag own pkt v, omega (arith, length-info_fields pkt v))
branch-IsFull tag own _ pkt v h = (_, refl, refl)

-- `sendPacket` never writes outside its 252 bytes, in any branch and for strings of any length, and
-- always sends all 252. (The arrays have their declared sizes.)
pub packet_bytes-IsFull :
    (tag own : Bytes) (pkt : Packet)
    → IsPacket pkt
    → length own ≡ 6
    → IsFull (packet_bytes tag own pkt)
packet_bytes-IsFull tag own pkt v h = rw packet_bytes_lem (branch-IsFull tag own pkt.kind pkt v h)
