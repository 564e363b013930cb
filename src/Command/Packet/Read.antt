-- ===== src/Command/Packet/Read.antt =====
-- What `readPacket` accepts and what it takes from a request.
use mathlib.Core.List.{reverse}
use mathlib.Core.Path.{subst}
use galileo_terremoti.Base.{
  ℕ, ◌≤◌, ◌<◌, ◌^◌, ◌≡◌, refl, sym, ap, ◌∙◌, inl, inr, true, false, ◌&&◌, none, some, [], ◌∷◌, ◌++◌,
  append-nil, arith, Bytes, take, drop, length, length-take, length-drop, ltb, leb, ◌==◌,
  if◌then◌else◌, zeros, bytes_eq, to_bytes, of_bytes, six_bytes, Bool-cases, take-take, if_cases,
  leb→le, some_inj, none-ne,
}
use galileo_terremoti.Utils.{reverse_float}
use galileo_terremoti.Command.Packet.{
  PacketType, sendgps, setsyslog, Packet, Datagram, packet_size, magic, slice, fill, packet_type_of,
  read_packet,
}
use galileo_terremoti.Command.Packet.Encode.{IsPacket}

-- The request that stands in the first 252 bytes of a datagram.
abbrev pub request : Datagram → Packet → Packet
request d pkt =
    let buf = take packet_size d.payload in
    let kind = packet_type_of (of_bytes (slice 5 1 buf)) in
    fill kind (record pkt { kind = kind; source = d.address }) buf

take_full : (n : ℕ) (s : Bytes) → leb n (length s) ≡ true → length (take n s) ≡ n
take_full n s h = omega (arith, length-take n s, leb→le n (length s) h)

take_short : (n : ℕ) (s : Bytes) → leb n (length s) ≡ false → (length (take n s) == n) ≡ false
take_short n s h = ground (arith, length-take n s)

-- `readPacket` accepts exactly the datagrams of at least 252 bytes that begin with the magic bytes,
-- and reads their first 252 bytes.
pub read_packet-request :
    (d : Datagram) (pkt : Packet)
    → read_packet (some d) pkt ≡ (
        if leb packet_size (length d.payload) && bytes_eq (take 5 d.payload) magic
        then some (request d pkt)
        else none)
unfolding read_packet
read_packet-request d pkt = elim (Bool-cases (leb 252 (length d.payload))) [
  | inl large ↦
      let full : length (take 252 d.payload) ≡ 252 = take_full 252 d.payload large in
      rw (large, full, append-nil, take-take 5 252 d.payload (omega arith))
  | inr small ↦
      let some_size = length (take 252 d.payload) in
      let not_full : (some_size == 252) ≡ false = take_short 252 d.payload small in
      rw (small, not_full) (if_cases (λ o. o ≡ none) (ltb 0 some_size) none none refl refl)
]

fill_lem :
    (kind : PacketType) (pkt : Packet) (buf : Bytes)
    → IsPacket pkt
    → 20 ≤ length buf
    → IsPacket (fill kind pkt buf) × ((fill kind pkt buf).source ≡ pkt.source)
unfolding fill
fill_lem sendgps pkt buf v h = (
  record {
    mac_size = omega (arith, length-take 6 (drop 6 buf), length-drop 6 buf);
    version_size = v.version_size;
  },
  refl,
)
fill_lem setsyslog pkt buf v h =
    (record { mac_size = v.mac_size; version_size = v.version_size }, refl)
fill_lem _ pkt buf v h = (v, refl)

request-IsPacket :
    (d : Datagram) (pkt : Packet)
    → IsPacket pkt
    → length (take packet_size d.payload) ≡ packet_size
    → IsPacket (request d pkt) × ((request d pkt).source ≡ d.address)
request-IsPacket d pkt v h =
    let buf = take packet_size d.payload in
    let kind = packet_type_of (of_bytes (slice 5 1 buf)) in
    fill_lem kind (record pkt { kind = kind; source = d.address }) buf
      (record { mac_size = v.mac_size; version_size = v.version_size }) (omega (arith, h))

pub read_packet-IsPacket :
    (d : Datagram) (pkt pkt' : Packet)
    → IsPacket pkt
    → read_packet (some d) pkt ≡ some pkt'
    → IsPacket pkt' × (pkt'.source ≡ d.address)
read_packet-IsPacket d pkt pkt' v e =
    elim (Bool-cases (leb packet_size (length d.payload) && bytes_eq (take 5 d.payload) magic)) [
      | inl accepted ↦
          let large : leb packet_size (length d.payload) ≡ true = ground arith in
          let same : request d pkt ≡ pkt' =
            some_inj (rw accepted at (sym (read_packet-request d pkt) ∙ e)) in
          subst (λ q. IsPacket q × (q.source ≡ d.address)) same
            (request-IsPacket d pkt v (take_full 252 d.payload large))
      | inr refused ↦ absurd (none-ne (rw refused at (sym (read_packet-request d pkt) ∙ e)))
    ]

-- A number in network order, as the app sends a float's bits.
abbrev pub network_order : ℕ → Bytes
network_order x = reverse (to_bytes x)

reverse_float-network_order : (x : ℕ) → x < 2 ^ 32 → reverse_float (of_bytes (network_order x)) ≡ x
unfolding reverse_float to_bytes of_bytes
reverse_float-network_order x h = omega arith

-- A SENDGPS request for a device: its address, the latitude and the longitude.
abbrev pub position_request : Bytes → ℕ → ℕ → Bytes
position_request mac lat lon =
    magic ++ (7 ∷ (mac ++ (network_order lat ++ (network_order lon ++ zeros 232))))

position_fields :
    (a b c d e f lat lon address : ℕ) (pkt : Packet)
    → request
        (record {
          address = address;
          payload = position_request (a ∷ b ∷ c ∷ d ∷ e ∷ f ∷ []) lat lon;
        })
        pkt
      ≡ record pkt {
        kind = sendgps;
        source = address;
        mac = a ∷ b ∷ c ∷ d ∷ e ∷ f ∷ [];
        latitude = reverse_float (of_bytes (network_order lat));
        longitude = reverse_float (of_bytes (network_order lon));
      }
unfolding to_bytes fill packet_type_of of_bytes
position_fields a b c d e f lat lon address pkt = refl

accepted_position :
    (a b c d e f lat lon : ℕ) (o : Packet)
    → (if leb packet_size (length (position_request (a ∷ b ∷ c ∷ d ∷ e ∷ f ∷ []) lat lon))
          && bytes_eq (take 5 (position_request (a ∷ b ∷ c ∷ d ∷ e ∷ f ∷ []) lat lon)) magic
        then some o
        else none)
      ≡ some o
unfolding to_bytes bytes_eq
accepted_position a b c d e f lat lon o = refl

-- The position of a well-formed SENDGPS request is read back: `readPacket` finds the address and the
-- bits of both coordinates, which the app sends in network order. (The address has six bytes, the
-- bits are 32-bit words.)
pub read_packet-position_request :
    (mac : Bytes) (lat lon address : ℕ) (pkt : Packet)
    → length mac ≡ 6
    → lat < 2 ^ 32
    → lon < 2 ^ 32
    → read_packet (some (record { address = address; payload = position_request mac lat lon })) pkt
      ≡ some (record pkt {
        kind = sendgps;
        source = address;
        mac = mac;
        latitude = lat;
        longitude = lon;
      })
read_packet-position_request mac lat lon address pkt h p q =
    let (a, b, c, d, e, f, m) = six_bytes mac h in
    rw m (
      read_packet-request _ pkt
      ∙ accepted_position a b c d e f lat lon _
      ∙ ap some (position_fields a b c d e f lat lon address pkt)
      ∙ rw (reverse_float-network_order lat p, reverse_float-network_order lon q))
