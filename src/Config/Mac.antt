-- ===== src/Config/Mac.antt =====
-- The device's address as text and as bytes.
use galileo_terremoti.Base.{
  ℕ, ◌/◌, ◌%◌, ◌<◌, ◌≡◌, refl, none, some, List, [], ◌∷◌, ◌++◌, arith, Bytes, AreBytes, length,
  six_bytes,
}
use galileo_terremoti.Utils.Mac.{Interface, hex_digit, format_mac, usable, get_interface_mac}
use galileo_terremoti.Config.{hex_value, strtol_byte, mac_address_bytes}

hex_value-hex_digit : (d : ℕ) → d < 16 → hex_value (hex_digit d) ≡ some d
unfolding hex_value hex_digit
hex_value-hex_digit d h = ground arith

strtol_byte-hex : (b : ℕ) → b < 256 → strtol_byte (hex_digit (b / 16)) (hex_digit (b % 16)) ≡ b
unfolding strtol_byte
strtol_byte-hex b h =
    ground (
      arith,
      hex_value-hex_digit (b / 16) (omega arith),
      hex_value-hex_digit (b % 16) (omega arith),
    )

bytes-format_mac :
    (a b c d e f : ℕ)
    → AreBytes (a ∷ b ∷ c ∷ d ∷ e ∷ f ∷ [])
    → mac_address_bytes (format_mac (a ∷ b ∷ c ∷ d ∷ e ∷ f ∷ [])) ≡ a ∷ b ∷ c ∷ d ∷ e ∷ f ∷ []
unfolding mac_address_bytes format_mac
bytes-format_mac a b c d e f (ha, (hb, (hc, (hd, (he, (hf, _)))))) = simp (
  strtol_byte-hex a ha,
  strtol_byte-hex b hb,
  strtol_byte-hex c hc,
  strtol_byte-hex d hd,
  strtol_byte-hex e he,
  strtol_byte-hex f hf,
)

-- Interfaces that the loop passes over.
abbrev pub AreSkipped : List Interface → Type 0
AreSkipped [] = Unit {0}
AreSkipped (it ∷ rest) = (usable it ≡ none) × AreSkipped rest

get_interface_mac_skip :
    (skipped rest : List Interface)
    → AreSkipped skipped
    → get_interface_mac (skipped ++ rest) ≡ get_interface_mac rest
unfolding get_interface_mac
get_interface_mac_skip [] rest h = refl
get_interface_mac_skip (it ∷ skipped) rest h =
    ground (arith, get_interface_mac_skip skipped rest h.1, h.0)

get_interface_mac_here :
    (it : Interface) (rest : List Interface) (mac : Bytes)
    → usable it ≡ some mac
    → get_interface_mac (it ∷ rest) ≡ format_mac mac
unfolding get_interface_mac
get_interface_mac_here it rest mac h = ground (arith, h)

-- The text that `getInterfaceMAC` makes of the first interface that is no loopback and has a
-- hardware address is turned back into that address by `getMacAddressAsByte`. (The address has six
-- bytes.)
pub mac_address_bytes-get_interface_mac :
    (skipped rest : List Interface) (it : Interface) (mac : Bytes)
    → AreSkipped skipped
    → usable it ≡ some mac
    → length mac ≡ 6
    → AreBytes mac
    → mac_address_bytes (get_interface_mac (skipped ++ (it ∷ rest))) ≡ mac
mac_address_bytes-get_interface_mac skipped rest it mac s u n h =
    let (a, b, c, d, e, f, m) = six_bytes mac n in
    rw (get_interface_mac_skip skipped (it ∷ rest) s, get_interface_mac_here it rest mac u, m)
      (bytes-format_mac a b c d e f (rw m at h))
