-- ===== src/Utils/Mac.antt =====
-- `Utils::getInterfaceMAC` of Utils.cpp (the Linux branch): the first interface that is no loopback
-- and has a hardware address, printed with "%02x". What the three `ioctl` calls answer for each
-- interface is data; a failing socket is the empty list.
use galileo_terremoti.Base.{
  ℕ, ◌+◌, ◌-◌, ◌/◌, ◌%◌, Bool, Option, none, some, List, [], ◌∷◌, Bytes, ltb, if◌then◌else◌, get_or,
}

pub record Interface : Type 0 where
  -- SIOCGIFFLAGS: `none` if the call fails, else whether IFF_LOOPBACK is set.
  pub loopback : Option Bool
  -- SIOCGIFHWADDR: the address, `none` if the call fails.
  pub hardware : Option Bytes

unfoldable pub hex_digit : ℕ → ℕ
hex_digit d = if ltb d 10 then b'0' + d else b'a' + (d - 10)

-- `%02x` of a byte.
abbrev pub hex_byte : ℕ → Bytes → Bytes
hex_byte b rest = hex_digit (b / 16) ∷ hex_digit (b % 16) ∷ rest

unfoldable pub format_mac : Bytes → Bytes
unfolding hex_digit
format_mac mac = hex_byte (get_or mac 0 0) (
    hex_byte (get_or mac 1 0) (
      hex_byte (get_or mac 2 0)
        (hex_byte (get_or mac 3 0) (hex_byte (get_or mac 4 0) (hex_byte (get_or mac 5 0) [])))))

-- The address of an interface that the loop accepts.
unfoldable pub usable : Interface → Option Bytes
usable it = elim it.loopback [
  | none ↦ none
  | some loopback ↦ if loopback then none else it.hardware
]

unfoldable pub get_interface_mac : List Interface → Bytes
unfolding usable format_mac
get_interface_mac [] = []
get_interface_mac (it ∷ rest) = elim (usable it) [
  | none ↦ get_interface_mac rest
  | some mac ↦ format_mac mac
]
