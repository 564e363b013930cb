-- ===== src/Net/IpAddr.antt =====
-- net/IPaddr.cpp and net/IPaddr.h: IPv4 addresses as 32-bit words in host order.
-- The machine is little-endian, so octet 3 of the memory is the first one of the dotted text.
-- `gethostbyname` is an argument of `resolve`. `localIP` only asks the kernel and is left out.
pub mod Octets
use mathlib.Core.List.{reverse}
use galileo_terremoti.Base.{
  ℕ, ◌+◌, ◌*◌, ◌%◌, ◌^◌, ◌<◌, ◌≡◌, ap, Bool, Option, none, some, [], ◌∷◌, ◌++◌, arith, Bytes,
  to_bytes, of_bytes, get_or, decimal, read_digits, ◌==◌, if◌then◌else◌,
}

pub record IpAddr : Type 0 where
  pub ipaddr : ℕ

-- `IPaddr(uint32_t x)`, `IPaddr()`, and the constructor from four octets.
abbrev pub of_int : ℕ → IpAddr
of_int x = record { ipaddr = x }

unfoldable pub of_octets : ℕ → ℕ → ℕ → ℕ → IpAddr
of_octets x1 x2 x3 x4 = of_int ((x1 * 16777216 + x2 * 65536 + x3 * 256 + x4) % 2 ^ 32)

-- `operator[]`: the byte of the word's memory at an index. Past the end the source reads other
-- memory; here it is 0.
unfoldable pub octet : IpAddr → ℕ → ℕ
octet a idx = get_or (to_bytes a.ipaddr) idx 0

-- `operator==`.
unfoldable pub same_address : IpAddr → IpAddr → Bool
same_address a b = b.ipaddr == a.ipaddr

-- `snprintf(buf, 512, "%u.%u.%u.%u", p1[3], p1[2], p1[1], p1[0])`.
unfoldable pub as_string : IpAddr → Bytes
unfolding octet
as_string a =
    decimal (octet a 3)
    ++ (b'.'
        ∷ (decimal (octet a 2) ++ (b'.' ∷ (decimal (octet a 1) ++ (b'.' ∷ decimal (octet a 0))))))

-- `htonl` and `ntohl`.
unfoldable pub byte_swap : ℕ → ℕ
byte_swap x = of_bytes (reverse (to_bytes x))

-- `resolve`: the resolver answers with an address in network order, or not at all.
unfoldable pub resolve : (Bytes → Option ℕ) → Bytes → IpAddr
resolve lookup hostname = elim (lookup hostname) [
  | none ↦ of_int 0
  | some s_addr ↦ of_int (byte_swap s_addr)
]

-- What stands behind the next dot.
unfoldable pub after_dot : Bytes → Bytes
after_dot [] = []
after_dot (c ∷ cs) = if c == b'.' then cs else after_dot cs

-- A reader of dotted text, as the command interface's users have it.
unfoldable pub read_dotted : Bytes → IpAddr
unfolding after_dot
read_dotted s =
    let r = after_dot s in
    let t = after_dot r in
    of_octets (read_digits 0 s) (read_digits 0 r) (read_digits 0 t) (read_digits 0 (after_dot t))
