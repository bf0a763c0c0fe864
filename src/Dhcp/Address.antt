-- ===== src/Dhcp/Address.antt =====
-- pkg/dhcp/util/util.go, and the addresses of pkg/dhcp/grpcservice/dhcphandler.go. A net.IP is its
-- bytes, and nil has none. Of the Go library, To4, To16, binary.BigEndian.Uint32, big.Int.SetBytes and
-- Cmp are written out; net.ParseIP is a parameter.
use ddi_agent.Base.{
  ℕ, ◌+◌, ◌*◌, ◌/◌, ◌%◌, ◌^◌, String, Bool, true, false, not, Option, none, some, List, [], ◌∷◌,
  ◌++◌, ◌==◌, ◌&&◌, length, if◌then◌else◌, ltb,
}

abbrev pub Ip : Type 0
Ip = List ℕ

abbrev pub v4_in_v6_prefix : Ip
v4_in_v6_prefix = 0 ∷ 0 ∷ 0 ∷ 0 ∷ 0 ∷ 0 ∷ 0 ∷ 0 ∷ 0 ∷ 0 ∷ 255 ∷ 255 ∷ []

-- Where `prefix` starts the bytes, the rest of them.
abbrev pub strip : Ip → Ip → Option Ip
strip [] bytes = some bytes
strip (p ∷ prefix) [] = none
strip (p ∷ prefix) (b ∷ bytes) = let rest = strip prefix bytes in if p == b then rest else none

-- To4: four bytes are an IPv4 address, and so are the last four of sixteen with the prefix of IPv4.
unfoldable pub to4 : Ip → Option Ip
to4 ip =
    if length ip == 4 then some ip else if length ip == 16 then strip v4_in_v6_prefix ip else none

-- To16: nil for what has neither four nor sixteen bytes.
unfoldable pub to16 : Ip → Ip
to16 ip = if length ip == 4 then v4_in_v6_prefix ++ ip else if length ip == 16 then ip else []

abbrev pub be_uint32 : Ip → ℕ
be_uint32 (a ∷ b ∷ c ∷ d ∷ _) = a * 2 ^ 24 + b * 2 ^ 16 + c * 2 ^ 8 + d
be_uint32 _ = 0

abbrev pub set_bytes : ℕ → Ip → ℕ
set_bytes acc [] = acc
set_bytes acc (b ∷ bytes) = set_bytes (acc * 2 ^ 8 + b) bytes

unfoldable pub ipv4_to_uint32 : Ip → ℕ × Bool
unfolding to4
ipv4_to_uint32 ip = elim (to4 ip) [ none ↦ (0, false) | some bytes ↦ (be_uint32 bytes, true) ]

-- Where the address is an IPv4 one the code returns a nil number.
unfoldable pub ipv6_to_big_int : Ip → Option ℕ
unfolding to4 to16
ipv6_to_big_int ip = elim (to4 ip) [ some _ ↦ none | none ↦ some (set_bytes 0 (to16 ip)) ]

abbrev is_some : Option Ip → Bool
is_some none = false
is_some (some _) = true

abbrev pub is_ipv4 : Ip → Bool
is_ipv4 ip = is_some (to4 ip)

-- Cmp(…) == -1; it is called on numbers that are there.
abbrev pub less_big : Option ℕ → Option ℕ → Bool
less_big (some a) (some b) = ltb a b
less_big _ _ = false

unfoldable pub less_ip : Ip → Ip → Bool
unfolding to4 ipv4_to_uint32 ipv6_to_big_int
less_ip one another =
    if is_ipv4 one && not (is_ipv4 another)
    then true
    else if not (is_ipv4 one) && is_ipv4 another
    then false
    else if is_ipv4 one
    then ltb (ipv4_to_uint32 one).0 (ipv4_to_uint32 another).0
    else less_big (ipv6_to_big_int one) (ipv6_to_big_int another)

-- The four bytes by mask and shift.
unfoldable pub ipv4_from_uint32 : ℕ → Ip
ipv4_from_uint32 n = n / 2 ^ 24 % 2 ^ 8 ∷ n / 2 ^ 16 % 2 ^ 8 ∷ n / 2 ^ 8 % 2 ^ 8 ∷ n % 2 ^ 8 ∷ []

module _ (parse_ip : String → Ip) where
  unfoldable pub one_ip_less_than_another : String → String → Bool
  unfolding less_ip
  one_ip_less_than_another one another = less_ip (parse_ip one) (parse_ip another)

  unfoldable pub ipv4_str_to_uint32 : String → ℕ
  unfolding ipv4_to_uint32
  ipv4_str_to_uint32 ipv4 = (ipv4_to_uint32 (parse_ip ipv4)).0

  unfoldable pub ipv6_in_pool : String → String → String → Bool
  unfolding one_ip_less_than_another
  ipv6_in_pool ip begin end = one_ip_less_than_another begin ip && one_ip_less_than_another ip end
