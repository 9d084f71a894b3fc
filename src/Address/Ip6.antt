-- ===== src/Address/Ip6.antt =====
-- `Ip6Address`, `Ip6Mask`, `Ip6Network` and `Ip6Host` of pytcp/lib/ip6_address.py. An address and a
-- mask are their values, numbers below 2 ^ 128.
pub mod Laws
use py_tcp.Prelude.{
  ℕ, ◌+◌, ◌-◌, ◌*◌, ◌/◌, ◌%◌, ◌^◌, Option, none, some, List, Bool, true, false, not, ◌&&◌, ◌||◌,
  ◌==◌, leb, length, if◌then◌else◌,
}
use Prim.Native.Nat.{bit_and, bit_or, bit_xor}
use py_tcp.Prelude.Int.{ℤ, pos, negsuc}
use py_tcp.Checksum.{from_bytes}
use py_tcp.Address.Ip4.{Given, int, bytes, text, object, bit_string, from_zero, count_ones}

unfoldable pub is_ip6_loopback : ℕ → Bool
is_ip6_loopback address = address == 1

unfoldable pub is_ip6_global : ℕ → Bool
is_ip6_global address =
    bit_and address 0xe000_0000_0000_0000_0000_0000_0000_0000
    == 0x2000_0000_0000_0000_0000_0000_0000_0000

unfoldable pub is_ip6_private : ℕ → Bool
is_ip6_private address =
    bit_and address 0xfe00_0000_0000_0000_0000_0000_0000_0000
    == 0xfc00_0000_0000_0000_0000_0000_0000_0000

unfoldable pub is_ip6_link_local : ℕ → Bool
is_ip6_link_local address =
    bit_and address 0xffc0_0000_0000_0000_0000_0000_0000_0000
    == 0xfe80_0000_0000_0000_0000_0000_0000_0000

unfoldable pub is_ip6_multicast : ℕ → Bool
is_ip6_multicast address =
    bit_and address 0xff00_0000_0000_0000_0000_0000_0000_0000
    == 0xff00_0000_0000_0000_0000_0000_0000_0000

unfoldable pub is_solicited_node_multicast : ℕ → Bool
is_solicited_node_multicast address =
    bit_and address 0xffff_ffff_ffff_ffff_ffff_ffff_ff00_0000
    == 0xff02_0000_0000_0000_0000_0001_ff00_0000

-- ff02::1:ff00:0
abbrev pub solicited_node_prefix : ℕ
solicited_node_prefix = 0xff02_0000_0000_0000_0000_0001_ff00_0000

unfoldable pub solicited_node_multicast : ℕ → ℕ
solicited_node_multicast address = bit_or (bit_and address 0xff_ffff) solicited_node_prefix

-- The MAC address of a multicast group; `none` for the assertion.
unfoldable pub ip6_multicast_mac : ℕ → Option ℕ
unfolding is_ip6_multicast
ip6_multicast_mac address =
    if is_ip6_multicast address
    then some (bit_or 0x3333_0000_0000 (bit_and address 0xffff_ffff))
    else none

-- `is_unicast` of `IpAddress`.
unfoldable pub is_ip6_unicast : ℕ → Bool
unfolding is_ip6_global is_ip6_private is_ip6_link_local is_ip6_loopback
is_ip6_unicast address =
    is_ip6_global address
    || (is_ip6_private address || (is_ip6_link_local address || is_ip6_loopback address))

-- `value & 0xFFFF_..._FFFF == value`; no negative number passes.
abbrev fits_ip6 : ℤ → Option ℕ
fits_ip6 (pos n) = if bit_and n 0xffff_ffff_ffff_ffff_ffff_ffff_ffff_ffff == n then some n else none
fits_ip6 (negsuc n) = none

-- The number of four words for sixteen bytes.
abbrev unpack_longs : List ℕ → Option ℕ
unpack_longs bs = if length bs == 16 then some (from_bytes 0 bs) else none

-- `socket.inet_pton` for the texts that the expression `IP6_REGEX` is found in.
abbrev pton {ℓ} : {Text : Type ℓ} → (Text → Bool) → (Text → Option ℕ) → Text → Option ℕ
pton has_address inet_pton t = if has_address t then inet_pton t else none

-- The constructor of an address; `none` for `Ip6AddressFormatError`.
unfoldable pub new_ip6_address {ℓ} :
    {Text : Type ℓ} → (Text → Bool) → (Text → Option ℕ) → Given Text → Option ℕ
new_ip6_address has_address inet_pton (int n) = fits_ip6 n
new_ip6_address has_address inet_pton (bytes bs) = unpack_longs bs
new_ip6_address has_address inet_pton (text t) = pton has_address inet_pton t
new_ip6_address has_address inet_pton (object a) = some a

-- `_validate_bits`: the mask is made of consecutive bits.
unfoldable pub validate_ip6_bits : ℕ → Bool
unfolding bit_string from_zero count_ones
validate_ip6_bits mask = count_ones (from_zero (bit_string 128 mask)) == 0

abbrev validated_ip6 : Option ℕ → Option ℕ
validated_ip6 none = none
validated_ip6 (some mask) = if validate_ip6_bits mask then some mask else none

-- `int("1" * bit_count + "0" * (128 - bit_count), 2)`
abbrev pub ip6_mask_of_bit_count : ℕ → ℕ
ip6_mask_of_bit_count bit_count = (2 ^ bit_count - 1) * 2 ^ (128 - bit_count)

abbrev ip6_mask_of_slash : Option ℕ → Option ℕ
ip6_mask_of_slash none = none
ip6_mask_of_slash (some bit_count) =
    if leb bit_count 128 then some (ip6_mask_of_bit_count bit_count) else none

-- The constructor of a mask; `slash` reads a text of a slash and up to three digits.
unfoldable pub new_ip6_mask {ℓ} : {Text : Type ℓ} → (Text → Option ℕ) → Given Text → Option ℕ
unfolding validate_ip6_bits
new_ip6_mask slash (int n) = validated_ip6 (fits_ip6 n)
new_ip6_mask slash (bytes bs) = validated_ip6 (unpack_longs bs)
new_ip6_mask slash (text t) = ip6_mask_of_slash (slash t)
new_ip6_mask slash (object m) = some m

pub record Ip6Network : Type 0 where
  pub address : ℕ
  pub mask : ℕ

-- The constructor, for an address and a mask.
unfoldable pub new_ip6_network : ℕ → ℕ → Ip6Network
new_ip6_network address mask = record { address = bit_and address mask; mask = mask }

-- `~mask & 0xFFFF...FFFF` is what is missing to 128 ones.
abbrev pub ip6_last_address : Ip6Network → ℕ
ip6_last_address n = n.address + (0xffff_ffff_ffff_ffff_ffff_ffff_ffff_ffff - n.mask)

-- `address in network`
unfoldable pub ip6_contains : Ip6Network → ℕ → Bool
ip6_contains n other = leb n.address other && leb other (ip6_last_address n)

pub record Ip6Host : Type 0 where
  pub address : ℕ
  pub network : Ip6Network
  pub gateway : Option ℕ

-- The constructor, for an address and a mask.
unfoldable pub new_ip6_host : ℕ → ℕ → Ip6Host
unfolding new_ip6_network
new_ip6_host address mask = record {
  address = address;
  network = new_ip6_network address mask;
  gateway = none;
}

-- The interface identifier that a MAC address gives.
abbrev pub interface_id : ℕ → ℕ
interface_id mac =
    bit_xor
      (bit_or (bit_or (bit_and mac 0xffff_ff00_0000 * 2 ^ 16) (bit_and mac 0xff_ffff))
        0xff_fe00_0000)
      0x0200_0000_0000_0000

-- `eui64`; `none` for the assertion that the mask has 64 bits.
unfoldable pub eui64 : Ip6Network → ℕ → Option Ip6Host
unfolding new_ip6_host
eui64 n mac =
    if count_ones (bit_string 128 n.mask) == 64
    then some (new_ip6_host (bit_or n.address (interface_id mac)) (ip6_mask_of_bit_count 64))
    else none

-- `Ip6Network("fe80::/10")`
abbrev pub link_local_network : Ip6Network
link_local_network = record {
  address = 0xfe80_0000_0000_0000_0000_0000_0000_0000;
  mask = 0xffc0_0000_0000_0000_0000_0000_0000_0000;
}

-- The setter of the gateway; `none` for `Ip6HostGatewayError`.
unfoldable pub set_ip6_gateway : Option ℕ → Ip6Host → Option Ip6Host
unfolding ip6_contains
set_ip6_gateway none host = some (record host { gateway = none })
set_ip6_gateway (some gateway) host =
    if not (ip6_contains link_local_network gateway)
    then none
    else some (record host { gateway = some gateway })
