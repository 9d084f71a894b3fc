-- ===== src/Address/Ip4.antt =====
-- `Ip4Address`, `Ip4Mask`, `Ip4Network` and `Ip4Host` of pytcp/lib/ip4_address.py. An address and a
-- mask are their values, numbers below 2 ^ 32.
pub mod Classes
pub mod Masks
pub mod Networks
use py_tcp.Prelude.{
  ℕ, zero, suc, ◌+◌, ◌-◌, ◌*◌, ◌/◌, ◌%◌, ◌^◌, Option, none, some, List, [], ◌∷◌, ◌++◌, Bool, true,
  false, not, ◌&&◌, ◌||◌, ◌==◌, leb, length, if◌then◌else◌,
}
use Prim.Native.Nat.{bit_and, bit_or}
use py_tcp.Prelude.Int.{ℤ, pos, negsuc}
use py_tcp.Checksum.{from_bytes}

abbrev pub is_unspecified : ℕ → Bool
is_unspecified address = address == 0

unfoldable pub is_link_local : ℕ → Bool
is_link_local address = bit_and address 0xffff_0000 == 0xa9fe_0000

unfoldable pub is_loopback : ℕ → Bool
is_loopback address = bit_and address 0xff00_0000 == 0x7f00_0000

unfoldable pub is_multicast : ℕ → Bool
is_multicast address = bit_and address 0xf000_0000 == 0xe000_0000

unfoldable pub is_private : ℕ → Bool
is_private address =
    bit_and address 0xff00_0000 == 0x0a00_0000
    || (bit_and address 0xfff0_0000 == 0xac10_0000 || bit_and address 0xffff_0000 == 0xc0a8_0000)

unfoldable pub is_reserved : ℕ → Bool
is_reserved address = bit_and address 0xf000_0001 == 0xf000_0000

abbrev pub is_limited_broadcast : ℕ → Bool
is_limited_broadcast address = address == 0xffff_ffff

unfoldable pub is_invalid : ℕ → Bool
is_invalid address = not (address == 0) && bit_and address 0xff00_0000 == 0

unfoldable pub is_global : ℕ → Bool
is_global address = not (
    is_unspecified address
    || (is_invalid address
        || (is_link_local address
            || (is_loopback address
                || (is_multicast address
                    || (is_private address
                        || (is_reserved address || is_limited_broadcast address)))))))

unfoldable pub is_unicast : ℕ → Bool
is_unicast address =
    is_global address || (is_private address || (is_link_local address || is_loopback address))

-- The MAC address of a multicast group; `none` for the assertion.
unfoldable pub multicast_mac : ℕ → Option ℕ
multicast_mac address =
    if is_multicast address
    then some (bit_or 0x0100_5e00_0000 (bit_and address 0x7f_ffff))
    else none

-- What the constructors of addresses and masks take: a number, bytes, a text or an object of the class.
pub data Given {ℓ} (Text : Type ℓ) : Type ℓ where
  int : ℤ → Given Text
  bytes : List ℕ → Given Text
  text : Text → Given Text
  object : ℕ → Given Text

-- `value & 0xFF_FF_FF_FF == value`; no negative number passes.
abbrev fits_word : ℤ → Option ℕ
fits_word (pos n) = if bit_and n 0xffff_ffff == n then some n else none
fits_word (negsuc n) = none

-- `struct.unpack("!L", value)[0]` for four bytes.
abbrev unpack_long : List ℕ → Option ℕ
unpack_long bs = if length bs == 4 then some (from_bytes 0 bs) else none

-- `socket.inet_aton` for the texts that the expression `IP4_REGEX` is found in.
abbrev aton {ℓ} : {Text : Type ℓ} → (Text → Bool) → (Text → Option ℕ) → Text → Option ℕ
aton has_address inet_aton t = if has_address t then inet_aton t else none

-- The constructor of an address; `none` for `Ip4AddressFormatError`.
unfoldable pub new_ip4_address {ℓ} :
    {Text : Type ℓ} → (Text → Bool) → (Text → Option ℕ) → Given Text → Option ℕ
new_ip4_address has_address inet_aton (int n) = fits_word n
new_ip4_address has_address inet_aton (bytes bs) = unpack_long bs
new_ip4_address has_address inet_aton (text t) = aton has_address inet_aton t
new_ip4_address has_address inet_aton (object a) = some a

-- The last `w` binary digits, the highest first: `f"{mask:032b}"` for a `w` of 32.
unfoldable pub bit_string : ℕ → ℕ → List Bool
bit_string zero n = []
bit_string (suc w) n = bit_string w (n / 2) ++ ((n % 2 == 1) ∷ [])

-- The string from its first zero on.
unfoldable pub from_zero : List Bool → List Bool
from_zero [] = []
from_zero (true ∷ bs) = from_zero bs
from_zero (false ∷ bs) = false ∷ bs

unfoldable pub count_ones : List Bool → ℕ
count_ones [] = 0
count_ones (true ∷ bs) = suc (count_ones bs)
count_ones (false ∷ bs) = count_ones bs

-- `_validate_bits`: the mask is made of consecutive bits.
unfoldable pub validate_bits : ℕ → Bool
validate_bits mask = count_ones (from_zero (bit_string 32 mask)) == 0

-- `len(mask)`
unfoldable pub mask_len : ℕ → ℕ
mask_len mask = count_ones (bit_string 32 mask)

abbrev validated : Option ℕ → Option ℕ
validated none = none
validated (some mask) = if validate_bits mask then some mask else none

-- `int("1" * bit_count + "0" * (32 - bit_count), 2)`
abbrev pub mask_of_bit_count : ℕ → ℕ
mask_of_bit_count bit_count = (2 ^ bit_count - 1) * 2 ^ (32 - bit_count)

abbrev mask_of_slash : Option ℕ → Option ℕ
mask_of_slash none = none
mask_of_slash (some bit_count) =
    if leb bit_count 32 then some (mask_of_bit_count bit_count) else none

abbrev or_else : Option ℕ → Option ℕ → Option ℕ
or_else none other = other
or_else (some n) other = some n

-- The constructor of a mask; `slash` reads a text of a slash and one or two digits.
unfoldable pub new_ip4_mask {ℓ} :
    {Text : Type ℓ} → (Text → Option ℕ) → (Text → Bool) → (Text → Option ℕ) → Given Text → Option ℕ
unfolding validate_bits
new_ip4_mask slash has_address inet_aton (int n) = validated (fits_word n)
new_ip4_mask slash has_address inet_aton (bytes bs) = validated (unpack_long bs)
new_ip4_mask slash has_address inet_aton (text t) =
    or_else (mask_of_slash (slash t)) (validated (aton has_address inet_aton t))
new_ip4_mask slash has_address inet_aton (object m) = some m

pub record Ip4Network : Type 0 where
  pub address : ℕ
  pub mask : ℕ

-- The constructor, for an address and a mask.
unfoldable pub new_ip4_network : ℕ → ℕ → Ip4Network
new_ip4_network address mask = record { address = bit_and address mask; mask = mask }

-- `~mask & 0xFFFFFFFF` is what is missing to 32 ones.
abbrev pub last_address : Ip4Network → ℕ
last_address n = n.address + (0xffff_ffff - n.mask)

abbrev pub broadcast_address : Ip4Network → ℕ
broadcast_address n = last_address n

-- `address in network`
unfoldable pub contains : Ip4Network → ℕ → Bool
contains n other = leb n.address other && leb other (last_address n)

pub record Ip4Host : Type 0 where
  pub address : ℕ
  pub network : Ip4Network
  pub gateway : Option ℕ

-- The constructor, for an address and a mask.
unfoldable pub new_ip4_host : ℕ → ℕ → Ip4Host
unfolding new_ip4_network
new_ip4_host address mask = record {
  address = address;
  network = new_ip4_network address mask;
  gateway = none;
}

-- The setter of the gateway; `none` for `Ip4HostGatewayError`.
unfoldable pub set_gateway : Option ℕ → Ip4Host → Option Ip4Host
unfolding contains
set_gateway none host = some (record host { gateway = none })
set_gateway (some gateway) host =
    if not (contains host.network gateway)
      || (gateway == host.network.address
          || (gateway == broadcast_address host.network || gateway == host.address))
    then none
    else some (record host { gateway = some gateway })
