-- ===== src/Address/Tests.antt =====
-- Addresses, masks and networks at concrete inputs.
use py_tcp.Prelude.{ℕ, ◌-◌, ◌/◌, ◌%◌, ◌^◌, ◌≤◌, ◌<◌, ◌≡◌, ◌≢◌, ◌⊎◌, ◌↔◌, refl, true, arith}
use py_tcp.Address.Ip4.{
  is_unicast, validate_bits, contains, new_ip4_network, bit_string, from_zero, count_ones,
}
use py_tcp.Address.Ip6.{validate_ip6_bits}
use py_tcp.Address.Ip4.Classes.{is_unicast_iff}
use py_tcp.Address.Ip4.Networks.{contains_iff}

-- 240.0.0.1, which the comment counts as reserved.
abbrev odd_address : ℕ
odd_address = 0xf000_0001

is_unicast_iff_example : (is_unicast odd_address ≡ true) ↔ (
    ((0x0100_0000 ≤ odd_address) × (odd_address < 0xe000_0000))
    ⊎ ((0xf000_0000 < odd_address) × (odd_address % 2 ≡ 1) × (odd_address ≢ 0xffff_ffff)))
is_unicast_iff_example = is_unicast_iff odd_address (omega arith)

mask_24 : validate_bits 0xffff_ff00 ≡ true
unfolding validate_bits bit_string from_zero count_ones
mask_24 = refl

contains_iff_example :
    (k : ℕ) × (k ≤ 32)
    × (0xffff_ff00 ≡ 2 ^ 32 - 2 ^ k)
    × ((other : ℕ)
        → (contains (new_ip4_network 0xc0a8_0107 0xffff_ff00) other ≡ true)
          ↔ (other / 2 ^ k ≡ 0xc0a8_0107 / 2 ^ k))
contains_iff_example = contains_iff 0xc0a8_0107 0xffff_ff00 (omega arith) (omega arith) mask_24

ip6_mask_64 : validate_ip6_bits 0xffff_ffff_ffff_ffff_0000_0000_0000_0000 ≡ true
unfolding validate_ip6_bits bit_string from_zero count_ones
ip6_mask_64 = refl
