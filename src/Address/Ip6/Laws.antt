-- ===== src/Address/Ip6/Laws.antt =====
-- Masks, networks and classes of pytcp/lib/ip6_address.py as ranges of numbers.
use py_tcp.Prelude.{
  ℕ, ◌+◌, ◌-◌, ◌/◌, ◌%◌, ◌^◌, ◌≤◌, ◌<◌, ◌≡◌, ◌↔◌, some, true, arith, refl, ap, ◌∙◌,
}
use Prim.Native.Nat.{bit_and, bit_or}
use py_tcp.Prelude.Bits.{bit_and-mask, bit_and-ones, bit_or-filled, bit_or-fills}
use py_tcp.Address.Ip4.Masks.{prefix_iff}
use py_tcp.Address.Ip4.Networks.{contains_prefix}
use py_tcp.Address.Ip6.{
  validate_ip6_bits, new_ip6_network, ip6_contains, is_ip6_multicast, is_solicited_node_multicast,
  solicited_node_multicast, ip6_multicast_mac, solicited_node_prefix,
}

-- For every mask of 128 bits that `_validate_bits` accepts there is a length k of the host part such that
-- the mask is 2 ^ 128 - 2 ^ k and the network of an address and this mask contains just the
-- addresses with the same other bits.
ip6_contains_iff :
    (address mask : ℕ)
    → address < 2 ^ 128
    → mask < 2 ^ 128
    → validate_ip6_bits mask ≡ true
    → (k : ℕ) × (k ≤ 128)
      × (mask ≡ 2 ^ 128 - 2 ^ k)
      × ((other : ℕ)
          → (ip6_contains (new_ip6_network address mask) other ≡ true)
            ↔ (other / 2 ^ k ≡ address / 2 ^ k))
unfolding ip6_contains new_ip6_network validate_ip6_bits
ip6_contains_iff address mask word fits valid =
    let (k, short, e) = (prefix_iff 128 mask fits).0 valid in
    (k, short, e, λ other. rw e (contains_prefix 128 address k word short other))

-- The solicited-node group of an address is ff02::1:ff00:0 with the lower 24 bits of the address. It is a
-- multicast address in the range of such groups, and its MAC address is 33:33:ff with these bits.
pub solicited_node_multicast_lem :
    (a : ℕ)
    → (solicited_node_multicast a ≡ solicited_node_prefix + a % 2 ^ 24)
      × (is_solicited_node_multicast (solicited_node_multicast a) ≡ true)
      × (is_ip6_multicast (solicited_node_multicast a) ≡ true)
      × (ip6_multicast_mac (solicited_node_multicast a) ≡ some (0x3333_ff00_0000 + a % 2 ^ 24))
unfolding solicited_node_multicast is_solicited_node_multicast is_ip6_multicast ip6_multicast_mac
solicited_node_multicast_lem a =
    let low = bit_and-ones 24 a in
    let group : bit_or (bit_and a 0xff_ffff) solicited_node_prefix
        ≡ solicited_node_prefix + a % 2 ^ 24 =
      rw low (bit_or-fills 24 (solicited_node_prefix / 2 ^ 24) (a % 2 ^ 24) (omega arith)) in
    let g = solicited_node_prefix + a % 2 ^ 24 in
    let mask_104 : bit_and g 0xffff_ffff_ffff_ffff_ffff_ffff_ff00_0000 ≡ solicited_node_prefix =
      bit_and-mask 24 104 g ∙ omega arith in
    let mask_8 : bit_and g 0xff00_0000_0000_0000_0000_0000_0000_0000
        ≡ 0xff00_0000_0000_0000_0000_0000_0000_0000 =
      bit_and-mask 120 8 g ∙ omega arith in
    let mask_32 : bit_and g 0xffff_ffff ≡ 0xff00_0000 + a % 2 ^ 24 =
      bit_and-ones 32 g ∙ omega arith in
    let mac = bit_or-filled 32 0x3333 (0xff00_0000 + a % 2 ^ 24) (omega arith) in
    rw (group, mask_104, mask_8, mask_32) (refl, refl, refl, ap some (mac ∙ omega arith))
