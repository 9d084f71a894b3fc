-- ===== src/Address/Ip4/Classes.antt =====
-- The classes of IPv4 addresses as ranges.
use py_tcp.Prelude.{ℕ, ◌+◌, ◌*◌, ◌/◌, ◌%◌, ◌^◌, ◌≤◌, ◌<◌, ◌≡◌, ◌≢◌, ◌⊎◌, ◌↔◌, true, arith}
use Prim.Native.Nat.{bit_and}
use py_tcp.Prelude.Bits.{bit_and-mask, bit_and-halves}
use py_tcp.Address.Ip4.{
  is_link_local, is_loopback, is_multicast, is_private, is_reserved, is_invalid, is_global,
  is_unicast,
}

-- `&` with the masks of the classes.
module _ (a : ℕ) where
  mask_4 : bit_and a 0xf000_0000 ≡ a / 2 ^ 28 % 2 ^ 4 * 2 ^ 28
  mask_4 = bit_and-mask 28 4 a

  mask_8 : bit_and a 0xff00_0000 ≡ a / 2 ^ 24 % 2 ^ 8 * 2 ^ 24
  mask_8 = bit_and-mask 24 8 a

  mask_12 : bit_and a 0xfff0_0000 ≡ a / 2 ^ 20 % 2 ^ 12 * 2 ^ 20
  mask_12 = bit_and-mask 20 12 a

  mask_16 : bit_and a 0xffff_0000 ≡ a / 2 ^ 16 % 2 ^ 16 * 2 ^ 16
  mask_16 = bit_and-mask 16 16 a

  mask_even : bit_and a 0xf000_0001 ≡ a / 2 / 2 ^ 27 % 2 ^ 4 * 2 ^ 27 * 2 + a % 2
  mask_even = omega (arith, bit_and-halves a 0xf000_0001, bit_and-mask 27 4 (a / 2))

-- An IPv4 address is a unicast address just if it lies between 1.0.0.0 and 223.255.255.255, or is an odd
-- number from 240.0.0.1 on other than the limited broadcast: the classes unspecified, invalid, multicast,
-- reserved and limited broadcast leave no others over.
pub is_unicast_iff :
    (a : ℕ)
    → a < 2 ^ 32
    → (is_unicast a ≡ true) ↔ (
        ((0x0100_0000 ≤ a) × (a < 0xe000_0000))
        ⊎ ((0xf000_0000 < a) × (a % 2 ≡ 1) × (a ≢ 0xffff_ffff)))
unfolding is_unicast is_global is_private is_link_local is_loopback is_multicast is_reserved
    is_invalid
is_unicast_iff a word = ground (arith, mask_4 a, mask_8 a, mask_12 a, mask_16 a, mask_even a)
