-- ===== src/Address/Ip4/Networks.antt =====
-- Which addresses are in a network of pytcp/lib/ip4_address.py.
use py_tcp.Prelude.{
  ℕ, zero, suc, ◌+◌, ◌-◌, ◌*◌, ◌/◌, ◌^◌, ◌≤◌, ◌<◌, ◌≡◌, ◌↔◌, true, arith, ap, sym, leb, ◌&&◌, ◌∙◌,
}
use Prim.Native.Nat.{bit_and}
use native.Mathlib.Nat.{mod-eq_of_lt, div-lt_iff_lt-mul, pow-le-pow_right, le-div_iff_mul-le}
use py_tcp.Prelude.Bits.{bit_and-mask, two_pow-pos, two_pow-add}
use py_tcp.Address.Ip4.Masks.{validate_bits_iff}
use py_tcp.Address.Ip4.{new_ip4_network, contains, validate_bits}

same_quotient : (a b d : ℕ) → 0 < d → ((a / d * d ≤ b) × (b < a / d * d + d)) ↔ (b / d ≡ a / d)
same_quotient a b d pos =
    let low : (a / d ≤ b / d) ↔ (a / d * d ≤ b) = le-div_iff_mul-le pos in
    let high : (b / d < suc (a / d)) ↔ (b < suc (a / d) * d) = div-lt_iff_lt-mul pos in
    let next : suc (a / d) * d ≡ a / d * d + d = grind arith in ground (arith, low, high, next)

two_powers : (w k : ℕ) → k ≤ w → 2 ^ (w - k) * 2 ^ k ≡ 2 ^ w
two_powers w k h = let e : w - k + k ≡ w = omega arith in two_pow-add (w - k) k ∙ ap (2 ^◌) e

pred-mul : (x y : ℕ) → 0 < x → (x - 1) * y ≡ x * y - y
pred-mul zero y h = absurd (omega arith)
pred-mul (suc x) y h = let e : suc x - 1 ≡ x = omega arith in rw e (grind arith)

-- A network of `w` bits with k zeros at the end of its mask.
module _ (w a k : ℕ) (word : a < 2 ^ w) (short : k ≤ w) where
  first_address : bit_and a (2 ^ w - 2 ^ k) ≡ a / 2 ^ k * 2 ^ k
  first_address =
      let pos : 0 < 2 ^ k = two_pow-pos k in
      let mask : 2 ^ w - 2 ^ k ≡ (2 ^ (w - k) - 1) * 2 ^ k =
        ap (λ n. n - 2 ^ k) (sym (two_powers w k short))
        ∙ sym (pred-mul (2 ^ (w - k)) (2 ^ k) (two_pow-pos (w - k))) in
      let below : a / 2 ^ k < 2 ^ (w - k) =
        (div-lt_iff_lt-mul pos).1 (rw (two_powers w k short) word) in
      rw mask (bit_and-mask k (w - k) a ∙ ap (λ n. n * 2 ^ k) (mod-eq_of_lt below))

  between_prefix :
      (b : ℕ)
      → ((bit_and a (2 ^ w - 2 ^ k) ≤ b)
          × (b ≤ bit_and a (2 ^ w - 2 ^ k) + (2 ^ w - 1 - (2 ^ w - 2 ^ k))))
        ↔ (b / 2 ^ k ≡ a / 2 ^ k)
  between_prefix b =
      let d = 2 ^ k in
      let pos : 0 < d = two_pow-pos k in
      let small : d ≤ 2 ^ w = omega (arith, pow-le-pow_right {n = 2} (omega arith) short) in
      rw first_address (ground (arith, pos, small, same_quotient a b d pos))

and_leb : (a b c : ℕ) → ((leb a b && leb b c) ≡ true) ↔ ((a ≤ b) × (b ≤ c))
and_leb a b c = ground arith

-- The same for the test of the source.
pub contains_prefix :
    (w a k : ℕ)
    → a < 2 ^ w
    → k ≤ w
    → (b : ℕ)
    → ((leb (bit_and a (2 ^ w - 2 ^ k)) b
          && leb b (bit_and a (2 ^ w - 2 ^ k) + (2 ^ w - 1 - (2 ^ w - 2 ^ k))))
        ≡ true)
      ↔ (b / 2 ^ k ≡ a / 2 ^ k)
contains_prefix w a k word short b =
    let first = bit_and a (2 ^ w - 2 ^ k) in
    let test = and_leb first b (first + (2 ^ w - 1 - (2 ^ w - 2 ^ k))) in
    let range = between_prefix w a k word short b in
    (λ e. range.0 (test.0 e), λ e. test.1 (range.1 e))

-- For every mask of 32 bits that `_validate_bits` accepts there is a length k of the host part such that
-- the network of an address and this mask contains just the addresses with the same other bits.
pub contains_iff :
    (address mask : ℕ)
    → address < 2 ^ 32
    → mask < 2 ^ 32
    → validate_bits mask ≡ true
    → (k : ℕ) × (k ≤ 32)
      × (mask ≡ 2 ^ 32 - 2 ^ k)
      × ((other : ℕ)
          → (contains (new_ip4_network address mask) other ≡ true)
            ↔ (other / 2 ^ k ≡ address / 2 ^ k))
unfolding contains new_ip4_network
contains_iff address mask word fits valid =
    let (k, short, e) = (validate_bits_iff mask fits).0 valid in
    (k, short, e, λ other. rw e (contains_prefix 32 address k word short other))
