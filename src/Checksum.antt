-- ===== src/Checksum.antt =====
-- `inet_cksum` of pytcp/lib/ip_helper.py, over a list of byte values. `&` with a mask of low bits
-- is written as a remainder, a shift as a product or a quotient.
pub mod Reference
pub mod Residue
pub mod Laws
mod Tests
use py_tcp.Prelude.{
  ℕ, ◌+◌, ◌-◌, ◌*◌, ◌/◌, ◌%◌, ◌^◌, List, [], ◌∷◌, length, Bool, ◌==◌, if◌then◌else◌,
}

-- `int.from_bytes(data, byteorder="big")`, the digits read so far in `acc`.
abbrev pub from_bytes : ℕ → List ℕ → ℕ
from_bytes acc [] = acc
from_bytes acc (b ∷ bs) = from_bytes (acc * 256 + b) bs

-- `sum(struct.unpack("!5L", data))`, for any number of whole 32-bit words.
unfoldable pub sum_longs : List ℕ → ℕ
sum_longs (a ∷ b ∷ c ∷ d ∷ rest) = from_bytes 0 (a ∷ b ∷ c ∷ d ∷ []) + sum_longs rest
sum_longs _ = 0

-- `sum(struct.unpack_from(f"!{dlen >> 3}Q", data))`: the whole 64-bit words.
unfoldable pub sum_quads : List ℕ → ℕ
sum_quads (a ∷ b ∷ c ∷ d ∷ e ∷ f ∷ g ∷ h ∷ rest) =
    from_bytes 0 (a ∷ b ∷ c ∷ d ∷ e ∷ f ∷ g ∷ h ∷ []) + sum_quads rest
sum_quads _ = 0

-- `data[-remainder:]`: the bytes behind the last whole 64-bit word.
unfoldable pub remainder : List ℕ → List ℕ
remainder (a ∷ b ∷ c ∷ d ∷ e ∷ f ∷ g ∷ h ∷ rest) = remainder rest
remainder xs = xs

-- The remainder, moved to the high end of a 64-bit word.
unfoldable pub shifted_remainder : List ℕ → ℕ
shifted_remainder xs = from_bytes 0 xs * 2 ^ (8 * (8 - length xs))

abbrev pub fold_at : ℕ → ℕ → ℕ
fold_at w x = x / 2 ^ w + x % 2 ^ w

-- The sum that the last three lines of the function fold.
unfoldable pub word_sum : List ℕ → ℕ → ℕ
word_sum bytes init =
    if length bytes == 20
    then init + sum_longs bytes
    else fold_at 64 (init + sum_quads bytes + shifted_remainder (remainder bytes))

-- `~x & 0xFFFF`.
abbrev pub complement : ℕ → ℕ
complement x = 0xffff - x % 2 ^ 16

pub finish : ℕ → ℕ
finish x = let c = fold_at 16 (fold_at 32 x) in complement (c + c / 2 ^ 16)

unfoldable pub inet_cksum : List ℕ → ℕ → ℕ
unfolding word_sum finish sum_longs sum_quads shifted_remainder remainder
inet_cksum bytes init = finish (word_sum bytes init)
