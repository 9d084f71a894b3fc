-- ===== src/Checksum/Reference.antt =====
-- The Internet checksum as RFC 1071 defines it: 16-bit words, added with end-around carry.
use py_tcp.Prelude.{ℕ, ◌+◌, ◌-◌, ◌*◌, ◌/◌, ◌%◌, ◌^◌, min, List, [], ◌∷◌, ◌≡◌}

-- One's complement addition of 16-bit words.
abbrev pub ones_add : ℕ → ℕ → ℕ
ones_add a b = (a + b) / 2 ^ 16 + (a + b) % 2 ^ 16

-- The one's complement sum of the words, an odd last byte padded by zero, onto `acc`.
unfoldable pub ones_sum : ℕ → List ℕ → ℕ
ones_sum acc [] = acc
ones_sum acc (a ∷ []) = ones_add acc (a * 256)
ones_sum acc (a ∷ b ∷ rest) = ones_sum (ones_add acc (a * 256 + b)) rest

unfoldable pub rfc1071 : ℕ → List ℕ → ℕ
rfc1071 acc bytes = 0xffff - ones_sum acc bytes

-- The plain sum of the words.
unfoldable pub sum16 : List ℕ → ℕ
sum16 [] = 0
sum16 (a ∷ []) = a * 256
sum16 (a ∷ b ∷ rest) = a * 256 + b + sum16 rest

-- What one's complement sums keep of a number: its residue, and whether it is zero.
pub record Same (x y : ℕ) : Type 0 where
  pub residue : x % 65535 ≡ y % 65535
  pub nonzero : min x 1 ≡ min y 1
