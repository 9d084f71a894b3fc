-- ===== src/Checksum/Residue.antt =====
-- Each way to group the bytes into words keeps the residue modulo 65535, and so does each fold.
use py_tcp.Prelude.{ℕ, ◌+◌, ◌*◌, ◌%◌, ◌^◌, ◌≤◌, ◌<◌, ◌≡◌, List, [], ◌∷◌, length, All, arith}
use py_tcp.Checksum.Reference.{Same, ones_add, ones_sum, sum16}
use py_tcp.Checksum.{sum_longs, sum_quads, remainder, shifted_remainder, fold_at}

abbrev pub IsByte : ℕ → Type 0
IsByte b = b < 256

pub sum_longs-Same : (xs : List ℕ) → length xs % 4 ≡ 0 → Same (sum_longs xs) (sum16 xs)
unfolding sum_longs sum16
sum_longs-Same [] h = omega arith
sum_longs-Same (a ∷ []) h = absurd (omega arith)
sum_longs-Same (a ∷ b ∷ []) h = absurd (omega arith)
sum_longs-Same (a ∷ b ∷ c ∷ []) h = absurd (omega arith)
sum_longs-Same (a ∷ b ∷ c ∷ d ∷ rest) h = omega (arith, sum_longs-Same rest (omega arith))

-- The 64-bit words with the shifted remainder.
abbrev pub quad_sum : List ℕ → ℕ
quad_sum xs = sum_quads xs + shifted_remainder (remainder xs)

pub quad_sum-Same : (xs : List ℕ) → Same (quad_sum xs) (sum16 xs)
unfolding sum_quads shifted_remainder remainder sum16
quad_sum-Same (a ∷ b ∷ c ∷ d ∷ e ∷ f ∷ g ∷ h ∷ rest) = omega (arith, quad_sum-Same rest)
quad_sum-Same [] = omega arith
quad_sum-Same (a ∷ []) = omega arith
quad_sum-Same (a ∷ b ∷ []) = omega arith
quad_sum-Same (a ∷ b ∷ c ∷ []) = omega arith
quad_sum-Same (a ∷ b ∷ c ∷ d ∷ []) = omega arith
quad_sum-Same (a ∷ b ∷ c ∷ d ∷ e ∷ []) = omega arith
quad_sum-Same (a ∷ b ∷ c ∷ d ∷ e ∷ f ∷ []) = omega arith
quad_sum-Same (a ∷ b ∷ c ∷ d ∷ e ∷ f ∷ g ∷ []) = omega arith

-- 2 ^ 61 a byte: the sum of the words is small enough for the folds that follow.
pub quad_sum-le : (xs : List ℕ) → All IsByte xs → quad_sum xs ≤ (length xs + 7) * 2 ^ 61
unfolding sum_quads shifted_remainder remainder
quad_sum-le (a ∷ b ∷ c ∷ d ∷ e ∷ f ∷ g ∷ h ∷ rest) p =
    omega (arith, quad_sum-le rest p.1.1.1.1.1.1.1.1)
quad_sum-le [] p = omega arith
quad_sum-le (a ∷ []) p = omega arith
quad_sum-le (a ∷ b ∷ []) p = omega arith
quad_sum-le (a ∷ b ∷ c ∷ []) p = omega arith
quad_sum-le (a ∷ b ∷ c ∷ d ∷ []) p = omega arith
quad_sum-le (a ∷ b ∷ c ∷ d ∷ e ∷ []) p = omega arith
quad_sum-le (a ∷ b ∷ c ∷ d ∷ e ∷ f ∷ []) p = omega arith
quad_sum-le (a ∷ b ∷ c ∷ d ∷ e ∷ f ∷ g ∷ []) p = omega arith

pub sum_longs-le : (xs : List ℕ) → All IsByte xs → sum_longs xs ≤ length xs * 2 ^ 30
unfolding sum_longs
sum_longs-le (a ∷ b ∷ c ∷ d ∷ rest) p = omega (arith, sum_longs-le rest p.1.1.1.1)
sum_longs-le [] p = omega arith
sum_longs-le (a ∷ []) p = omega arith
sum_longs-le (a ∷ b ∷ []) p = omega arith
sum_longs-le (a ∷ b ∷ c ∷ []) p = omega arith

pub fold_at_64-Same : (x s : ℕ) → Same x s → Same (fold_at 64 x) s
fold_at_64-Same x s h = omega arith

pub fold_at_32-Same : (x s : ℕ) → Same x s → Same (fold_at 32 x) s
fold_at_32-Same x s h = omega arith

pub fold_at_16-Same : (x s : ℕ) → Same x s → Same (fold_at 16 x) s
fold_at_16-Same x s h = omega arith

-- The reference sum: end-around carry keeps the residue, and stays within 16 bits.
pub ones_sum-Same : (xs : List ℕ) (acc s : ℕ) → Same acc s → Same (ones_sum acc xs) (s + sum16 xs)
unfolding ones_sum sum16
ones_sum-Same [] acc s h = omega arith
ones_sum-Same (a ∷ []) acc s h = omega arith
ones_sum-Same (a ∷ b ∷ rest) acc s h =
    omega (arith, ones_sum-Same rest (ones_add acc (a * 256 + b)) (s + (a * 256 + b)) (omega arith))

pub ones_sum-lt : (xs : List ℕ) (acc : ℕ) → acc < 2 ^ 16 → All IsByte xs → ones_sum acc xs < 2 ^ 16
unfolding ones_sum
ones_sum-lt [] acc h p = h
ones_sum-lt (a ∷ []) acc h p = omega arith
ones_sum-lt (a ∷ b ∷ rest) acc h p =
    ones_sum-lt rest (ones_add acc (a * 256 + b)) (omega arith) p.1.1
