-- ===== src/Checksum/Laws.antt =====
-- `inet_cksum` against RFC 1071.
use py_tcp.Prelude.{
  ℕ, ◌+◌, ◌-◌, ◌*◌, ◌/◌, ◌%◌, ◌^◌, ◌≤◌, ◌<◌, ◌≡◌, ◌↔◌, List, length, All, arith, ◌==◌, leb,
  if◌then◌else◌, Bool-cases, inl, inr,
}
use py_tcp.Checksum.Reference.{Same, ones_sum, rfc1071, sum16}
use py_tcp.Checksum.Residue.{
  IsByte, sum_longs-Same, quad_sum, quad_sum-Same, quad_sum-le, sum_longs-le, fold_at_64-Same,
  ones_sum-Same, ones_sum-lt,
}
use py_tcp.Checksum.{fold_at, word_sum, finish, inet_cksum}

-- What the folds leave of a sum, before the last carry is added.
unfoldable pub carried : ℕ → ℕ
carried x = fold_at 16 (fold_at 32 x)

-- 1 where the last carry does not fit 16 bits any more: `& 0xFFFF` drops one.
abbrev pub dropped_carry : ℕ → ℕ
dropped_carry x = if leb (2 ^ 16) (carried x % 2 ^ 16 + carried x / 2 ^ 16) then 1 else 0

word_sum-Same : (xs : List ℕ) (init s : ℕ) → Same init s → Same (word_sum xs init) (s + sum16 xs)
unfolding word_sum
word_sum-Same xs init s h = elim (Bool-cases (length xs == 20)) [
  | inl p ↦ rw p (omega (arith, sum_longs-Same xs (ground arith)))
  | inr p ↦ rw p (
      omega (
        arith,
        fold_at_64-Same (init + quad_sum xs) (s + sum16 xs) (omega (arith, quad_sum-Same xs)),
      ))
]

-- The pseudo header of IPv6 is a sum of five 64-bit words.
word_sum-lt :
    (xs : List ℕ) (init : ℕ)
    → All IsByte xs
    → init ≤ 5 * 2 ^ 64
    → length xs ≤ 2 ^ 20
    → word_sum xs init < 2 ^ 67
unfolding word_sum
word_sum-lt xs init b i l = elim (Bool-cases (length xs == 20)) [
  | inl p ↦ rw p (omega (arith, sum_longs-le xs b))
  | inr p ↦ rw p (omega (arith, quad_sum-le xs b))
]

finish-Same :
    (x s : ℕ) → Same x s → s < 2 ^ 16 → x < 2 ^ 67 → finish x ≡ 0xffff - s + dropped_carry x
unfolding finish carried
finish-Same x s h l m = ground arith

finish-eq-zero :
    (x s : ℕ)
    → Same x s
    → s < 2 ^ 16
    → x < 2 ^ 67
    → (finish x ≡ 0 → 0xffff - s ≡ 0) × (0xffff - s ≡ 0 → finish x ≡ 0)
unfolding finish
finish-eq-zero x s h l m = omega arith

module _ (xs : List ℕ) (init acc : ℕ) (bytes : All IsByte xs) (short : length xs ≤ 2 ^ 20)
    (small : init ≤ 5 * 2 ^ 64) (fits : acc < 2 ^ 16) (start : Same init acc) where
  sums-Same : Same (word_sum xs init) (ones_sum acc xs)
  sums-Same = omega (arith, word_sum-Same xs init acc start, ones_sum-Same xs acc acc (omega arith))

  -- For bytes, at most 2 ^ 20 of them, and a start value that stands for the 16-bit sum `acc` and is
  -- at most 5 * 2 ^ 64, `inet_cksum` returns the checksum of RFC 1071, but one more where its last carry
  -- does not fit.
  pub inet_cksum-rfc1071 : inet_cksum xs init ≡ rfc1071 acc xs + dropped_carry (word_sum xs init)
  unfolding inet_cksum rfc1071
  inet_cksum-rfc1071 =
      finish-Same (word_sum xs init) (ones_sum acc xs) sums-Same (ones_sum-lt xs acc fits bytes)
        (word_sum-lt xs init bytes small short)

  -- For bytes, at most 2 ^ 20 of them, and a start value that stands for the 16-bit sum `acc` and is
  -- at most 5 * 2 ^ 64, `inet_cksum` returns zero exactly where the checksum of RFC 1071 is
  -- zero: what a receiver tests is never wrong, even where the last carry is dropped.
  pub inet_cksum-eq-zero_iff : (inet_cksum xs init ≡ 0) ↔ (rfc1071 acc xs ≡ 0)
  unfolding inet_cksum rfc1071
  inet_cksum-eq-zero_iff =
      finish-eq-zero (word_sum xs init) (ones_sum acc xs) sums-Same (ones_sum-lt xs acc fits bytes)
        (word_sum-lt xs init bytes small short)

pub header_keeps_carry :
    (xs : List ℕ) → All IsByte xs → length xs ≡ 20 → dropped_carry (word_sum xs 0) ≡ 0
unfolding carried word_sum
header_keeps_carry xs b l = rw l (ground (arith, sum_longs-le xs b))

-- The 16-bit sum that a start value stands for.
abbrev start_word : ℕ → ℕ
start_word init = if init == 0 then 0 else (init - 1) % 65535 + 1

start_word-Same : (init : ℕ) → Same init (start_word init) × (start_word init < 2 ^ 16)
start_word-Same init = ground arith

-- A packet whose checksum field, zero before, gets the complement of its sum adds up to all ones: a
-- receiver that sums it with the same start value finds no fault.
pub inet_cksum-filled :
    (blank full : List ℕ) (init : ℕ)
    → All IsByte blank
    → All IsByte full
    → length blank ≤ 2 ^ 20
    → length full ≤ 2 ^ 20
    → init ≤ 5 * 2 ^ 64
    → dropped_carry (word_sum blank init) ≡ 0
    → sum16 full ≡ sum16 blank + inet_cksum blank init
    → inet_cksum full init ≡ 0
unfolding rfc1071
inet_cksum-filled blank full init b f short short' small carry filled =
    let acc = start_word init in
    let (start, fits) = start_word-Same init in
    (inet_cksum-eq-zero_iff full init acc f short' small fits start).1 (
      omega (
        arith,
        inet_cksum-rfc1071 blank init acc b short small fits start,
        ones_sum-Same blank acc acc (omega arith),
        ones_sum-Same full acc acc (omega arith),
        ones_sum-lt blank acc fits b,
        ones_sum-lt full acc fits f,
      ))

pub inet_cksum-lt : (bytes : List ℕ) (init : ℕ) → inet_cksum bytes init < 2 ^ 16
unfolding inet_cksum finish
inet_cksum-lt bytes init = omega arith
