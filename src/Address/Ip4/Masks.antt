-- ===== src/Address/Ip4/Masks.antt =====
-- What `_validate_bits` of pytcp/lib/ip4_address.py accepts.
use py_tcp.Prelude.{
  ℕ, zero, suc, ◌+◌, ◌-◌, ◌/◌, ◌%◌, ◌^◌, ◌≤◌, ◌<◌, ◌≡◌, ◌≢◌, ◌⊎◌, ◌↔◌, inl, inr, List, [], ◌∷◌,
  ◌++◌, Bool, true, false, ◌==◌, refl, arith, ◌∙◌, Bool-cases,
}
use native.Mathlib.Nat.{pow-suc, pow-le-pow_right}
use py_tcp.Prelude.Bits.{two_pow-pos}
use py_tcp.Address.Ip4.{bit_string, from_zero, count_ones, validate_bits}

count_ones-append : (xs ys : List Bool) → count_ones (xs ++ ys) ≡ count_ones xs + count_ones ys
unfolding count_ones
count_ones-append [] ys = omega arith
count_ones-append (true ∷ xs) ys = omega (arith, count_ones-append xs ys)
count_ones-append (false ∷ xs) ys = count_ones-append xs ys

-- Either all digits are ones, or what starts at the first zero goes on with the last digit.
from_zero-snoc :
    (xs : List Bool) (b : Bool)
    → ((from_zero xs ≡ []) × (from_zero (xs ++ (b ∷ [])) ≡ from_zero (b ∷ [])))
      ⊎ ((from_zero xs ≢ []) × (from_zero (xs ++ (b ∷ [])) ≡ from_zero xs ++ (b ∷ [])))
unfolding from_zero
from_zero-snoc [] b = inl (refl, refl)
from_zero-snoc (true ∷ xs) b = from_zero-snoc xs b
from_zero-snoc (false ∷ xs) b = inr (λ e. cc e, refl)

-- All digits are ones, or the ones end before the last digit, or a one follows a zero.
data Shape (w n : ℕ) : Type 0 where
  ones : from_zero (bit_string w n) ≡ [] → n + 1 ≡ 2 ^ w → Shape w n
  prefix :
      (k : ℕ)
      → k < w
      → from_zero (bit_string w n) ≢ []
      → count_ones (from_zero (bit_string w n)) ≡ 0
      → n + 2 ^ suc k ≡ 2 ^ w
      → Shape w n
  broken :
      from_zero (bit_string w n) ≢ []
      → 0 < count_ones (from_zero (bit_string w n))
      → ((k : ℕ) → n + 2 ^ k ≢ 2 ^ w)
      → Shape w n

-- One more digit.
module _ (w n : ℕ) where
  after_ones :
      from_zero (bit_string w (n / 2)) ≡ []
      → from_zero (bit_string (suc w) n) ≡ from_zero ((n % 2 == 1) ∷ [])
  unfolding bit_string
  after_ones e = elim (from_zero-snoc (bit_string w (n / 2)) (n % 2 == 1)) [
    | inl (_, grown) ↦ grown
    | inr (some_zero, _) ↦ absurd (some_zero e)
  ]

  after_zero :
      from_zero (bit_string w (n / 2)) ≢ []
      → from_zero (bit_string (suc w) n) ≡ from_zero (bit_string w (n / 2)) ++ ((n % 2 == 1) ∷ [])
  unfolding bit_string
  after_zero some_zero = elim (from_zero-snoc (bit_string w (n / 2)) (n % 2 == 1)) [
    | inl (e, _) ↦ absurd (some_zero e)
    | inr (_, grown) ↦ grown
  ]

  ones_step : from_zero (bit_string w (n / 2)) ≡ [] → n / 2 + 1 ≡ 2 ^ w → Shape (suc w) n
  unfolding from_zero count_ones
  ones_step e all = elim (Bool-cases (n % 2 == 1)) [
    | inl odd ↦ ones (after_ones e ∙ rw odd refl) (ground (arith, odd, pow-suc 2 w))
    | inr even ↦
        let grown : from_zero (bit_string (suc w) n) ≡ false ∷ [] = after_ones e ∙ rw even refl in
        prefix 0 (omega arith) (λ h. cc (h, grown)) (rw grown refl)
          (ground (arith, even, pow-suc 2 w))
  ]

snoc-nonempty : (xs : List Bool) (b : Bool) → xs ++ (b ∷ []) ≢ []
snoc-nonempty [] b = λ e. cc e
snoc-nonempty (x ∷ xs) b = λ e. cc e

module _ (w n : ℕ) (some_zero : from_zero (bit_string w (n / 2)) ≢ []) where
  still_zero : from_zero (bit_string (suc w) n) ≢ []
  still_zero =
      rw (after_zero w n some_zero) (snoc-nonempty (from_zero (bit_string w (n / 2))) (n % 2 == 1))

  count_step :
      count_ones (from_zero (bit_string (suc w) n))
      ≡ count_ones (from_zero (bit_string w (n / 2))) + n % 2
  unfolding count_ones
  count_step =
      let split = count_ones-append (from_zero (bit_string w (n / 2))) ((n % 2 == 1) ∷ []) in
      rw (after_zero w n some_zero) (ground (arith, split))

-- If no power of two leads from the upper digits to the next one, none does from all digits.
no_power : (w n : ℕ) → ((k : ℕ) → n / 2 + 2 ^ k ≢ 2 ^ w) → (k : ℕ) → n + 2 ^ k ≢ 2 ^ suc w
no_power w n other zero = λ e. other 0 (omega (arith, pow-suc 2 w))
no_power w n other (suc k) = λ e. other k (omega (arith, pow-suc 2 w, pow-suc 2 k))

no_power_odd : (w n k : ℕ) → n % 2 ≡ 1 → n / 2 + 2 ^ suc k ≡ 2 ^ w → (j : ℕ) → n + 2 ^ j ≢ 2 ^ suc w
no_power_odd w n k odd v zero = λ e. omega (arith, pow-suc 2 w, pow-suc 2 k, two_pow-pos k)
no_power_odd w n k odd v (suc j) = λ e. omega (arith, pow-suc 2 w, pow-suc 2 j)

prefix_step :
    (w n k : ℕ)
    → k < w
    → from_zero (bit_string w (n / 2)) ≢ []
    → count_ones (from_zero (bit_string w (n / 2))) ≡ 0
    → n / 2 + 2 ^ suc k ≡ 2 ^ w
    → Shape (suc w) n
prefix_step w n k inside some_zero no_ones v = elim (Bool-cases (n % 2 == 1)) [
  | inl odd ↦
      broken (still_zero w n some_zero) (ground (arith, count_step w n some_zero, odd))
        (no_power_odd w n k (ground (arith, odd)) v)
  | inr even ↦
      prefix (suc k) (omega arith) (still_zero w n some_zero)
        (ground (arith, count_step w n some_zero, even))
        (ground (arith, even, pow-suc 2 w, pow-suc 2 (suc k)))
]

shape : (w n : ℕ) → n < 2 ^ w → Shape w n
unfolding bit_string from_zero
shape zero n h = ones refl (omega arith)
shape (suc w) n h = elim (shape w (n / 2) (omega (arith, pow-suc 2 w))) [
  | ones e all ↦ ones_step w n e all
  | prefix k inside some_zero no_ones v ↦ prefix_step w n k inside some_zero no_ones v
  | broken some_zero more other ↦
      broken (still_zero w n some_zero) (omega (arith, count_step w n some_zero))
        (no_power w n other)
]

-- The ones of the `w` digits end where the zeros begin just if the mask is 2 ^ w - 2 ^ k for a k of at most
-- w.
pub prefix_iff :
    (w mask : ℕ)
    → mask < 2 ^ w
    → ((count_ones (from_zero (bit_string w mask)) == 0) ≡ true)
      ↔ ((k : ℕ) × (k ≤ w) × (mask ≡ 2 ^ w - 2 ^ k))
unfolding count_ones
prefix_iff w mask word = elim (shape w mask word) [
  | ones e all ↦ (λ _. (0, omega arith, omega arith), λ _. rw e refl)
  | prefix k inside some_zero no_ones v ↦
      (λ _. (suc k, omega arith, omega arith), λ _. rw no_ones refl)
  | broken some_zero more other ↦ (
    λ e. absurd (ground (arith, e)),
    λ (k, short, e). absurd (other k (omega (arith, pow-le-pow_right {n = 2} (omega arith) short))),
  )
]

-- A mask of 32 bits is accepted just if it is 2 ^ 32 - 2 ^ k for a k of at most 32: ones, then k zeros.
pub validate_bits_iff :
    (mask : ℕ)
    → mask < 2 ^ 32
    → (validate_bits mask ≡ true) ↔ ((k : ℕ) × (k ≤ 32) × (mask ≡ 2 ^ 32 - 2 ^ k))
unfolding validate_bits
validate_bits_iff mask word = prefix_iff 32 mask word
