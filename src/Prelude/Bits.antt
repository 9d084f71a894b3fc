-- ===== src/Prelude/Bits.antt =====
-- `bit_and` with a mask of consecutive ones, as a quotient and a remainder.
use Prim.Native.Nat.{
  ℕ, zero, suc, ◌+◌, ◌-◌, ◌*◌, ◌/◌, ◌%◌, ◌^◌, ◌≤◌, ◌<◌, min, max, bit_and, bit_or, digits,
  bit_and-bitwise, bit_or-bitwise,
}
use mathlib.Core.Path.{◌≡◌, refl, ap, sym, ◌∙◌}
use native.Mathlib.Omega.{arith}
use native.Mathlib.Nat.{
  pow-suc, pow-succ', div-div-eq-div-mul, mod-lt, mod-eq_of_lt, mod-add-div, add-mul-mod_self_left,
}

-- The count of digits makes no difference once it is enough.
enough_digits :
    (a n m b : ℕ) → a ≤ n → a ≤ m → digits (λ b. zero) min n a b ≡ digits (λ b. zero) min m a b
enough_digits zero zero zero b h k = refl
enough_digits zero zero (suc m) b h k = refl
enough_digits zero (suc n) zero b h k = refl
enough_digits zero (suc n) (suc m) b h k = refl
enough_digits (suc a) (suc n) (suc m) b h k =
    ap (λ d. d * 2 + min (suc a % 2) (b % 2))
      (enough_digits (suc a / 2) n m (b / 2) (omega arith) (omega arith))
enough_digits (suc a) _ _ b h k = absurd (omega arith)

-- The lowest digit, and the others.
pub bit_and-halves : (a b : ℕ) → bit_and a b ≡ bit_and (a / 2) (b / 2) * 2 + min (a % 2) (b % 2)
bit_and-halves zero b = omega (arith, bit_and-bitwise 0 b, bit_and-bitwise 0 (b / 2))
bit_and-halves (suc a) b =
    bit_and-bitwise (suc a) b
    ∙ ap (λ d. d * 2 + min (suc a % 2) (b % 2))
        (enough_digits (suc a / 2) a (suc a / 2) (b / 2) (omega arith) (omega arith)
          ∙ sym (bit_and-bitwise (suc a / 2) (b / 2)))

pub two_pow-pos : (k : ℕ) → 0 < 2 ^ k
two_pow-pos zero = omega arith
two_pow-pos (suc k) = omega (arith, two_pow-pos k, pow-suc 2 k)

no_digits : (n a : ℕ) → digits (λ b. zero) min n a 0 ≡ 0
no_digits zero a = refl
no_digits (suc n) zero = refl
no_digits (suc n) (suc a) = omega (arith, no_digits n (suc a / 2))

bit_and-zero : (a : ℕ) → bit_and a 0 ≡ 0
bit_and-zero a = bit_and-bitwise a 0 ∙ no_digits a a

bit_and-double : (a x : ℕ) → bit_and a (x * 2) ≡ bit_and (a / 2) x * 2
bit_and-double a x =
    let half : x * 2 / 2 ≡ x = omega arith in
    let low : x * 2 % 2 ≡ 0 = omega arith in bit_and-halves a (x * 2) ∙ rw (half, low) (omega arith)

-- A mask that ends in zeros.
pub bit_and-shifted : (k a m : ℕ) → bit_and a (m * 2 ^ k) ≡ bit_and (a / 2 ^ k) m * 2 ^ k
bit_and-shifted zero a m = grind (arith)
bit_and-shifted (suc k) a m =
    let even : m * 2 ^ suc k ≡ m * 2 ^ k * 2 = grind arith in
    let quotient : a / 2 ^ suc k ≡ a / 2 / 2 ^ k =
      ap (a /◌) (pow-succ' 2 k) ∙ sym (div-div-eq-div-mul a 2 (2 ^ k)) in
    rw (even, quotient, bit_and-double a (m * 2 ^ k), bit_and-shifted k (a / 2) m) (grind arith)

double_mod : (a p : ℕ) → 0 < p → a / 2 % p * 2 + a % 2 ≡ a % (p * 2)
double_mod a p pos =
    let r = a / 2 % p * 2 + a % 2 in
    let q = a / 2 / p in
    let below : r < p * 2 = omega (arith, mod-lt (a / 2) pos) in
    let split : a ≡ r + p * 2 * q = grind (arith, mod-add-div (a / 2) p) in
    sym (mod-eq_of_lt below)
    ∙ (sym (add-mul-mod_self_left r (p * 2) q) ∙ ap (λ n. n % (p * 2)) (sym split))

-- A mask of ones.
pub bit_and-ones : (w a : ℕ) → bit_and a (2 ^ w - 1) ≡ a % 2 ^ w
bit_and-ones zero a = omega (arith, bit_and-zero a)
bit_and-ones (suc w) a =
    let p = 2 ^ w in
    let pos : 0 < p = two_pow-pos w in
    let ones : 2 ^ suc w - 1 ≡ (p - 1) * 2 + 1 = omega (arith, pow-suc 2 w) in
    let half : ((p - 1) * 2 + 1) / 2 ≡ p - 1 = omega arith in
    let low : ((p - 1) * 2 + 1) % 2 ≡ 1 = omega arith in
    let rest : bit_and (a / 2) (p - 1) ≡ a / 2 % p = bit_and-ones w (a / 2) in
    rw ones (
      bit_and-halves a ((p - 1) * 2 + 1)
      ∙ rw (half, low, rest, pow-suc 2 w) (omega (arith, double_mod a p pos)))

-- Both: w ones in front of k zeros.
pub bit_and-mask : (k w a : ℕ) → bit_and a ((2 ^ w - 1) * 2 ^ k) ≡ a / 2 ^ k % 2 ^ w * 2 ^ k
bit_and-mask k w a =
    bit_and-shifted k a (2 ^ w - 1) ∙ ap (λ n. n * 2 ^ k) (bit_and-ones w (a / 2 ^ k))

pub two_pow-add : (a b : ℕ) → 2 ^ a * 2 ^ b ≡ 2 ^ (a + b)
two_pow-add a zero = let e : a + 0 ≡ a = omega arith in rw e (omega arith)
two_pow-add a (suc b) =
    let e : a + suc b ≡ suc (a + b) = omega arith in
    rw (e, pow-suc 2 b, pow-suc 2 (a + b)) (grind (arith, two_pow-add a b))

-- The same for `bit_or`.
enough_or_digits :
    (a n m b : ℕ) → a ≤ n → a ≤ m → digits (λ b. b) max n a b ≡ digits (λ b. b) max m a b
enough_or_digits zero zero zero b h k = refl
enough_or_digits zero zero (suc m) b h k = refl
enough_or_digits zero (suc n) zero b h k = refl
enough_or_digits zero (suc n) (suc m) b h k = refl
enough_or_digits (suc a) (suc n) (suc m) b h k =
    ap (λ d. d * 2 + max (suc a % 2) (b % 2))
      (enough_or_digits (suc a / 2) n m (b / 2) (omega arith) (omega arith))
enough_or_digits (suc a) _ _ b h k = absurd (omega arith)

bit_or-halves : (a b : ℕ) → bit_or a b ≡ bit_or (a / 2) (b / 2) * 2 + max (a % 2) (b % 2)
bit_or-halves zero b = omega (arith, bit_or-bitwise 0 b, bit_or-bitwise 0 (b / 2))
bit_or-halves (suc a) b =
    bit_or-bitwise (suc a) b
    ∙ ap (λ d. d * 2 + max (suc a % 2) (b % 2))
        (enough_or_digits (suc a / 2) a (suc a / 2) (b / 2) (omega arith) (omega arith)
          ∙ sym (bit_or-bitwise (suc a / 2) (b / 2)))

or_no_digits : (n a : ℕ) → a ≤ n → digits (λ b. b) max n a 0 ≡ a
or_no_digits zero zero h = refl
or_no_digits zero (suc a) h = absurd (omega arith)
or_no_digits (suc n) zero h = refl
or_no_digits (suc n) (suc a) h = omega (arith, or_no_digits n (suc a / 2) (omega arith))

mul-double : (x p : ℕ) → x * (p * 2) ≡ x * p * 2
mul-double x p = grind arith

-- A number of k digits fills k zeros up.
pub bit_or-filled : (k x y : ℕ) → y < 2 ^ k → bit_or (x * 2 ^ k) y ≡ x * 2 ^ k + y
bit_or-filled zero x y h =
    let e : y ≡ 0 = omega arith in
    let one : x * 2 ^ 0 ≡ x = omega arith in
    rw (e, one) (omega (arith, bit_or-bitwise x 0, or_no_digits x x (omega arith)))
bit_or-filled (suc k) x y h =
    let even : x * 2 ^ suc k ≡ x * 2 ^ k * 2 = ap (x *◌) (pow-suc 2 k) ∙ mul-double x (2 ^ k) in
    let half : x * 2 ^ k * 2 / 2 ≡ x * 2 ^ k = omega arith in
    let low : x * 2 ^ k * 2 % 2 ≡ 0 = omega arith in
    let rest : bit_or (x * 2 ^ k) (y / 2) ≡ x * 2 ^ k + y / 2 =
      bit_or-filled k x (y / 2) (omega (arith, pow-suc 2 k)) in
    rw even (bit_or-halves (x * 2 ^ k * 2) y ∙ rw (half, low, rest) (omega arith))

pub bit_or-fills : (k x y : ℕ) → y < 2 ^ k → bit_or y (x * 2 ^ k) ≡ x * 2 ^ k + y
bit_or-fills zero x y h =
    let e : y ≡ 0 = omega arith in
    let one : x * 2 ^ 0 ≡ x = omega arith in rw (e, one) (omega (arith, bit_or-bitwise 0 x))
bit_or-fills (suc k) x y h =
    let even : x * 2 ^ suc k ≡ x * 2 ^ k * 2 = ap (x *◌) (pow-suc 2 k) ∙ mul-double x (2 ^ k) in
    let half : x * 2 ^ k * 2 / 2 ≡ x * 2 ^ k = omega arith in
    let low : x * 2 ^ k * 2 % 2 ≡ 0 = omega arith in
    let rest : bit_or (y / 2) (x * 2 ^ k) ≡ x * 2 ^ k + y / 2 =
      bit_or-fills k x (y / 2) (omega (arith, pow-suc 2 k)) in
    rw even (bit_or-halves y (x * 2 ^ k * 2) ∙ rw (half, low, rest) (omega arith))
