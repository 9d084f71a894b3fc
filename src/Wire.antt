-- ===== src/Wire.antt =====
-- Big-endian fields of frames, as `struct.pack_into` writes and `struct.unpack` reads them. A frame is a
-- list of byte values. What raises `IndexError` or `struct.error` in the source is `none`.
use py_tcp.Prelude.{
  ℕ, ◌+◌, ◌*◌, ◌/◌, ◌%◌, ◌^◌, ◌<◌, ◌≡◌, Option, none, some, List, ◌∷◌, Bool, true, false, ◌==◌,
  drop, set, get_elem?, All, arith,
}
use py_tcp.Checksum.Residue.{IsByte}

-- "!H" and "!L"
abbrev pub be16 : ℕ → List ℕ → List ℕ
be16 n rest = (n / 256) ∷ (n % 256) ∷ rest

abbrev pub be32 : ℕ → List ℕ → List ℕ
be32 n rest = be16 (n / 65536) (be16 (n % 65536) rest)

abbrev pub first_word : List ℕ → Option ℕ
first_word (a ∷ b ∷ rest) = some (a * 256 + b)
first_word _ = none

abbrev pub first_long : List ℕ → Option ℕ
first_long (a ∷ b ∷ c ∷ d ∷ rest) = some ((a * 256 + b) * 65536 + (c * 256 + d))
first_long _ = none

-- `struct.unpack("!H", frame[at : at + 2])` and its like for "!L"; `frame[at]`.
abbrev pub word_at : ℕ → List ℕ → Option ℕ
word_at at frame = first_word (drop at frame)

abbrev pub long_at : ℕ → List ℕ → Option ℕ
long_at at frame = first_long (drop at frame)

abbrev pub byte_at : ℕ → List ℕ → Option ℕ
byte_at at frame = get_elem? frame at

-- `struct.pack_into("!H", frame, at, n)`, where the frame has the place.
abbrev pub set_word : ℕ → ℕ → List ℕ → List ℕ
set_word at n frame = set (set frame at (n / 256)) (at + 1) (n % 256)

-- `bool(byte & (1 << k))`
abbrev pub test_bit : ℕ → ℕ → Bool
test_bit k byte = byte / 2 ^ k % 2 == 1

-- A flag in a sum.
abbrev pub bit : Bool → ℕ
bit true = 1
bit false = 0

infixl 5 ◌>>=◌
abbrev pub ◌>>=◌ {ℓ κ} : {A : Type ℓ} {B : Type κ} → Option A → (A → Option B) → Option B
none >>= f = none
some a >>= f = f a

-- What a check says of a packet: `""`, a message, or an exception. `unfinished` is no outcome of the
-- source: the fuel of a loop was not enough.
pub data Verdict : Type 0 where
  accepted rejected crashed unfinished : Verdict

-- All values are bytes.
pub record Bytes (xs : List ℕ) : Type 0 where
  pub all : All IsByte xs

pub be16-Bytes : {n : ℕ} {rest : List ℕ} → n < 65536 → Bytes rest → Bytes (be16 n rest)
be16-Bytes h r = record { all = (omega arith, (omega arith, r.all)) }

pub be32-Bytes : {n : ℕ} {rest : List ℕ} → n < 2 ^ 32 → Bytes rest → Bytes (be32 n rest)
be32-Bytes h r = be16-Bytes (omega arith) (be16-Bytes (omega arith) r)

-- A number that is written is read again.
pub word_lem : (n : ℕ) → n / 256 * 256 + n % 256 ≡ n
word_lem n = omega arith

pub long_lem :
    (n : ℕ)
    → (n / 65536 / 256 * 256 + n / 65536 % 256) * 65536 + (n % 65536 / 256 * 256 + n % 65536 % 256)
      ≡ n
long_lem n = omega arith

-- The six bytes of a MAC address.
abbrev pub be48 : ℕ → List ℕ → List ℕ
be48 n rest = be16 (n / 2 ^ 32) (be32 (n % 2 ^ 32) rest)

abbrev pub mac_at : ℕ → List ℕ → Option ℕ
mac_at at frame = do
  high ← word_at at frame
  low ← long_at (at + 2) frame
  some (high * 2 ^ 32 + low)

pub mac_lem :
    (n : ℕ)
    → (n / 2 ^ 32 / 256 * 256 + n / 2 ^ 32 % 256) * 2 ^ 32
        + ((n % 2 ^ 32 / 65536 / 256 * 256 + n % 2 ^ 32 / 65536 % 256) * 65536
            + (n % 2 ^ 32 % 65536 / 256 * 256 + n % 2 ^ 32 % 65536 % 256))
      ≡ n
mac_lem n = omega (arith, long_lem (n % 2 ^ 32), word_lem (n / 2 ^ 32))

-- "!Q", and the sixteen bytes of an IPv6 address.
abbrev pub be64 : ℕ → List ℕ → List ℕ
be64 n rest = be32 (n / 2 ^ 32) (be32 (n % 2 ^ 32) rest)

abbrev pub be128 : ℕ → List ℕ → List ℕ
be128 n rest = be64 (n / 2 ^ 64) (be64 (n % 2 ^ 64) rest)

abbrev pub quad_at : ℕ → List ℕ → Option ℕ
quad_at at frame = do
  high ← long_at at frame
  low ← long_at (at + 4) frame
  some (high * 2 ^ 32 + low)

abbrev pub ip6_at : ℕ → List ℕ → Option ℕ
ip6_at at frame = do
  high ← quad_at at frame
  low ← quad_at (at + 8) frame
  some (high * 2 ^ 64 + low)

-- The number that the bytes of `be32`, `be64` and `be128` are read as.
abbrev pub read32 : ℕ → ℕ
read32 n =
    (n / 65536 / 256 * 256 + n / 65536 % 256) * 65536 + (n % 65536 / 256 * 256 + n % 65536 % 256)

abbrev pub read64 : ℕ → ℕ
read64 n = read32 (n / 2 ^ 32) * 2 ^ 32 + read32 (n % 2 ^ 32)

abbrev pub read128 : ℕ → ℕ
read128 n = read64 (n / 2 ^ 64) * 2 ^ 64 + read64 (n % 2 ^ 64)

pub quad_lem : (n : ℕ) → read64 n ≡ n
quad_lem n = omega (arith, long_lem (n / 2 ^ 32), long_lem (n % 2 ^ 32))

pub ip6_lem : (n : ℕ) → read128 n ≡ n
ip6_lem n = omega (arith, quad_lem (n / 2 ^ 64), quad_lem (n % 2 ^ 64))
