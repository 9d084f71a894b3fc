-- ===== src/Checksum/Tests.antt =====
-- The checksum at concrete inputs.
use py_tcp.Prelude.{ℕ, ◌+◌, ◌≡◌, ◌↔◌, refl, List, [], ◌∷◌, arith}
use py_tcp.Checksum.Reference.{ones_sum, rfc1071}
use py_tcp.Checksum.Laws.{dropped_carry, inet_cksum-rfc1071, inet_cksum-eq-zero_iff}
use py_tcp.Checksum.{word_sum, inet_cksum}

-- A header of 20 bytes.
abbrev header : List ℕ
header =
    0x45 ∷ 0 ∷ 0 ∷ 0x73 ∷ 0 ∷ 0 ∷ 0x40 ∷ 0 ∷ 0x40 ∷ 0x11 ∷ 0 ∷ 0 ∷ 0xc0 ∷ 0xa8 ∷ 0 ∷ 1 ∷ 0xc0 ∷ 0xa8
    ∷ 0 ∷ 0xc7 ∷ []

header_cksum : inet_cksum header 0 ≡ 0xb861
unfolding inet_cksum
header_cksum = refl

-- Eight bytes whose sum drops its last carry.
abbrev carrying : List ℕ
carrying = 0 ∷ 1 ∷ 0 ∷ 0 ∷ 255 ∷ 255 ∷ 255 ∷ 255 ∷ []

carrying_cksum : (inet_cksum carrying 0 ≡ 0xffff) × (rfc1071 0 carrying ≡ 0xfffe)
unfolding inet_cksum rfc1071 ones_sum
carrying_cksum = (refl, refl)

inet_cksum-rfc1071_example :
    inet_cksum carrying 0 ≡ rfc1071 0 carrying + dropped_carry (word_sum carrying 0)
inet_cksum-rfc1071_example =
    inet_cksum-rfc1071 carrying 0 0 (omega arith) (omega arith) (omega arith) (omega arith)
      (omega arith)

inet_cksum-eq-zero_iff_example : (inet_cksum carrying 0 ≡ 0) ↔ (rfc1071 0 carrying ≡ 0)
inet_cksum-eq-zero_iff_example =
    inet_cksum-eq-zero_iff carrying 0 0 (omega arith) (omega arith) (omega arith) (omega arith)
      (omega arith)
