-- ===== src/Packet/Icmp6/Options.antt =====
-- What the parser reads of the options of neighbour discovery that the stack sends: link-layer addresses.
use py_tcp.Prelude.{
  ℕ, zero, suc, ◌+◌, ◌*◌, ◌^◌, ◌≤◌, ◌<◌, ◌≡◌, refl, some, List, [], ◌∷◌, ◌++◌, true, false, ltb,
  length, drop, drop-append, length-append, All, arith, ap, sym, ◌∙◌,
}
use mathlib.Core.List.{append_assoc}
use py_tcp.Wire.{byte_at, mac_lem, accepted}
use py_tcp.Packet.Icmp6.{NdOption, slla, tlla, pi, unk, nd_option_bytes, raw_nd_options}
use py_tcp.Packet.Icmp6.Read.{read_nd_option, read_nd_options}
use py_tcp.Packet.Icmp6.Checks.{check_nd_options}

-- A link-layer address of 48 bits, of the source or of the target.
abbrev pub IsLinkLayer : NdOption → Type 0
IsLinkLayer (slla mac) = mac < 2 ^ 48
IsLinkLayer (tlla mac) = mac < 2 ^ 48
IsLinkLayer (pi _ _ _ _ _ _ _) = ⊥
IsLinkLayer (unk _ _ _) = ⊥

byte_at-append :
    (front xs : List ℕ) (k : ℕ) → byte_at (length front + k) (front ++ xs) ≡ byte_at k xs
byte_at-append [] xs k = let e : 0 + k ≡ k = omega arith in ap (λ n. byte_at n xs) e
byte_at-append (x ∷ front) xs k =
    let e : suc (length front) + k ≡ suc (length front + k) = omega arith in
    ap (λ n. byte_at n (x ∷ (front ++ xs))) e ∙ byte_at-append front xs k

-- One option in front of others.
option_read :
    (o : NdOption) (rest : List ℕ)
    → IsLinkLayer o
    → (read_nd_option (nd_option_bytes o ++ rest) ≡ some o)
      × (byte_at 1 (nd_option_bytes o ++ rest) ≡ some 1)
      × (length (nd_option_bytes o) ≡ 8)
option_read (slla mac) rest v = (ap (λ m. some (slla m)) (mac_lem mac), refl, refl)
option_read (tlla mac) rest v = (ap (λ m. some (tlla m)) (mac_lem mac), refl, refl)
option_read (pi _ _ _ _ _ _ _) rest v = elim v [ ]
option_read (unk _ _ _) rest v = elim v [ ]

-- Behind what comes before it, and the same frame seen from the next option.
option_at :
    (front : List ℕ) (o : NdOption) (os : List NdOption)
    → IsLinkLayer o
    → (read_nd_option (drop (length front) (front ++ raw_nd_options (o ∷ os))) ≡ some o)
      × (byte_at (length front + 1) (front ++ raw_nd_options (o ∷ os)) ≡ some 1)
      × (length front + 8 ≤ length (front ++ raw_nd_options (o ∷ os)))
      × (length front + 1 * 8 ≡ length (front ++ nd_option_bytes o))
      × (front ++ raw_nd_options (o ∷ os) ≡ (front ++ nd_option_bytes o) ++ raw_nd_options os)
unfolding raw_nd_options
option_at front o os v =
    let rest = raw_nd_options os in
    let (read, len, eight) = option_read o rest v in
    let total = length-append front (nd_option_bytes o ++ rest) in
    let tail = length-append (nd_option_bytes o) rest in
    let next = length-append front (nd_option_bytes o) in
    (
      ap read_nd_option (drop-append front (nd_option_bytes o ++ rest)) ∙ read,
      byte_at-append front (nd_option_bytes o ++ rest) 1 ∙ len,
      omega (arith, total, tail, eight),
      omega (arith, next, eight),
      sym (append_assoc front (nd_option_bytes o) rest),
    )

pub read_nd_options-raw :
    (fuel : ℕ) (front : List ℕ) (os : List NdOption)
    → length os < fuel
    → All IsLinkLayer os
    → read_nd_options fuel (length front) (front ++ raw_nd_options os) ≡ some os
unfolding read_nd_options raw_nd_options
read_nd_options-raw zero front os h v = absurd (omega arith)
read_nd_options-raw (suc fuel) front [] h v =
    let e : ltb (length front) (length (front ++ [])) ≡ false =
      ground (arith, length-append front []) in
    rw (read_nd_options, e) refl
read_nd_options-raw (suc fuel) front (o ∷ os) h v =
    let frame = front ++ raw_nd_options (o ∷ os) in
    let (read, len, room, next, same) = option_at front o os v.0 in
    let more : ltb (length front) (length frame) ≡ true = ground (arith, room) in
    let rest : read_nd_options fuel (length front + 1 * 8) frame ≡ some os =
      ap (λ n. read_nd_options fuel n frame) next
      ∙ ap (read_nd_options fuel (length (front ++ nd_option_bytes o))) same
      ∙ read_nd_options-raw fuel (front ++ nd_option_bytes o) os (omega arith) v.1 in
    rw (read_nd_options, more, read, len, rest) refl

pub check_nd_options-raw :
    (fuel : ℕ) (front : List ℕ) (os : List NdOption)
    → length os < fuel
    → All IsLinkLayer os
    → check_nd_options fuel (length front) (front ++ raw_nd_options os) ≡ accepted
unfolding check_nd_options raw_nd_options
check_nd_options-raw zero front os h v = absurd (omega arith)
check_nd_options-raw (suc fuel) front [] h v =
    let e : ltb (length front) (length (front ++ [])) ≡ false =
      ground (arith, length-append front []) in
    rw e refl
check_nd_options-raw (suc fuel) front (o ∷ os) h v =
    let frame = front ++ raw_nd_options (o ∷ os) in
    let (read, len, room, next, same) = option_at front o os v.0 in
    let more : ltb (length front) (length frame) ≡ true = ground (arith, room) in
    let second : ltb (length frame) (length front + 1) ≡ false = ground (arith, room) in
    let inside : ltb (length frame) (length front + 1 * 8) ≡ false = ground (arith, room) in
    let rest : check_nd_options fuel (length front + 1 * 8) frame ≡ accepted =
      ap (λ n. check_nd_options fuel n frame) next
      ∙ ap (check_nd_options fuel (length (front ++ nd_option_bytes o))) same
      ∙ check_nd_options-raw fuel (front ++ nd_option_bytes o) os (omega arith) v.1 in
    rw (more, second, len, inside, rest) refl

pub length-raw_nd_options :
    (os : List NdOption) → All IsLinkLayer os → length (raw_nd_options os) ≡ 8 * length os
unfolding raw_nd_options
length-raw_nd_options [] v = refl
length-raw_nd_options (o ∷ os) v =
    let (_, _, eight) = option_read o [] v.0 in
    omega (
      arith,
      length-append (nd_option_bytes o) (raw_nd_options os),
      eight,
      length-raw_nd_options os v.1,
    )
