-- ===== src/Packet/Tcp/Options/Laws.antt =====
-- The two loops over TCP options (pytcp/protocols/tcp/fpp.py) on the options that an assembler writes.
use py_tcp.Prelude.{
  ℕ, zero, suc, ◌+◌, ◌≤◌, ◌<◌, ◌≡◌, refl, List, [], ◌∷◌, ◌++◌, lt→ltb, length, drop, drop-drop, ap,
  sym, ◌∙◌, arith, All,
}
use py_tcp.Wire.{be32, word_lem, long_lem, accepted, Bytes, be16-Bytes, be32-Bytes}
use py_tcp.Packet.Tcp.Options.{
  TcpOption, eol, nop, sack_perm, mss, wscale, timestamp, unk, option_bytes, options_bytes, went_on,
  ended, read_round, read_options, scanned, prepend, goes_on, stops, check_round, check_options,
  round_at, scan_on, check_at, check_on,
}

-- What an assembler writes besides the end of the list, with numbers that fit their fields.
abbrev pub IsSent : TcpOption → Type 0
IsSent eol = ⊥
IsSent nop = Unit
IsSent sack_perm = Unit
IsSent (mss n) = n ≤ 0xffff
IsSent (wscale n) = n ≤ 0xff
IsSent (timestamp v e) = (v ≤ 0xffff_ffff) × (e ≤ 0xffff_ffff)
IsSent (unk kind len body) = ⊥

abbrev option_len : TcpOption → ℕ
option_len o = length (option_bytes o [])

bytes-append :
    (o : TcpOption) (xs ys : List ℕ)
    → IsSent o
    → option_bytes o xs ++ ys ≡ option_bytes o (xs ++ ys)
bytes-append nop xs ys h = refl
bytes-append sack_perm xs ys h = refl
bytes-append (mss n) xs ys h = refl
bytes-append (wscale n) xs ys h = refl
bytes-append (timestamp v e) xs ys h = refl
bytes-append o xs ys h = absurd h

drop-bytes : (o : TcpOption) (xs : List ℕ) → IsSent o → drop (option_len o) (option_bytes o xs) ≡ xs
drop-bytes nop xs h = refl
drop-bytes sack_perm xs h = refl
drop-bytes (mss n) xs h = refl
drop-bytes (wscale n) xs h = refl
drop-bytes (timestamp v e) xs h = refl
drop-bytes o xs h = absurd h

length-bytes :
    (o : TcpOption) (xs : List ℕ) → IsSent o → length (option_bytes o xs) ≡ option_len o + length xs
length-bytes nop xs h = omega arith
length-bytes sack_perm xs h = omega arith
length-bytes (mss n) xs h = omega arith
length-bytes (wscale n) xs h = omega arith
length-bytes (timestamp v e) xs h = omega arith
length-bytes o xs h = absurd h

read_round-bytes :
    (o : TcpOption) (optr : ℕ) (xs : List ℕ)
    → IsSent o
    → read_round optr (option_bytes o xs) ≡ went_on o (optr + option_len o)
unfolding read_round
read_round-bytes nop optr [] h = refl
read_round-bytes nop optr (x ∷ xs) h = refl
read_round-bytes sack_perm optr xs h = refl
read_round-bytes (mss n) optr xs h = ap (λ m. went_on (mss m) (optr + 4)) (word_lem n)
read_round-bytes (wscale n) optr xs h = refl
read_round-bytes (timestamp v e) optr xs h =
    λ i. went_on (timestamp (long_lem v i) (long_lem e i)) (optr + 10)
read_round-bytes o optr xs h = absurd h

check_round-bytes :
    (o : TcpOption) (hlen optr : ℕ) (xs : List ℕ)
    → IsSent o
    → optr + option_len o ≤ hlen
    → check_round hlen optr (option_bytes o xs) ≡ goes_on (optr + option_len o)
unfolding check_round
check_round-bytes nop hlen optr [] h fits = ground arith
check_round-bytes nop hlen optr (x ∷ xs) h fits = ground arith
check_round-bytes sack_perm hlen optr xs h fits = ground arith
check_round-bytes (mss n) hlen optr xs h fits = ground arith
check_round-bytes (wscale n) hlen optr xs h fits = ground arith
check_round-bytes (timestamp v e) hlen optr xs h fits = ground arith
check_round-bytes o hlen optr xs h fits = absurd h

option_len-pos : (o : TcpOption) → 0 < option_len o
option_len-pos eol = omega arith
option_len-pos nop = omega arith
option_len-pos sack_perm = omega arith
option_len-pos (mss n) = omega arith
option_len-pos (wscale n) = omega arith
option_len-pos (timestamp v e) = omega arith
option_len-pos (unk kind len body) = omega arith

-- Where the loops stand, and what is behind an option.
module _ (o : TcpOption) (os : List TcpOption) (rest : List ℕ) (sent : IsSent o) where
  first_option :
      option_bytes o (options_bytes os) ++ rest ≡ option_bytes o (options_bytes os ++ rest)
  first_option = bytes-append o (options_bytes os) rest sent

  later_options :
      (optr : ℕ) (frame : List ℕ)
      → drop optr frame ≡ options_bytes (o ∷ os) ++ rest
      → drop (optr + option_len o) frame ≡ options_bytes os ++ rest
  unfolding options_bytes
  later_options optr frame e =
      sym (drop-drop optr (option_len o) frame)
      ∙ (ap (drop (option_len o)) (e ∙ first_option) ∙ drop-bytes o (options_bytes os ++ rest) sent)

  later_len :
      (optr hlen : ℕ)
      → optr + length (options_bytes (o ∷ os)) ≡ hlen
      → (optr + option_len o + length (options_bytes os) ≡ hlen) × (optr < hlen)
  unfolding options_bytes
  later_len optr hlen e = omega (arith, length-bytes o (options_bytes os) sent, option_len-pos o)

  read_first :
      (optr hlen : ℕ) (frame : List ℕ)
      → drop optr frame ≡ options_bytes (o ∷ os) ++ rest
      → optr < hlen
      → round_at hlen optr frame ≡ went_on o (optr + option_len o)
  unfolding options_bytes
  read_first optr hlen frame e h = rw (lt→ltb optr hlen h) (
      ap (read_round optr) (e ∙ first_option)
      ∙ read_round-bytes o optr (options_bytes os ++ rest) sent)

  check_first :
      (optr hlen : ℕ) (frame : List ℕ)
      → drop optr frame ≡ options_bytes (o ∷ os) ++ rest
      → optr < hlen
      → optr + option_len o ≤ hlen
      → check_at hlen optr frame ≡ goes_on (optr + option_len o)
  unfolding options_bytes
  check_first optr hlen frame e h fits = rw (lt→ltb optr hlen h) (
      ap (check_round hlen optr) (e ∙ first_option)
      ∙ check_round-bytes o hlen optr (options_bytes os ++ rest) sent fits)

-- The loops end at the length of the header.
read_end : (hlen optr : ℕ) (frame : List ℕ) → optr ≡ hlen → round_at hlen optr frame ≡ ended []
read_end hlen optr frame h = ground arith

check_end :
    (hlen optr : ℕ) (frame : List ℕ) → optr ≡ hlen → check_at hlen optr frame ≡ stops accepted
check_end hlen optr frame h = ground arith

no_options : (hlen optr : ℕ) → optr + length (options_bytes []) ≡ hlen → optr ≡ hlen
unfolding options_bytes
no_options hlen optr h = omega arith

pub read_options-bytes :
    (os : List TcpOption) (fuel hlen optr : ℕ) (frame rest : List ℕ)
    → All IsSent os
    → drop optr frame ≡ options_bytes os ++ rest
    → optr + length (options_bytes os) ≡ hlen
    → length os < fuel
    → read_options fuel hlen optr frame ≡ scanned os
unfolding read_options
read_options-bytes os zero hlen optr frame rest s e l f = absurd (omega arith)
read_options-bytes [] (suc fuel) hlen optr frame rest s e l f =
    ap (scan_on λ next. read_options fuel hlen next frame)
      (read_end hlen optr frame (no_options hlen optr l))
read_options-bytes (o ∷ os) (suc fuel) hlen optr frame rest s e l f =
    let (left, more) = later_len o os rest s.0 optr hlen l in
    ap (scan_on λ next. read_options fuel hlen next frame)
      (read_first o os rest s.0 optr hlen frame e more)
    ∙ ap (prepend o) (
        read_options-bytes os fuel hlen (optr + option_len o) frame rest s.1
          (later_options o os rest s.0 optr frame e) left (omega arith))

pub check_options-bytes :
    (os : List TcpOption) (fuel hlen optr : ℕ) (frame rest : List ℕ)
    → All IsSent os
    → drop optr frame ≡ options_bytes os ++ rest
    → optr + length (options_bytes os) ≡ hlen
    → length os < fuel
    → check_options fuel hlen optr frame ≡ accepted
unfolding check_options
check_options-bytes os zero hlen optr frame rest s e l f = absurd (omega arith)
check_options-bytes [] (suc fuel) hlen optr frame rest s e l f =
    ap (check_on λ next. check_options fuel hlen next frame)
      (check_end hlen optr frame (no_options hlen optr l))
check_options-bytes (o ∷ os) (suc fuel) hlen optr frame rest s e l f =
    let (left, more) = later_len o os rest s.0 optr hlen l in
    ap (check_on λ next. check_options fuel hlen next frame)
      (check_first o os rest s.0 optr hlen frame e more (omega (arith, left)))
    ∙ check_options-bytes os fuel hlen (optr + option_len o) frame rest s.1
        (later_options o os rest s.0 optr frame e) left (omega arith)

-- The options take up at least a byte each.
pub length-options_bytes :
    (os : List TcpOption) → All IsSent os → length os ≤ length (options_bytes os)
unfolding options_bytes
length-options_bytes [] s = omega arith
length-options_bytes (o ∷ os) s =
    omega
      (arith, length-options_bytes os s.1, length-bytes o (options_bytes os) s.0, option_len-pos o)

option_bytes-Bytes : (o : TcpOption) (xs : List ℕ) → IsSent o → Bytes xs → Bytes (option_bytes o xs)
option_bytes-Bytes nop xs h b = record { all = (omega arith, b.all) }
option_bytes-Bytes sack_perm xs h b = record { all = (omega arith, (omega arith, b.all)) }
option_bytes-Bytes (mss n) xs h b = record {
  all = (omega arith, (omega arith, (be16-Bytes (omega arith) b).all));
}
option_bytes-Bytes (wscale n) xs h b = record {
  all = (omega arith, (omega arith, (omega arith, b.all)));
}
option_bytes-Bytes (timestamp v e) xs h b =
    let words : Bytes (be32 v (be32 e xs)) =
      be32-Bytes (omega arith) (be32-Bytes (omega arith) b) in
    record { all = (omega arith, (omega arith, words.all)) }
option_bytes-Bytes _ xs h b = absurd h

pub options_bytes-Bytes : (os : List TcpOption) → All IsSent os → Bytes (options_bytes os)
unfolding options_bytes
options_bytes-Bytes [] h = record { all = tt }
options_bytes-Bytes (o ∷ os) h =
    option_bytes-Bytes o (options_bytes os) h.0 (options_bytes-Bytes os h.1)
