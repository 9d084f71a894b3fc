-- ===== src/Packet/Icmp4/Laws.antt =====
-- What the ICMPv4 parser makes of assembled messages.
use py_tcp.Prelude.{
  ℕ, ◌+◌, ◌-◌, ◌≤◌, ◌<◌, ◌≡◌, ◌^◌, refl, some, List, ◌++◌, length, take, All, take-append,
  length-append, arith, ap, sym,
}
use py_tcp.Checksum.{inet_cksum, word_sum}
use py_tcp.Checksum.Reference.{sum16}
use py_tcp.Checksum.Residue.{IsByte}
use py_tcp.Checksum.Laws.{inet_cksum-filled, inet_cksum-lt, dropped_carry}
use py_tcp.Wire.{Bytes, be16-Bytes, be32-Bytes, word_lem, be16, be32, set_word, accepted, byte_at}
use py_tcp.Packet.Icmp4.{
  Icmp4Message, echo_reply, unreachable_port, echo_request, icmp4_len, icmp4_words, assemble_icmp4,
  check_icmp4_integrity, check_icmp4_sanity, icmp4_type, icmp4_code, icmp4_ec_id, icmp4_ec_seq,
  icmp4_ec_data, icmp4_un_data, least_len, echo_request_type, echo_reply_type, unreachable_type,
  port_code,
}

-- Identifier and sequence number have 16 bits, the data are bytes and not more than fit an IPv4 packet.
-- A message about an unreachable port has at least four bytes of data.
pub data IsIcmp4 : Icmp4Message → Type 0 where
  reply_fits :
      {id seq : ℕ} {body : List ℕ}
      → id ≤ 0xffff
      → seq ≤ 0xffff
      → length body ≤ 0xffff
      → All IsByte body
      → IsIcmp4 (echo_reply id seq body)
  port_fits :
      {body : List ℕ}
      → 4 ≤ length body
      → length body ≤ 0xffff
      → All IsByte body
      → IsIcmp4 (unreachable_port body)
  request_fits :
      {id seq : ℕ} {body : List ℕ}
      → id ≤ 0xffff
      → seq ≤ 0xffff
      → length body ≤ 0xffff
      → All IsByte body
      → IsIcmp4 (echo_request id seq body)

-- With any checksum the frame consists of bytes.
words-Bytes :
    (m : Icmp4Message) (cksum : ℕ) → IsIcmp4 m → cksum < 2 ^ 16 → Bytes (icmp4_words m cksum)
words-Bytes (echo_reply id seq body) cksum (reply_fits i s l b) h =
    let rest : Bytes (be16 cksum (be16 id (be16 seq body))) =
      be16-Bytes h (be16-Bytes (omega arith) (be16-Bytes (omega arith) (record { all = b }))) in
    record { all = (omega arith, (omega arith, rest.all)) }
words-Bytes (unreachable_port body) cksum (port_fits s l b) h =
    let rest : Bytes (be16 cksum (be32 0 body)) =
      be16-Bytes h (be32-Bytes {n = 0} (omega arith) (record { all = b })) in
    record { all = (omega arith, (omega arith, rest.all)) }
words-Bytes (echo_request id seq body) cksum (request_fits i s l b) h =
    let rest : Bytes (be16 cksum (be16 id (be16 seq body))) =
      be16-Bytes h (be16-Bytes (omega arith) (be16-Bytes (omega arith) (record { all = b }))) in
    record { all = (omega arith, (omega arith, rest.all)) }

-- The getters of the parser return the fields of a message.
abbrev pub IsRead : Icmp4Message → ℕ → List ℕ → Type 0
IsRead (echo_reply id seq body) plen frame =
    (icmp4_type frame ≡ some echo_reply_type)
    × (icmp4_code frame ≡ some 0)
    × (icmp4_ec_id frame ≡ some id)
    × (icmp4_ec_seq frame ≡ some seq)
    × (icmp4_ec_data plen frame ≡ some body)
IsRead (unreachable_port body) plen frame =
    (icmp4_type frame ≡ some unreachable_type)
    × (icmp4_code frame ≡ some port_code)
    × (icmp4_un_data plen frame ≡ some body)
IsRead (echo_request id seq body) plen frame =
    (icmp4_type frame ≡ some echo_request_type)
    × (icmp4_code frame ≡ some 0)
    × (icmp4_ec_id frame ≡ some id)
    × (icmp4_ec_seq frame ≡ some seq)
    × (icmp4_ec_data plen frame ≡ some body)

body_read : (xs padding : List ℕ) → take (8 + length xs - 8) (xs ++ padding) ≡ xs
body_read xs padding =
    let e : 8 + length xs - 8 ≡ length xs = omega arith in rw e (take-append xs padding)

filled-IsRead :
    (m : Icmp4Message) (cksum : ℕ) (padding : List ℕ)
    → IsRead m (icmp4_len m) (set_word 2 cksum (icmp4_words m 0) ++ padding)
filled-IsRead (echo_reply id seq body) cksum padding =
    (refl, refl, ap some (word_lem id), ap some (word_lem seq), ap some (body_read body padding))
filled-IsRead (unreachable_port body) cksum padding = (refl, refl, ap some (body_read body padding))
filled-IsRead (echo_request id seq body) cksum padding =
    (refl, refl, ap some (word_lem id), ap some (word_lem seq), ap some (body_read body padding))

filled-length :
    (m : Icmp4Message) (cksum : ℕ) → length (set_word 2 cksum (icmp4_words m 0)) ≡ icmp4_len m
filled-length (echo_reply id seq body) cksum = omega arith
filled-length (unreachable_port body) cksum = omega arith
filled-length (echo_request id seq body) cksum = omega arith

-- The checksum in its place: the frame with it sums to zero.
filled-words :
    (m : Icmp4Message) (cksum : ℕ)
    → (set_word 2 cksum (icmp4_words m 0) ≡ icmp4_words m cksum)
      × (sum16 (icmp4_words m cksum) ≡ sum16 (icmp4_words m 0) + cksum)
      × (length (icmp4_words m cksum) ≡ icmp4_len m)
unfolding sum16
filled-words (echo_reply id seq body) cksum = (refl, omega arith, omega arith)
filled-words (unreachable_port body) cksum = (refl, omega arith, omega arith)
filled-words (echo_request id seq body) cksum = (refl, omega arith, omega arith)

IsIcmp4-short : (m : Icmp4Message) → IsIcmp4 m → icmp4_len m ≤ 2 ^ 20
IsIcmp4-short _ (reply_fits i s l b) = omega arith
IsIcmp4-short _ (port_fits s l b) = omega arith
IsIcmp4-short _ (request_fits i s l b) = omega arith

assemble_icmp4-cksum :
    (m : Icmp4Message)
    → IsIcmp4 m
    → dropped_carry (word_sum (icmp4_words m 0) 0) ≡ 0
    → inet_cksum (assemble_icmp4 m) 0 ≡ 0
unfolding assemble_icmp4
assemble_icmp4-cksum m v carry =
    let cksum = inet_cksum (icmp4_words m 0) 0 in
    let blank : Bytes (icmp4_words m 0) = words-Bytes m 0 v (omega arith) in
    let full : Bytes (icmp4_words m cksum) =
      words-Bytes m cksum v (inet_cksum-lt (icmp4_words m 0) 0) in
    let (same, total, long) = filled-words m cksum in
    let (_, _, long') = filled-words m 0 in
    let short = IsIcmp4-short m v in
    rw same (
      inet_cksum-filled (icmp4_words m 0) (icmp4_words m cksum) 0 blank.all full.all
        (omega (arith, long', short)) (omega (arith, long, short)) (omega arith) carry total)

-- What follows the message in its frame is not looked at.
frame_accepted :
    (frame padding : List ℕ) (type plen : ℕ)
    → length frame ≡ plen
    → inet_cksum frame 0 ≡ 0
    → 8 ≤ length frame
    → least_len type ≤ length frame
    → byte_at 0 (frame ++ padding) ≡ some type
    → check_icmp4_integrity plen (frame ++ padding) ≡ accepted
unfolding check_icmp4_integrity
frame_accepted frame padding type plen told sum long least byte =
    rw (sym told, take-append frame padding, byte) (ground (arith, length-append frame padding))

filled-accepted :
    (m : Icmp4Message) (cksum : ℕ) (padding : List ℕ)
    → IsIcmp4 m
    → inet_cksum (set_word 2 cksum (icmp4_words m 0)) 0 ≡ 0
    → (check_icmp4_integrity (icmp4_len m) (set_word 2 cksum (icmp4_words m 0) ++ padding)
        ≡ accepted)
      × (check_icmp4_sanity (set_word 2 cksum (icmp4_words m 0) ++ padding) ≡ accepted)
unfolding check_icmp4_sanity
filled-accepted (echo_reply id seq body) cksum padding v sum = (
  frame_accepted (set_word 2 cksum (icmp4_words (echo_reply id seq body) 0)) padding 0
      (8 + length body) (omega arith) sum (omega arith) (omega arith) refl,
  refl,
)
filled-accepted (unreachable_port body) cksum padding (port_fits s l b) sum = (
  frame_accepted (set_word 2 cksum (icmp4_words (unreachable_port body) 0)) padding 3
      (8 + length body) (omega arith) sum (omega arith) (omega arith) refl,
  refl,
)
filled-accepted (echo_request id seq body) cksum padding v sum = (
  frame_accepted (set_word 2 cksum (icmp4_words (echo_request id seq body) 0)) padding 8
      (8 + length body) (omega arith) sum (omega arith) (omega arith) refl,
  refl,
)

-- An ICMPv4 message whose identifier, sequence number and data fit, and that has at least four bytes of
-- data if it is about an unreachable port, is assembled to a frame of its length, if the checksum
-- drops no carry. With any padding behind it, the parser accepts the frame in both checks and its
-- getters read the type, the code and the fields of the message.
pub check_icmp4_integrity-assemble_icmp4 :
    (m : Icmp4Message) (padding : List ℕ)
    → IsIcmp4 m
    → dropped_carry (word_sum (icmp4_words m 0) 0) ≡ 0
    → (length (assemble_icmp4 m) ≡ icmp4_len m)
      × (check_icmp4_integrity (icmp4_len m) (assemble_icmp4 m ++ padding) ≡ accepted)
      × (check_icmp4_sanity (assemble_icmp4 m ++ padding) ≡ accepted)
      × IsRead m (icmp4_len m) (assemble_icmp4 m ++ padding)
unfolding assemble_icmp4
check_icmp4_integrity-assemble_icmp4 m padding v carry =
    let cksum = inet_cksum (icmp4_words m 0) 0 in
    let (checked, sane) = filled-accepted m cksum padding v (assemble_icmp4-cksum m v carry) in
    (filled-length m cksum, checked, sane, filled-IsRead m cksum padding)
