-- ===== src/Packet/Icmp4.antt =====
-- ICMPv4 messages: `Icmp4Assembler` of pytcp/protocols/icmp4/fpa.py and `Icmp4Parser` of
-- pytcp/protocols/icmp4/fpp.py, with both checks enabled, as they are by default.
pub mod Laws
mod Tests
use py_tcp.Prelude.{
  ℕ, ◌+◌, Option, none, some, List, ◌∷◌, Bool, true, false, not, ◌&&◌, ◌||◌, ◌==◌, leb, length,
  take, drop, if◌then◌else◌, ◌-◌, [],
}
use py_tcp.Checksum.{inet_cksum}
use py_tcp.Wire.{
  be16, be32, word_at, byte_at, set_word, ◌>>=◌, Verdict, accepted, rejected, crashed,
}

-- The arguments of the assembler; `none` is the default `None`.
pub record Icmp4Args : Type 0 where
  pub type : ℕ
  pub code : ℕ
  pub ec_id : Option ℕ
  pub ec_seq : Option ℕ
  pub ec_data : Option (List ℕ)
  pub un_data : Option (List ℕ)

-- What the constructor keeps, for the three kinds of message that it knows.
pub data Icmp4Message : Type 0 where
  echo_reply : ℕ → ℕ → List ℕ → Icmp4Message
  unreachable_port : List ℕ → Icmp4Message
  echo_request : ℕ → ℕ → List ℕ → Icmp4Message

-- `ICMP4_ECHO_REPLY`, `ICMP4_UNREACHABLE`, `ICMP4_UNREACHABLE__PORT`, `ICMP4_ECHO_REQUEST`
abbrev pub echo_reply_type : ℕ
echo_reply_type = 0

abbrev pub unreachable_type : ℕ
unreachable_type = 3

abbrev pub port_code : ℕ
port_code = 3

abbrev pub echo_request_type : ℕ
echo_request_type = 8

-- `ICMP4_HEADER_LEN`
abbrev pub icmp4_header_len : ℕ
icmp4_header_len = 4

-- `x is None or 0 <= x <= 0xFFFF`
abbrev pub none_or_word : Option ℕ → Bool
none_or_word none = true
none_or_word (some n) = leb n 0xffff

-- `default if x is None else x`
abbrev pub or_default {ℓ} : {A : Type ℓ} → A → Option A → A
or_default d none = d
or_default d (some a) = a

-- The constructor; `none` is an `AssertionError`.
unfoldable pub new_icmp4 : Icmp4Args → Option Icmp4Message
new_icmp4 a =
    if not (none_or_word a.ec_id && none_or_word a.ec_seq)
    then none
    else if a.type == echo_reply_type && a.code == 0
    then some (echo_reply (or_default 0 a.ec_id) (or_default 0 a.ec_seq) (or_default [] a.ec_data))
    else if a.type == unreachable_type && a.code == port_code
    then some (
        unreachable_port
          (or_default [] (elim a.un_data [ none ↦ none | some text ↦ some (take 520 text) ])))
    else if a.type == echo_request_type && a.code == 0
    then some
        (echo_request (or_default 0 a.ec_id) (or_default 0 a.ec_seq) (or_default [] a.ec_data))
    else none

-- `__len__`
abbrev pub icmp4_len : Icmp4Message → ℕ
icmp4_len (echo_reply id seq body) = 8 + length body
icmp4_len (unreachable_port body) = 8 + length body
icmp4_len (echo_request id seq body) = 8 + length body

-- The frame with a checksum of `cksum`.
abbrev pub icmp4_words : Icmp4Message → ℕ → List ℕ
icmp4_words (echo_reply id seq body) cksum =
    echo_reply_type ∷ 0 ∷ be16 cksum (be16 id (be16 seq body))
icmp4_words (unreachable_port body) cksum = unreachable_type ∷ port_code ∷ be16 cksum (be32 0 body)
icmp4_words (echo_request id seq body) cksum =
    echo_request_type ∷ 0 ∷ be16 cksum (be16 id (be16 seq body))

-- `assemble`; the sum of a pseudo header is not used.
unfoldable pub assemble_icmp4 : Icmp4Message → List ℕ
assemble_icmp4 m = set_word 2 (inet_cksum (icmp4_words m 0) 0) (icmp4_words m 0)

-- The getters of the parser. `plen` is the length that the IP header tells; `none` is an exception.
abbrev pub icmp4_type : List ℕ → Option ℕ
icmp4_type frame = byte_at 0 frame

abbrev pub icmp4_code : List ℕ → Option ℕ
icmp4_code frame = byte_at 1 frame

abbrev pub is_echo : ℕ → Bool
is_echo type = type == echo_request_type || type == echo_reply_type

abbrev pub when {ℓ} : {A : Type ℓ} → Bool → Option A → Option A
when true a = a
when false a = none

abbrev pub icmp4_ec_id : List ℕ → Option ℕ
icmp4_ec_id frame = do type ← icmp4_type frame; when (is_echo type) (word_at 4 frame)

abbrev pub icmp4_ec_seq : List ℕ → Option ℕ
icmp4_ec_seq frame = do type ← icmp4_type frame; when (is_echo type) (word_at 6 frame)

-- `self._frame[8 : self.plen]`
abbrev pub body_of : ℕ → List ℕ → List ℕ
body_of plen frame = take (plen - 8) (drop 8 frame)

abbrev pub icmp4_ec_data : ℕ → List ℕ → Option (List ℕ)
icmp4_ec_data plen frame = do
  type ← icmp4_type frame
  when (is_echo type) (some (body_of plen frame))

abbrev pub icmp4_un_data : ℕ → List ℕ → Option (List ℕ)
icmp4_un_data plen frame = do
  type ← icmp4_type frame
  when (type == unreachable_type) (some (body_of plen frame))

-- The shortest message of a type.
abbrev pub least_len : ℕ → ℕ
least_len type = if is_echo type then 8 else if type == unreachable_type then 12 else 0

-- `_packet_integrity_check`
unfoldable pub check_icmp4_integrity : ℕ → List ℕ → Verdict
check_icmp4_integrity plen frame =
    if not (inet_cksum (take plen frame) 0 == 0)
    then rejected
    else if not (leb icmp4_header_len plen && leb plen (length frame))
    then rejected
    else elim (byte_at 0 frame) [
      | none ↦ crashed
      | some type ↦
          if leb (least_len type) plen && leb plen (length frame) then accepted else rejected
    ]

-- `_packet_sanity_check`, for the type and the code.
abbrev pub sane_code : ℕ → ℕ → Verdict
sane_code type code =
    if is_echo type && not (code == 0)
    then rejected
    else if type == unreachable_type && not (leb code 15)
    then rejected
    else accepted

unfoldable pub check_icmp4_sanity : List ℕ → Verdict
check_icmp4_sanity frame = elim (icmp4_type frame) [
  | none ↦ crashed
  | some type ↦ elim (icmp4_code frame) [ none ↦ crashed | some code ↦ sane_code type code ]
]
