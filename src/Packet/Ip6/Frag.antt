-- ===== src/Packet/Ip6/Frag.antt =====
-- The IPv6 fragment extension header: `Ip6ExtFragAssembler` of pytcp/protocols/ip6_ext_frag/fpa.py and
-- `Ip6ExtFragParser` of pytcp/protocols/ip6_ext_frag/fpp.py, with its checks enabled.
use py_tcp.Prelude.{
  ℕ, ◌+◌, ◌-◌, ◌*◌, ◌/◌, ◌%◌, ◌^◌, ◌<◌, ◌≡◌, refl, Option, none, some, List, ◌∷◌, ◌++◌, Bool, true,
  false, ◌&&◌, ◌||◌, ◌==◌, leb, ltb, length, take, drop, if◌then◌else◌, arith, ap, sym, ◌∙◌,
  take-append,
}
use Prim.Native.Nat.{bit_or}
use py_tcp.Prelude.Bits.{bit_or-filled}
use py_tcp.Wire.{
  be16, be32, word_at, long_at, byte_at, bit, ◌>>=◌, Verdict, accepted, rejected, word_lem,
  long_lem,
}

-- The arguments of the assembler.
pub record Ip6Frag : Type 0 where
  pub next : ℕ
  pub offset : ℕ
  pub flag_mf : Bool
  pub id : ℕ
  pub payload : List ℕ

-- `IP6_EXT_FRAG_HEADER_LEN`
abbrev pub ip6_frag_header_len : ℕ
ip6_frag_header_len = 8

-- The assertion of the constructor: ICMPv6, UDP, TCP or raw data.
abbrev pub is_carried_next : ℕ → Bool
is_carried_next next = next == 58 || (next == 17 || (next == 6 || next == 255))

-- `self._offset | self._flag_mf`
abbrev pub ip6_frag_word : Ip6Frag → ℕ
ip6_frag_word f = bit_or f.offset (bit f.flag_mf)

-- `__len__`
abbrev pub ip6_frag_len : Ip6Frag → ℕ
ip6_frag_len f = ip6_frag_header_len + length f.payload

-- `assemble`; `none` where the constructor asserts or `struct.pack_into` refuses a number.
unfoldable pub assemble_ip6_frag : Ip6Frag → Option (List ℕ)
assemble_ip6_frag f =
    if is_carried_next f.next && (leb (ip6_frag_word f) 0xffff && ltb f.id (2 ^ 32))
    then some (f.next ∷ 0 ∷ be16 (ip6_frag_word f) (be32 f.id f.payload))
    else none

-- The getters of the parser.
abbrev pub ip6_frag_next : List ℕ → Option ℕ
ip6_frag_next frame = byte_at 0 frame

abbrev pub ip6_frag_offset : List ℕ → Option ℕ
ip6_frag_offset frame = do word ← word_at 2 frame; some (word / 2 ^ 3 % 2 ^ 13 * 2 ^ 3)

abbrev pub ip6_frag_flag_mf : List ℕ → Option Bool
ip6_frag_flag_mf frame = do byte ← byte_at 3 frame; some (byte % 2 == 1)

abbrev pub ip6_frag_id : List ℕ → Option ℕ
ip6_frag_id frame = long_at 4 frame

-- `data_copy`; `plen` is the length that the IPv6 header tells.
abbrev pub ip6_frag_data_copy : ℕ → List ℕ → List ℕ
ip6_frag_data_copy plen frame = take (plen - ip6_frag_header_len) (drop ip6_frag_header_len frame)

unfoldable pub parse_ip6_frag : ℕ → List ℕ → Option Ip6Frag
parse_ip6_frag plen frame = do
  next ← ip6_frag_next frame
  offset ← ip6_frag_offset frame
  flag_mf ← ip6_frag_flag_mf frame
  id ← ip6_frag_id frame
  some (record {
    next = next;
    offset = offset;
    flag_mf = flag_mf;
    id = id;
    payload = ip6_frag_data_copy plen frame;
  })

-- `_packet_integrity_check`; the sanity check accepts everything.
unfoldable pub check_ip6_frag_integrity : List ℕ → Verdict
check_ip6_frag_integrity frame =
    if ltb (length frame) ip6_frag_header_len then rejected else accepted

-- The offset is a multiple of 8 below 2 ^ 16, as a sender cuts, and the identification has 32 bits.
pub record IsIp6Frag (f : Ip6Frag) : Type 0 where
  pub next_known : is_carried_next f.next ≡ true
  pub offset_whole : f.offset % 8 ≡ 0
  pub offset_fits : f.offset < 2 ^ 16
  pub id_fits : f.id < 2 ^ 32

bit_read : (b : Bool) → (bit b < 2) × ((bit b == 1) ≡ b)
bit_read true = (omega arith, refl)
bit_read false = (omega arith, refl)

module _ (f : Ip6Frag) (v : IsIp6Frag f) where
  frag_word : ip6_frag_word f ≡ f.offset + bit f.flag_mf
  frag_word =
      let (small, _) = bit_read f.flag_mf in
      let whole : f.offset / 8 * 2 ^ 3 ≡ f.offset = omega (arith, v.offset_whole) in
      ap (λ o. bit_or o (bit f.flag_mf)) (sym whole)
      ∙ bit_or-filled 3 (f.offset / 8) (bit f.flag_mf) (omega arith)
      ∙ ap (λ o. o + bit f.flag_mf) whole

  word_read :
      (ip6_frag_word f < 2 ^ 16)
      × (ip6_frag_word f / 2 ^ 3 % 2 ^ 13 * 2 ^ 3 ≡ f.offset)
      × (ip6_frag_word f % 256 % 2 ≡ bit f.flag_mf)
  word_read =
      let (small, _) = bit_read f.flag_mf in omega (arith, frag_word, v.offset_whole, v.offset_fits)

-- A fragment with an offset as a sender cuts is assembled, and read again from the frame with whatever
-- follows it.
pub parse_ip6_frag-assemble_ip6_frag :
    (f : Ip6Frag) (padding : List ℕ)
    → IsIp6Frag f
    → (frame : List ℕ) × (assemble_ip6_frag f ≡ some frame)
      × (length frame ≡ ip6_frag_len f)
      × (check_ip6_frag_integrity (frame ++ padding) ≡ accepted)
      × (parse_ip6_frag (ip6_frag_len f) (frame ++ padding) ≡ some f)
unfolding assemble_ip6_frag check_ip6_frag_integrity parse_ip6_frag
parse_ip6_frag-assemble_ip6_frag f padding v =
    let (fits, offset, mf) = word_read f v in
    let (_, flag) = bit_read f.flag_mf in
    let word = ip6_frag_word f in
    let left : ip6_frag_len f - 8 ≡ length f.payload = omega arith in
    let body : take (ip6_frag_len f - 8) (f.payload ++ padding) ≡ f.payload =
      rw left (take-append f.payload padding) in
    (
      f.next ∷ 0 ∷ be16 word (be32 f.id f.payload),
      ground (arith, v.next_known, v.id_fits, fits),
      omega arith,
      ground arith,
      λ i. some (record {
        next = f.next;
        offset = (ap (λ w. w / 2 ^ 3 % 2 ^ 13 * 2 ^ 3) (word_lem word) ∙ offset) i;
        flag_mf = (ap (λ b. b == 1) mf ∙ flag) i;
        id = long_lem f.id i;
        payload = body i;
      }),
    )
