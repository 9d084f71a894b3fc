-- ===== src/Packet/Tcp/Safety.antt =====
-- What the TCP integrity check (`_packet_integrity_check` of pytcp/protocols/tcp/fpp.py) makes of
-- frames that nobody vouches for.
use py_tcp.Prelude.{
  ℕ, zero, suc, ◌+◌, ◌≤◌, ◌<◌, ◌≡◌, ◌≢◌, refl, some, List, [], ◌∷◌, ◌++◌, ◌&&◌, ◌==◌, leb, length,
  take, drop, Bool-cases, inl, inr, ◌⊎◌, ◌∙◌, sym, drop-append, drop-drop, length-append, take_all,
  arith, ap, ◌-◌,
}
use py_tcp.Checksum.{inet_cksum}
use py_tcp.Wire.{byte_at, accepted, rejected, crashed, unfinished}
use py_tcp.Packet.Tcp.{
  tcp_header_len, hlen_of, check_tcp_integrity, TcpPacket, parse_header, parse_rest, parse_tcp,
}
use py_tcp.Packet.Tcp.Options.{
  read_options, check_options, check_round, scan_unfinished, scan_failed, Scan, scanned, to_option,
  TcpOption,
}
use py_tcp.Packet.Tcp.Options.Safety.{
  check_options-finishes, read_options-finishes, check_options-safe, read_options-total,
}

byte_there : (n : ℕ) (xs : List ℕ) → n < length xs → (byte : ℕ) × (byte_at n xs ≡ some byte)
byte_there n [] h = absurd (omega arith)
byte_there zero (x ∷ xs) h = (x, refl)
byte_there (suc n) (x ∷ xs) h = byte_there n xs (omega arith)

-- What the check comes to: the frame is refused, or its options decide.
decided :
    (dlen s : ℕ) (frame : List ℕ)
    → (check_tcp_integrity dlen s frame ≡ rejected)
      ⊎ ((byte : ℕ) × (byte_at 12 frame ≡ some byte)
          × (tcp_header_len ≤ hlen_of byte)
          × (check_tcp_integrity dlen s frame
              ≡ check_options (suc (hlen_of byte)) (hlen_of byte) tcp_header_len frame))
unfolding check_tcp_integrity
decided dlen s frame = elim (Bool-cases (inet_cksum (take dlen frame) s == 0)) [
  | inr bad ↦ inl (rw bad refl)
  | inl good ↦ elim (Bool-cases (leb tcp_header_len dlen && leb dlen (length frame))) [
    | inr bad ↦ inl (rw (good, bad) refl)
    | inl fits ↦
        let (byte, there) = byte_there 12 frame (ground (arith, fits)) in
        elim (Bool-cases (
          leb tcp_header_len (hlen_of byte)
          && (leb (hlen_of byte) dlen && leb dlen (length frame)))) [
            | inr bad ↦ inl (rw (good, fits, there, bad) refl)
            | inl range ↦
                inr (byte, there, ground (arith, range), rw (good, fits, there, range) refl)
          ]
  ]
]

-- The integrity check of the parser ends on every frame, with every length that the IP header tells and
-- every sum of the pseudo header: the loop over the options makes at most as many rounds as the
-- header has bytes, and one more.
pub check_tcp_integrity-finishes :
    (dlen s : ℕ) (frame : List ℕ) → check_tcp_integrity dlen s frame ≢ unfinished
check_tcp_integrity-finishes dlen s frame = elim (decided dlen s frame) [
  | inl bad ↦ λ e. cc (e, bad)
  | inr (byte, there, low, fate) ↦ λ e.
      check_options-finishes (suc (hlen_of byte)) (hlen_of byte) tcp_header_len frame low
        (omega arith) (sym fate ∙ e)
]

-- If the frame goes on for at least one byte behind the header that it tells of, the integrity check
-- of the parser raises no exception: it accepts or rejects.
pub check_tcp_integrity-safe :
    (dlen s byte : ℕ) (frame : List ℕ)
    → byte_at 12 frame ≡ some byte
    → hlen_of byte < length frame
    → check_tcp_integrity dlen s frame ≢ crashed
check_tcp_integrity-safe dlen s byte frame at behind = elim (decided dlen s frame) [
  | inl bad ↦ λ e. cc (e, bad)
  | inr (other, there, low, fate) ↦
      let same : other ≡ byte = cc in
      λ e.
        check_options-safe (suc (hlen_of other)) (hlen_of other) tcp_header_len frame
          (rw same behind) (sym fate ∙ e)
]

-- Three no-operations, and an option of another kind at the end of the frame.
ends_in_kind :
    (frame : List ℕ) (kind : ℕ)
    → drop tcp_header_len frame ≡ 1 ∷ 1 ∷ 1 ∷ kind ∷ []
    → 2 ≤ kind
    → check_options 25 24 tcp_header_len frame ≡ crashed
unfolding check_options check_round
ends_in_kind frame kind at unknown =
    let at1 : drop 21 frame ≡ 1 ∷ 1 ∷ kind ∷ [] = sym (drop-drop 20 1 frame) ∙ ap (drop 1) at in
    let at2 : drop 22 frame ≡ 1 ∷ kind ∷ [] = sym (drop-drop 21 1 frame) ∙ ap (drop 1) at1 in
    let at3 : drop 23 frame ≡ kind ∷ [] = sym (drop-drop 22 1 frame) ∙ ap (drop 1) at2 in
    rw (at, at1, at2, at3) (ground arith)

byte_behind :
    (n byte : ℕ) (xs ys : List ℕ) → byte_at n xs ≡ some byte → byte_at n (xs ++ ys) ≡ some byte
byte_behind n byte [] ys e = absurd cc
byte_behind zero byte (x ∷ xs) ys e = e
byte_behind (suc n) byte (x ∷ xs) ys e = byte_behind n byte xs ys e

-- A frame of 24 bytes with a right checksum, whose header fills it and ends with three no-operations and
-- an option kind other than 0 and 1, makes the integrity check raise `IndexError`: the check looks for
-- the option's length behind the end of the frame.
pub check_tcp_integrity-crashes :
    (header : List ℕ) (s byte kind : ℕ)
    → length header ≡ 20
    → byte_at 12 header ≡ some byte
    → hlen_of byte ≡ 24
    → 2 ≤ kind
    → inet_cksum (header ++ (1 ∷ 1 ∷ 1 ∷ kind ∷ [])) s ≡ 0
    → check_tcp_integrity 24 s (header ++ (1 ∷ 1 ∷ 1 ∷ kind ∷ [])) ≡ crashed
unfolding check_tcp_integrity
check_tcp_integrity-crashes header s byte kind len at hlen unknown sum =
    let frame = header ++ (1 ∷ 1 ∷ 1 ∷ kind ∷ []) in
    let long : length frame ≡ 24 = omega (arith, length-append header (1 ∷ 1 ∷ 1 ∷ kind ∷ [])) in
    let whole : take 24 frame ≡ frame = ap (λ n. take n frame) (sym long) ∙ take_all frame in
    let behind : drop 20 frame ≡ 1 ∷ 1 ∷ 1 ∷ kind ∷ [] =
      ap (λ n. drop n frame) (sym len) ∙ drop-append header (1 ∷ 1 ∷ 1 ∷ kind ∷ []) in
    rw (whole, sum, byte_behind 12 byte header (1 ∷ 1 ∷ 1 ∷ kind ∷ []) at, hlen)
      (ground (arith, long, ends_in_kind frame kind behind unknown))

header_there :
    (frame : List ℕ) → 20 ≤ length frame → (h : TcpPacket) × (parse_header frame ≡ some h)
unfolding parse_header
header_there (a ∷ b ∷ c ∷ d ∷ e ∷ f ∷ g ∷ h ∷ j ∷ k ∷ l ∷ m ∷ n ∷ o ∷ p ∷ q ∷ r ∷ s ∷ t ∷ u ∷ frame)
      long =
    (_, refl)
header_there _ long = absurd (omega arith)

scan_decided :
    (s : Scan)
    → s ≢ scan_unfinished
    → s ≢ scan_failed
    → (os : List TcpOption) × (to_option s ≡ some os)
scan_decided (scanned os) h k = (os, refl)
scan_decided scan_failed h k = absurd (k refl)
scan_decided scan_unfinished h k = absurd (h refl)

rest_there :
    (dlen hlen : ℕ) (frame : List ℕ) (header : TcpPacket) (os : List TcpOption)
    → to_option (read_options (suc hlen) hlen tcp_header_len frame) ≡ some os
    → (p : TcpPacket) × (parse_rest dlen frame header hlen ≡ some p)
unfolding parse_rest
rest_there dlen hlen frame header os e =
    (record header { options = os; payload = take (dlen - hlen) (drop hlen frame) }, rw e refl)

-- A frame that the integrity check accepts and that goes on for at least nine bytes behind its header is
-- parsed: every getter returns, the loop over the options ends, and none of them raises an exception.
pub parse_tcp-total :
    (dlen s byte : ℕ) (frame : List ℕ)
    → check_tcp_integrity dlen s frame ≡ accepted
    → byte_at 12 frame ≡ some byte
    → hlen_of byte + 9 ≤ length frame
    → (p : TcpPacket) × (parse_tcp dlen frame ≡ some p)
unfolding parse_tcp
parse_tcp-total dlen s byte frame ok at behind = elim (decided dlen s frame) [
  | inl bad ↦ absurd cc
  | inr (other, there, low, fate) ↦
      let same : other ≡ byte = cc in
      let hlen = hlen_of other in
      let all = read_options-finishes (suc hlen) hlen tcp_header_len frame (sym fate ∙ ok) in
      let whole = read_options-total (suc hlen) hlen tcp_header_len frame (rw same behind) in
      let (os, scan) = scan_decided (read_options (suc hlen) hlen tcp_header_len frame) all whole in
      let (header, fixed) = header_there frame (omega arith) in
      let (p, rest) = rest_there dlen hlen frame header os scan in (p, rw (fixed, there) rest)
]
