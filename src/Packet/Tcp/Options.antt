-- ===== src/Packet/Tcp/Options.antt =====
-- TCP options: the classes `TcpOpt*` of pytcp/protocols/tcp/fpa.py and of pytcp/protocols/tcp/fpp.py,
-- the loop that checks them and the loop that reads them.
pub mod Laws
pub mod Safety
use py_tcp.Prelude.{
  ℕ, zero, suc, ◌+◌, ◌-◌, ◌*◌, ◌^◌, Option, none, some, List, [], ◌∷◌, ◌++◌, Bool, ◌==◌, ltb,
  length, take, drop, if◌then◌else◌, true, false,
}
use py_tcp.Wire.{
  be16, be32, first_word, first_long, ◌>>=◌, Verdict, accepted, rejected, crashed, unfinished,
}

-- `unk` is an option that the parser does not know, with its kind and its length.
pub data TcpOption : Type 0 where
  eol nop sack_perm : TcpOption
  mss wscale : ℕ → TcpOption
  timestamp : ℕ → ℕ → TcpOption
  unk : ℕ → ℕ → List ℕ → TcpOption

-- `__bytes__` of the assembler's classes, in front of what follows.
abbrev eol_bytes : List ℕ → List ℕ
eol_bytes rest = 0 ∷ rest

abbrev nop_bytes : List ℕ → List ℕ
nop_bytes rest = 1 ∷ rest

abbrev mss_bytes : ℕ → List ℕ → List ℕ
mss_bytes n rest = 2 ∷ 4 ∷ be16 n rest

abbrev wscale_bytes : ℕ → List ℕ → List ℕ
wscale_bytes n rest = 3 ∷ 3 ∷ n ∷ rest

abbrev sack_perm_bytes : List ℕ → List ℕ
sack_perm_bytes rest = 4 ∷ 2 ∷ rest

abbrev timestamp_bytes : ℕ → ℕ → List ℕ → List ℕ
timestamp_bytes tsval tsecr rest = 8 ∷ 10 ∷ be32 tsval (be32 tsecr rest)

-- `bytes(option)`; the assembler has no unknown options.
abbrev pub option_bytes : TcpOption → List ℕ → List ℕ
option_bytes eol rest = eol_bytes rest
option_bytes nop rest = nop_bytes rest
option_bytes (mss n) rest = mss_bytes n rest
option_bytes (wscale n) rest = wscale_bytes n rest
option_bytes sack_perm rest = sack_perm_bytes rest
option_bytes (timestamp tsval tsecr) rest = timestamp_bytes tsval tsecr rest
option_bytes (unk kind len body) rest = kind ∷ len ∷ (body ++ rest)

-- `self._raw_options`
unfoldable pub options_bytes : List TcpOption → List ℕ
options_bytes [] = []
options_bytes (o ∷ os) = option_bytes o (options_bytes os)

-- `frame[0]` of what follows the kind and the length.
abbrev first_byte : List ℕ → Option ℕ
first_byte [] = none
first_byte (b ∷ rest) = some b

abbrev second_long : List ℕ → Option ℕ
second_long rest = first_long (drop 4 rest)

-- The constructors of the parser's classes, on what follows the kind and the length.
abbrev read_mss : List ℕ → Option TcpOption
read_mss rest = do n ← first_word rest; some (mss n)

abbrev read_wscale : List ℕ → Option TcpOption
read_wscale rest = do n ← first_byte rest; some (wscale n)

abbrev read_timestamp : List ℕ → Option TcpOption
read_timestamp rest = do
  tsval ← first_long rest
  tsecr ← second_long rest
  some (timestamp tsval tsecr)

abbrev read_unk : ℕ → ℕ → List ℕ → Option TcpOption
read_unk kind len rest = some (unk kind len (take (len - 2) rest))

-- The constructor of the class for `kind`.
unfoldable pub read_body : ℕ → ℕ → List ℕ → Option TcpOption
read_body kind len rest =
    if kind == 2
    then read_mss rest
    else if kind == 3
    then read_wscale rest
    else if kind == 4
    then some sack_perm
    else if kind == 8
    then read_timestamp rest
    else read_unk kind len rest

-- What one round of the loop of `options` does.
pub data Round : Type 0 where
  ended : List TcpOption → Round
  failed : Round
  went_on : TcpOption → ℕ → Round

abbrev pub round_of : Option TcpOption → ℕ → Round
round_of none next = failed
round_of (some o) next = went_on o next

-- On the frame from `optr` on.
unfoldable pub read_round : ℕ → List ℕ → Round
unfolding read_body
read_round optr [] = failed
read_round optr (kind ∷ []) =
    if kind == 0 then ended (eol ∷ []) else if kind == 1 then went_on nop (optr + 1) else failed
read_round optr (kind ∷ len ∷ rest) =
    if kind == 0
    then ended (eol ∷ [])
    else if kind == 1
    then went_on nop (optr + 1)
    else round_of (read_body kind len rest) (optr + len)

-- The list, an exception, or no end in sight.
pub data Scan : Type 0 where
  scanned : List TcpOption → Scan
  scan_failed scan_unfinished : Scan

abbrev pub prepend : TcpOption → Scan → Scan
prepend o (scanned os) = scanned (o ∷ os)
prepend o scan_failed = scan_failed
prepend o scan_unfinished = scan_unfinished

abbrev pub to_option : Scan → Option (List TcpOption)
to_option (scanned os) = some os
to_option scan_failed = none
to_option scan_unfinished = none

abbrev pub round_at : ℕ → ℕ → List ℕ → Round
round_at hlen optr frame = if ltb optr hlen then read_round optr (drop optr frame) else ended []

-- Goes on behind a round.
abbrev pub scan_on : (ℕ → Scan) → Round → Scan
scan_on again (ended os) = scanned os
scan_on again failed = scan_failed
scan_on again (went_on o next) = prepend o (again next)

-- The loop of `options`, from `optr` on.
unfoldable pub read_options : ℕ → ℕ → ℕ → List ℕ → Scan
unfolding read_round
read_options zero hlen optr frame = scan_unfinished
read_options (suc fuel) hlen optr frame =
    scan_on (λ next. read_options fuel hlen next frame) (round_at hlen optr frame)

-- What one round of the loop of `_packet_integrity_check` does.
pub data CheckRound : Type 0 where
  stops : Verdict → CheckRound
  goes_on : ℕ → CheckRound

unfoldable pub check_round : ℕ → ℕ → List ℕ → CheckRound
check_round hlen optr [] = stops crashed
check_round hlen optr (kind ∷ []) =
    if kind == 0
    then stops accepted
    else if kind == 1
    then (if ltb hlen (optr + 1) then stops rejected else goes_on (optr + 1))
    else if ltb hlen (optr + 1)
    then stops rejected
    else stops crashed
check_round hlen optr (kind ∷ len ∷ rest) =
    if kind == 0
    then stops accepted
    else if kind == 1
    then (if ltb hlen (optr + 1) then stops rejected else goes_on (optr + 1))
    else if ltb hlen (optr + 1)
    then stops rejected
    else if len == 0
    then stops rejected
    else if ltb hlen (optr + len)
    then stops rejected
    else goes_on (optr + len)

abbrev pub check_at : ℕ → ℕ → List ℕ → CheckRound
check_at hlen optr frame =
    if ltb optr hlen then check_round hlen optr (drop optr frame) else stops accepted

abbrev pub check_on : (ℕ → Verdict) → CheckRound → Verdict
check_on again (stops verdict) = verdict
check_on again (goes_on next) = again next

-- The loop over the options in `_packet_integrity_check`.
unfoldable pub check_options : ℕ → ℕ → ℕ → List ℕ → Verdict
unfolding check_round
check_options zero hlen optr frame = unfinished
check_options (suc fuel) hlen optr frame =
    check_on (λ next. check_options fuel hlen next frame) (check_at hlen optr frame)

-- The getter `mss`: the first such option.
unfoldable pub mss_of : List TcpOption → ℕ
mss_of [] = 536
mss_of (mss n ∷ os) = n
mss_of (o ∷ os) = mss_of os

-- The getter `wscale`: `1 << option.wscale`.
unfoldable pub wscale_of : List TcpOption → Option ℕ
wscale_of [] = none
wscale_of (wscale n ∷ os) = some (2 ^ n)
wscale_of (o ∷ os) = wscale_of os

-- The getter `sackperm`: `true` or `None` in the source.
unfoldable pub sackperm_of : List TcpOption → Bool
sackperm_of [] = false
sackperm_of (sack_perm ∷ os) = true
sackperm_of (o ∷ os) = sackperm_of os

-- The getter `timestamp`.
unfoldable pub timestamp_of : List TcpOption → Option (ℕ × ℕ)
timestamp_of [] = none
timestamp_of (timestamp tsval tsecr ∷ os) = some (tsval, tsecr)
timestamp_of (o ∷ os) = timestamp_of os
