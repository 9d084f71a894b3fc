-- ===== src/Packet/Icmp6/Termination.antt =====
-- Why the fuel of the loop over the options of neighbour discovery, `_nd_option_integrity_check` of
-- pytcp/protocols/icmp6/fpp.py, is enough.
use py_tcp.Prelude.{
  ℕ, zero, suc, ◌+◌, ◌*◌, ◌≤◌, ◌<◌, ◌≡◌, ◌≢◌, refl, Option, none, some, List, Bool, true, false,
  not, ◌&&◌, ◌==◌, leb, ltb, length, take, Bool-cases, inl, inr, arith, if◌then◌else◌,
}
use py_tcp.Checksum.{inet_cksum}
use py_tcp.Wire.{word_at, byte_at, Verdict, accepted, rejected, crashed, unfinished}
use py_tcp.Packet.Icmp6.Read.{is_icmp6_echo}
use py_tcp.Packet.Icmp6.Checks.{
  check_nd_len, check_nd_at, check_nd_options, check_records, at_least, check_query_len,
  check_report, check_icmp6_type, check_icmp6_integrity,
}

or_rejected :
    (b : Bool) (v : Verdict)
    → (b ≡ false → v ≢ unfinished)
    → (if b then rejected else v) ≢ unfinished
or_rejected true v go = λ e. cc e
or_rejected false v go = go refl

check_nd_len-finishes :
    (optr : ℕ) (frame : List ℕ) (again : ℕ → Verdict) (len : ℕ)
    → ((next : ℕ) → optr < next → next ≤ length frame → again next ≢ unfinished)
    → check_nd_len optr frame again len ≢ unfinished
check_nd_len-finishes optr frame again len go = or_rejected (len == 0) _ λ some_len.
    or_rejected (ltb (length frame) (optr + len * 8)) _
      λ fits. go (optr + len * 8) (ground (arith, some_len)) (ground (arith, fits))

check_nd_at-finishes :
    (optr : ℕ) (frame : List ℕ) (again : ℕ → Verdict)
    → ((next : ℕ) → optr < next → next ≤ length frame → again next ≢ unfinished)
    → check_nd_at optr frame again ≢ unfinished
check_nd_at-finishes optr frame again go =
    or_rejected (ltb (length frame) (optr + 1)) _ λ _. by_len (byte_at (optr + 1) frame)
  where
    by_len :
        (o : Option ℕ)
        → elim o [ none ↦ crashed | some len ↦ check_nd_len optr frame again len ] ≢ unfinished
    by_len none = λ e. cc e
    by_len (some len) = check_nd_len-finishes optr frame again len go

-- Every option that is accepted is eight bytes long at least, so that a fuel of the length that is left is
-- enough.
check_nd_options-finishes :
    (fuel optr : ℕ) (frame : List ℕ)
    → optr ≤ length frame
    → length frame < optr + fuel
    → check_nd_options fuel optr frame ≢ unfinished
unfolding check_nd_options
check_nd_options-finishes zero optr frame inside enough = absurd (omega arith)
check_nd_options-finishes (suc fuel) optr frame inside enough =
    elim (Bool-cases (ltb optr (length frame))) [
      | inl t ↦ rw t (
          check_nd_at-finishes optr frame (λ next. check_nd_options fuel next frame)
            (λ next ahead within. check_nd_options-finishes fuel next frame within (omega arith)))
      | inr f ↦ rw f (λ e. cc e)
    ]

at_least-finishes :
    (least plen : ℕ) (frame : List ℕ) (check : Verdict)
    → (least ≤ length frame → check ≢ unfinished)
    → at_least least plen frame check ≢ unfinished
at_least-finishes least plen frame check go =
    elim (Bool-cases (leb least plen && leb plen (length frame))) [
      | inl t ↦ rw t (go (ground (arith, t)))
      | inr f ↦ rw f (λ e. cc e)
    ]

records_behind-finishes :
    (optr : ℕ) (again : ℕ → Verdict) (aux : ℕ) (sources : Option ℕ)
    → ((next : ℕ) → again next ≢ unfinished)
    → elim sources [ none ↦ crashed | some n ↦ again (optr + (20 + aux + n * 16)) ] ≢ unfinished
records_behind-finishes optr again aux none go = λ e. cc e
records_behind-finishes optr again aux (some n) go = go (optr + (20 + aux + n * 16))

records_after-finishes :
    (frame : List ℕ) (optr : ℕ) (again : ℕ → Verdict) (aux : Option ℕ)
    → ((next : ℕ) → again next ≢ unfinished)
    → elim aux [
      | none ↦ crashed
      | some k ↦ elim (word_at (optr + 2) frame) [
        | none ↦ crashed
        | some n ↦ again (optr + (20 + k + n * 16))
      ]
    ]
      ≢ unfinished
records_after-finishes frame optr again none go = λ e. cc e
records_after-finishes frame optr again (some k) go =
    records_behind-finishes optr again k (word_at (optr + 2) frame) go

check_records-finishes :
    (n optr plen : ℕ) (frame : List ℕ) → check_records n optr plen frame ≢ unfinished
unfolding check_records
check_records-finishes zero optr plen frame = elim (Bool-cases (optr == plen)) [
  | inl t ↦ rw t (λ e. cc e)
  | inr f ↦ rw f (λ e. cc e)
]
check_records-finishes (suc n) optr plen frame = or_rejected (ltb plen (optr + 20)) _ λ _.
    records_after-finishes frame optr (λ next. check_records n next plen frame)
      (byte_at (optr + 1) frame) (λ next. check_records-finishes n next plen frame)

check_query_len-finishes :
    (plen : ℕ) (sources : Option ℕ) → check_query_len plen sources ≢ unfinished
check_query_len-finishes plen none = λ e. cc e
check_query_len-finishes plen (some n) = elim (Bool-cases (plen == 28 + n * 16)) [
  | inl t ↦ rw t (λ e. cc e)
  | inr f ↦ rw f (λ e. cc e)
]

check_report-finishes :
    (plen : ℕ) (frame : List ℕ) (records : Option ℕ) → check_report plen frame records ≢ unfinished
check_report-finishes plen frame none = λ e. cc e
check_report-finishes plen frame (some n) = check_records-finishes n 8 plen frame

either_finishes :
    (b : Bool) (v w : Verdict) → v ≢ unfinished → w ≢ unfinished → (if b then v else w) ≢ unfinished
either_finishes true v w first second = first
either_finishes false v w first second = second

options_finish :
    (least plen : ℕ) (frame : List ℕ)
    → at_least least plen frame (check_nd_options (suc (length frame)) least frame) ≢ unfinished
options_finish least plen frame =
    at_least-finishes least plen frame (check_nd_options (suc (length frame)) least frame)
      λ inside. check_nd_options-finishes (suc (length frame)) least frame inside (omega arith)

check_icmp6_type-finishes :
    (type plen : ℕ) (frame : List ℕ) → check_icmp6_type type plen frame ≢ unfinished
check_icmp6_type-finishes type plen frame =
    let fixed = λ (least : ℕ). at_least-finishes least plen frame accepted (λ _ e. cc e) in
    either_finishes (type == 1) _ _ (fixed 12) (
      either_finishes (is_icmp6_echo type) _ _ (fixed 8) (
        either_finishes (type == 130) _ _
          (at_least-finishes 28 plen frame (check_query_len plen (word_at 26 frame))
            (λ _. check_query_len-finishes plen (word_at 26 frame)))
          (either_finishes (type == 133) _ _ (options_finish 8 plen frame) (
            either_finishes (type == 134) _ _ (options_finish 16 plen frame) (
              either_finishes (type == 135) _ _ (options_finish 24 plen frame) (
                either_finishes (type == 136) _ _ (options_finish 24 plen frame) (
                  either_finishes (type == 143) _ _
                    (at_least-finishes 8 plen frame (check_report plen frame (word_at 6 frame))
                      (λ _. check_report-finishes plen frame (word_at 6 frame)))
                    (λ e. cc e))))))))

-- The integrity check of an ICMPv6 message ends with a verdict, whatever the bytes and the length that the
-- header below tells: the loop over the options goes on by eight bytes at least, or rejects the
-- message.
check_icmp6_integrity-finishes :
    (plen pshdr_sum : ℕ) (frame : List ℕ) → check_icmp6_integrity plen pshdr_sum frame ≢ unfinished
unfolding check_icmp6_integrity
check_icmp6_integrity-finishes plen pshdr_sum frame =
    or_rejected (not (inet_cksum (take plen frame) pshdr_sum == 0)) _ λ _.
      or_rejected (not (leb 4 plen && leb plen (length frame))) _ λ _. by_type (byte_at 0 frame)
  where
    by_type :
        (o : Option ℕ)
        → elim o [ none ↦ crashed | some type ↦ check_icmp6_type type plen frame ] ≢ unfinished
    by_type none = λ e. cc e
    by_type (some type) = check_icmp6_type-finishes type plen frame
