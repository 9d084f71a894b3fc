-- ===== src/Packet/Tcp/Options/Safety.antt =====
-- How the loops over TCP options (pytcp/protocols/tcp/fpp.py) end, on any frame.
use py_tcp.Prelude.{
  ℕ, zero, suc, ◌+◌, ◌≤◌, ◌<◌, ◌≡◌, ◌≢◌, refl, List, [], ◌∷◌, Bool, true, false, ◌==◌, ltb, length,
  drop, length-drop, if◌then◌else◌, Bool-cases, inl, inr, arith, Option, none, some, ap,
}
use py_tcp.Wire.{Verdict, accepted, rejected, crashed, unfinished}
use py_tcp.Packet.Tcp.Options.{
  TcpOption, Round, ended, failed, went_on, round_of, read_body, read_round, round_at, Scan,
  scanned, scan_failed, scan_unfinished, prepend, scan_on, read_options, CheckRound, stops, goes_on,
  check_round, check_at, check_on, check_options,
}

-- A round of the check that goes on moves ahead, within the header.
abbrev Advances : ℕ → ℕ → CheckRound → Type 0
Advances hlen optr (stops accepted) = Unit
Advances hlen optr (stops rejected) = Unit
Advances hlen optr (stops crashed) = Unit
Advances hlen optr (stops unfinished) = ⊥
Advances hlen optr (goes_on next) = (optr < next) × (next ≤ hlen)

check_round-Advances : (hlen optr : ℕ) (xs : List ℕ) → Advances hlen optr (check_round hlen optr xs)
unfolding check_round
check_round-Advances hlen optr [] = tt
check_round-Advances hlen optr (kind ∷ []) = ground arith
check_round-Advances hlen optr (kind ∷ len ∷ rest) = ground arith

-- Where the check ends well, the reading loop ends; where it goes on, the reading loop fails or goes
-- on to the same place.
abbrev Agrees : CheckRound → Round → Type 0
Agrees (stops accepted) (ended os) = Unit
Agrees (stops accepted) r = ⊥
Agrees (stops v) r = Unit
Agrees (goes_on next) (ended os) = ⊥
Agrees (goes_on next) failed = Unit
Agrees (goes_on next) (went_on o other) = other ≡ next

round_of-Agrees : (o : Option TcpOption) (next : ℕ) → Agrees (goes_on next) (round_of o next)
round_of-Agrees none next = tt
round_of-Agrees (some o) next = refl

check_round-Agrees :
    (hlen optr : ℕ) (xs : List ℕ) → Agrees (check_round hlen optr xs) (read_round optr xs)
unfolding check_round read_round
check_round-Agrees hlen optr [] = tt
check_round-Agrees hlen optr (kind ∷ []) = ground arith
check_round-Agrees hlen optr (kind ∷ len ∷ rest) =
    ground (arith, round_of-Agrees (read_body kind len rest) (optr + len))

-- Two bytes are enough for a round.
check_round-safe :
    (hlen optr : ℕ) (xs : List ℕ) → 2 ≤ length xs → check_round hlen optr xs ≢ stops crashed
unfolding check_round
check_round-safe hlen optr [] h = absurd (omega arith)
check_round-safe hlen optr (kind ∷ []) h = absurd (omega arith)
check_round-safe hlen optr (kind ∷ len ∷ rest) h = ground arith

check_at-Advances : (hlen optr : ℕ) (frame : List ℕ) → Advances hlen optr (check_at hlen optr frame)
check_at-Advances hlen optr frame = elim (Bool-cases (ltb optr hlen)) [
  | inl t ↦ rw t (check_round-Advances hlen optr (drop optr frame))
  | inr f ↦ rw f tt
]

check_at-Agrees :
    (hlen optr : ℕ) (frame : List ℕ) → Agrees (check_at hlen optr frame) (round_at hlen optr frame)
check_at-Agrees hlen optr frame = elim (Bool-cases (ltb optr hlen)) [
  | inl t ↦ rw t (check_round-Agrees hlen optr (drop optr frame))
  | inr f ↦ rw f tt
]

check_on-finishes :
    (again : ℕ → Verdict) (hlen optr : ℕ) (c : CheckRound)
    → Advances hlen optr c
    → ((next : ℕ) → optr < next → next ≤ hlen → again next ≢ unfinished)
    → check_on again c ≢ unfinished
check_on-finishes again hlen optr (stops accepted) a h = λ e. cc e
check_on-finishes again hlen optr (stops rejected) a h = λ e. cc e
check_on-finishes again hlen optr (stops crashed) a h = λ e. cc e
check_on-finishes again hlen optr (stops unfinished) a h = absurd a
check_on-finishes again hlen optr (goes_on next) a h = h next a.0 a.1

-- Every round of the check moves ahead, so a fuel of the length that is left is enough.
pub check_options-finishes :
    (fuel hlen optr : ℕ) (frame : List ℕ)
    → optr ≤ hlen
    → hlen < optr + fuel
    → check_options fuel hlen optr frame ≢ unfinished
unfolding check_options
check_options-finishes zero hlen optr frame low h = absurd (omega arith)
check_options-finishes (suc fuel) hlen optr frame low h =
    check_on-finishes (λ next. check_options fuel hlen next frame) hlen optr
      (check_at hlen optr frame) (check_at-Advances hlen optr frame)
      λ next ahead inside. check_options-finishes fuel hlen next frame inside (omega arith)

prepend-finishes : (o : TcpOption) (s : Scan) → s ≢ scan_unfinished → prepend o s ≢ scan_unfinished
prepend-finishes o (scanned os) h = λ e. cc e
prepend-finishes o scan_failed h = λ e. cc e
prepend-finishes o scan_unfinished h = λ e. h refl

scan_on-finishes :
    (check : ℕ → Verdict) (again : ℕ → Scan) (c : CheckRound) (r : Round)
    → Agrees c r
    → check_on check c ≡ accepted
    → ((next : ℕ) → check next ≡ accepted → again next ≢ scan_unfinished)
    → scan_on again r ≢ scan_unfinished
scan_on-finishes check again c (ended os) a e h = λ e. cc e
scan_on-finishes check again c failed a e h = λ e. cc e
scan_on-finishes check again (stops accepted) (went_on o other) a e h = absurd a
scan_on-finishes check again (stops rejected) (went_on o other) a e h = λ _. cc e
scan_on-finishes check again (stops crashed) (went_on o other) a e h = λ _. cc e
scan_on-finishes check again (stops unfinished) (went_on o other) a e h = λ _. cc e
scan_on-finishes check again (goes_on next) (went_on o other) a e h =
    prepend-finishes o (again other) (rw a (h next e))

-- Options that the check accepts are read to an end, with the same fuel.
pub read_options-finishes :
    (fuel hlen optr : ℕ) (frame : List ℕ)
    → check_options fuel hlen optr frame ≡ accepted
    → read_options fuel hlen optr frame ≢ scan_unfinished
unfolding check_options read_options
read_options-finishes zero hlen optr frame e = λ _. cc e
read_options-finishes (suc fuel) hlen optr frame e =
    scan_on-finishes (λ next. check_options fuel hlen next frame)
      (λ next. read_options fuel hlen next frame) (check_at hlen optr frame)
      (round_at hlen optr frame) (check_at-Agrees hlen optr frame) e
      λ next c. read_options-finishes fuel hlen next frame c

check_at-safe :
    (hlen optr : ℕ) (frame : List ℕ)
    → hlen < length frame
    → check_at hlen optr frame ≢ stops crashed
check_at-safe hlen optr frame h = elim (Bool-cases (ltb optr hlen)) [
  | inl t ↦
      rw t
        (check_round-safe hlen optr (drop optr frame) (ground (arith, t, length-drop optr frame)))
  | inr f ↦ rw f (λ e. cc e)
]

check_on-safe :
    (again : ℕ → Verdict) (c : CheckRound)
    → c ≢ stops crashed
    → ((next : ℕ) → again next ≢ crashed)
    → check_on again c ≢ crashed
check_on-safe again (stops v) c h = λ e. c (ap stops e)
check_on-safe again (goes_on next) c h = h next

-- If at least one byte follows the header, the check reads no byte that is not there.
pub check_options-safe :
    (fuel hlen optr : ℕ) (frame : List ℕ)
    → hlen < length frame
    → check_options fuel hlen optr frame ≢ crashed
unfolding check_options
check_options-safe zero hlen optr frame h = λ e. cc e
check_options-safe (suc fuel) hlen optr frame h =
    check_on-safe (λ next. check_options fuel hlen next frame) (check_at hlen optr frame)
      (check_at-safe hlen optr frame h) λ next. check_options-safe fuel hlen next frame h

if_avoids {ℓ} :
    {A : Type ℓ} {bad x y : A} (b : Bool) → x ≢ bad → y ≢ bad → (if b then x else y) ≢ bad
if_avoids true h k = h
if_avoids false h k = k

-- Eight bytes behind the kind and the length are enough for every option.
read_body-total : (kind len : ℕ) (rest : List ℕ) → 8 ≤ length rest → read_body kind len rest ≢ none
unfolding read_body
read_body-total kind len (a ∷ b ∷ c ∷ d ∷ e ∷ f ∷ g ∷ h ∷ rest) long =
    if_avoids (kind == 2) (λ e. cc e)
      (if_avoids (kind == 3) (λ e. cc e)
        (if_avoids (kind == 4) (λ e. cc e) (if_avoids (kind == 8) (λ e. cc e) (λ e. cc e))))
read_body-total kind len _ long = absurd (omega arith)

round_of-total : (o : Option TcpOption) (next : ℕ) → o ≢ none → round_of o next ≢ failed
round_of-total none next h = λ _. h refl
round_of-total (some o) next h = λ e. cc e

read_round-total : (optr : ℕ) (xs : List ℕ) → 10 ≤ length xs → read_round optr xs ≢ failed
unfolding read_round
read_round-total optr (kind ∷ len ∷ rest) long =
    if_avoids (kind == 0) (λ e. cc e)
      (if_avoids (kind == 1) (λ e. cc e)
        (round_of-total (read_body kind len rest) (optr + len)
          (read_body-total kind len rest (omega arith))))
read_round-total optr _ long = absurd (omega arith)

round_at-total :
    (hlen optr : ℕ) (frame : List ℕ) → hlen + 9 ≤ length frame → round_at hlen optr frame ≢ failed
round_at-total hlen optr frame h = elim (Bool-cases (ltb optr hlen)) [
  | inl t ↦
      rw t (read_round-total optr (drop optr frame) (ground (arith, t, length-drop optr frame)))
  | inr f ↦ rw f (λ e. cc e)
]

prepend-total : (o : TcpOption) (s : Scan) → s ≢ scan_failed → prepend o s ≢ scan_failed
prepend-total o (scanned os) h = λ e. cc e
prepend-total o scan_failed h = λ e. h refl
prepend-total o scan_unfinished h = λ e. cc e

scan_on-total :
    (again : ℕ → Scan) (r : Round)
    → r ≢ failed
    → ((next : ℕ) → again next ≢ scan_failed)
    → scan_on again r ≢ scan_failed
scan_on-total again (ended os) h k = λ e. cc e
scan_on-total again failed h k = absurd (h refl)
scan_on-total again (went_on o next) h k = prepend-total o (again next) (k next)

-- If nine bytes follow the header, no option is cut off.
pub read_options-total :
    (fuel hlen optr : ℕ) (frame : List ℕ)
    → hlen + 9 ≤ length frame
    → read_options fuel hlen optr frame ≢ scan_failed
unfolding read_options
read_options-total zero hlen optr frame h = λ e. cc e
read_options-total (suc fuel) hlen optr frame h =
    scan_on-total (λ next. read_options fuel hlen next frame) (round_at hlen optr frame)
      (round_at-total hlen optr frame h) λ next. read_options-total fuel hlen next frame h
