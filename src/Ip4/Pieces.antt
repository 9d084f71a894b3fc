-- ===== src/Ip4/Pieces.antt =====
-- The two loops of `_defragment_ip4_packet` (pytcp/protocols/ip4/phrx.py) on pieces of one packet.
use py_tcp.Prelude.{
  ℕ, zero, suc, ◌+◌, ◌-◌, ◌≤◌, ◌<◌, ◌≡◌, refl, some, List, [], ◌∷◌, ◌++◌, length, take, drop,
  replicate, arith, ◌⊎◌, inl, inr, ◌∙◌, sym, ap, length-append, length-replicate, length-take,
}
use mathlib.Core.Path.{ap₂}
use mathlib.Core.List.{append_assoc}
use py_tcp.Dict.Laws.{Entries}
use py_tcp.Wire.{◌>>=◌}
use py_tcp.Ip4.Order.{Ascending, AnyEntry}
use py_tcp.Ip4.{covered, pack_into, fill}

abbrev pub zeros : ℕ → List ℕ
zeros n = replicate n 0

take_front : (xs ys : List ℕ) → take (length xs) (xs ++ ys) ≡ xs
take_front [] ys = refl
take_front (x ∷ xs) ys = ap (λ t. x ∷ t) (take_front xs ys)

drop_front : (n : ℕ) (xs ys : List ℕ) → drop (length xs + n) (xs ++ ys) ≡ drop n ys
drop_front n [] ys = let e : 0 + n ≡ n = omega arith in rw e refl
drop_front n (x ∷ xs) ys =
    let e : suc (length xs) + n ≡ suc (length xs + n) = omega arith in rw e (drop_front n xs ys)

drop-zeros : (n k : ℕ) → drop n (zeros k) ≡ zeros (k - n)
drop-zeros zero k = let e : k - 0 ≡ k = omega arith in rw e refl
drop-zeros (suc n) zero = let e : 0 - suc n ≡ 0 = omega arith in rw e refl
drop-zeros (suc n) (suc k) = let e : suc k - suc n ≡ k - n = omega arith in rw e (drop-zeros n k)

pack_behind :
    (xs d : List ℕ) (k : ℕ)
    → length d ≤ k
    → pack_into (xs ++ zeros k) (length xs) d ≡ some (xs ++ (d ++ zeros (k - length d)))
unfolding pack_into
pack_behind xs d k h =
    rw (take_front xs (zeros k), drop_front (length d) xs (zeros k), drop-zeros (length d) k)
      (ground (arith, length-append xs (zeros k), length-replicate {A = ℕ} k 0))

take_all : (xs : List ℕ) → take (length xs) xs ++ zeros 0 ≡ xs
take_all [] = refl
take_all (x ∷ xs) = ap (λ t. x ∷ t) (take_all xs)

pub all_of : (r : ℕ) (xs : List ℕ) → r ≡ length xs → take r xs ++ zeros (r - r) ≡ xs
all_of r xs e = let z : r - r ≡ 0 = omega arith in rw z (rw e (take_all xs))

pub no_shift : (r : ℕ) → zeros (r - 0) ≡ zeros r
no_shift r = let z : r - 0 ≡ r = omega arith in rw z refl

fill-nil : (buffer : List ℕ) → fill [] buffer ≡ some buffer
unfolding fill
fill-nil buffer = refl

covered-nil : (n r : ℕ) → covered n [] ≡ some r → n ≡ r
unfolding covered
covered-nil n r c = ground arith

fill_step :
    (o : ℕ) (d : List ℕ) (rest : List (ℕ × List ℕ)) (buffer filled : List ℕ)
    → pack_into buffer o d ≡ some filled
    → fill ((o, d) ∷ rest) buffer ≡ fill rest filled
unfolding fill
fill_step o d rest buffer filled e = ap (λ x. x >>= fill rest) e

covered_on :
    (n o : ℕ) (d : List ℕ) (rest : List (ℕ × List ℕ))
    → o ≤ n
    → covered n ((o, d) ∷ rest) ≡ covered (o + length d) rest
unfolding covered
covered_on n o d rest h = ground arith

beyond : (o p : ℕ) (d : List ℕ) → 0 < length d → o + length d ≤ p → o ≡ p → ⊥
beyond o p d l h e = omega (arith, e)

-- No offset is below the first one.
ahead_of :
    (n low : ℕ) (es : List (ℕ × List ℕ))
    → Ascending low es
    → n < low
    → AnyEntry (λ p d. p ≡ n) es
    → ⊥
ahead_of n low [] a h e = e
ahead_of n low ((o, d) ∷ rest) a h (inl e) = omega (arith, e, a.0)
ahead_of n low ((o, d) ∷ rest) a h (inr e) = ahead_of n (suc o) rest a.1 (omega (arith, a.0)) e

covered_step :
    (n o r : ℕ) (d : List ℕ) (rest : List (ℕ × List ℕ))
    → covered n ((o, d) ∷ rest) ≡ some r
    → (o ≤ n) × (covered (o + length d) rest ≡ some r)
unfolding covered
covered_step n o r d rest c = (ground arith, ground arith)

-- A piece of the bytes from `whole`, cut at multiples of something.
module _ (whole : List ℕ) (P : ℕ → List ℕ → Type 0)
    (inside : (o : ℕ) (d : List ℕ) → P o d → (0 < length d) × (o + length d ≤ length whole))
    (is_slice : (o : ℕ) (d : List ℕ) → P o d → take o whole ++ d ≡ take (o + length d) whole)
    (apart : (o p : ℕ) (d e : List ℕ) → P o d → P p e → o < p → o + length d ≤ p) where
  -- The offsets behind a piece are behind its end.
  behind :
      (o : ℕ) (d : List ℕ) (rest : List (ℕ × List ℕ))
      → P o d
      → Entries P rest
      → Ascending (suc o) rest
      → Ascending (o + length d) rest
  behind o d [] p ps a = tt
  behind o d ((q, e) ∷ rest) p ps a = (apart o q d e p ps.0 a.0, a.1)

  pack_piece :
      (o k : ℕ) (d : List ℕ)
      → P o d
      → o + length d ≤ k
      → pack_into (take o whole ++ zeros (k - o)) o d
        ≡ some (take (o + length d) whole ++ zeros (k - (o + length d)))
  pack_piece o k d p fits =
      let at : length (take o whole) ≡ o = omega (arith, length-take o whole, inside o d p) in
      let left : k - o - length d ≡ k - (o + length d) = omega arith in
      let packed : _ = pack_behind (take o whole) d (k - o) (omega arith) in
      ap (λ l. pack_into (take o whole ++ zeros (k - o)) l d) (sym at)
      ∙ (packed
          ∙ ap some (
              sym (append_assoc (take o whole) d (zeros (k - o - length d)))
              ∙ ap₂ ◌++◌ (is_slice o d p) (ap zeros left)))

  -- Pieces without a gap from `n` on are the whole from there on.
  pub covered-fill :
      (n r : ℕ) (es : List (ℕ × List ℕ))
      → Entries P es
      → Ascending n es
      → n ≤ length whole
      → covered n es ≡ some r
      → (n ≤ r)
        × (r ≤ length whole)
        × ((k : ℕ)
            → r ≤ k
            → fill es (take n whole ++ zeros (k - n)) ≡ some (take r whole ++ zeros (k - r)))
  covered-fill n r [] ps a low c =
      let same : n ≡ r = covered-nil n r c in rw same (omega arith, omega arith, λ k h. fill-nil _)
  covered-fill n r ((o, d) ∷ rest) ps a low c =
      let (no_gap, more) = covered_step n o r d rest c in
      let same : n ≡ o = omega (arith, a.0) in
      let ahead : Ascending (o + length d) rest = behind o d rest ps.0 ps.1 a.1 in
      let later : _ = covered-fill (o + length d) r rest ps.1 ahead (inside o d ps.0).1 more in
      (
        omega (arith, later.0, inside o d ps.0),
        later.1,
        λ k h.
            let packed : _ = pack_piece o k d ps.0 (omega (arith, later.0)) in
            rw same (fill_step o d rest _ _ packed ∙ later.2 k h),
      )

  -- The last piece is part of them, so they end with the whole.
  pub covered-end :
      (n r : ℕ) (es : List (ℕ × List ℕ))
      → Entries P es
      → Ascending n es
      → n ≤ length whole
      → AnyEntry (λ o d. P o d × (o + length d ≡ length whole)) es
      → covered n es ≡ some r
      → r ≡ length whole
  covered-end n r [] ps a low end c = absurd end
  covered-end n r ((o, d) ∷ rest) ps a low end c =
      let (no_gap, more) = covered_step n o r d rest c in
      let ahead : Ascending (o + length d) rest = behind o d rest ps.0 ps.1 a.1 in
      let bound : _ = covered-fill (o + length d) r rest ps.1 ahead (inside o d ps.0).1 more in
      elim end [
        | inl last ↦ omega (arith, bound.0, bound.1, last.1)
        | inr later ↦ covered-end (o + length d) r rest ps.1 ahead (inside o d ps.0).1 later more
      ]

  -- Where every piece is there that starts at the end of another one, there is no gap.
  pub covered_complete :
      (Starts : ℕ → Type 0)
      → ((o : ℕ) (d : List ℕ) → P o d → (o + length d ≡ length whole) ⊎ Starts (o + length d))
      → (n : ℕ) (es : List (ℕ × List ℕ)) → Entries P es
      → Ascending n es
      → (n ≡ length whole) ⊎ Starts n
      → ((o : ℕ) → n ≤ o → Starts o → AnyEntry (λ p d. p ≡ o) es)
      → (r : ℕ) × (covered n es ≡ some r)
  unfolding covered
  covered_complete Starts next n [] ps a start all = (n, refl)
  covered_complete Starts next n ((o, d) ∷ rest) ps a start all =
      let no_gap : o ≤ n = elim start [
        | inl e ↦ omega (arith, e, inside o d ps.0)
        | inr s ↦ elim (all n (omega arith) s) [
          | inl e ↦ omega (arith, e)
          | inr e ↦ absurd (ahead_of n (suc o) rest a.1 (omega (arith, a.0)) e)
        ]
      ] in
      let later : _ =
        covered_complete Starts next (o + length d) rest ps.1 (behind o d rest ps.0 ps.1 a.1)
          (next o d ps.0)
          λ p h s. elim (all p (omega (arith, h, a.0)) s) [
            | inl e ↦ absurd (beyond o p d (inside o d ps.0).0 h e)
            | inr e ↦ e
          ] in
      (later.0, covered_on n o d rest no_gap ∙ later.1)
