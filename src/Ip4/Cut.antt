-- ===== src/Ip4/Cut.antt =====
-- The pieces that `_phtx_ip4` (pytcp/protocols/ip4/phtx.py) cuts data into.
use py_tcp.Prelude.{
  ℕ, zero, suc, ◌+◌, ◌-◌, ◌*◌, ◌≤◌, ◌<◌, ◌≡◌, refl, List, [], ◌∷◌, ◌++◌, ltb, ap, sym, ◌∙◌, ◌⊎◌,
  inl, inr, arith, length, take, drop, min, length-take, length-drop, Bool-cases,
}
use native.Mathlib.Nat.{mul-le-mul_right, lt_of_mul-lt-mul_right}

-- The piece at an offset that is a multiple of `size`: the next `size` bytes, or those that are left.
pub record Piece (size : ℕ) (whole : List ℕ) (o : ℕ) (d : List ℕ) : Type 0 where
  pub index : ℕ
  pub at : o ≡ index * size
  pub below : o < length whole
  pub bytes : d ≡ take size (drop o whole)

take_taken : (n : ℕ) (xs : List ℕ) → take n xs ≡ take (length (take n xs)) xs
take_taken zero xs = refl
take_taken (suc n) [] = refl
take_taken (suc n) (x ∷ xs) = ap (λ t. x ∷ t) (take_taken n xs)

nothing : (n : ℕ) → take {A = ℕ} n [] ≡ []
nothing zero = refl
nothing (suc n) = refl

slice_behind :
    (o n : ℕ) (xs : List ℕ)
    → take o xs ++ take n (drop o xs) ≡ take (o + length (take n (drop o xs))) xs
slice_behind zero n xs =
    let e : 0 + length (take n xs) ≡ length (take n xs) = omega arith in rw e (take_taken n xs)
slice_behind (suc o) n [] = nothing n ∙ sym (nothing (suc o + length (take {A = ℕ} n [])))
slice_behind (suc o) n (x ∷ xs) =
    let e : suc o + length (take n (drop o xs)) ≡ suc (o + length (take n (drop o xs))) =
      omega arith in
    rw e (ap (λ t. x ∷ t) (slice_behind o n xs))

room_between : (i j s : ℕ) → i * s < j * s → i * s + s ≤ j * s
room_between i j s h = grind (arith, mul-le-mul_right s (lt_of_mul-lt-mul_right s h))

module _ (size : ℕ) (whole : List ℕ) (some_size : 0 < size) where
  pub Piece-length :
      (o : ℕ) (d : List ℕ) → Piece size whole o d → length d ≡ min size (length whole - o)
  Piece-length o d p =
      rw (p.bytes) (length-take size (drop o whole) ∙ ap (min size) (length-drop o whole))

  pub Piece-inside :
      (o : ℕ) (d : List ℕ) → Piece size whole o d → (0 < length d) × (o + length d ≤ length whole)
  Piece-inside o d p =
      (omega (arith, p.below, Piece-length o d p), omega (arith, p.below, Piece-length o d p))

  pub Piece-slice :
      (o : ℕ) (d : List ℕ) → Piece size whole o d → take o whole ++ d ≡ take (o + length d) whole
  Piece-slice o d p = rw (p.bytes) (slice_behind o size whole)

  pub Piece-apart :
      (o p : ℕ) (d e : List ℕ)
      → Piece size whole o d
      → Piece size whole p e
      → o < p
      → o + length d ≤ p
  Piece-apart o p d e a b h =
      let room : a.index * size + size ≤ b.index * size =
        room_between a.index b.index size (omega (arith, a.at, b.at)) in
      omega (arith, a.at, b.at, Piece-length o d a)

  -- The offsets at which pieces start.
  pub record Starts (o : ℕ) : Type 0 where
    pub index : ℕ
    pub at : o ≡ index * size
    pub below : o < length whole

  pub Piece-Starts :
      (o : ℕ) (d : List ℕ)
      → Piece size whole o d
      → (o + length d ≡ length whole) ⊎ Starts (o + length d)
  Piece-Starts o d p = elim (Bool-cases (ltb (o + size) (length whole))) [
    | inl t ↦ inr (record {
      index = suc p.index;
      at = grind (arith, ltb, Piece-length o d p);
      below = ground (arith, t, Piece-length o d p);
    })
    | inr f ↦ inl (ground (arith, f, p.below, Piece-length o d p))
  ]
