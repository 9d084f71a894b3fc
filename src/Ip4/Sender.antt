-- ===== src/Ip4/Sender.antt =====
-- The cutting of data in `_phtx_ip4` (pytcp/protocols/ip4/phtx.py), seen from the receiver's side.
use py_tcp.Prelude.{
  ℕ, zero, suc, ◌+◌, ◌-◌, ◌*◌, ◌≤◌, ◌<◌, ◌≡◌, refl, List, [], ◌∷◌, ◌++◌, Bool, false, ap, sym, ◌∙◌,
  inl, inr, arith, length, take, drop, All, min, length-take, length-drop, drop-drop,
  take-append-drop, Bool-cases, ◌↔◌, ◌⊎◌, leb,
}
use mathlib.Core.Path.{subst}
use py_tcp.Ip4.{cut}
use py_tcp.Ip4.Cut.{Piece}

drop_past : (n : ℕ) (xs : List ℕ) → length xs ≤ n → drop n xs ≡ []
drop_past zero [] h = refl
drop_past zero (x ∷ xs) h = elim h [ ]
drop_past (suc n) [] h = refl
drop_past (suc n) (x ∷ xs) h = drop_past n xs (omega arith)

-- A piece of the packet, with MF clear exactly at the end.
abbrev pub IsCut : ℕ → List ℕ → ℕ × (List ℕ × Bool) → Type 0
IsCut size whole e =
    Piece size whole e.0 e.1.0 × ((e.1.1 ≡ false) ↔ (e.0 + length e.1.0 ≡ length whole))

module _ (size : ℕ) (whole : List ℕ) (some_size : 0 < size) where
  -- The cut goes on at the next multiple, or there is nothing left.
  next_cut :
      (i : ℕ) (bytes : List ℕ)
      → bytes ≡ drop (i * size) whole
      → (drop size bytes ≡ drop (suc i * size) whole)
        × ((drop size bytes ≡ []) ⊎ (i * size + length (take size bytes) ≡ suc i * size))
  next_cut i bytes e =
      let next : i * size + size ≡ suc i * size = grind arith in
      let taken : length (take size bytes) ≡ min size (length bytes) = length-take size bytes in
      (
        ap (drop size) e ∙ (drop-drop (i * size) size whole ∙ ap (λ n. drop n whole) next),
        elim (Bool-cases (leb (length bytes) size)) [
          | inl t ↦ inl (drop_past size bytes (ground (arith, t)))
          | inr f ↦ inr (ground (arith, f, taken, next))
        ],
      )

  cut_from :
      (fuel i : ℕ) (bytes : List ℕ)
      → bytes ≡ drop (i * size) whole
      → All (IsCut size whole) (cut fuel size (i * size) bytes)
  unfolding cut
  cut_from zero i [] e = tt
  cut_from zero i (b ∷ bytes) e = tt
  cut_from (suc fuel) i [] e = tt
  cut_from (suc fuel) i (b ∷ bytes) e =
      let all = b ∷ bytes in
      let (continues, next) = next_cut i all e in
      let left : length all ≡ length whole - i * size =
        ap length e ∙ length-drop (i * size) whole in
      let taken : length (take size all) ≡ min size (length all) = length-take size all in
      (
        (
          record { index = i; at = refl; below = omega (arith, left); bytes = ap (take size) e },
          ((λ last. ground (arith, last, left, taken)), (λ at_end. ground (arith, left, taken))),
        ),
        elim next [
          | inl none_left ↦ rw none_left tt
          | inr at ↦
              subst (λ o. All (IsCut size whole) (cut fuel size o (drop size all))) (sym at)
                (cut_from fuel (suc i) (drop size all) continues)
        ],
      )

-- The bytes of fragments, one after the other.
pub bytes_of : List (ℕ × (List ℕ × Bool)) → List ℕ
bytes_of [] = []
bytes_of (e ∷ rest) = e.1.0 ++ bytes_of rest

-- With the fuel of `cut`, no byte is left out.
cut-bytes :
    (fuel size o : ℕ) (bytes : List ℕ)
    → 0 < size
    → length bytes ≤ fuel
    → bytes_of (cut fuel size o bytes) ≡ bytes
unfolding cut bytes_of
cut-bytes zero size o [] z h = refl
cut-bytes (suc fuel) size o [] z h = refl
cut-bytes zero size o (b ∷ bytes) z h = elim h [ ]
cut-bytes (suc fuel) size o (b ∷ bytes) z h =
    let all = b ∷ bytes in
    let shorter : length (drop size all) ≤ fuel = omega (arith, length-drop size all) in
    rw (cut-bytes fuel size (o + length (take size all)) (drop size all) z shorter)
      (take-append-drop size all)

-- Data is cut into fragments that are its pieces at the multiples of a positive size, with MF clear
-- in the last one and only there; together they are the data.
pub cut-IsCut :
    (size : ℕ) (whole : List ℕ)
    → 0 < size
    → All (IsCut size whole) (cut (length whole) size 0 whole)
      × (bytes_of (cut (length whole) size 0 whole) ≡ whole)
cut-IsCut size whole z =
    let none : 0 * size ≡ 0 = omega arith in
    (
      rw none at (cut_from size whole z (length whole) 0 whole (rw none refl)),
      cut-bytes (length whole) size 0 whole z (omega arith),
    )
