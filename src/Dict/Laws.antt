-- ===== src/Dict/Laws.antt =====
-- What dictionary operations do to lookups, sizes and the entries.
use py_tcp.Prelude.{
  ℕ, ◌≤◌, ◌<◌, ◌≡◌, refl, none, some, [], ◌∷◌, ◌==◌, ltb, if◌then◌else◌, length, All, arith,
  Bool-cases, ==_iff, inl, inr,
}
use mathlib.Core.Path.{subst₂}
use mathlib.Core.Option.{none-ne-some}
use py_tcp.Dict.{Dict, get?, insert, remove, purge}

module _ {ℓ} {V : Type ℓ} where
  pub get?-insert :
      (k j : ℕ) (v : V) (d : Dict V) → get? j (insert k v d) ≡ (if k == j then some v else get? j d)
  unfolding get? insert
  get?-insert k j v [] = refl
  get?-insert k j v ((i, w) ∷ d) = ground (arith, get?-insert k j v d)

  pub get?-remove :
      (k j : ℕ) (d : Dict V) → get? j (remove k d) ≡ (if k == j then none else get? j d)
  unfolding get? remove
  get?-remove k j [] = ground arith
  get?-remove k j ((i, w) ∷ d) = ground (arith, get?-remove k j d)

  pub get?-purge :
      (b j : ℕ) (d : Dict V) → get? j (purge b d) ≡ (if ltb j b then none else get? j d)
  unfolding get? purge
  get?-purge b j [] = ground arith
  get?-purge b j ((i, w) ∷ d) = ground (arith, get?-purge b j d)

  pub length-remove-le : (k : ℕ) (d : Dict V) → length (remove k d) ≤ length d
  unfolding remove
  length-remove-le k [] = omega arith
  length-remove-le k ((i, w) ∷ d) = ground (arith, length-remove-le k d)

  -- A key that is there makes the dictionary smaller when it is taken out.
  pub length-remove-lt :
      (k : ℕ) (d : Dict V) {v : V} → get? k d ≡ some v → length (remove k d) < length d
  unfolding get? remove
  length-remove-lt k [] h = ground arith
  length-remove-lt k ((i, w) ∷ d) {v} h =
      ground (arith, length-remove-le k d, length-remove-lt k d {v = v})

module _ {ℓ κ} {V : Type ℓ} (P : ℕ → V → Type κ) where
  -- A property of every entry.
  abbrev pub Entries : Dict V → Type κ
  Entries d = All (λ e. P e.0 e.1) d

  pub Entries-insert : (k : ℕ) (v : V) (d : Dict V) → P k v → Entries d → Entries (insert k v d)
  unfolding insert
  Entries-insert k v [] p h = (p, h)
  Entries-insert k v ((i, w) ∷ d) p h = elim (Bool-cases (i == k)) [
    | inl e ↦ rw e (rw ((==_iff i k).0 e) p, h.1)
    | inr e ↦ rw e (h.0, Entries-insert k v d p h.1)
  ]

  pub Entries-remove : (k : ℕ) (d : Dict V) → Entries d → Entries (remove k d)
  unfolding remove
  Entries-remove k [] h = h
  Entries-remove k ((i, w) ∷ d) h = elim (Bool-cases (i == k)) [
    | inl e ↦ rw e (Entries-remove k d h.1)
    | inr e ↦ rw e (h.0, Entries-remove k d h.1)
  ]

  pub Entries-get? : (k : ℕ) (d : Dict V) {v : V} → get? k d ≡ some v → Entries d → P k v
  unfolding get?
  Entries-get? k [] e h = absurd (none-ne-some _ e)
  Entries-get? k ((i, w) ∷ d) {v} e h = elim (Bool-cases (i == k)) [
    | inl m ↦ subst₂ P ((==_iff i k).0 m) (cc (rw (m, get?) at e)) h.0
    | inr m ↦ Entries-get? k d (rw (m, get?) at e) h.1
  ]
