-- ===== src/Ip4/Order.antt =====
-- The order in which `_defragment_ip4_packet` (pytcp/protocols/ip4/phrx.py) takes the pieces.
use py_tcp.Prelude.{
  ℕ, suc, ◌≤◌, ◌≡◌, List, [], ◌∷◌, false, Bool-cases, ==_iff, ◌==◌, leb, ◌⊎◌, inl, inr, arith,
}
use py_tcp.Dict.{Dict, insert}
use py_tcp.Dict.Laws.{Entries, Entries-insert}
use py_tcp.Ip4.{insert_sorted, sorted}

-- Every offset is at least `low`, and they grow.
abbrev pub Ascending : ℕ → Dict (List ℕ) → Type 0
Ascending low [] = Unit
Ascending low ((o, d) ∷ rest) = (low ≤ o) × Ascending (suc o) rest

abbrev pub Distinct : Dict (List ℕ) → Type 0
Distinct [] = Unit
Distinct ((o, d) ∷ rest) = Entries (λ p e. (o == p) ≡ false) rest × Distinct rest

abbrev pub AnyEntry : (ℕ → List ℕ → Type 0) → Dict (List ℕ) → Type 0
AnyEntry Q [] = ⊥
AnyEntry Q ((o, d) ∷ rest) = Q o d ⊎ AnyEntry Q rest

module _ (P : ℕ → List ℕ → Type 0) where
  insert_sorted-Entries :
      (e : ℕ × List ℕ) (es : Dict (List ℕ))
      → P e.0 e.1
      → Entries P es
      → Entries P (insert_sorted e es)
  unfolding insert_sorted
  insert_sorted-Entries e [] p ps = (p, ps)
  insert_sorted-Entries e ((o, d) ∷ rest) p ps = elim (Bool-cases (leb e.0 o)) [
    | inl t ↦ rw t (p, ps)
    | inr f ↦ rw f (ps.0, insert_sorted-Entries e rest p ps.1)
  ]

  pub sorted-Entries : (es : Dict (List ℕ)) → Entries P es → Entries P (sorted es)
  unfolding sorted
  sorted-Entries [] ps = tt
  sorted-Entries (e ∷ rest) ps =
      insert_sorted-Entries e (sorted rest) ps.0 (sorted-Entries rest ps.1)

  insert_sorted-AnyEntry :
      (e : ℕ × List ℕ) (es : Dict (List ℕ))
      → P e.0 e.1 ⊎ AnyEntry P es
      → AnyEntry P (insert_sorted e es)
  unfolding insert_sorted
  insert_sorted-AnyEntry e [] h = h
  insert_sorted-AnyEntry e ((o, d) ∷ rest) h = elim (Bool-cases (leb e.0 o)) [
    | inl t ↦ rw t h
    | inr f ↦ rw f (elim h [
      | inl p ↦ inr (insert_sorted-AnyEntry e rest (inl p))
      | inr (inl q) ↦ inl q
      | inr (inr q) ↦ inr (insert_sorted-AnyEntry e rest (inr q))
    ])
  ]

  pub sorted-AnyEntry : (es : Dict (List ℕ)) → AnyEntry P es → AnyEntry P (sorted es)
  unfolding sorted
  sorted-AnyEntry [] h = h
  sorted-AnyEntry (e ∷ rest) (inl p) = insert_sorted-AnyEntry e (sorted rest) (inl p)
  sorted-AnyEntry (e ∷ rest) (inr q) =
      insert_sorted-AnyEntry e (sorted rest) (inr (sorted-AnyEntry rest q))

  pub insert-AnyEntry :
      (k : ℕ) (v : List ℕ) (d : Dict (List ℕ))
      → ((w : List ℕ) → P k w → P k v)
      → P k v ⊎ AnyEntry P d
      → AnyEntry P (insert k v d)
  unfolding insert
  insert-AnyEntry k v [] keep h = h
  insert-AnyEntry k v ((i, w) ∷ d) keep h = elim (Bool-cases (i == k)) [
    | inl e ↦
        let same : i ≡ k = (==_iff i k).0 e in
        rw e (elim h [
          | inl p ↦ inl (rw same p)
          | inr (inl q) ↦ inl (rw same (keep w (rw same at q)))
          | inr (inr q) ↦ inr q
        ])
    | inr e ↦ rw e (elim h [
      | inl p ↦ inr (insert-AnyEntry k v d keep (inl p))
      | inr (inl q) ↦ inl q
      | inr (inr q) ↦ inr (insert-AnyEntry k v d keep (inr q))
    ])
  ]

pub insert-Distinct :
    (k : ℕ) (v : List ℕ) (d : Dict (List ℕ)) → Distinct d → Distinct (insert k v d)
unfolding insert
insert-Distinct k v [] h = (tt, tt)
insert-Distinct k v ((i, w) ∷ d) h = elim (Bool-cases (i == k)) [
  | inl e ↦ rw e h
  | inr e ↦ rw e (Entries-insert (λ p x. (i == p) ≡ false) k v d e h.0, insert-Distinct k v d h.1)
]

insert_sorted-Ascending :
    (low : ℕ) (e : ℕ × List ℕ) (es : Dict (List ℕ))
    → low ≤ e.0
    → Entries (λ p d. (e.0 == p) ≡ false) es
    → Ascending low es
    → Ascending low (insert_sorted e es)
unfolding insert_sorted
insert_sorted-Ascending low e [] h ne a = (h, tt)
insert_sorted-Ascending low e ((o, d) ∷ rest) h ne a = elim (Bool-cases (leb e.0 o)) [
  | inl t ↦ rw t (h, (ground (arith, ne.0, t), a.1))
  | inr f ↦ rw f (a.0, insert_sorted-Ascending (suc o) e rest (ground (arith, f)) ne.1 a.1)
]

pub sorted-Ascending : (es : Dict (List ℕ)) → Distinct es → Ascending 0 (sorted es)
unfolding sorted
sorted-Ascending [] h = tt
sorted-Ascending (e ∷ rest) h =
    insert_sorted-Ascending 0 e (sorted rest) (omega arith)
      (sorted-Entries (λ p d. (e.0 == p) ≡ false) rest h.0) (sorted-Ascending rest h.1)
