-- ===== src/Dict.antt =====
-- Python dictionaries with integer keys, as association lists in insertion order.
pub mod Laws
use py_tcp.Prelude.{ℕ, ◌+◌, Option, none, some, List, [], ◌∷◌, Bool, ◌==◌, leb, ltb, if◌then◌else◌}

abbrev pub Dict {ℓ} : Type ℓ → Type ℓ
Dict V = List (ℕ × V)

module _ {ℓ} {V : Type ℓ} where
  -- `d.get(k)`
  unfoldable pub get? : ℕ → Dict V → Option V
  get? k [] = none
  get? k ((j, v) ∷ d) = if j == k then some v else get? k d

  -- `d[k] = v`
  unfoldable pub insert : ℕ → V → Dict V → Dict V
  insert k v [] = (k, v) ∷ []
  insert k v ((j, w) ∷ d) = if j == k then (j, v) ∷ d else (j, w) ∷ insert k v d

  -- The dictionary after `d.pop(k, None)`; keys are distinct, but every entry of the key goes.
  unfoldable pub remove : ℕ → Dict V → Dict V
  remove k [] = []
  remove k ((j, w) ∷ d) = if j == k then remove k d else (j, w) ∷ remove k d

  -- `for k in list(d): if k < bound: d.pop(k)`
  unfoldable pub purge : ℕ → Dict V → Dict V
  purge bound [] = []
  purge bound ((j, w) ∷ d) = if ltb j bound then purge bound d else (j, w) ∷ purge bound d
