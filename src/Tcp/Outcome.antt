-- ===== src/Tcp/Outcome.antt =====
-- A method that changes the session and may raise: what was written before a raise stays written.
use py_tcp.Prelude.{Bool, true, false, Option, none, some, if◌then◌else◌, ◌≡◌, refl}
use py_tcp.Tcp.State.{Session}

pub data PyError : Type 0 where
  assertion_error key_error attribute_error : PyError
  -- Not an exception of the source: the depth given to `tcp_fsm_at` was not enough.
  out_of_depth : PyError

pub data Outcome : Type 0 where
  done : Session → Outcome
  raised : PyError → Session → Outcome

infixl 5 ◌>>=◌
abbrev pub ◌>>=◌ : Outcome → (Session → Outcome) → Outcome
done s >>= f = f s
raised e s >>= f = raised e s

-- The two ways on from a lookup.
abbrev pub on_lookup {ℓ} : {A : Type ℓ} → Option A → Outcome → (A → Outcome) → Outcome
on_lookup none missing found = missing
on_lookup (some a) missing found = found a

-- `P` of the session that a call leaves, whether it returned or raised.
pub data Ensures {ℓ} (P : Session → Type ℓ) : Outcome → Type ℓ where
  on_done : (s : Session) → P s → Ensures P (done s)
  on_raised : (e : PyError) (s : Session) → P s → Ensures P (raised e s)

module _ {ℓ} {P : Session → Type ℓ} where
  pub Ensures-if :
      (b : Bool) (m n : Outcome)
      → (b ≡ true → Ensures P m)
      → (b ≡ false → Ensures P n)
      → Ensures P (if b then m else n)
  Ensures-if true m n h k = h refl
  Ensures-if false m n h k = k refl

  pub Ensures-lookup {κ} :
      {A : Type κ} (o : Option A) (m : Outcome) (f : A → Outcome)
      → (o ≡ none → Ensures P m)
      → ((a : A) → o ≡ some a → Ensures P (f a))
      → Ensures P (on_lookup o m f)
  Ensures-lookup none m f h k = h refl
  Ensures-lookup (some a) m f h k = k a refl

module _ {ℓ κ} {P : Session → Type ℓ} {Q : Session → Type κ} where
  -- The rest of the method is run from a session that satisfies `P`.
  pub Ensures-bind :
      (m : Outcome) (f : Session → Outcome)
      → Ensures P m
      → ((s : Session) → P s → Q s)
      → ((s : Session) → P s → Ensures Q (f s))
      → Ensures Q (m >>= f)
  Ensures-bind (done _) f (on_done s p) weaken h = h s p
  Ensures-bind (raised _ _) f (on_raised e s p) weaken h = on_raised e s (weaken s p)

  pub Ensures-map : (m : Outcome) → ((s : Session) → P s → Q s) → Ensures P m → Ensures Q m
  Ensures-map (done _) f (on_done s p) = on_done s (f s p)
  Ensures-map (raised _ _) f (on_raised e s p) = on_raised e s (f s p)
