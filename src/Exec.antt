-- ===== src/Exec.antt =====
-- Exceptions as values, and methods that mutate an object and may raise. What was written before
-- an exception stays written, so the state comes back beside the error too.
pub mod Blocks
use claudecodenodus.Base.{Text, lit, ◌++◌, ◌≡◌, refl, ◌⊎◌, inl, inr}

-- A Python exception that the program lets through: its class name and its text.
pub record Fault : Type 0 where
  pub kind : Text
  pub message : Text

pub data Result {ℓ κ} (E : Type ℓ) (A : Type κ) : Type (ℓ ⊔ κ) where
  ok : A → Result E A
  err : E → Result E A

module _ {ℓ κ μ} {E : Type ℓ} {A : Type κ} {B : Type μ} where
  abbrev pub bind : Result E A → (A → Result E B) → Result E B
  bind (ok a) f = f a
  bind (err e) f = err e

-- To split on a computed result and keep the equation.
pub Result-cases {ℓ κ} :
    {E : Type ℓ} {A : Type κ} (r : Result E A) → ((a : A) × (r ≡ ok a)) ⊎ ((e : E) × (r ≡ err e))
Result-cases (ok a) = inl (a, refl)
Result-cases (err e) = inr (e, refl)

-- An action on a state `S` with exceptions in `E`.
abbrev pub Exec : Type 0 → Type 0 → Type 0 → Type 0
Exec S E A = S → Result E A × S

module _ {S E A : Type 0} where
  abbrev pub pure : A → Exec S E A
  pure a s = (ok a, s)

  abbrev pub raise : E → Exec S E A
  raise e s = (err e, s)

  abbrev pub lift : Result E A → Exec S E A
  lift r s = (r, s)

  abbrev pub gets : (S → A) → Exec S E A
  gets f s = (ok (f s), s)

module _ {S E : Type 0} where
  abbrev pub modify : (S → S) → Exec S E (Unit {0})
  modify f s = (ok tt, f s)

module _ {S E A B : Type 0} where
  abbrev pub continue : Result E A → (A → Exec S E B) → S → Result E B × S
  continue (ok a) f s = f a s
  continue (err e) f s = (err e, s)

  infixl 10 ◌>>=◌ ◌>>◌
  abbrev pub ◌>>=◌ : Exec S E A → (A → Exec S E B) → Exec S E B
  ◌>>=◌ m f s = let (r, s') = m s in continue r f s'

  abbrev pub ◌>>◌ : Exec S E A → Exec S E B → Exec S E B
  m >> n = m >>= λ _. n

  abbrev settle : (A → Exec S E B) → (E → Exec S E B) → Result E A → Exec S E B
  settle done failed (ok a) = done a
  settle done failed (err e) = failed e

  -- `except Exception`: the handler sees the state that the call left.
  unfoldable pub attempt : Exec S E A → (A → Exec S E B) → (E → Exec S E B) → Exec S E B
  attempt call done failed s = let (r, s') = call s in settle done failed r s'

-- `f"{type(exc).__name__}: {exc}"`
unfoldable pub describe : Fault → Text
describe f = f.kind ++ (lit ": " ++ f.message)

pub err-ne-ok : {E A : Type 0} (e : E) (a : A) → ¬ (◌≡◌ {A = Result E A} (err e) (ok a))
err-ne-ok e a h = cc

pub ok_injective : {E A : Type 0} (a b : A) → ◌≡◌ {A = Result E A} (ok a) (ok b) → a ≡ b
ok_injective a b h = cc

-- A sequence that returns a value: both of its parts did.
pub bind-ok :
    {S E A B : Type 0} (m : Exec S E A) (k : A → Exec S E B) (s : S) (b : B)
    → ((m >>= k) s).0 ≡ ok b
    → (a : A) × ((m s).0 ≡ ok a) × ((k a (m s).1).0 ≡ ok b)
bind-ok m k s b h = elim (Result-cases (m s).0) [
  | inl (a, e) ↦ (a, e, rw e at h)
  | inr (f, e) ↦ absurd (err-ne-ok f b (rw e at h))
]
