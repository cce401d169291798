-- ===== src/Exec/Blocks.antt =====
-- Statements of a script as shut operations, so that proofs about blocks of them go by rules: what a
-- block keeps, statement by statement.
use mathlib.Core.Path.{subst}
use claudecodenodus.Base.{◌≡◌, refl, ap, inl, inr, Bool, true, false, if◌then◌else◌}
use claudecodenodus.Exec.{Fault, Result, ok, err, Result-cases, err-ne-ok, ok_injective}
use claudecodenodus.Exec

abbrev pub Block : Type 0 → Type 0 → Type 0
Block S A = S → Result Fault A × S

module _ {S A : Type 0} where
  pub pure : A → Block S A
  pure a s = (ok a, s)

  pub throw : Fault → Block S A
  throw f s = (err f, s)

  pub lift : Result Fault A → Block S A
  lift r s = (r, s)

  pub gets : (S → A) → Block S A
  gets f s = (ok (f s), s)

  -- `m` keeps `Q`, whether it returns or throws.
  pub record Keeps (Q : S → Type 0) (m : Block S A) : Type 0 where
    pub after : (s : S) → Q s → Q (m s).1

module _ {S : Type 0} where
  pub modify : (S → S) → Block S (Unit {0})
  modify f s = (ok tt, f s)

module _ {S A C : Type 0} where
  infixl 10 ◌>>=◌ ◌>>◌
  unfoldable pub ◌>>=◌ : Block S A → (A → Block S C) → Block S C
  unfolding pure throw lift gets modify
  ◌>>=◌ m k s = let (r, s') = m s in Exec.continue r k s'

  abbrev pub ◌>>◌ : Block S A → Block S C → Block S C
  m >> n = m >>= λ _. n

module _ {S A : Type 0} {Q : S → Type 0} where
  pub Keeps-pure : (a : A) → Keeps Q (pure a)
  unfolding pure
  Keeps-pure a = record { after = λ s q. q }

  pub Keeps-throw : (f : Fault) → Keeps Q (throw {A = A} f)
  unfolding throw
  Keeps-throw f = record { after = λ s q. q }

  pub Keeps-lift : (r : Result Fault A) → Keeps Q (lift r)
  unfolding lift
  Keeps-lift r = record { after = λ s q. q }

  pub Keeps-gets : (f : S → A) → Keeps Q (gets f)
  unfolding gets
  Keeps-gets f = record { after = λ s q. q }

  pub Keeps-if : (b : Bool) (m n : Block S A) → Keeps Q m → Keeps Q n → Keeps Q (if b then m else n)
  Keeps-if true m n km kn = km
  Keeps-if false m n km kn = kn

module _ {S A : Type 0} where
  pub gets-ok : (f : S → A) (b : A) (s s' : S) → gets f s ≡ (ok b, s') → (f s ≡ b) × (s ≡ s')
  unfolding gets
  gets-ok f b s s' h = (ok_injective (f s) b (ap (λ r. r.0) h), ap (λ r. r.1) h)

  pub pure-ok : (a b : A) (s s' : S) → pure a s ≡ (ok b, s') → (a ≡ b) × (s ≡ s')
  unfolding pure
  pure-ok a b s s' h = (ok_injective a b (ap (λ r. r.0) h), ap (λ r. r.1) h)

module _ {S : Type 0} where
  pub modify-ok : (f : S → S) (u : Unit {0}) (s s' : S) → modify f s ≡ (ok u, s') → f s ≡ s'
  unfolding modify
  modify-ok f u s s' h = ap (λ r. r.1) h

module _ {S : Type 0} {Q : S → Type 0} where
  pub Keeps-modify : (f : S → S) → ((s : S) → Q s → Q (f s)) → Keeps Q (modify f)
  unfolding modify
  Keeps-modify f h = record { after = h }

module _ {S A C : Type 0} {Q : S → Type 0} where
  Keeps-continue :
      (r : Result Fault A) (k : A → Block S C) (s : S)
      → ((a : A) → Keeps Q (k a))
      → Q s
      → Q (Exec.continue r k s).1
  Keeps-continue (ok a) k s rest q = (rest a).after s q
  Keeps-continue (err f) k s rest q = q

  pub Keeps-bind :
      (m : Block S A) (k : A → Block S C)
      → Keeps Q m
      → ((a : A) → Keeps Q (k a))
      → Keeps Q (m >>= k)
  unfolding ◌>>=◌
  Keeps-bind m k first rest = record {
    after = λ s q. let (r, s') = m s in Keeps-continue r k s' rest (first.after s q);
  }

  -- What follows may use that `r` did not throw.
  pub Keeps-bind-lift :
      (r : Result Fault A) (k : A → Block S C)
      → ((a : A) → r ≡ ok a → Keeps Q (k a))
      → Keeps Q (lift r >>= k)
  unfolding ◌>>=◌
  Keeps-bind-lift (ok a) k rest = record { after = (rest a refl).after }
  Keeps-bind-lift (err f) k rest = record { after = λ s q. q }

  -- What is read from a state that satisfies `Q`.
  pub Keeps-bind-gets :
      (f : S → A) (k : A → Block S C) → ((s : S) → Q s → Keeps Q (k (f s))) → Keeps Q (gets f >>= k)
  unfolding ◌>>=◌
  Keeps-bind-gets f k rest = record { after = λ s q. (rest s q).after s q }

module _ {S A C : Type 0} where
  -- A block that returns: its parts did.
  pub bind-ok :
      (m : Block S A) (k : A → Block S C) (s s' : S) (c : C)
      → (m >>= k) s ≡ (ok c, s')
      → (a : A) × (s1 : S) × (m s ≡ (ok a, s1)) × (k a s1 ≡ (ok c, s'))
  unfolding ◌>>=◌
  bind-ok m k s s' c h = elim (Result-cases (m s).0) [
    | inl (a, e) ↦ (a, (m s).1, ap (λ r. (r, (m s).1)) e, rw e at h)
    | inr (f, e) ↦ absurd (err-ne-ok f c (ap (λ r. r.0) (rw e at h)))
  ]

-- What an action returns satisfies `P`.
pub record Gives {S A : Type 0} (P : A → Type 0) (m : Block S A) : Type 0 where
  pub returned : (s s' : S) (a : A) → m s ≡ (ok a, s') → P a

module _ {S A : Type 0} {P : A → Type 0} where
  pub Gives-pure : (a : A) → P a → Gives P (pure {S = S} a)
  Gives-pure a p = record { returned = λ s s' b h. subst P (pure-ok a b s s' h).0 p }

module _ {S A C : Type 0} {P : C → Type 0} where
  pub Gives-bind :
      (R : A → Type 0) (m : Block S A) (k : A → Block S C)
      → Gives R m
      → ((a : A) → R a → Gives P (k a))
      → Gives P (m >>= k)
  Gives-bind R m k first rest = record {
    returned = λ s s' c h.
        let (a, s1, e, e') = bind-ok m k s s' c h in
        (rest a (first.returned s s1 a e)).returned s1 s' c e';
  }

  -- What follows holds whatever `m` returns.
  pub Gives-bind-any :
      (m : Block S A) (k : A → Block S C) → ((a : A) → Gives P (k a)) → Gives P (m >>= k)
  Gives-bind-any m k rest = record {
    returned =
        λ s s' c h. let (a, s1, e, e') = bind-ok m k s s' c h in (rest a).returned s1 s' c e';
  }

-- What an action returns, with the state that it leaves, satisfies `R`.
pub record Ends {S A : Type 0} (R : A → S → Type 0) (m : Block S A) : Type 0 where
  pub ended : (s s' : S) (a : A) → m s ≡ (ok a, s') → R a s'

module _ {S A C : Type 0} {R : C → S → Type 0} where
  -- Only the rest of a block matters for how it ends.
  pub Ends-bind : (m : Block S A) (k : A → Block S C) → ((a : A) → Ends R (k a)) → Ends R (m >>= k)
  Ends-bind m k rest = record {
    ended = λ s s' c h. let (a, s1, e, e') = bind-ok m k s s' c h in (rest a).ended s1 s' c e';
  }

pub ruleset keeping = (Keeps-pure, Keeps-throw, Keeps-lift, Keeps-gets, Keeps-if, Keeps-bind)
