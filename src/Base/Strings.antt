-- ===== src/Base/Strings.antt =====
-- Texts as lists of code points, their literals and their equality test.
use Prim.Native.Nat.{ℕ}
use Prim.Native.Char.{code}
use Prim.Native.String.{String}
use mathlib.Core.Path.{◌≡◌, refl}
use mathlib.Core.Logic.{◌≢◌, ◌↔◌}
use mathlib.Core.Bool.{Bool, true, false, ◌&&◌}
use mathlib.Core.List.{List, [], ◌∷◌}
use native.Mathlib.Omega.{arith}
use claudecodenodus.Base.Tests.{eqb}

abbrev pub Text : Type 0
Text = List ℕ

-- A literal. It is shut, so that a proof sees a name and not its code points.
unfoldable pub lit : String → Text
lit String.[] = []
lit (String.◌∷◌ c s) = code c ∷ lit s

infix 50 ◌==◌
unfoldable pub ◌==◌ : Text → Text → Bool
◌==◌ [] [] = true
◌==◌ [] (y ∷ ys) = false
◌==◌ (x ∷ xs) [] = false
◌==◌ (x ∷ xs) (y ∷ ys) = eqb x y && xs == ys

pub ==_iff : (a b : Text) → ((a == b) ≡ true) ↔ (a ≡ b)
unfolding ◌==◌
==_iff [] [] = ground arith
==_iff [] (y ∷ ys) = ground arith
==_iff (x ∷ xs) [] = ground arith
==_iff (x ∷ xs) (y ∷ ys) = ground (arith, ==_iff xs ys)

pub ==-refl : (a : Text) → (a == a) ≡ true
==-refl a = (==_iff a a).1 refl

pub eq-of-== : (a b : Text) → (a == b) ≡ true → a ≡ b
eq-of-== a b h = (==_iff a b).0 h

pub ne-of-== : (a b : Text) → (a == b) ≡ false → a ≢ b
ne-of-== a b h e = ground (arith, ==_iff a b)

pub ==-comm : (a b : Text) → (a == b) ≡ (b == a)
==-comm a b = ground (arith, ==_iff a b, ==_iff b a)

-- Literals are told apart by computing the test.
pub lit-ne : (a b : String) → (lit a == lit b) ≡ false → lit a ≢ lit b
lit-ne a b h = ne-of-== (lit a) (lit b) h
