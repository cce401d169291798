-- ===== src/Base/Split.antt =====
-- `str.split` for a separator of one character, and the search for a part of a text.
use mathlib.Core.Path.{◌≡◌, refl}
use mathlib.Core.Logic.{◌≢◌}
use mathlib.Core.Bool.{Bool, true, false, ◌&&◌, ◌||◌}
use mathlib.Core.List.{List, [], ◌∷◌, ◌++◌}
use Prim.Native.Nat.{ℕ}
use native.Mathlib.Omega.{arith}
use claudecodenodus.Base.Tests.{eqb, if◌then◌else◌}
use claudecodenodus.Base.Strings.{Text, ◌==◌}
use claudecodenodus.Base.Lists.{All}

-- `text.split(sep)` for one character: the first part and the others.
unfoldable pub split_on : ℕ → Text → Text × List Text
split_on sep [] = ([], [])
split_on sep (c ∷ t) =
    let (first, rest) = split_on sep t in
    if eqb c sep then ([], first ∷ rest) else (c ∷ first, rest)

-- `[p for p in parts if p]`
unfoldable pub nonempty : List Text → List Text
nonempty [] = []
nonempty ([] ∷ parts) = nonempty parts
nonempty ((c ∷ t) ∷ parts) = (c ∷ t) ∷ nonempty parts

pub nonempty-cons :
    (p : Text) (parts : List Text) → p ≢ [] → nonempty (p ∷ parts) ≡ p ∷ nonempty parts
unfolding nonempty
nonempty-cons [] parts h = absurd (h refl)
nonempty-cons (c ∷ t) parts h = refl

-- A text with no separator joins the first part of what follows it.
pub split_on-append :
    (sep : ℕ) (t u : Text)
    → All (λ c. eqb c sep ≡ false) t
    → split_on sep (t ++ u) ≡ (t ++ (split_on sep u).0, (split_on sep u).1)
unfolding split_on
split_on-append sep [] u h = refl
split_on-append sep (c ∷ t) u h = ground (arith, split_on-append sep t u h.1)

-- Whether a text begins with a part.
abbrev starts : Text → Text → Bool
starts [] text = true
starts (c ∷ p) [] = false
starts (c ∷ p) (d ∷ text) = (c ∷ []) == (d ∷ []) && starts p text

-- `part in text`
unfoldable pub is_infix : Text → Text → Bool
is_infix part [] = part == []
is_infix part (c ∷ text) = starts part (c ∷ text) || is_infix part text
