-- ===== src/Base/Collections.antt =====
-- Membership, duplicates and filters on lists of texts, as Boolean tests.
use mathlib.Core.Path.{◌≡◌, refl, sym, ◌∙◌}
use mathlib.Core.Bool.{Bool, true, false, not, ◌&&◌, ◌||◌}
use mathlib.Core.List.{List, [], ◌∷◌, ◌++◌}
use Prim.Native.Nat.{suc, ◌≤◌, ◌<◌}
use native.Mathlib.Omega.{arith}
use claudecodenodus.Base.Tests.{if◌then◌else◌}
use claudecodenodus.Base.Strings.{Text, ◌==◌, ==_iff}
use claudecodenodus.Base.Lists.{length}

-- `t in ts`
unfoldable pub contains : Text → List Text → Bool
contains t [] = false
contains t (u ∷ us) = t == u || contains t us

module _ {ℓ} {A : Type ℓ} where
  -- `[x for x in xs if p(x)]`
  unfoldable pub keep : (A → Bool) → List A → List A
  keep p [] = []
  keep p (x ∷ xs) = let rest = keep p xs in if p x then x ∷ rest else rest

  pub length-keep-le : (p : A → Bool) (xs : List A) → length (keep p xs) ≤ length xs
  unfolding keep
  length-keep-le p [] = omega arith
  length-keep-le p (x ∷ xs) = ground (arith, length-keep-le p xs)

-- No text occurs twice.
unfoldable pub distinct : List Text → Bool
unfolding contains
distinct [] = true
distinct (t ∷ ts) = not (contains t ts) && distinct ts

-- `SELECT DISTINCT`
unfoldable pub dedup : List Text → List Text
unfolding contains
dedup [] = []
dedup (t ∷ ts) = let rest = dedup ts in if contains t ts then rest else t ∷ rest

pub contains-append :
    (t : Text) (us vs : List Text) → contains t (us ++ vs) ≡ (contains t us || contains t vs)
unfolding contains
contains-append t [] vs = refl
contains-append t (u ∷ us) vs = ground (arith, contains-append t us vs)

pub contains-keep :
    (t : Text) (p : Text → Bool) (us : List Text) → contains t (keep p us) ≡ (p t && contains t us)
unfolding contains keep
contains-keep t p [] = ground arith
contains-keep t p (u ∷ us) = ground (arith, ==_iff t u, contains-keep t p us)

pub contains-dedup : (t : Text) (us : List Text) → contains t (dedup us) ≡ contains t us
unfolding contains dedup
contains-dedup t [] = refl
contains-dedup t (u ∷ us) = ground (arith, ==_iff t u, contains-dedup t us)

pub dedup-distinct : (us : List Text) → distinct (dedup us) ≡ true
unfolding distinct dedup
dedup-distinct [] = refl
dedup-distinct (u ∷ us) = ground (arith, dedup-distinct us, contains-dedup u us)

pub keep-distinct :
    (p : Text → Bool) (us : List Text) → distinct us ≡ true → distinct (keep p us) ≡ true
unfolding distinct keep
keep-distinct p [] h = refl
keep-distinct p (u ∷ us) h = ground (arith, keep-distinct p us, contains-keep u p us)

pub dedup_of_distinct : (us : List Text) → distinct us ≡ true → dedup us ≡ us
unfolding distinct dedup
dedup_of_distinct [] h = refl
dedup_of_distinct (u ∷ us) h = ground (arith, dedup_of_distinct us)

pub length-dedup-le : (us : List Text) → length (dedup us) ≤ length us
unfolding dedup
length-dedup-le [] = omega arith
length-dedup-le (u ∷ us) = ground (arith, length-dedup-le us)

pub length-dedup-lt : (us : List Text) → distinct us ≡ false → length (dedup us) < length us
unfolding dedup distinct
length-dedup-lt [] h = ground arith
length-dedup-lt (u ∷ us) h = ground (arith, length-dedup-lt us, length-dedup-le us)

-- Without one text, which a list of distinct texts has once.
remove : Text → List Text → List Text
remove t us = keep (λ u. not (u == t)) us

remove_absent : (t : Text) (us : List Text) → contains t us ≡ false → remove t us ≡ us
unfolding remove keep contains
remove_absent t [] h = refl
remove_absent t (u ∷ us) h = ground (arith, ==_iff t u, ==_iff u t, remove_absent t us)

contains-remove :
    (t u : Text) (us : List Text) → contains u (remove t us) ≡ (not (u == t) && contains u us)
unfolding remove
contains-remove t u us = contains-keep u _ us

length-remove :
    (t : Text) (us : List Text)
    → distinct us ≡ true
    → contains t us ≡ true
    → length us ≡ suc (length (remove t us))
unfolding distinct remove keep contains
length-remove t [] d h = ground arith
length-remove t (u ∷ us) d h =
    ground (arith, ==_iff t u, ==_iff u t, length-remove t us, remove_absent t us)

-- Distinct texts that all stand in another list are no more than it has.
length-le-of_subset :
    (us vs : List Text)
    → distinct us ≡ true
    → distinct vs ≡ true
    → ((t : Text) → contains t us ≡ true → contains t vs ≡ true)
    → length us ≤ length vs
unfolding distinct contains
length-le-of_subset [] vs du dv sub = omega arith
length-le-of_subset (u ∷ us) vs du dv sub = ground (
  arith,
  length-remove u vs dv (sub u (ground (arith, ==_iff u u))),
  length-le-of_subset us (remove u vs) (ground arith) (unfold remove in keep-distinct _ vs dv)
      (λ t h. ground (arith, contains-remove u t vs, ==_iff t u, sub t)),
)

-- Two lists of distinct texts with the same members have the same length.
pub length-eq-of_members :
    (us vs : List Text)
    → distinct us ≡ true
    → distinct vs ≡ true
    → ((t : Text) → contains t us ≡ contains t vs)
    → length us ≡ length vs
length-eq-of_members us vs du dv same = omega (
  arith,
  length-le-of_subset us vs du dv (λ t h. sym (same t) ∙ h),
  length-le-of_subset vs us dv du (λ t h. same t ∙ h),
)
