-- ===== src/Base/Sort.antt =====
-- Sorting a list by insertion: the result has the same elements, each before all that follow it.
use mathlib.Core.Path.{◌≡◌, refl, subst}
use mathlib.Core.Logic.{◌↔◌, ◌⊎◌, inl, inr}
use mathlib.Core.Bool.{Bool, true, false, ◌&&◌, ◌||◌}
use mathlib.Core.List.{List, [], ◌∷◌}
use native.Mathlib.Omega.{arith}
use claudecodenodus.Base.Tests.{ltb, eqb, if◌then◌else◌, Bool-cases}
use claudecodenodus.Base.Strings.{Text, ◌==◌, ==_iff}
use claudecodenodus.Base.Collections.{contains, distinct}
use claudecodenodus.Base.Lists.{All, In}

-- `a <= b` on texts
unfoldable pub text_le : Text → Text → Bool
text_le [] b = true
text_le (x ∷ a) [] = false
text_le (x ∷ a) (y ∷ b) = ltb x y || (eqb x y && text_le a b)

pub text_le_total : (a b : Text) → text_le a b ≡ false → text_le b a ≡ true
unfolding text_le
text_le_total [] b h = cc
text_le_total (x ∷ a) [] h = refl
text_le_total (x ∷ a) (y ∷ b) h = ground (arith, text_le_total a b)

pub text_le_trans : (a b c : Text) → text_le a b ≡ true → text_le b c ≡ true → text_le a c ≡ true
unfolding text_le
text_le_trans [] b c h k = refl
text_le_trans (x ∷ a) [] c h k = cc
text_le_trans (x ∷ a) (y ∷ b) [] h k = cc
text_le_trans (x ∷ a) (y ∷ b) (z ∷ c) h k = ground (arith, text_le_trans a b c)

-- `ORDER BY`, and `sorted(xs, key=...)`
module _ {ℓ} {A : Type ℓ} (le : A → A → Bool) where
  unfoldable pub insert_sorted : A → List A → List A
  insert_sorted a [] = a ∷ []
  insert_sorted a (x ∷ xs) = if le a x then a ∷ x ∷ xs else x ∷ insert_sorted a xs

  unfoldable pub sort : List A → List A
  unfolding insert_sorted
  sort [] = []
  sort (x ∷ xs) = insert_sorted x (sort xs)

  -- Each element comes before all that follow it.
  abbrev pub Sorted : List A → Type 0
  Sorted [] = Unit
  Sorted (x ∷ xs) = All (λ y. le x y ≡ true) xs × Sorted xs

  All-insert_sorted :
      (P : A → Type 0) (a : A) (xs : List A) → P a → All P xs → All P (insert_sorted a xs)
  unfolding insert_sorted
  All-insert_sorted P a [] p h = (p, tt)
  All-insert_sorted P a (x ∷ xs) p h = ground (arith, All-insert_sorted P a xs p h.1)

  All-after :
      (trans : (a b c : A) → le a b ≡ true → le b c ≡ true → le a c ≡ true) (a x : A) (xs : List A)
      → le a x ≡ true
      → All (λ y. le x y ≡ true) xs
      → All (λ y. le a y ≡ true) xs
  All-after trans a x [] h k = tt
  All-after trans a x (y ∷ ys) h k = (trans a x y h k.0, All-after trans a x ys h k.1)

  module _ (total : (a b : A) → le a b ≡ false → le b a ≡ true)
      (trans : (a b c : A) → le a b ≡ true → le b c ≡ true → le a c ≡ true) where
    insert_sorted-Sorted : (a : A) (xs : List A) → Sorted xs → Sorted (insert_sorted a xs)
    unfolding insert_sorted
    insert_sorted-Sorted a [] h = (tt, tt)
    insert_sorted-Sorted a (x ∷ xs) h = elim (Bool-cases (le a x)) [
      | inl before ↦ rw before ((before, All-after trans a x xs before h.0), h)
      | inr after ↦ rw after (
        All-insert_sorted (λ y. le x y ≡ true) a xs (total a x after) h.0,
        insert_sorted-Sorted a xs h.1,
      )
    ]

    pub sort-Sorted : (xs : List A) → Sorted (sort xs)
    unfolding sort
    sort-Sorted [] = tt
    sort-Sorted (x ∷ xs) = insert_sorted-Sorted x (sort xs) (sort-Sorted xs)

module _ {A : Type 0} (le : A → A → Bool) where
  In-insert_sorted : (x a : A) (xs : List A) → In x (insert_sorted le a xs) ↔ ((x ≡ a) ⊎ In x xs)
  unfolding insert_sorted
  In-insert_sorted x a [] = ground arith
  In-insert_sorted x a (y ∷ ys) = ground (arith, In-insert_sorted x a ys)

  pub In-sort : (x : A) (xs : List A) → In x (sort le xs) ↔ In x xs
  unfolding sort
  In-sort x [] = ground arith
  In-sort x (y ∷ ys) = ground (arith, In-insert_sorted x y (sort le ys), In-sort x ys)

pub text_le_antisym : (a b : Text) → text_le a b ≡ true → text_le b a ≡ true → a ≡ b
unfolding text_le
text_le_antisym [] [] h k = refl
text_le_antisym [] (y ∷ b) h k = cc
text_le_antisym (x ∷ a) [] h k = cc
text_le_antisym (x ∷ a) (y ∷ b) h k = ground (arith, text_le_antisym a b)

All-contains :
    (P : Text → Type 0) (t : Text) (xs : List Text) → All P xs → contains t xs ≡ true → P t
unfolding contains
All-contains P t [] h k = absurd cc
All-contains P t (x ∷ xs) h k = elim (Bool-cases (t == x)) [
  | inl e ↦ let same : x ≡ t = ground (arith, ==_iff t x) in subst P same h.0
  | inr e ↦ All-contains P t xs h.1 (ground arith)
]

module _ (le : Text → Text → Bool)
    (antisym : (a b : Text) → le a b ≡ true → le b a ≡ true → a ≡ b) where
  Sorted-first :
      (x y : Text) (xs ys : List Text)
      → Sorted le (x ∷ xs)
      → Sorted le (y ∷ ys)
      → ((t : Text) → contains t (x ∷ xs) ≡ contains t (y ∷ ys))
      → x ≡ y
  unfolding contains
  Sorted-first x y xs ys sx sy same = elim (Bool-cases (x == y)) [
    | inl e ↦ ground (arith, ==_iff x y)
    | inr e ↦
        antisym x y
          (All-contains (λ t. le x t ≡ true) y xs sx.0
            (ground (arith, same y, ==_iff y y, ==_iff y x, ==_iff x y)))
          (All-contains (λ t. le y t ≡ true) x ys sy.0 (ground (arith, same x, ==_iff x x)))
  ]

  -- Two sorted lists of distinct texts with the same members are equal.
  pub Sorted-unique :
      (xs ys : List Text)
      → Sorted le xs
      → Sorted le ys
      → distinct xs ≡ true
      → distinct ys ≡ true
      → ((t : Text) → contains t xs ≡ contains t ys)
      → xs ≡ ys
  unfolding contains distinct
  Sorted-unique [] [] sx sy dx dy same = refl
  Sorted-unique [] (y ∷ ys) sx sy dx dy same = ground (arith, same y, ==_iff y y)
  Sorted-unique (x ∷ xs) [] sx sy dx dy same = ground (arith, same x, ==_iff x x)
  Sorted-unique (x ∷ xs) (y ∷ ys) sx sy dx dy same =
      let first : x ≡ y = Sorted-first x y xs ys sx sy same in
      let rest : xs ≡ ys =
        Sorted-unique xs ys sx.1 sy.1 (ground arith) (ground arith)
          (λ t. ground (arith, same t, first, ==_iff t x, ==_iff t y)) in
      cc
