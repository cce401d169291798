-- ===== src/Json.antt =====
-- JSON values as the Python program holds them: what `json.loads` returns and `json.dumps` takes.
-- A float is a mantissa times a power of ten; NaN and the infinities are left out. Python's
-- `1 == 1.0 == True` is not modelled: values of different kinds differ.
use claudecodenodus.Base.{
  ℕ, Text, ◌==◌, ==_iff, eq-of-==, ◌≡◌, refl, ◌↔◌, Bool, true, false, not, ◌&&◌, Option, none, some,
  List, [], ◌∷◌, arith, Eq, eqb, if◌then◌else◌,
}
use mathlib.Core.Path.{ap₂}
use claudecodenodus.Base.Int.{ℤ, is_zero, int_eq, int_eq_iff}

mutual
  pub data Json : Type 0 where
    null : Json
    bool : Bool → Json
    int : ℤ → Json
    float : ℤ → ℕ → Json
    str : Text → Json
    list : Items → Json
    dict : Fields → Json

  pub data Items : Type 0 where
    nil : Items
    cons : Json → Items → Items

  pub data Fields : Type 0 where
    end : Fields
    field : Text → Json → Fields → Fields

-- `bool(value)`
unfoldable pub truthy : Json → Bool
truthy null = false
truthy (bool b) = b
truthy (int z) = not (is_zero z)
truthy (float m e) = not (is_zero m)
truthy (str []) = false
truthy (str (c ∷ t)) = true
truthy (list nil) = false
truthy (list (cons x xs)) = true
truthy (dict end) = false
truthy (dict (field k v fs)) = true

-- `value or default`
unfoldable pub or_else : Json → Json → Json
unfolding truthy
or_else v default = if truthy v then v else default

-- `d.get(key)` on a dict
unfoldable pub find : Text → Fields → Option Json
find k end = none
find k (field j v fs) = if j == k then some v else find k fs

-- `d.get(key, default)`, and `d[key]` where the key is known to be there
unfoldable pub find_or : Text → Json → Fields → Json
unfolding find
find_or k default fs = elim (find k fs) [ none ↦ default | some v ↦ v ]

unfoldable pub items : Items → List Json
items nil = []
items (cons x xs) = x ∷ items xs

unfoldable pub list_of : List Json → Items
list_of [] = nil
list_of (x ∷ xs) = cons x (list_of xs)

-- `a == b` between two values
unfoldable mutual
  unfolding int_eq

  pub json_eq : Json → Json → Bool
  json_eq null null = true
  json_eq (bool true) (bool b) = b
  json_eq (bool false) (bool b) = not b
  json_eq (int a) (int b) = int_eq a b
  json_eq (float a m) (float b n) = int_eq a b && eqb m n
  json_eq (str s) (str t) = s == t
  json_eq (list xs) (list ys) = items_eq xs ys
  json_eq (dict fs) (dict gs) = fields_eq fs gs
  json_eq a b = false

  pub items_eq : Items → Items → Bool
  items_eq nil nil = true
  items_eq (cons x xs) (cons y ys) = json_eq x y && items_eq xs ys
  items_eq xs ys = false

  pub fields_eq : Fields → Fields → Bool
  fields_eq end end = true
  fields_eq (field j x fs) (field k y gs) = (j == k) && (json_eq x y && fields_eq fs gs)
  fields_eq fs gs = false

both : (a b : Bool) → (a && b) ≡ true → (a ≡ true) × (b ≡ true)
both a b h = ground arith

mutual
  unfolding json_eq items_eq fields_eq

  json_eq_sound : (a b : Json) → json_eq a b ≡ true → a ≡ b
  json_eq_sound null null h = refl
  json_eq_sound (bool true) (bool b) h = ground arith
  json_eq_sound (bool false) (bool b) h = ground arith
  json_eq_sound (int a) (int b) h = ground (arith, int_eq_iff a b)
  json_eq_sound (float a m) (float b n) h = ground (arith, int_eq_iff a b)
  json_eq_sound (str s) (str t) h = ground (arith, ==_iff s t)
  json_eq_sound (list xs) (list ys) h = ground (arith, items_eq_sound xs ys)
  json_eq_sound (dict fs) (dict gs) h = ground (arith, fields_eq_sound fs gs)
  json_eq_sound a b h = ground arith

  items_eq_sound : (xs ys : Items) → items_eq xs ys ≡ true → xs ≡ ys
  items_eq_sound nil nil h = refl
  items_eq_sound (cons x xs) (cons y ys) h =
      let (p, q) = both (json_eq x y) (items_eq xs ys) h in
      ap₂ cons (json_eq_sound x y p) (items_eq_sound xs ys q)
  items_eq_sound xs ys h = ground arith

  fields_eq_sound : (fs gs : Fields) → fields_eq fs gs ≡ true → fs ≡ gs
  fields_eq_sound end end h = refl
  fields_eq_sound (field j x fs) (field k y gs) h =
      let (p, q) = both (j == k) (json_eq x y && fields_eq fs gs) h in
      let (q', r) = both (json_eq x y) (fields_eq fs gs) q in
      cc (eq-of-== j k p, json_eq_sound x y q', fields_eq_sound fs gs r)
  fields_eq_sound fs gs h = ground arith

mutual
  unfolding json_eq items_eq fields_eq

  json_eq_refl : (a : Json) → json_eq a a ≡ true
  json_eq_refl null = refl
  json_eq_refl (bool true) = refl
  json_eq_refl (bool false) = refl
  json_eq_refl (int a) = ground (arith, int_eq_iff a a)
  json_eq_refl (float a m) = ground (arith, int_eq_iff a a)
  json_eq_refl (str s) = ground (arith, ==_iff s s)
  json_eq_refl (list xs) = items_eq_refl xs
  json_eq_refl (dict fs) = fields_eq_refl fs

  items_eq_refl : (xs : Items) → items_eq xs xs ≡ true
  items_eq_refl nil = refl
  items_eq_refl (cons x xs) = ground (arith, json_eq_refl x, items_eq_refl xs)

  fields_eq_refl : (fs : Fields) → fields_eq fs fs ≡ true
  fields_eq_refl end = refl
  fields_eq_refl (field k x fs) = ground (arith, ==_iff k k, json_eq_refl x, fields_eq_refl fs)

pub json_eq_iff : (a b : Json) → (json_eq a b ≡ true) ↔ (a ≡ b)
json_eq_iff a b = (json_eq_sound a b, λ e. rw e (json_eq_refl b))

instance abbrev pub json_key_eq : Eq Json
json_key_eq = record { beq = json_eq; beq_iff = json_eq_iff }
