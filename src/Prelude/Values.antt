-- ===== src/Prelude/Values.antt =====
-- Python values as they appear in schemas, inputs, outputs and evidence. A float is the dyadic
-- number m / 2 ^ e, which every finite double is.
use Prim.Native.Nat.{ℕ, suc, ◌^◌}
use Prim.Native.String.{String}
use mathlib.Core.Path.{◌≡◌, refl}
use mathlib.Core.Bool.{Bool, true, false, ◌&&◌}
use mathlib.Core.Option.{Option, none, some}
use native.Mathlib.Omega.{arith}
use niceone_obsidian.Prelude.Tests.{if◌then◌else◌, nat_eq}
use niceone_obsidian.Prelude.Int.{ℤ, pos, int_eq, scale}
use niceone_obsidian.Prelude.Keys.{str_eq, str_eq_iff, str_eq_refl}

mutual
  pub data Value : Type 0 where
    null : Value
    bool : Bool → Value
    int : ℤ → Value
    float : ℤ → ℕ → Value
    text : String → Value
    array : Items → Value
    tuple : Items → Value
    dict : Fields → Value

  pub data Items : Type 0 where
    nil : Items
    cons : Value → Items → Items

  pub data Fields : Type 0 where
    end : Fields
    field : String → Value → Fields → Fields

-- `d.get(k)`
unfoldable pub get_field : Fields → String → Option Value
get_field end k = none
get_field (field j v d) k = if str_eq j k then some v else get_field d k

-- `k in d`
abbrev pub is_found : Option Value → Bool
is_found none = false
is_found (some v) = true

unfoldable pub has_field : Fields → String → Bool
unfolding get_field
has_field d k = is_found (get_field d k)

-- `d[k] = v`, also `{**d, k: v}`
unfoldable pub set_field : Fields → String → Value → Fields
set_field end k v = field k v end
set_field (field j w d) k v = if str_eq j k then field j v d else field j w (set_field d k v)

pub get_field-set_field :
    (d : Fields) (k j : String) (v : Value)
    → get_field (set_field d k v) j ≡ (if str_eq k j then some v else get_field d j)
unfolding get_field set_field
get_field-set_field end k j v = refl
get_field-set_field (field i w d) k j v =
    ground (arith, str_eq_iff k j, str_eq_iff i k, str_eq_iff i j, get_field-set_field d k j v)

pub get_field-set_field_self :
    (d : Fields) (k : String) (v : Value) → get_field (set_field d k v) k ≡ some v
get_field-set_field_self d k v = simp (get_field-set_field, str_eq_refl)

unfoldable pub count_fields : Fields → ℕ
count_fields end = 0
count_fields (field k v d) = suc (count_fields d)

-- The number that a value compares as: `True == 1 == 1.0`.
abbrev pub Number : Type 0
Number = ℤ × ℕ

abbrev pub as_number : Value → Option Number
as_number (bool true) = some (pos 1, 0)
as_number (bool false) = some (pos 0, 0)
as_number (int n) = some (n, 0)
as_number (float m e) = some (m, e)
as_number _ = none

abbrev pub number_eq : Number → Option Number → Bool
number_eq (m, e) none = false
number_eq (m, e) (some (n, d)) = int_eq (scale m (2 ^ d)) (scale n (2 ^ e))

-- `v == w`
unfoldable mutual
  pub py_eq : Value → Value → Bool
  py_eq null null = true
  py_eq null _ = false
  py_eq (bool true) w = number_eq (pos 1, 0) (as_number w)
  py_eq (bool false) w = number_eq (pos 0, 0) (as_number w)
  py_eq (int n) w = number_eq (n, 0) (as_number w)
  py_eq (float m e) w = number_eq (m, e) (as_number w)
  py_eq (text s) (text t) = str_eq s t
  py_eq (text s) _ = false
  py_eq (array xs) (array ys) = items_eq xs ys
  py_eq (array xs) _ = false
  py_eq (tuple xs) (tuple ys) = items_eq xs ys
  py_eq (tuple xs) _ = false
  py_eq (dict d) (dict c) = nat_eq (count_fields d) (count_fields c) && fields_in d c
  py_eq (dict d) _ = false

  pub items_eq : Items → Items → Bool
  items_eq nil nil = true
  items_eq nil (cons _ _) = false
  items_eq (cons x xs) nil = false
  items_eq (cons x xs) (cons y ys) = py_eq x y && items_eq xs ys

  -- Each field of the first is in the second, at an equal value.
  pub fields_in : Fields → Fields → Bool
  fields_in end c = true
  fields_in (field k v d) c = elim (get_field c k) [
    | none ↦ false
    | some w ↦ py_eq v w && fields_in d c
  ]
