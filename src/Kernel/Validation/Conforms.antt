-- ===== src/Kernel/Validation/Conforms.antt =====
-- What a schema asks of a value (ois/kernel/validation.py), without the validator.
pub mod Local
pub mod Exact
use Prim.Native.Nat.{ℕ}
use Prim.Native.String.{◌++◌ as text_append}
use niceone_obsidian.Prelude.{
  String, Bool, ◌≡◌, ◌↔◌, ◌⊎◌, if◌then◌else◌, refl, sym, ap, ◌∙◌, true, false, Option, none, some,
  List, [], ◌∷◌, ◌++◌, str_eq, str_eq_iff, arith, Bool-cases, Option-cases, inl, inr,
}
use niceone_obsidian.Prelude.Int.{ℤ}
use niceone_obsidian.Prelude.Values.{
  Value, Items, Fields, null, bool, int, float, text, array, tuple, dict, nil, cons, end, field,
  get_field, has_field, py_eq,
}
use niceone_obsidian.Kernel.Validation.{
  is_string, is_integer, is_number, is_boolean, is_object, is_array, has_type, member_of, missing,
  missing_fields, type_matches, in_enum, enum_errors, required_errors, schema_errors,
  property_errors, declared_errors, each_property, one_property, validate_schema,
}

-- The values of each named type; another name asks for nothing. A Boolean is no integer and no number.
pub record HasType (t : String) (v : Value) : Type 0 where
  pub as_string : t ≡ "string" → (s : String) × (v ≡ text s)
  pub as_integer : t ≡ "integer" → (n : ℤ) × (v ≡ int n)
  pub as_number : t ≡ "number" → ((n : ℤ) × (v ≡ int n)) ⊎ ((m : ℤ) × (e : ℕ) × (v ≡ float m e))
  pub as_boolean : t ≡ "boolean" → (b : Bool) × (v ≡ bool b)
  pub as_object : t ≡ "object" → (d : Fields) × (v ≡ dict d)
  pub as_array : t ≡ "array" → ((xs : Items) × (v ≡ array xs)) ⊎ ((xs : Items) × (v ≡ tuple xs))

-- `x` is one of the items.
abbrev pub In : Value → Items → Type 0
In x nil = ⊥
In x (cons y ys) = (x ≡ y) ⊎ In x ys

-- The keyword holds a list or a tuple of these items.
abbrev pub Lists : Option Value → Items → Type 0
Lists o xs = (o ≡ some (array xs)) ⊎ (o ≡ some (tuple xs))

-- The properties declare a schema under the name.
abbrev pub Declares : String → Fields → Fields → Type 0
Declares name sub end = ⊥
Declares name sub (field k s rest) = ((k ≡ name) × (s ≡ dict sub)) ⊎ Declares name sub rest

-- What a schema asks of the value itself: it is of the type that is named, equal to an item of the enumeration,
-- and, if it is an object, has every field whose name is among the required ones.
pub record Meets (schema : Fields) (v : Value) : Type 0 where
  pub typed : (t : String) → get_field schema "type" ≡ some (text t) → HasType t v
  pub enumerated :
      (xs : Items) → Lists (get_field schema "enum") xs → (x : Value) × In x xs × (py_eq v x ≡ true)
  pub required :
      (xs : Items) (d : Fields) (name : String)
      → Lists (get_field schema "required") xs
      → v ≡ dict d
      → In (text name) xs
      → (w : Value) × (get_field d name ≡ some w)

-- A value conforms to a schema if it meets it, and each of its fields conforms to each schema that is declared
-- for that field.
pub data Conforms : Fields → Value → Type 0 where
  conforms :
      (schema : Fields) (v : Value)
      → Meets schema v
      → ((properties d sub : Fields) (name : String) (w : Value)
          → get_field schema "properties" ≡ some (dict properties)
          → v ≡ dict d
          → Declares name sub properties
          → get_field d name ≡ some w
          → Conforms sub w)
      → Conforms schema v
