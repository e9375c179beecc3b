-- ===== src/Kernel/Validation/Conforms/Local.antt =====
-- The keywords type, enum and required (ois/kernel/validation.py): the validator's tests and what a schema asks.
use Prim.Native.Nat.{ℕ}
use niceone_obsidian.Prelude.{
  String, Bool, ◌≡◌, ◌⊎◌, if◌then◌else◌, refl, sym, true, Option, some, List, [], ◌∷◌, ◌++◌, str_eq,
  str_eq_iff, arith, Bool-cases, Option-cases, inl, inr,
}
use niceone_obsidian.Prelude.Int.{ℤ}
use niceone_obsidian.Prelude.Values.{
  Value, Items, Fields, bool, int, float, text, array, tuple, dict, nil, cons, get_field, has_field,
  py_eq,
}
use niceone_obsidian.Kernel.Validation.{
  is_string, is_integer, is_number, is_boolean, is_object, is_array, has_type, member_of, missing,
  missing_fields, type_matches, in_enum, enum_errors, required_errors, schema_errors,
}
use niceone_obsidian.Kernel.Validation.Conforms.{HasType, In, Lists, Meets}

pub append_nil : (xs ys : List String) → xs ++ ys ≡ [] → (xs ≡ []) × (ys ≡ [])
append_nil [] ys h = (refl, h)
append_nil (x ∷ xs) ys h = cc

string_of : (v : Value) → is_string v ≡ true → (s : String) × (v ≡ text s)
string_of (text s) h = (s, refl)
string_of _ h = ground arith

integer_of : (v : Value) → is_integer v ≡ true → (n : ℤ) × (v ≡ int n)
integer_of (int n) h = (n, refl)
integer_of _ h = ground arith

number_of :
    (v : Value)
    → is_number v ≡ true
    → ((n : ℤ) × (v ≡ int n)) ⊎ ((m : ℤ) × (e : ℕ) × (v ≡ float m e))
number_of (int n) h = inl (n, refl)
number_of (float m e) h = inr (m, e, refl)
number_of _ h = ground arith

boolean_of : (v : Value) → is_boolean v ≡ true → (b : Bool) × (v ≡ bool b)
boolean_of (bool b) h = (b, refl)
boolean_of _ h = ground arith

object_of : (v : Value) → is_object v ≡ true → (d : Fields) × (v ≡ dict d)
object_of (dict d) h = (d, refl)
object_of _ h = ground arith

array_of :
    (v : Value)
    → is_array v ≡ true
    → ((xs : Items) × (v ≡ array xs)) ⊎ ((xs : Items) × (v ≡ tuple xs))
array_of (array xs) h = inl (xs, refl)
array_of (tuple xs) h = inr (xs, refl)
array_of _ h = ground arith

has_type-HasType : (t : String) (v : Value) → has_type t v ≡ true → HasType t v
unfolding has_type
has_type-HasType t v h = record {
  as_string = λ e. string_of v (rw e at h);
  as_integer = λ e. integer_of v (rw e at h);
  as_number = λ e. number_of v (rw e at h);
  as_boolean = λ e. boolean_of v (rw e at h);
  as_object = λ e. object_of v (rw e at h);
  as_array = λ e. array_of v (rw e at h);
}

-- A branch of the choice among the type names.
choose :
    (t name : String) (b c : Bool)
    → (t ≡ name → b ≡ true)
    → c ≡ true
    → (if str_eq t name then b else c) ≡ true
choose t name b c f g = elim (Bool-cases (str_eq t name)) [
  | inl y ↦ rw y (f ((str_eq_iff t name).0 y))
  | inr n ↦ rw n g
]

HasType-has_type : (t : String) (v : Value) → HasType t v → has_type t v ≡ true
unfolding has_type
HasType-has_type t v h =
    choose t "string" _ _ (λ e. let (s, p) = h.as_string e in rw p refl)
      (choose t "integer" _ _ (λ e. let (s, p) = h.as_integer e in rw p refl)
        (choose t "number" _ _
          (λ e. elim (h.as_number e) [ inl (n, p) ↦ rw p refl | inr (m, k, p) ↦ rw p refl ])
          (choose t "boolean" _ _ (λ e. let (s, p) = h.as_boolean e in rw p refl)
            (choose t "object" _ _ (λ e. let (s, p) = h.as_object e in rw p refl)
              (choose t "array" _ _
                (λ e. elim (h.as_array e) [ inl (n, p) ↦ rw p refl | inr (n, p) ↦ rw p refl ])
                refl)))))

member_of-In :
    (v : Value) (xs : Items) → member_of v xs ≡ true → (x : Value) × In x xs × (py_eq v x ≡ true)
unfolding member_of
member_of-In v nil h = ground arith
member_of-In v (cons y ys) h = elim (Bool-cases (py_eq v y)) [
  | inl e ↦ (y, inl refl, e)
  | inr n ↦ let (x, i, e) = member_of-In v ys (rw n at h) in (x, inr i, e)
]

In-member_of : (v x : Value) (xs : Items) → In x xs → py_eq v x ≡ true → member_of v xs ≡ true
unfolding member_of
In-member_of v x nil i e = absurd i
In-member_of v x (cons y ys) (inl same) e = rw (sym same, e) refl
In-member_of v x (cons y ys) (inr i) e = ground (arith, In-member_of v x ys i e)

-- The required name is a field.
abbrev Found : Fields → String → Type 0
Found d name = (w : Value) × (get_field d name ≡ some w)

missing-Found : (d : Fields) (name path : String) → missing (text name) d path ≡ [] → Found d name
unfolding has_field
missing-Found d name path h = elim (Option-cases (get_field d name)) [
  | inl e ↦ cc (rw e at h)
  | inr f ↦ f
]

Found-missing :
    (x : Value) (d : Fields) (path : String)
    → ((name : String) → text name ≡ x → Found d name)
    → missing x d path ≡ []
unfolding has_field
Found-missing (text name) d path f = let (w, e) = f name refl in rw e refl
Found-missing _ d path f = refl

missing_fields-Found :
    (xs : Items) (d : Fields) (name path : String)
    → missing_fields xs d path ≡ []
    → In (text name) xs
    → Found d name
unfolding missing_fields
missing_fields-Found nil d name path h i = absurd i
missing_fields-Found (cons x xs) d name path h i =
    let (first, others) = append_nil (missing x d path) (missing_fields xs d path) h in
    elim i [
      | inl e ↦ missing-Found d name path (rw (sym e) at first)
      | inr j ↦ missing_fields-Found xs d name path others j
    ]

Found-missing_fields :
    (xs : Items) (d : Fields) (path : String)
    → ((name : String) → In (text name) xs → Found d name)
    → missing_fields xs d path ≡ []
unfolding missing_fields
Found-missing_fields nil d path f = refl
Found-missing_fields (cons x xs) d path f =
    rw
      (
        Found-missing x d path (λ name e. f name (inl e)),
        Found-missing_fields xs d path (λ name i. f name (inr i)),
      )
      refl

-- The three lists of errors of an accepted value are empty, and it has the named type.
pub accepted_parts :
    (schema : Fields) (v : Value) (path : String) (nested : List String)
    → schema_errors schema v path nested ≡ []
    → (type_matches (get_field schema "type") v ≡ true)
      × (in_enum (get_field schema "enum") v ≡ true)
      × (required_errors (get_field schema "required") v path ≡ [])
      × (nested ≡ [])
accepted_parts schema v path nested h =
    elim (Bool-cases (type_matches (get_field schema "type") v)) [
      | inl t ↦
          let (e, more) =
            append_nil (enum_errors schema v path)
              (required_errors (get_field schema "required") v path ++ nested) (rw t at h) in
          let (r, n) =
            append_nil (required_errors (get_field schema "required") v path) nested more in
          (t, ground (arith, e), r, n)
      | inr f ↦ cc (rw f at h)
    ]

required-Found :
    (o : Option Value) (v : Value) (path : String) (xs : Items) (d : Fields) (name : String)
    → required_errors o v path ≡ []
    → Lists o xs
    → v ≡ dict d
    → In (text name) xs
    → Found d name
required-Found o v path xs d name h (inl p) e i =
    missing_fields-Found xs d name path (rw (p, e) at h) i
required-Found o v path xs d name h (inr p) e i =
    missing_fields-Found xs d name path (rw (p, e) at h) i

pub accepted-Meets :
    (schema : Fields) (v : Value) (path : String)
    → type_matches (get_field schema "type") v ≡ true
    → in_enum (get_field schema "enum") v ≡ true
    → required_errors (get_field schema "required") v path ≡ []
    → Meets schema v
accepted-Meets schema v path t e r = record {
  typed = λ n p. has_type-HasType n v (rw p at t);
  enumerated = λ xs l. elim l [
    | inl p ↦ member_of-In v xs (rw p at e)
    | inr p ↦ member_of-In v xs (rw p at e)
  ];
  required =
      λ xs d name l p i. required-Found (get_field schema "required") v path xs d name r l p i;
}

type_of-matches :
    (o : Option Value) (v : Value)
    → ((t : String) → o ≡ some (text t) → HasType t v)
    → type_matches o v ≡ true
type_of-matches (some (text t)) v f = HasType-has_type t v (f t refl)
type_of-matches _ v f = refl

listed-in_enum :
    (o : Option Value) (v : Value)
    → ((xs : Items) → Lists o xs → (x : Value) × In x xs × (py_eq v x ≡ true))
    → in_enum o v ≡ true
listed-in_enum (some (array xs)) v f = let (x, i, e) = f xs (inl refl) in In-member_of v x xs i e
listed-in_enum (some (tuple xs)) v f = let (x, i, e) = f xs (inr refl) in In-member_of v x xs i e
listed-in_enum _ v f = refl

Found-required :
    (o : Option Value) (v : Value) (path : String)
    → ((xs : Items) (d : Fields) (name : String)
        → Lists o xs
        → v ≡ dict d
        → In (text name) xs
        → Found d name)
    → required_errors o v path ≡ []
Found-required (some (array xs)) (dict d) path f =
    Found-missing_fields xs d path (λ name i. f xs d name (inl refl) refl i)
Found-required (some (tuple xs)) (dict d) path f =
    Found-missing_fields xs d path (λ name i. f xs d name (inr refl) refl i)
Found-required _ _ path f = refl

pub Meets-accepted :
    (schema : Fields) (v : Value) (path : String) (nested : List String)
    → Meets schema v
    → nested ≡ []
    → schema_errors schema v path nested ≡ []
Meets-accepted schema v path nested m n =
    rw
      (
        type_of-matches (get_field schema "type") v m.typed,
        listed-in_enum (get_field schema "enum") v m.enumerated,
        Found-required (get_field schema "required") v path m.required,
        n,
      )
      refl
