-- ===== src/Kernel/Validation.antt =====
-- ois/kernel/validation.py, ContractValidator: the schema language and the errors of a value.
pub mod Conforms
use Prim.Native.String.{◌++◌ as text_append}
use niceone_obsidian.Prelude.{
  String, Bool, true, false, Option, none, some, List, [], ◌∷◌, ◌++◌, str_eq, is_empty, not, ◌&&◌,
  ◌||◌, if◌then◌else◌,
}
use niceone_obsidian.Prelude.Texts.{join}
use niceone_obsidian.Prelude.Values.{
  Value, Items, Fields, null, bool, int, float, text, array, tuple, dict, nil, cons, end, field,
  get_field, has_field, py_eq,
}
use niceone_obsidian.Prelude.Exec.{Result, ok, err}
use niceone_obsidian.Kernel.Errors.{
  Exception, ExceptionKind, exception, input_validation, output_validation,
}
use niceone_obsidian.Kernel.Contracts.{CapabilityContract, InvocationRequest, InvocationResult}

-- The `isinstance` tests.
abbrev pub is_string : Value → Bool
is_string (text s) = true
is_string _ = false

abbrev pub is_integer : Value → Bool
is_integer (int n) = true
is_integer _ = false

abbrev pub is_number : Value → Bool
is_number (int n) = true
is_number (float m e) = true
is_number _ = false

abbrev pub is_boolean : Value → Bool
is_boolean (bool b) = true
is_boolean _ = false

abbrev pub is_object : Value → Bool
is_object (dict d) = true
is_object _ = false

abbrev pub is_array : Value → Bool
is_array (array xs) = true
is_array (tuple xs) = true
is_array _ = false

-- `type_validators`; a type that is not there accepts every value.
unfoldable pub has_type : String → Value → Bool
has_type t v =
    if str_eq t "string"
    then is_string v
    else if str_eq t "integer"
    then is_integer v
    else if str_eq t "number"
    then is_number v
    else if str_eq t "boolean"
    then is_boolean v
    else if str_eq t "object"
    then is_object v
    else if str_eq t "array"
    then is_array v
    else true

-- The type that a schema names, if that is a text.
abbrev pub type_matches : Option Value → Value → Bool
type_matches (some (text t)) v = has_type t v
type_matches _ v = true

abbrev pub type_name_of : Option Value → String
type_name_of (some (text t)) = t
type_name_of _ = ""

-- `value in items`
unfoldable pub member_of : Value → Items → Bool
unfolding py_eq
member_of v nil = false
member_of v (cons x xs) = py_eq v x || member_of v xs

abbrev pub in_enum : Option Value → Value → Bool
in_enum (some (array xs)) v = member_of v xs
in_enum (some (tuple xs)) v = member_of v xs
in_enum _ v = true

abbrev pub enum_errors : Fields → Value → String → List String
enum_errors schema v path =
    if in_enum (get_field schema "enum") v
    then []
    else text_append path ": value is not one of the allowed enum values." ∷ []

-- One round of the loop over the required names.
abbrev pub missing : Value → Fields → String → List String
missing (text name) d path =
    if has_field d name
    then []
    else text_append path (text_append ": missing required field '" (text_append name "'.")) ∷ []
missing _ d path = []

unfoldable pub missing_fields : Items → Fields → String → List String
missing_fields nil d path = []
missing_fields (cons x xs) d path = missing x d path ++ missing_fields xs d path

abbrev pub required_errors : Option Value → Value → String → List String
required_errors (some (array xs)) (dict d) path = missing_fields xs d path
required_errors (some (tuple xs)) (dict d) path = missing_fields xs d path
required_errors _ _ path = []

-- `_validate_schema`, given the errors of the declared properties.
abbrev pub schema_errors : Fields → Value → String → List String → List String
schema_errors schema v path nested =
    if type_matches (get_field schema "type") v
    then enum_errors schema v path
      ++ (required_errors (get_field schema "required") v path ++ nested)
    else text_append path
        (text_append ": expected " (text_append (type_name_of (get_field schema "type")) "."))
      ∷ []

-- The loop over the declared properties: `property_errors` finds them in the schema.
unfoldable mutual
  pub property_errors : Fields → Value → String → List String
  property_errors end v path = []
  property_errors (field k w rest) v path =
      if str_eq k "properties" then declared_errors w v path else property_errors rest v path

  pub declared_errors : Value → Value → String → List String
  declared_errors (dict properties) (dict d) path = each_property properties d path
  declared_errors _ _ path = []

  pub each_property : Fields → Fields → String → List String
  each_property end d path = []
  each_property (field name schema rest) d path =
      one_property schema (get_field d name) (text_append path (text_append "." name))
      ++ each_property rest d path

  pub one_property : Value → Option Value → String → List String
  one_property (dict schema) (some v) path =
      schema_errors schema v path (property_errors schema v path)
  one_property _ _ path = []

unfoldable pub validate_schema : Value → Fields → String → List String
validate_schema v schema path = schema_errors schema v path (property_errors schema v path)

abbrev pub raise_errors : ExceptionKind → List String → Result Exception (Unit {0})
raise_errors k [] = ok tt
raise_errors k (e ∷ es) = err (exception k (join "; " (e ∷ es)))

unfoldable pub validate_input : InvocationRequest → CapabilityContract → Result Exception (Unit {0})
unfolding validate_schema
validate_input r k =
    raise_errors input_validation (validate_schema (dict r.input) k.input_schema "input")

unfoldable pub validate_output : InvocationResult → CapabilityContract → Result Exception (Unit {0})
unfolding validate_schema
validate_output r k =
    raise_errors output_validation (validate_schema r.output k.output_schema "output")
