-- ===== src/Registries.antt =====
-- ois/registries/core.py: the generic versioned registry. The executable registries are in the
-- children.
pub mod Capability
pub mod Agents
use niceone_obsidian.Prelude.{
  String, Bool, true, false, ◌||◌, Option, none, some, List, [], ◌∷◌, map, str_eq, pair_eq,
  if◌then◌else◌,
}
use niceone_obsidian.Prelude.Dict.{Dict, get, contains, set, delete}
use niceone_obsidian.Prelude.Exec.{Result, ok, err}
use niceone_obsidian.Prelude.Values.{Fields}
use niceone_obsidian.Kernel.Errors.{
  Exception, exception, value_error, key_error, attribute_error, duplicate_capability,
  capability_not_found,
}
use niceone_obsidian.Kernel.Contracts.{CapabilityContract}
use Prim.Native.String.{◌++◌}

abbrev pub Key : Type 0
Key = String × String

-- `f"{id}@{version}"`
abbrev pub label : Key → String
label (i, v) = i ++ "@" ++ v

pub record RegistryEntry (T : Type 0) : Type 0 where
  pub id : String
  pub version : String
  pub value : T
  pub metadata : Fields

abbrev pub found_or : {A : Type 0} → Exception → Option A → Result Exception A
found_or e none = err e
found_or e (some a) = ok a

module _ {T : Type 0} where
  -- `Registry.register`: the entries after it and the new entry.
  unfoldable pub register :
      Dict Key (RegistryEntry T)
      → String
      → String
      → T
      → Fields
      → Result Exception (Dict Key (RegistryEntry T) × RegistryEntry T)
  unfolding contains set
  register entries i v value metadata =
      let entry : RegistryEntry T = record {
        id = i;
        version = v;
        value = value;
        metadata = metadata;
      } in
      if str_eq i "" || str_eq v ""
      then err (exception value_error "registry id and version are required")
      else if contains entries (i, v)
      then err (exception value_error ("already registered: " ++ label (i, v)))
      else ok (set entries (i, v) entry, entry)

  unfoldable pub resolve :
      Dict Key (RegistryEntry T) → String → String → Result Exception (RegistryEntry T)
  unfolding get
  resolve entries i v =
      found_or (exception key_error ("not registered: " ++ label (i, v))) (get entries (i, v))

  unfoldable pub contains_entry : Dict Key (RegistryEntry T) → String → String → Bool
  contains_entry entries i v = contains entries (i, v)
