-- ===== src/Registries/Capability.antt =====
-- ois/registries/core.py, CapabilityRegistry: a capability is registered under a name and version
-- that the caller gives, or under those of its own contract. `C` is the type of capability objects
-- and `contract_of` their attribute `contract`, absent at some.
pub mod Lookup
use niceone_obsidian.Prelude.{
  String, Bool, true, false, Option, none, some, List, [], ◌∷◌, map, str_eq, pair_eq, if◌then◌else◌,
}
use niceone_obsidian.Prelude.Dict.{Dict, get, contains, set, delete}
use niceone_obsidian.Prelude.Exec.{Result, ok, err}
use niceone_obsidian.Kernel.Errors.{
  Exception, exception, value_error, attribute_error, duplicate_capability, capability_not_found,
}
use niceone_obsidian.Kernel.Contracts.{CapabilityContract}
use Prim.Native.String.{◌++◌}

abbrev pub Key : Type 0
Key = String × String

-- `f"{id}@{version}"`
abbrev pub label : Key → String
label (i, v) = i ++ "@" ++ v

pub record CapabilityEntry (C : Type 0) : Type 0 where
  pub capability : C
  pub contract : Option CapabilityContract
  pub id : String
  pub version : String

abbrev pub Entries : Type 0 → Type 0
Entries C = Dict Key (CapabilityEntry C)

-- The two forms of a call of `register`.
pub data Registration (C : Type 0) : Type 0 where
  named : String → Option String → Option C → Registration C
  native : C → Registration C

abbrev pub or_text : Option String → String
or_text none = ""
or_text (some s) = s

module _ {C : Type 0} (contract_of : C → Option CapabilityContract) where
  -- The insertion at the end of `register`.
  unfoldable pub add_entry : Entries C → Key → C → Result Exception (Entries C)
  unfolding contains set
  add_entry entries (i, v) c =
      if contains entries (i, v)
      then err (exception duplicate_capability ("Capability already registered: " ++ label (i, v)))
      else ok (
          set entries (i, v)
            (record { capability = c; contract = contract_of c; id = i; version = v }))

  unfoldable pub register_named :
      Entries C → String → String → Option C → Result Exception (Entries C)
  unfolding add_entry
  register_named entries i v none = err (exception value_error "registry value is required")
  register_named entries i v (some c) = add_entry entries (i, v) c

  unfoldable pub register_native :
      Entries C → C → Option CapabilityContract → Result Exception (Entries C)
  unfolding add_entry
  register_native entries c none = err (exception attribute_error "contract")
  register_native entries c (some k) = add_entry entries (k.capability_id, k.version) c

  unfoldable pub register : Entries C → Registration C → Result Exception (Entries C)
  unfolding register_named register_native
  register entries (named i v c) =
      if str_eq (or_text v) ""
      then err (exception value_error "registry id and version are required")
      else register_named entries i (or_text v) c
  register entries (native c) = register_native entries c (contract_of c)

module _ {C : Type 0} where
  unfoldable pub unregister : Entries C → String → String → Result Exception (Entries C)
  unfolding contains delete
  unregister entries i v =
      if contains entries (i, v)
      then ok (delete entries (i, v))
      else err (exception capability_not_found ("not registered: " ++ label (i, v)))

  abbrev pub found_entry : Key → Option (CapabilityEntry C) → Result Exception (CapabilityEntry C)
  found_entry k none = err (exception capability_not_found ("not registered: " ++ label k))
  found_entry k (some e) = ok e

  -- `get` and `resolve`
  unfoldable pub get_entry : Entries C → String → String → Result Exception (CapabilityEntry C)
  get_entry entries i v = found_entry (i, v) (get entries (i, v))

  -- `has` and `contains`
  unfoldable pub has : Entries C → String → String → Bool
  unfolding contains
  has entries i v = contains entries (i, v)

  -- `list` and `snapshot`
  unfoldable pub list_entries : Entries C → List (CapabilityEntry C)
  list_entries [] = []
  list_entries ((k, e) ∷ rest) = e ∷ list_entries rest
