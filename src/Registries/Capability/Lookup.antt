-- ===== src/Registries/Capability/Lookup.antt =====
-- Looking up registered capabilities (core.py).
use niceone_obsidian.Prelude.{
  String, ◌≡◌, true, false, Option, none, some, pair_eq, arith, if◌then◌else◌,
}
use niceone_obsidian.Prelude.Dict.{contains, get-set, get-delete}
use niceone_obsidian.Prelude.Exec.{Result, ok}
use niceone_obsidian.Kernel.Errors.{Exception}
use niceone_obsidian.Kernel.Contracts.{CapabilityContract}
use niceone_obsidian.Registries.Capability.{
  Key, CapabilityEntry, Entries, Registration, named, native, or_text, register, register_native,
  register_named, add_entry, get_entry, found_entry, has, unregister,
}

-- The answer of `get` in a registry where one key has this entry, or none.
abbrev pub overlaid :
    {C : Type 0}
    → Key
    → Option (CapabilityEntry C)
    → Entries C
    → Key
    → Result Exception (CapabilityEntry C)
overlaid k e entries (j, u) =
    if pair_eq.same_key k (j, u) then found_entry (j, u) e else get_entry entries j u

abbrev pub entry_of : {C : Type 0} → (C → Option CapabilityContract) → Key → C → CapabilityEntry C
entry_of contract_of (i, v) c = record {
  capability = c;
  contract = contract_of c;
  id = i;
  version = v;
}

module _ {C : Type 0} (contract_of : C → Option CapabilityContract)
    (entries after : Entries C) where
  -- What a successful registration has done.
  abbrev pub Added : Type 0
  Added =
      (k : Key) × (c : C) × (has entries k.0 k.1 ≡ false)
      × ((j u : String)
          → get_entry after j u ≡ overlaid k (some (entry_of contract_of k c)) entries (j, u))

  added : (k : Key) (c : C) → add_entry contract_of entries k c ≡ ok after → Added
  unfolding add_entry contains get_entry has
  added k c e = (
    k,
    c,
    ground arith,
    λ j u. ground (arith, get-set entries k (j, u) (entry_of contract_of k c)),
  )

  -- A registration that succeeds found its key free. Afterwards the capability is what `get` finds
  -- under that key, with its contract, and every other lookup answers as before.
  register_lookup : (call : Registration C) → register contract_of entries call ≡ ok after → Added
  unfolding register register_named register_native
  register_lookup (named i v none) e = ground arith
  register_lookup (named i v (some c)) e = added (i, or_text v) c (ground arith)
  register_lookup (native c) e = go (contract_of c) e
    where
      go :
          (k : Option CapabilityContract)
          → register_native contract_of entries c k ≡ ok after
          → Added
      go none e = ground arith
      go (some k) e = added (k.capability_id, k.version) c e

module _ {C : Type 0} where
  -- A removal that succeeds found its key. Afterwards `get` refuses that key, and every other lookup
  -- answers as before.
  unregister_lookup :
      (entries after : Entries C) (i v : String)
      → unregister entries i v ≡ ok after
      → (has entries i v ≡ true)
        × ((j u : String) → get_entry after j u ≡ overlaid (i, v) none entries (j, u))
  unfolding unregister contains get_entry has
  unregister_lookup entries after i v e =
      (ground arith, λ j u. ground (arith, get-delete entries (i, v) (j, u)))
