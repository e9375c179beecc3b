-- ===== src/Prelude/Parse.antt =====
-- Reading a record back from a dictionary. `none` stands for a payload of a shape that the program
-- itself never writes, of which nothing is said; an exception is the source's own.
use mathlib.Core.Option.{Option, none, some}
use Prim.Native.String.{String}
use mathlib.Core.List.{List, [], ◌∷◌}
use niceone_obsidian.Prelude.Exec.{Result, ok, err}
use niceone_obsidian.Prelude.Values.{
  Value, Items, Fields, null, text, array, tuple, dict, nil, cons,
}

abbrev pub Parsed : Type 0 → Type 0 → Type 0
Parsed E A = Option (Result E A)

module _ {E A B : Type 0} where
  infixl 10 ◌>>=◌
  abbrev pub ◌>>=◌ : Parsed E A → (A → Parsed E B) → Parsed E B
  ◌>>=◌ none f = none
  ◌>>=◌ (some (err e)) f = some (err e)
  ◌>>=◌ (some (ok a)) f = f a

module _ {E : Type 0} where
  -- `str(d[k])`, where the key may have to be there.
  abbrev pub text_or : Option (Result E String) → Option Value → Parsed E String
  text_or d none = d
  text_or d (some (text s)) = some (ok s)
  text_or d (some v) = none

  -- `d.get(k, {})` as a dictionary
  abbrev pub fields_or : Fields → Option Value → Parsed E Fields
  fields_or d none = some (ok d)
  fields_or d (some (dict f)) = some (ok f)
  fields_or d (some v) = none

  -- `d.get(k)` as a dictionary or None
  abbrev pub optional_fields : Option Value → Parsed E (Option Fields)
  optional_fields none = some (ok none)
  optional_fields (some null) = some (ok none)
  optional_fields (some (dict f)) = some (ok (some f))
  optional_fields (some v) = none

  -- `d.get(k)` as a text or None
  abbrev pub optional_text : Option Value → Parsed E (Option String)
  optional_text none = some (ok none)
  optional_text (some null) = some (ok none)
  optional_text (some (text s)) = some (ok (some s))
  optional_text (some v) = none

  abbrev pub add_text : String → Parsed E (List String) → Parsed E (List String)
  add_text s r = r >>= λ ts. some (ok (s ∷ ts))

  -- A sequence of texts.
  unfoldable pub texts_in : Items → Parsed E (List String)
  texts_in nil = some (ok [])
  texts_in (cons (text s) xs) = add_text s (texts_in xs)
  texts_in (cons v xs) = none

  abbrev pub texts_or : Option Value → Parsed E (List String)
  texts_or none = some (ok [])
  texts_or (some (array xs)) = texts_in xs
  texts_or (some (tuple xs)) = texts_in xs
  texts_or (some v) = none

-- The values that hold these.
unfoldable pub text_items : List String → Items
text_items [] = nil
text_items (s ∷ ss) = cons (text s) (text_items ss)

abbrev pub optional_dict : Option Fields → Value
optional_dict none = null
optional_dict (some d) = dict d

abbrev pub optional : Option String → Value
optional none = null
optional (some s) = text s
