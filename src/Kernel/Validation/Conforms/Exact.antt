-- ===== src/Kernel/Validation/Conforms/Exact.antt =====
-- The keyword properties (ois/kernel/validation.py), and the values that the validator accepts.
use Prim.Native.String.{◌++◌ as text_append}
use niceone_obsidian.Prelude.{
  String, ◌≡◌, ◌↔◌, refl, sym, ap, Option, some, [], str_eq, arith, Bool-cases, inl, inr,
}
use niceone_obsidian.Prelude.Values.{Value, Fields, dict, end, field, get_field}
use niceone_obsidian.Kernel.Validation.{
  property_errors, declared_errors, each_property, one_property, validate_schema,
}
use niceone_obsidian.Kernel.Validation.Conforms.{Declares, Meets, Conforms, conforms}
use niceone_obsidian.Kernel.Validation.Conforms.Local.{
  append_nil, accepted_parts, accepted-Meets, Meets-accepted,
}

-- The declared properties of a schema, as far as they are looked up in `rest`.
abbrev Below : Fields → Value → Type 0
Below rest v =
    (properties d sub : Fields) (name : String) (w : Value)
    → get_field rest "properties" ≡ some (dict properties)
    → v ≡ dict d
    → Declares name sub properties
    → get_field d name ≡ some w
    → Conforms sub w

parts : (schema : Fields) (v : Value) → Conforms schema v → Meets schema v × Below schema v
parts schema v (conforms _ _ m n) = (m, n)

some_inj : {v w : Value} → some v ≡ some w → v ≡ w
some_inj e = cc

dict_inj : {d c : Fields} → dict d ≡ dict c → d ≡ c
dict_inj e = cc

mutual
  unfolding property_errors declared_errors each_property one_property get_field

  properties-Below :
      (rest : Fields) (v : Value) (path : String) → property_errors rest v path ≡ [] → Below rest v
  properties-Below end v path h ps d sub name w p e c g = ground arith
  properties-Below (field k s rest) v path h ps d sub name w p e c g =
      elim (Bool-cases (str_eq k "properties")) [
        | inl y ↦ declared-Below s v path (rw y at h) ps d sub name w (some_inj (rw y at p)) e c g
        | inr n ↦ properties-Below rest v path (rw n at h) ps d sub name w (rw n at p) e c g
      ]

  declared-Below :
      (s v : Value) (path : String)
      → declared_errors s v path ≡ []
      → (ps d sub : Fields) (name : String) (w : Value) → s ≡ dict ps
      → v ≡ dict d
      → Declares name sub ps
      → get_field d name ≡ some w
      → Conforms sub w
  declared-Below (dict qs) (dict c) path h ps d sub name w p e x g =
      each-Below qs c path h sub name w (rw (dict_inj p) x) (rw (dict_inj e) g)
  declared-Below _ _ path h ps d sub name w p e x g = ground arith

  each-Below :
      (ps d : Fields) (path : String)
      → each_property ps d path ≡ []
      → (sub : Fields) (name : String) (w : Value) → Declares name sub ps
      → get_field d name ≡ some w
      → Conforms sub w
  each-Below end d path h sub name w x g = absurd x
  each-Below (field k s rest) d path h sub name w x g =
      let (first, others) =
        append_nil (one_property s (get_field d k) (text_append path (text_append "." k)))
          (each_property rest d path) h in
      elim x [
        | inl (e, p) ↦
            one-Below s (get_field d k) (text_append path (text_append "." k)) first sub w p
              (rw e g)
        | inr y ↦ each-Below rest d path others sub name w y g
      ]

  one-Below :
      (s : Value) (o : Option Value) (path : String)
      → one_property s o path ≡ []
      → (sub : Fields) (w : Value) → s ≡ dict sub
      → o ≡ some w
      → Conforms sub w
  one-Below (dict schema) (some v) path h sub w p e =
      let (t, u, r, n) = accepted_parts schema v path (property_errors schema v path) h in
      rw (sym (dict_inj p), sym (some_inj e))
        (conforms schema v (accepted-Meets schema v path t u r) (properties-Below schema v path n))
  one-Below _ _ path h sub w p e = ground arith

mutual
  unfolding property_errors declared_errors each_property one_property get_field

  Below-properties :
      (rest : Fields) (v : Value) (path : String) → Below rest v → property_errors rest v path ≡ []
  Below-properties end v path b = refl
  Below-properties (field k s rest) v path b = elim (Bool-cases (str_eq k "properties")) [
    | inl y ↦
        rw y (Below-declared s v path (λ ps d sub name w p. b ps d sub name w (rw y (ap some p))))
    | inr n ↦ rw n (Below-properties rest v path (λ ps d sub name w p. b ps d sub name w (rw n p)))
  ]

  Below-declared :
      (s v : Value) (path : String)
      → ((ps d sub : Fields) (name : String) (w : Value)
          → s ≡ dict ps
          → v ≡ dict d
          → Declares name sub ps
          → get_field d name ≡ some w
          → Conforms sub w)
      → declared_errors s v path ≡ []
  Below-declared (dict ps) (dict d) path b =
      Below-each ps d path (λ sub name w. b ps d sub name w refl refl)
  Below-declared _ _ path b = refl

  Below-each :
      (ps d : Fields) (path : String)
      → ((sub : Fields) (name : String) (w : Value)
          → Declares name sub ps
          → get_field d name ≡ some w
          → Conforms sub w)
      → each_property ps d path ≡ []
  Below-each end d path b = refl
  Below-each (field k s rest) d path b =
      rw
        (
          Below-one s (get_field d k) (text_append path (text_append "." k))
              (λ sub w p e. b sub k w (inl (refl, p)) e),
          Below-each rest d path (λ sub name w x. b sub name w (inr x)),
        )
        refl

  Below-one :
      (s : Value) (o : Option Value) (path : String)
      → ((sub : Fields) (w : Value) → s ≡ dict sub → o ≡ some w → Conforms sub w)
      → one_property s o path ≡ []
  Below-one (dict schema) (some v) path b =
      let (m, n) = parts schema v (b schema v refl refl) in
      Meets-accepted schema v path (property_errors schema v path) m
        (Below-properties schema v path n)
  Below-one _ _ path b = refl

-- The validator accepts a value, under whatever path it reports errors, exactly if the value conforms to the
-- schema.
pub accepted_iff_Conforms :
    (schema : Fields) (v : Value) (path : String)
    → (validate_schema v schema path ≡ []) ↔ Conforms schema v
unfolding validate_schema one_property get_field
accepted_iff_Conforms schema v path = (
  λ h. one-Below (dict schema) (some v) path h schema v refl refl,
  λ c.
      Below-one (dict schema) (some v) path
        (λ sub w p e. rw (sym (dict_inj p), sym (some_inj e)) c),
)
