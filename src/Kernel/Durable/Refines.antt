-- ===== src/Kernel/Durable/Refines.antt =====
-- The durable idempotency store refines the in-memory one (idempotency.py).
use mathlib.Core.Path.{subst}
use mathlib.Core.Option.{map as option_map}
use niceone_obsidian.Prelude.{
  String, Bool, true, false, ◌≡◌, refl, sym, ◌∙◌, ap, Option, none, some, List, [], ◌∷◌, str_eq,
  string_eq, arith, ◌⊎◌, Bool-cases, inl, inr, is_some, keep,
}
use niceone_obsidian.Prelude.Dict.{Dict, get, contains, set, set_default, get-set}
use niceone_obsidian.Prelude.Values.{Value, Fields, null, text, dict, get_field}
use niceone_obsidian.Prelude.Exec.{Result, ok, err}
use niceone_obsidian.Prelude.Parse.{optional_dict, optional, optional_fields, optional_text}
use niceone_obsidian.Kernel.Errors.{Exception}
use niceone_obsidian.Kernel.Types.{InvocationStatus, invocation_value, is_final}
use niceone_obsidian.Kernel.Contracts.{InvocationResult}
use niceone_obsidian.Kernel.World.{World, put_result, get_result}
use niceone_obsidian.Kernel.Durable.{
  Json, parse_invocation, result_dict, result_from, read_row, sql_get, insert_row, sql_put,
}

-- What is relied on of the json library: a dictionary that was dumped is loaded with the same keys, and
-- under each the value that JSON gives back for its value (keys sorted, tuples as lists).
pub record IsJson (j : Json) : Type 0 where
  pub returned : Value → Value
  pub returned_fields : Fields → Fields
  pub of_null : returned null ≡ null
  pub of_text : (s : String) → returned (text s) ≡ text s
  pub of_dict : (d : Fields) → returned (dict d) ≡ dict (returned_fields d)
  pub loaded : Fields → Fields
  pub loads_dumps : (d : Fields) (s : j.Payload) → j.dumps d ≡ ok s → j.loads s ≡ ok (loaded d)
  pub fields_loaded :
      (d : Fields) (k : String) → get_field (loaded d) k ≡ option_map returned (get_field d k)

parse_invocation-invocation_value :
    (s : InvocationStatus) → parse_invocation (invocation_value s) ≡ ok s
unfolding parse_invocation invocation_value
parse_invocation-invocation_value InvocationStatus.pending = refl
parse_invocation-invocation_value _ = refl

module _ {j : Json} (h : IsJson j) where
  -- A result as JSON gives it back.
  abbrev pub returned_result : InvocationResult → InvocationResult
  returned_result r = record r {
    output = h.returned r.output;
    error = option_map h.returned_fields r.error;
    metadata = h.returned_fields r.metadata;
  }

  returned-optional_dict :
      (o : Option Fields)
      → optional_fields {E = Exception} (some (h.returned (optional_dict o)))
        ≡ some (ok (option_map h.returned_fields o))
  returned-optional_dict none = rw h.of_null refl
  returned-optional_dict (some d) = rw (h.of_dict d) refl

  returned-optional :
      (o : Option String)
      → optional_text {E = Exception} (some (h.returned (optional o))) ≡ some (ok o)
  returned-optional none = rw h.of_null refl
  returned-optional (some s) = rw (h.of_text s) refl

  result_from-result_dict :
      (r : InvocationResult)
      → result_from (h.loaded (result_dict r)) ≡ some (ok (returned_result r))
  unfolding result_from result_dict get_field
  result_from-result_dict r = simp (
    h.fields_loaded, h.of_text, h.of_dict, returned-optional_dict, returned-optional,
    parse_invocation-invocation_value,
  )

  -- The table answers as the dictionary does.
  abbrev Agrees : Dict String j.Payload → Dict String InvocationResult → Type 0
  Agrees t d =
      (k : String)
      → (sql_get j t k ≡ some (ok (option_map returned_result (get d k))))
        × (contains t k ≡ contains d k)

  row_read :
      (r : InvocationResult) (s : j.Payload)
      → j.dumps (result_dict r) ≡ ok s
      → read_row j (some s) ≡ some (ok (some (returned_result r)))
  row_read r s e = rw (h.loads_dumps (result_dict r) s e, result_from-result_dict r) refl

  Agrees-insert :
      (t : Dict String j.Payload) (d : Dict String InvocationResult) (k : String)
      (r : InvocationResult) (s : j.Payload)
      → j.dumps (result_dict r) ≡ ok s
      → Agrees t d
      → Agrees (set_default t k s) (set_default d k r)
  unfolding set_default contains sql_get
  Agrees-insert t d k r s e a i = elim (Bool-cases (contains d k)) [
    | inl y ↦ rw (y, (a k).1 ∙ y) (a i)
    | inr n ↦ rw (n, (a k).1 ∙ n) (new (Bool-cases (str_eq k i)))
  ]
    where
      new :
          (str_eq k i ≡ true) ⊎ (str_eq k i ≡ false)
          → (read_row j (get (set t k s) i)
              ≡ some (ok (option_map returned_result (get (set d k r) i))))
            × (is_some (get (set t k s) i) ≡ is_some (get (set d k r) i))
      new (inl y) = rw (get-set t k i s, get-set d k i r, y) (row_read r s e, refl)
      new (inr n) = rw (get-set t k i s, get-set d k i r, n) (a i)

-- Puts one after another, in the table and in the in-memory store.
abbrev Put : Type 0
Put = String × InvocationResult

abbrev pub is_final_put : Put → Bool
is_final_put (k, r) = is_final r.status

abbrev and_put : {A B : Type 0} → Result Exception A → (A → Result Exception B) → Result Exception B
and_put (ok a) f = f a
and_put (err e) f = err e

unfoldable pub put_rows :
    (j : Json) → List Put → Dict String j.Payload → Result Exception (Dict String j.Payload)
unfolding sql_put
put_rows j [] t = ok t
put_rows j ((k, r) ∷ ps) t = and_put (sql_put j t k r) (put_rows j ps)

unfoldable pub put_results : List Put → Dict String InvocationResult → Dict String InvocationResult
unfolding set_default
put_results [] d = d
put_results ((k, r) ∷ ps) d = put_results ps (set_default d k r)

module _ {j : Json} (h : IsJson j) where
  -- The put of a final result, whose dump may raise.
  inserted :
      (ps : List Put) (k : String) (r : InvocationResult) (t t' : Dict String j.Payload)
      (d : Dict String InvocationResult) (x : Result Exception j.Payload)
      → ((t : Dict String j.Payload) (d : Dict String InvocationResult)
          → put_rows j ps t ≡ ok t'
          → Agrees h t d
          → Agrees h t' (put_results (keep is_final_put ps) d))
      → j.dumps (result_dict r) ≡ x
      → and_put (insert_row j t k x) (put_rows j ps) ≡ ok t'
      → Agrees h t d
      → Agrees h t' (put_results (keep is_final_put ps) (set_default d k r))
  inserted ps k r t t' d (err z) next q e a = absurd (ground (arith, e))
  inserted ps k r t t' d (ok s) next q e a =
      next (set_default t k s) (set_default d k r) e (Agrees-insert h t d k r s q a)

  Agrees-rows :
      (ps : List Put) (t t' : Dict String j.Payload) (d : Dict String InvocationResult)
      → put_rows j ps t ≡ ok t'
      → Agrees h t d
      → Agrees h t' (put_results (keep is_final_put ps) d)
  unfolding put_rows put_results
  Agrees-rows [] t t' d e a =
      let same : t ≡ t' = ground (arith, e) in subst (λ z. Agrees h z d) same a
  Agrees-rows ((k, r) ∷ ps) t t' d e a = elim (Bool-cases (is_final r.status)) [
    | inl y ↦
        let put : sql_put j t k r ≡ insert_row j t k (j.dumps (result_dict r)) = rw y refl in
        rw y (
          inserted ps k r t t' d (j.dumps (result_dict r)) (λ u c. Agrees-rows ps u t' c) refl
            (sym (ap (λ z. and_put z (put_rows j ps)) put) ∙ e) a)
    | inr n ↦
        let put : sql_put j t k r ≡ ok t = rw n refl in
        rw n (Agrees-rows ps t t' d (sym (ap (λ z. and_put z (put_rows j ps)) put) ∙ e) a)
  ]

-- Puts one after another into the in-memory store.
unfoldable pub put_memory : List Put → World → World
unfolding put_result
put_memory [] w = w
put_memory ((k, r) ∷ ps) w = put_memory ps (put_result k r w).1

memory_results : (ps : List Put) (w : World) → (put_memory ps w).results ≡ put_results ps w.results
unfolding put_memory put_results put_result
memory_results [] w = refl
memory_results ((k, r) ∷ ps) w = memory_results ps (put_result k r w).1

-- After any puts into an empty SQLite store of which none raises, every `get` returns what the in-memory
-- store returns that was empty too and was given the final results among them, as JSON gives it back.
pub sqlite_refines :
    (j : Json) (h : IsJson j) (ps : List Put) (t : Dict String j.Payload) (w : World) (k : String)
    → put_rows j ps [] ≡ ok t
    → w.results ≡ []
    → let w' : World = put_memory (keep is_final_put ps) w in
      ((r : Option InvocationResult) × ((get_result k w').0 ≡ ok r)
        × (sql_get j t k ≡ some (ok (option_map (returned_result h) r))))
unfolding get sql_get contains get_result
sqlite_refines j h ps t w k e o = (
  get (put_memory (keep is_final_put ps) w).results k,
  refl,
  rw (memory_results (keep is_final_put ps) w, o)
      ((Agrees-rows h ps [] t [] e (λ i. (refl, refl)) k).0),
)
