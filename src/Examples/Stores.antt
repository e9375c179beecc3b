-- ===== src/Examples/Stores.antt =====
-- The refinement of the in-memory idempotency store, with a json library that keeps dictionaries as they
-- are.
use niceone_obsidian.Prelude.{
  String, ◌≡◌, refl, Option, some, List, [], ◌∷◌, string_eq, arith, keep,
}
use niceone_obsidian.Prelude.Dict.{get, set, contains, set_default}
use niceone_obsidian.Prelude.Values.{get_field}
use niceone_obsidian.Prelude.Exec.{ok}
use niceone_obsidian.Kernel.Types.{failed}
use niceone_obsidian.Kernel.Contracts.{InvocationResult}
use niceone_obsidian.Kernel.World.{World, get_result}
use niceone_obsidian.Kernel.Durable.{Json, result_dict, sql_get, sql_put}
use niceone_obsidian.Kernel.Durable.Refines.{
  IsJson, is_final_put, put_rows, put_memory, returned_result, sqlite_refines,
}
use niceone_obsidian.Examples.Executions.{answer, begun}
use niceone_obsidian.Prelude.Values.{Fields}
use mathlib.Core.Option.{map as option_map}

abbrev plain : Json
plain = record { Payload = Fields; dumps = λ d. ok d; loads = λ d. ok d }

same : (d : Fields) (k : String) → get_field d k ≡ option_map (λ v. v) (get_field d k)
same d k = ground arith

plain-IsJson : IsJson plain
plain-IsJson = record {
  returned = λ v. v;
  returned_fields = λ d. d;
  of_null = refl;
  of_text = λ s. refl;
  of_dict = λ d. refl;
  loaded = λ d. d;
  loads_dumps = λ d s e. ground (arith, e);
  fields_loaded = same;
}

abbrev failure : InvocationResult
failure = record answer { invocation_id = "inv-2"; status = failed }

-- The second put keeps nothing, and the third not its result.
abbrev puts : List (String × InvocationResult)
puts =
    ("inv-1", answer)
    ∷ ("inv-2", failure)
    ∷ ("inv-1", record answer { capability_id = "other" })
    ∷ []

abbrev empty_world : World
empty_world = record begun { results = [] }

stored : put_rows plain puts [] ≡ ok (("inv-1", result_dict answer) ∷ [])
unfolding put_rows sql_put set_default set contains get
stored = refl

sqlite_refines_example :
    let w' : World = put_memory (keep is_final_put puts) empty_world in
    ((r : Option InvocationResult) × ((get_result "inv-1" w').0 ≡ ok r)
      × (sql_get plain (("inv-1", result_dict answer) ∷ []) "inv-1"
          ≡ some (ok (option_map (returned_result plain-IsJson) r))))
sqlite_refines_example =
    sqlite_refines plain plain-IsJson puts (("inv-1", result_dict answer) ∷ []) empty_world "inv-1"
      stored refl
