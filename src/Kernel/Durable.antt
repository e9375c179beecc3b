-- ===== src/Kernel/Durable.antt =====
-- ois/kernel/idempotency.py: SQLiteIdempotencyStore. The table is a dictionary from the primary key to
-- the column `result_json`; each method is one transaction. The json library is a parameter.
pub mod Refines
use niceone_obsidian.Prelude.{
  String, Bool, true, false, Option, none, some, List, [], ◌∷◌, str_eq, string_eq, is_some,
  if◌then◌else◌,
}
use niceone_obsidian.Prelude.Dict.{Dict, get, set_default}
use niceone_obsidian.Prelude.Values.{Value, Fields, null, text, dict, end, field, get_field}
use niceone_obsidian.Prelude.Exec.{Result, ok, err}
use niceone_obsidian.Prelude.Parse.{
  Parsed, ◌>>=◌, text_or, fields_or, optional_fields, optional_text, optional_dict, optional,
}
use niceone_obsidian.Kernel.Errors.{Exception, exception, key_error, value_error}
use niceone_obsidian.Kernel.Types.{
  InvocationStatus, invocation_value, is_final, pending, running, succeeded, failed, cancelled,
  timed_out,
}
use niceone_obsidian.Kernel.Contracts.{InvocationResult}
use Prim.Native.String.{◌++◌}

-- `json.dumps` and `json.loads`, which may raise.
pub record Json : Type 1 where
  pub Payload : Type 0
  pub dumps : Fields → Result Exception Payload
  pub loads : Payload → Result Exception Fields

-- `InvocationStatus(value)`
unfoldable pub parse_invocation : String → Result Exception InvocationStatus
parse_invocation s =
    if str_eq s "pending"
    then ok pending
    else if str_eq s "running"
    then ok running
    else if str_eq s "succeeded"
    then ok succeeded
    else if str_eq s "failed"
    then ok failed
    else if str_eq s "cancelled"
    then ok cancelled
    else if str_eq s "timed_out"
    then ok timed_out
    else err (exception value_error ("'" ++ (s ++ "' is not a valid InvocationStatus")))

-- The dictionary that `put` dumps.
unfoldable pub result_dict : InvocationResult → Fields
unfolding invocation_value
result_dict r = field "invocation_id" (text r.invocation_id) (
    field "capability_id" (text r.capability_id) (
      field "status" (text (invocation_value r.status)) (
        field "output" r.output (
          field "error" (optional_dict r.error) (
            field "started_at" (optional r.started_at) (
              field "completed_at" (optional r.completed_at)
                (field "metadata" (dict r.metadata) end)))))))

abbrev pub needed : String → Option (Result Exception String)
needed k = some (err (exception key_error k))

abbrev pub value_or_none : Option Value → Value
value_or_none none = null
value_or_none (some v) = v

-- The result that `get` makes of the loaded dictionary.
unfoldable pub result_from : Fields → Parsed Exception InvocationResult
unfolding get_field parse_invocation
result_from d = do
  i ← text_or (needed "invocation_id") (get_field d "invocation_id")
  capability ← text_or (needed "capability_id") (get_field d "capability_id")
  name ← text_or (needed "status") (get_field d "status")
  status ← some (parse_invocation name)
  error ← optional_fields (get_field d "error")
  started ← optional_text (get_field d "started_at")
  finished ← optional_text (get_field d "completed_at")
  metadata ← fields_or end (get_field d "metadata")
  some (
      ok (record {
        invocation_id = i;
        capability_id = capability;
        status = status;
        output = value_or_none (get_field d "output");
        error = error;
        started_at = started;
        completed_at = finished;
        metadata = metadata;
      }))

module _ (j : Json) where
  -- What `get` makes of the row that it selects.
  abbrev pub read_row : Option j.Payload → Parsed Exception (Option InvocationResult)
  read_row none = some (ok none)
  read_row (some s) = some (j.loads s) >>= λ d. result_from d >>= λ r. some (ok (some r))

  -- SQLiteIdempotencyStore.get
  unfoldable pub sql_get :
      Dict String j.Payload → String → Parsed Exception (Option InvocationResult)
  unfolding get result_from
  sql_get t k = read_row (get t k)

  abbrev pub insert_row :
      Dict String j.Payload
      → String
      → Result Exception j.Payload
      → Result Exception (Dict String j.Payload)
  insert_row t k (err e) = err e
  insert_row t k (ok s) = ok (set_default t k s)

  -- SQLiteIdempotencyStore.put; INSERT OR IGNORE keeps a row that is there.
  unfoldable pub sql_put :
      Dict String j.Payload → String → InvocationResult → Result Exception (Dict String j.Payload)
  unfolding set_default result_dict
  sql_put t k r = if is_final r.status then insert_row t k (j.dumps (result_dict r)) else ok t

  -- SQLiteIdempotencyStore.exists
  unfoldable pub sql_exists : Dict String j.Payload → String → Parsed Exception Bool
  unfolding sql_get
  sql_exists t k = sql_get t k >>= λ r. some (ok (is_some r))
