-- ===== src/Infrastructure/Sources/Idempotency.antt =====
-- ois/infrastructure/source_gateway/idempotency.py, SQLiteIdempotencyStore: the table source_idempotency,
-- by its primary key of tenant, workspace and key.
use niceone_obsidian.Prelude.{
  ℕ, String, Bool, true, false, Option, none, some, str_eq, triple_eq, if◌then◌else◌,
}
use niceone_obsidian.Prelude.Dict.{Dict, get, contains, set, delete}

-- A row of source_idempotency without its key.
pub record Claim : Type 0 where
  pub event_id : String
  pub created_at : ℕ

abbrev pub ClaimKey : Type 0
ClaimKey = String × String × String

abbrev pub Claims : Type 0
Claims = Dict ClaimKey Claim

pub record IdempotencyRecord : Type 0 where
  pub tenant_id : String
  pub workspace_id : String
  pub key : String
  pub event_id : String
  pub created_at : ℕ

-- claim
unfoldable pub claim : ℕ → ClaimKey → String → Claims → Bool × Claims
unfolding contains set get
claim now k event_id table =
    if contains table k
    then (false, table)
    else (true, set table k (record { event_id = event_id; created_at = now }))

abbrev pub idempotency_record : ClaimKey → Option Claim → Option IdempotencyRecord
idempotency_record k none = none
idempotency_record (tenant, workspace, key) (some c) = some (record {
  tenant_id = tenant;
  workspace_id = workspace;
  key = key;
  event_id = c.event_id;
  created_at = c.created_at;
})

-- get
unfoldable pub find : ClaimKey → Claims → Option IdempotencyRecord
unfolding get
find k table = idempotency_record k (get table k)

abbrev pub is_claim_of : String → Option Claim → Bool
is_claim_of event_id none = false
is_claim_of event_id (some c) = str_eq c.event_id event_id

-- release
unfoldable pub release : ClaimKey → String → Claims → Bool × Claims
unfolding get delete
release k event_id table =
    if is_claim_of event_id (get table k) then (true, delete table k) else (false, table)
