-- ===== src/Kernel/SideEffects.antt =====
-- ois/kernel/side_effects.py: the transactional outbox of external effects. A method is one
-- transaction on the table ois_side_effect_outbox, whose keys are in
-- migrations/001_durable_execution.sql; `now` is the database's clock, in seconds. Rows of one age
-- are claimed in table order, and no row is locked by another transaction.
pub mod Delivery
pub mod Locks
pub mod History
pub mod Completed
use niceone_obsidian.Prelude.{
  ℕ, suc, ◌+◌, String, Bool, true, false, not, ◌&&◌, ◌||◌, Option, none, some, List, [], ◌∷◌, ◌++◌,
  map, ltb, leb, str_eq, any, or_else, length, keep, if◌then◌else◌,
}
use niceone_obsidian.Prelude.Values.{Value, Fields}
use niceone_obsidian.Prelude.Exec.{Result, ok, err}
use niceone_obsidian.Kernel.Errors.{Exception, exception, value_error, other}

pub record SideEffectCommand : Type 0 where
  pub effect_id : String
  pub tenant_id : String
  pub execution_id : String
  pub invocation_id : String
  pub capability_id : String
  pub idempotency_key : String
  pub request : Fields

pub record SideEffectResult : Type 0 where
  pub effect_id : String
  pub idempotency_key : String
  pub output : Value
  pub completed_at : Option ℕ

pub data EffectStatus : Type 0 where
  pending processing completed : EffectStatus

pub record Row : Type 0 where
  pub command : SideEffectCommand
  pub open command use *
  pub status : EffectStatus
  pub attempts : ℕ
  pub locked_at : Option ℕ
  pub completed_at : Option ℕ
  pub result : Option Value
  pub last_error : Option Fields
  pub created_at : ℕ
  pub updated_at : ℕ

abbrev pub Outbox : Type 0
Outbox = List Row

abbrev pub new_row : ℕ → SideEffectCommand → Row
new_row now c = record {
  command = c;
  status = pending;
  attempts = 0;
  locked_at = none;
  completed_at = none;
  result = none;
  last_error = none;
  created_at = now;
  updated_at = now;
}

-- A row with this value of the column is there.
abbrev pub has_invocation : String → Outbox → Bool
has_invocation i rows = any (λ r. str_eq r.invocation_id i) rows

-- The other unique columns, effect_id and idempotency_key.
abbrev pub violates : SideEffectCommand → Outbox → Bool
violates c rows =
    any (λ r. str_eq r.effect_id c.effect_id || str_eq r.idempotency_key c.idempotency_key) rows

-- `enqueue` of a command with its identity: ON CONFLICT (invocation_id) DO NOTHING. Any other
-- conflict is the database's error. The command is returned whether or not it was inserted.
unfoldable pub enqueue :
    ℕ → SideEffectCommand → Outbox → Result Exception (SideEffectCommand × Outbox)
enqueue now c rows =
    if has_invocation c.invocation_id rows
    then ok (c, rows)
    else if violates c rows
    then err (exception (other "UniqueViolation") "duplicate key value violates unique constraint")
    else ok (c, rows ++ new_row now c ∷ [])

-- `interval '5 minutes'`
abbrev pub lock_timeout : ℕ
lock_timeout = 300

-- `locked_at < now() - interval '5 minutes'`; a null compares as not true.
abbrev pub is_stale_lock : ℕ → Option ℕ → Bool
is_stale_lock now none = false
is_stale_lock now (some t) = ltb (t + lock_timeout) now

abbrev pub is_claimable : ℕ → EffectStatus → Option ℕ → Bool
is_claimable now pending lock = true
is_claimable now processing lock = is_stale_lock now lock
is_claimable now completed lock = false

abbrev pub claimable : ℕ → Row → Bool
claimable now r = is_claimable now r.status r.locked_at

abbrev pub older : Row → Option Row → Row
older r none = r
older r (some s) = if leb r.created_at s.created_at then r else s

-- ORDER BY created_at LIMIT 1 over the claimable rows
unfoldable pub candidate : ℕ → Outbox → Option Row
candidate now [] = none
candidate now (r ∷ rows) =
    let rest = candidate now rows in if claimable now r then some (older r rest) else rest

-- UPDATE ... SET f WHERE effect_id = i
unfoldable pub update_where : String → (Row → Row) → Outbox → Outbox
update_where i f [] = []
update_where i f (r ∷ rows) = (if str_eq r.effect_id i then f r else r) ∷ update_where i f rows

abbrev pub locked : ℕ → Row → Row
locked now r = record r {
  status = processing;
  attempts = r.attempts + 1;
  locked_at = some now;
  updated_at = now;
}

abbrev pub claim_row : ℕ → Outbox → Option Row → Option SideEffectCommand × Outbox
claim_row now rows none = (none, rows)
claim_row now rows (some r) = (some r.command, update_where r.effect_id (locked now) rows)

-- `claim`
unfoldable pub claim : ℕ → Outbox → Option SideEffectCommand × Outbox
unfolding candidate
claim now rows = claim_row now rows (candidate now rows)

abbrev pub finished : ℕ → SideEffectResult → Row → Row
finished now res r = record r {
  status = completed;
  completed_at = some (or_else res.completed_at now);
  result = some res.output;
  locked_at = none;
  updated_at = now;
}

abbrev pub reopened : ℕ → Fields → Row → Row
reopened now error r = record r {
  status = pending;
  locked_at = none;
  last_error = some error;
  updated_at = now;
}

-- The fencing arguments of `complete` and `fail`: no fencing, a fencing store with no lease, or the
-- answer of its check.
pub data Fence : Type 0 where
  unfenced unleased : Fence
  checked : Result Exception (Unit {0}) → Fence

abbrev pub fenced : Fence → Outbox → Result Exception Outbox
fenced unfenced rows = ok rows
fenced unleased rows = err (exception value_error "fencing requires a worker lease")
fenced (checked (ok x)) rows = ok rows
fenced (checked (err e)) rows = err e

-- `complete`
unfoldable pub complete :
    ℕ → Fence → SideEffectCommand → SideEffectResult → Outbox → Result Exception Outbox
complete now f c res rows = fenced f (update_where c.effect_id (finished now res) rows)

-- `fail`
unfoldable pub fail : ℕ → Fence → SideEffectCommand → Fields → Outbox → Result Exception Outbox
fail now f c error rows = fenced f (update_where c.effect_id (reopened now error) rows)

abbrev pub is_processing : EffectStatus → Bool
is_processing processing = true
is_processing _ = false

abbrev pub is_abandoned : ℕ → Row → Bool
is_abandoned now r = is_processing r.status && is_stale_lock now r.locked_at

abbrev pub unlocked : ℕ → Row → Row
unlocked now r = record r { status = pending; locked_at = none; updated_at = now }

unfoldable pub unlock_stale : ℕ → Outbox → Outbox
unlock_stale now [] = []
unlock_stale now (r ∷ rows) =
    (if is_abandoned now r then unlocked now r else r) ∷ unlock_stale now rows

-- `recover_stale`
unfoldable pub recover_stale : ℕ → Outbox → ℕ × Outbox
unfolding unlock_stale
recover_stale now rows = (length (keep (is_abandoned now) rows), unlock_stale now rows)
