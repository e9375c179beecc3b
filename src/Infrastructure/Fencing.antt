-- ===== src/Infrastructure/Fencing.antt =====
-- ois/infrastructure/postgres_fencing.py, PostgresWorkerLeaseStore: the table of worker leases. A
-- method is one transaction on the table. The database's `now()` and the worker's own clock, which
-- `claim` compares with, are separate arguments. Time is counted in ticks of both clocks.
pub mod Epochs
use niceone_obsidian.Prelude.{
  ℕ, suc, ◌+◌, String, Bool, true, false, not, ◌&&◌, Option, none, some, ltb, nat_eq, str_eq,
  string_eq, if◌then◌else◌,
}
use niceone_obsidian.Prelude.Dict.{Dict, get, set, delete}
use niceone_obsidian.Prelude.Exec.{Result, ok, err}
use niceone_obsidian.Kernel.Errors.{Exception, exception, value_error, fencing_error}
use niceone_obsidian.Prelude.Texts.{decimal}
use Prim.Native.String.{◌++◌}

pub record WorkerLease : Type 0 where
  pub execution_id : String
  pub worker_id : String
  pub epoch : ℕ
  pub lease_expires_at : ℕ

-- A row of ois_worker_leases, without its key.
pub record Row : Type 0 where
  pub worker_id : String
  pub epoch : ℕ
  pub lease_expires_at : ℕ

abbrev pub Table : Type 0
Table = Dict String Row

-- What the two clocks show when a transaction runs.
pub record Clocks : Type 0 where
  pub db : ℕ
  pub worker : ℕ

abbrev pub lease_of : String → Row → WorkerLease
lease_of x r = record {
  execution_id = x;
  worker_id = r.worker_id;
  epoch = r.epoch;
  lease_expires_at = r.lease_expires_at;
}

abbrev pub write : Table → String → Row → Option WorkerLease × Table
write t x r = (some (lease_of x r), set t x r)

-- The row that a successful claim writes over another.
abbrev pub claimed : ℕ → Clocks → String → Row → Row
claimed ttl now worker r = record {
  worker_id = worker;
  epoch =
      if str_eq r.worker_id worker && ltb now.worker r.lease_expires_at
      then r.epoch
      else suc r.epoch;
  lease_expires_at = now.db + ttl;
}

abbrev pub claim_row :
    ℕ → Clocks → String → String → Table → Option Row → Option WorkerLease × Table
claim_row ttl now x worker t none =
    write t x (record { worker_id = worker; epoch = 1; lease_expires_at = now.db + ttl })
claim_row ttl now x worker t (some r) =
    if ltb now.worker r.lease_expires_at && not (str_eq r.worker_id worker)
    then (none, t)
    else write t x (claimed ttl now worker r)

-- `claim`; the outer result is its ValueError.
unfoldable pub claim :
    ℕ → Clocks → String → String → Table → Result Exception (Option WorkerLease × Table)
unfolding get set
claim ttl now x worker t =
    if str_eq worker ""
    then err (exception value_error "worker_id must not be empty")
    else ok (claim_row ttl now x worker t (get t x))

-- The WHERE clause of the fencing check.
abbrev pub holds : ℕ → WorkerLease → Option Row → Bool
holds now l none = false
holds now l (some r) =
    str_eq r.worker_id l.worker_id && (nat_eq r.epoch l.epoch && ltb now r.lease_expires_at)

unfoldable pub is_current : ℕ → WorkerLease → Table → Bool
is_current now l t = holds now l (get t l.execution_id)

-- `assert_current`
unfoldable pub assert_current : ℕ → WorkerLease → Table → Result Exception (Unit {0})
unfolding is_current
assert_current now l t =
    if is_current now l t
    then ok tt
    else err (
        exception fencing_error (
          "stale or expired worker lease: execution="
          ++ l.execution_id
          ++ " worker="
          ++ l.worker_id
          ++ " epoch="
          ++ decimal l.epoch))

abbrev pub renewed : ℕ → ℕ → WorkerLease → WorkerLease
renewed ttl now l = record l { lease_expires_at = now + ttl }

-- `renew`
unfoldable pub renew : ℕ → ℕ → WorkerLease → Table → Result Exception (WorkerLease × Table)
unfolding is_current set
renew ttl now l t =
    if is_current now l t
    then ok (
      renewed ttl now l,
      set t l.execution_id
          (record { worker_id = l.worker_id; epoch = l.epoch; lease_expires_at = now + ttl }),
    )
    else err (exception fencing_error "cannot renew a stale or expired worker lease")

-- The WHERE clause of `release`, which has no look at the expiry.
abbrev pub owns : WorkerLease → Option Row → Bool
owns l none = false
owns l (some r) = str_eq r.worker_id l.worker_id && nat_eq r.epoch l.epoch

-- `release`
unfoldable pub release : WorkerLease → Table → Table
unfolding delete
release l t = if owns l (get t l.execution_id) then delete t l.execution_id else t
