-- ===== src/Examples/Delivery.antt =====
-- The properties of the outbox and of the worker leases on small tables.
use mathlib.Core.Bool.{false≢true}
use niceone_obsidian.Prelude.{
  str_eq_iff, ℕ, String, ◌≡◌, ◌≢◌, refl, true, false, some, [], ◌∷◌, arith, All, Extends, string_eq,
}
use niceone_obsidian.Prelude.Dict.{get, set}
use niceone_obsidian.Prelude.Values.{end}
use niceone_obsidian.Prelude.Exec.{ok}
use niceone_obsidian.Kernel.SideEffects.{
  SideEffectCommand, Row, Outbox, pending, processing, completed, new_row, locked, claim, candidate,
  update_where, claimable, fail, unfenced, reopened, recover_stale, unlock_stale,
}
use niceone_obsidian.Kernel.SideEffects.Delivery.{NotOlder}
use niceone_obsidian.Kernel.SideEffects.Locks.{Written, claim_oldest, claim_exclusive, fail_reopens}
use niceone_obsidian.Kernel.SideEffects.History.{
  claims, recovers, run, step, commands, commands-run,
}
use niceone_obsidian.Kernel.SideEffects.Completed.{IsDone, completed_not_claimed}
use niceone_obsidian.Infrastructure.Fencing
use niceone_obsidian.Infrastructure.Fencing.{
  WorkerLease, Table, Clocks, lease_of, is_current, release, owns,
}
use niceone_obsidian.Infrastructure.Fencing.Epochs.{renews, steps, takeover_fences, release_revives}

abbrev effect : String → SideEffectCommand
effect i = record {
  effect_id = i;
  tenant_id = "tenant-1";
  execution_id = "exec-1";
  invocation_id = i;
  capability_id = "publish";
  idempotency_key = i;
  request = end;
}

-- An effect that waits since 10, another since 5, and one that is completed.
abbrev table : Outbox
table =
    new_row 10 (effect "a")
    ∷ new_row 5 (effect "b")
    ∷ record (new_row 1 (effect "c")) { status = completed }
    ∷ []

-- The table after the claim at 20 of the effect that waits longest.
abbrev claimed_table : Outbox
claimed_table =
    new_row 10 (effect "a")
    ∷ locked 20 (new_row 5 (effect "b"))
    ∷ record (new_row 1 (effect "c")) { status = completed }
    ∷ []

first_claim : claim 20 table ≡ (some (effect "b"), claimed_table)
unfolding claim candidate update_where
first_claim = refl

abbrev twice_claimed : Outbox
twice_claimed =
    locked 30 (new_row 10 (effect "a"))
    ∷ locked 20 (new_row 5 (effect "b"))
    ∷ record (new_row 1 (effect "c")) { status = completed }
    ∷ []

second_claim : claim 30 claimed_table ≡ (some (effect "a"), twice_claimed)
unfolding claim candidate update_where
second_claim = refl

claim_oldest_example :
    (r : Row) × (r.command ≡ effect "b")
    × (claimable 20 r ≡ true)
    × All (NotOlder 20 r) table
    × All (Written (λ q. (q.status ≡ processing) × (q.locked_at ≡ some 20)) "b") claimed_table
claim_oldest_example = claim_oldest 20 table claimed_table (effect "b") first_claim

claim_exclusive_example : (effect "a").effect_id ≢ (effect "b").effect_id
claim_exclusive_example =
    claim_exclusive 20 30 table claimed_table twice_claimed (effect "b") (effect "a") first_claim
      (omega arith) second_claim

IsDone-c : IsDone "c" table
IsDone-c = record {
  there = refl;
  done = (λ h. absurd (false≢true h), (λ h. absurd (false≢true h), (λ h. refl, tt)));
}

recovered_claim : claim 20 (run (recovers 15 ∷ []) table) ≡ (some (effect "b"), claimed_table)
unfolding run step claim candidate update_where recover_stale unlock_stale
recovered_claim = refl

completed_not_claimed_example : (effect "b").effect_id ≢ "c"
completed_not_claimed_example =
    completed_not_claimed "c" (recovers 15 ∷ []) table IsDone-c (tt, tt) 20 (effect "b")
      claimed_table recovered_claim

commands-run_example :
    Extends (commands table) (commands (run (claims 20 ∷ recovers 400 ∷ []) table))
commands-run_example = commands-run (claims 20 ∷ recovers 400 ∷ []) table

abbrev failed_table : Outbox
failed_table =
    new_row 10 (effect "a")
    ∷ new_row 5 (effect "b")
    ∷ reopened 40 end (record (new_row 1 (effect "c")) { status = completed })
    ∷ []

failing : fail 40 unfenced (effect "c") end table ≡ ok failed_table
unfolding fail update_where
failing = refl

fail_reopens_example :
    All (Written (λ q. (q.status ≡ pending) × (claimable 50 q ≡ true)) "c") failed_table
fail_reopens_example = fail_reopens 40 50 (effect "c") end table failed_table failing

-- Two workers and one execution, with leases of 30.
abbrev lease : String → ℕ → ℕ → WorkerLease
lease worker epoch expiry = record {
  execution_id = "exec-1";
  worker_id = worker;
  epoch = epoch;
  lease_expires_at = expiry;
}

abbrev held : String → ℕ → ℕ → Table
held worker epoch expiry =
    ("exec-1", record { worker_id = worker; epoch = epoch; lease_expires_at = expiry }) ∷ []

-- The database's clock is behind the worker's, so that the old lease was still current.
takeover :
    Fencing.claim 30 (record { db = 90; worker = 101 }) "exec-1" "second" (held "first" 1 100)
    ≡ ok (some (lease "second" 2 120), held "second" 2 120)
unfolding Fencing.claim get set
takeover = refl

first_current : is_current 90 (lease "first" 1 100) (held "first" 1 100) ≡ true
unfolding is_current get
first_current = refl

takeover_fences_example :
    is_current 91
      (lease "first" 1 100)
      (steps (renews 30 95 (lease "second" 2 120) ∷ []) (held "second" 2 120))
    ≡ false
takeover_fences_example =
    takeover_fences 30 (record { db = 90; worker = 101 }) "second" 90 (lease "first" 1 100)
      (lease "second" 2 120) (held "first" 1 100) (held "second" 2 120) first_current
      (λ e. false≢true ((str_eq_iff "second" "first").1 e)) takeover
      (renews 30 95 (lease "second" 2 120) ∷ []) 91

release_revives_example :
    (a : WorkerLease) × (t' : Table) × (Fencing.claim 30
        (record { db = 200; worker = 200 })
        "exec-1"
        "first"
        (release (lease "second" 2 230) (held "second" 2 230))
      ≡ ok (some a, t'))
    × (is_current 210 (lease "first" 1 100) t' ≡ true)
unfolding get
release_revives_example =
    release_revives 30 (record { db = 200; worker = 200 }) 210 (lease "first" 1 100)
      (lease "second" 2 230) (held "second" 2 230) refl refl
      (λ e. false≢true ((str_eq_iff "first" "").1 e)) refl (omega arith)
