-- ===== src/Examples/Rollouts.antt =====
-- The properties of releases: a release manager rolls out a version whose canary fails, and one whose passes.
use Prim.Native.String.{String}
use niceone_obsidian.Prelude.{
  ℕ, zero, suc, ◌≡◌, ◌↔◌, ◌⊎◌, refl, ap, true, none, some, List, [], ◌∷◌, map, arith, Extends, leb,
  string_eq,
}
use niceone_obsidian.Prelude.Dict.{get}
use niceone_obsidian.Prelude.Values.{null, text, end, field}
use niceone_obsidian.Prelude.Exec.{ok}
use niceone_obsidian.Production.Access.{Subject, authorize}
use niceone_obsidian.Production.Access.Grants.{Granted, authorize_iff_Granted}
use niceone_obsidian.Production.Evidence.{
  EvidenceEvent, EvidenceLedger, Hashing, empty_ledger, last_hash, new_event, verify_chain,
}
use niceone_obsidian.Production.Evidence.Chain.{untimed, Collision, tamper_evident}
use niceone_obsidian.Production.Evidence.Growth.{
  SoundLedger, Append, append_all, append_all-SoundLedger,
}
use niceone_obsidian.Production.Evolution.{Rates, CanaryController}
use niceone_obsidian.Production.Deployment.{ProductionControlPlane, release_policy}
use niceone_obsidian.Production.Rollout.{RolloutRequest, evaluate_and_rollout}
use niceone_obsidian.Production.Rollout.Authorized.{
  Operation, rolling_out, rolling_back, perform_all, AnyMayActivate, active_authorized,
}
use niceone_obsidian.Production.Rollout.Runs.{IsFresh}
use niceone_obsidian.Production.Rollout.Outcome.{Settles, rollout-Settles}

-- Whole percentages as rates, and a toy digest.
abbrev rates : Rates
rates = record {
  Rate = ℕ;
  quotient = λ a b. a;
  zero_rate = 0;
  at_most = leb;
  mean = λ vs. 0;
  as_value = λ r. null;
}

abbrev hashing : Hashing
hashing = record { repr = λ c. c.event_id; sha256_hex = λ s. s }

-- Distinct texts.
abbrev numbered : ℕ → String
numbered zero = String.[]
numbered (suc n) = String.◌∷◌ "i" (numbered n)

numbered_apart : (n m : ℕ) → numbered n ≡ numbered m → n ≡ m
numbered_apart zero zero e = refl
numbered_apart zero (suc m) e = cc
numbered_apart (suc n) zero e = cc
numbered_apart (suc n) (suc m) e =
    let rest : numbered n ≡ numbered m = cc in ap suc (numbered_apart n m rest)

abbrev manager : Subject
manager = record {
  subject_id = "ann";
  tenant_id = "tenant-1";
  roles = "release-manager" ∷ [];
  attributes = ("environment", "production") ∷ [];
  permissions = [];
}

abbrev plane : ProductionControlPlane
plane = record {
  evidence = empty_ledger;
  active = ("production", "v1") ∷ [];
  now = 7;
  uuids = numbered;
  drawn = 0;
}

plane-IsFresh : IsFresh plane
plane-IsFresh = record { unused = λ n l. refl; apart = numbered_apart }

abbrev canary : CanaryController rates
canary = record { minimum_success_rate = 99; maximum_latency_ms = 1000 }

abbrev second : RolloutRequest rates
second = record {
  subject = manager;
  candidate = "v2";
  environment = "production";
  previous = "v1";
  traffic_percent = 5;
  successes = 100;
  total = 100;
  latency_ms = 20;
  measurements = [];
}

abbrev event : EvidenceEvent
event = new_event hashing "i" 3 "run-1" "started" (field "note" (text "x") end) none

abbrev events : List Append
events =
    record {
      event_id = "i";
      now = 3;
      execution_id = "run-1";
      event_type = "started";
      payload = end;
    }
    ∷ record {
      event_id = "i";
      now = 4;
      execution_id = "run-1";
      event_type = "again";
      payload = end;
    }
    ∷ record {
      event_id = "ii";
      now = 5;
      execution_id = "run-2";
      event_type = "done";
      payload = end;
    }
    ∷ []

empty-SoundLedger : SoundLedger hashing empty_ledger
unfolding verify_chain
empty-SoundLedger = record { chain = refl; known = refl; distinct = tt }

authorize_iff_Granted_example :
    (authorize manager (release_policy "deployment.activate" "production") ≡ ok tt)
    ↔ Granted manager (release_policy "deployment.activate" "production")
authorize_iff_Granted_example =
    authorize_iff_Granted manager (release_policy "deployment.activate" "production")

append_all-SoundLedger_example :
    SoundLedger hashing (append_all hashing events empty_ledger)
    × Extends [] (append_all hashing events empty_ledger).events
append_all-SoundLedger_example =
    append_all-SoundLedger hashing events empty_ledger empty-SoundLedger

abbrev ledger : EvidenceEvent → EvidenceLedger
ledger e = record { events = e ∷ []; ids = "i" ∷ [] }

tamper_evident_example :
    (map untimed (event ∷ []) ≡ map untimed (record event { timestamp = 9 } ∷ []))
    ⊎ Collision hashing
unfolding verify_chain last_hash
tamper_evident_example =
    tamper_evident hashing (ledger event) (ledger (record event { timestamp = 9 })) refl refl refl

abbrev operations : List (Operation rates)
operations =
    rolling_out canary second
    ∷ rolling_out canary (record second { candidate = "v3"; successes = 10 })
    ∷ rolling_back (record manager { roles = [] }) "v0" "production"
    ∷ []

active_authorized_example :
    ((e v : String)
      → get (perform_all hashing operations plane).active e ≡ some v
      → (get plane.active e ≡ some v) ⊎ AnyMayActivate e v operations)
    × (SoundLedger hashing plane.evidence
        → SoundLedger hashing (perform_all hashing operations plane).evidence
          × Extends plane.evidence.events (perform_all hashing operations plane).evidence.events)
active_authorized_example = active_authorized hashing operations plane

rollout-Settles_example :
    Settles second plane true
      (authorize manager (release_policy "deployment.activate" "production"))
      (evaluate_and_rollout hashing canary second plane)
rollout-Settles_example =
    rollout-Settles hashing canary second plane plane-IsFresh (omega arith) (omega arith)
