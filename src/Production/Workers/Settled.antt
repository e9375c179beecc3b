-- ===== src/Production/Workers/Settled.antt =====
-- What holds of the lease queue over any run of its operations (workers.py).
use niceone_obsidian.Prelude.{
  ℕ, ◌+◌, String, Bool, true, false, ◌≡◌, refl, Option, none, some, List, [], ◌∷◌, arith, All,
  str_eq, str_eq_iff, string_eq,
}
use niceone_obsidian.Prelude.Dict.{Dict, get, get-set}
use niceone_obsidian.Prelude.Values.{Value, Fields}
use niceone_obsidian.Prelude.Exec.{Result, ok, err}
use niceone_obsidian.Kernel.Errors.{Exception}
use niceone_obsidian.Production.Workers.{
  WorkStatus, WorkItem, LeaseQueue, succeeded, failed, new_item, enqueue, expire_items, claim_first,
  claim, update_held, heartbeat, complete, fail, recover_expired, report, handle_item, run_once,
}

-- A call of one of the operations.
pub data Command : Type 0 where
  enqueuing : String → Fields → Command
  claiming : String → ℕ → Command
  beating : String → String → ℕ → Command
  completing : String → String → Value → Command
  failing : String → String → String → Command
  recovering : ℕ → Command
  working : String → (Fields → Result Exception Value) → ℕ → Command

unfoldable pub step : Command → LeaseQueue → LeaseQueue
unfolding enqueue claim heartbeat complete fail recover_expired run_once
step (enqueuing i p) q = enqueue i p q
step (claiming w now) q = (claim w now q).1
step (beating i w now) q = (heartbeat i w now q).1
step (completing i w v) q = (complete i w v q).1
step (failing i w e) q = (fail i w e q).1
step (recovering now) q = (recover_expired now q).1
step (working w handler now) q = (run_once w handler now q).1

unfoldable pub run_commands : List Command → LeaseQueue → LeaseQueue
unfolding step
run_commands [] q = q
run_commands (c ∷ cs) q = run_commands cs (step c q)

abbrev pub is_settled : WorkStatus → Bool
is_settled succeeded = true
is_settled failed = true
is_settled _ = false

-- The command does not enqueue under an identifier.
abbrev pub Spares : String → Command → Type 0
Spares i (enqueuing j p) = str_eq j i ≡ false
Spares i _ = Unit

module _ (i : String) (t : WorkItem) (h : is_settled t.status ≡ true) where
  abbrev Has : LeaseQueue → Type 0
  Has q = get q.items i ≡ some t

  expired_same :
      (limit now : ℕ) (d : Dict String WorkItem)
      → get d i ≡ some t
      → get (expire_items limit now d) i ≡ some t
  unfolding expire_items get
  expired_same limit now [] g = ground (arith, g)
  expired_same limit now ((j, u) ∷ d) g = ground (arith, expired_same limit now d, g, h)

  claimed_same :
      (limit until : ℕ) (w : String) (d : Dict String WorkItem)
      → get d i ≡ some t
      → get (claim_first limit w until d).0 i ≡ some t
  unfolding claim_first get
  claimed_same limit until w [] g = ground (arith, g)
  claimed_same limit until w ((j, u) ∷ d) g = ground (arith, claimed_same limit until w d, g, h)

  claim_same : (w : String) (now : ℕ) (q : LeaseQueue) → Has q → Has (claim w now q).1
  unfolding claim
  claim_same w now q g =
      claimed_same q.max_attempts (now + q.lease_seconds) w
        (expire_items q.max_attempts now q.items) (expired_same q.max_attempts now q.items g)

  held_same :
      (j w : String) (f : WorkItem → WorkItem) (o : Option WorkItem) (q : LeaseQueue)
      → get q.items j ≡ o
      → Has q
      → Has (update_held j w f o q).1
  held_same j w f none q e g = g
  held_same j w f (some u) q e g =
      ground (arith, get-set q.items j i (f u), str_eq_iff j i, e, g, h)

  report_same :
      (w : String) (u : WorkItem) (r : Result Exception Value) (q : LeaseQueue)
      → Has q
      → Has (report w u r q).1
  unfolding complete fail
  report_same w u (ok v) q g = held_same u.work_id w _ (get q.items u.work_id) q refl g
  report_same w u (err e) q g = held_same u.work_id w _ (get q.items u.work_id) q refl g

  handle_same :
      (w : String) (handler : Fields → Result Exception Value) (o : Option WorkItem × LeaseQueue)
      → Has o.1
      → Has (handle_item w handler o).1
  handle_same w handler (none, q) g = g
  handle_same w handler (some u, q) g = report_same w u (handler u.payload) q g

  step_same : (c : Command) (q : LeaseQueue) → Spares i c → Has q → Has (step c q)
  unfolding step enqueue heartbeat complete fail recover_expired run_once
  step_same (enqueuing j p) q s g = ground (arith, get-set q.items j i (new_item j p), s, g)
  step_same (claiming w now) q s g = claim_same w now q g
  step_same (beating j w now) q s g = held_same j w _ (get q.items j) q refl g
  step_same (completing j w v) q s g = held_same j w _ (get q.items j) q refl g
  step_same (failing j w e) q s g = held_same j w _ (get q.items j) q refl g
  step_same (recovering now) q s g = expired_same q.max_attempts now q.items g
  step_same (working w handler now) q s g =
      handle_same w handler (claim w now q) (claim_same w now q g)

-- An item that has succeeded or failed stays exactly as it is, whatever operations follow, if none
-- enqueues under its identifier.
pub settled_final :
    (cs : List Command) (q : LeaseQueue) (i : String) (t : WorkItem)
    → get q.items i ≡ some t
    → is_settled t.status ≡ true
    → All (Spares i) cs
    → get (run_commands cs q).items i ≡ some t
unfolding run_commands
settled_final [] q i t g h s = g
settled_final (c ∷ cs) q i t g h (s, ss) =
    settled_final cs (step c q) i t (step_same i t h c q s g) h ss
