-- ===== src/Production/Workers.antt =====
-- production/workers.py: LeaseQueue and Worker. `now` is the reading of the clock in a call, in the unit of
-- the queue's `lease_seconds`; an identifier is drawn by the caller. The two limits are not negative.
pub mod Settled
pub mod Sound
use niceone_obsidian.Prelude.{
  ℕ, suc, ◌+◌, String, Bool, true, false, ◌&&◌, Option, none, some, List, [], ◌∷◌, str_eq,
  string_eq, ltb, leb, if◌then◌else◌,
}
use niceone_obsidian.Prelude.Dict.{Dict, get, set}
use niceone_obsidian.Prelude.Values.{Value, Fields, null}
use niceone_obsidian.Prelude.Exec.{Result, ok, err}
use niceone_obsidian.Kernel.Errors.{Exception}

pub data WorkStatus : Type 0 where
  queued running succeeded failed : WorkStatus

pub record WorkItem : Type 0 where
  pub work_id : String
  pub payload : Fields
  pub attempts : ℕ
  pub status : WorkStatus
  pub worker_id : Option String
  pub lease_until : Option ℕ
  pub result : Value
  pub error : Option String

pub record LeaseQueue : Type 0 where
  pub lease_seconds : ℕ
  pub max_attempts : ℕ
  pub items : Dict String WorkItem

abbrev pub new_item : String → Fields → WorkItem
new_item i payload = record {
  work_id = i;
  payload = payload;
  attempts = 0;
  status = queued;
  worker_id = none;
  lease_until = none;
  result = null;
  error = none;
}

unfoldable pub enqueue : String → Fields → LeaseQueue → LeaseQueue
unfolding set
enqueue i payload q = record q { items = set q.items i (new_item i payload) }

abbrev pub is_queued : WorkStatus → Bool
is_queued queued = true
is_queued _ = false

abbrev pub is_running : WorkStatus → Bool
is_running running = true
is_running _ = false

abbrev pub is_past : ℕ → Option ℕ → Bool
is_past now none = false
is_past now (some t) = leb t now

-- The status of an item whose attempt came to nothing.
abbrev pub retry_status : ℕ → WorkItem → WorkStatus
retry_status limit t = if ltb t.attempts limit then queued else failed

abbrev pub is_expired : ℕ → WorkItem → Bool
is_expired now t = is_running t.status && is_past now t.lease_until

abbrev pub expire_item : ℕ → ℕ → WorkItem → WorkItem
expire_item limit now t =
    if is_expired now t
    then record t { status = retry_status limit t; worker_id = none; lease_until = none }
    else t

-- LeaseQueue._expire_locked: the items after it, and their number.
unfoldable pub expire_items : ℕ → ℕ → Dict String WorkItem → Dict String WorkItem
expire_items limit now [] = []
expire_items limit now ((i, t) ∷ rest) = (i, expire_item limit now t) ∷ expire_items limit now rest

unfoldable pub count_expired : ℕ → Dict String WorkItem → ℕ
count_expired now [] = 0
count_expired now ((i, t) ∷ rest) =
    let more = count_expired now rest in if is_expired now t then suc more else more

abbrev pub can_claim : ℕ → WorkItem → Bool
can_claim limit t = is_queued t.status && ltb t.attempts limit

abbrev pub claimed_item : String → ℕ → WorkItem → WorkItem
claimed_item worker until t = record t {
  status = running;
  worker_id = some worker;
  attempts = suc t.attempts;
  lease_until = some until;
}

abbrev pub behind :
    String × WorkItem
    → Dict String WorkItem × Option WorkItem
    → Dict String WorkItem × Option WorkItem
behind e (d, t) = (e ∷ d, t)

-- The loop of `claim`.
unfoldable pub claim_first :
    ℕ → String → ℕ → Dict String WorkItem → Dict String WorkItem × Option WorkItem
claim_first limit worker until [] = ([], none)
claim_first limit worker until ((i, t) ∷ rest) =
    let more = claim_first limit worker until rest in
    if can_claim limit t
    then ((i, claimed_item worker until t) ∷ rest, some (claimed_item worker until t))
    else behind (i, t) more

abbrev pub with_items :
    LeaseQueue → Dict String WorkItem × Option WorkItem → Option WorkItem × LeaseQueue
with_items q (d, t) = (t, record q { items = d })

-- LeaseQueue.claim
unfoldable pub claim : String → ℕ → LeaseQueue → Option WorkItem × LeaseQueue
unfolding expire_items claim_first
claim worker now q = with_items q (
    claim_first q.max_attempts worker (now + q.lease_seconds)
      (expire_items q.max_attempts now q.items))

abbrev pub is_worker : String → Option String → Bool
is_worker w none = false
is_worker w (some v) = str_eq v w

-- What `heartbeat`, `complete` and `fail` do to an item that the worker is running.
abbrev pub update_held :
    String → String → (WorkItem → WorkItem) → Option WorkItem → LeaseQueue → Bool × LeaseQueue
update_held i w f none q = (false, q)
update_held i w f (some t) q =
    if is_running t.status && is_worker w t.worker_id
    then (true, record q { items = set q.items i (f t) })
    else (false, q)

unfoldable pub heartbeat : String → String → ℕ → LeaseQueue → Bool × LeaseQueue
unfolding get set
heartbeat i w now q =
    update_held i w (λ t. record t { lease_until = some (now + q.lease_seconds) }) (get q.items i) q

unfoldable pub complete : String → String → Value → LeaseQueue → Bool × LeaseQueue
unfolding get set
complete i w v q =
    update_held i w (λ t. record t { status = succeeded; result = v; lease_until = none })
      (get q.items i) q

unfoldable pub fail : String → String → String → LeaseQueue → Bool × LeaseQueue
unfolding get set
fail i w e q =
    update_held i w
      (λ t. record t { error = some e; lease_until = none; status = retry_status q.max_attempts t })
      (get q.items i) q

unfoldable pub recover_expired : ℕ → LeaseQueue → ℕ × LeaseQueue
unfolding expire_items count_expired
recover_expired now q =
    (count_expired now q.items, record q { items = expire_items q.max_attempts now q.items })

-- Worker.run_once, with what the handler comes to.
abbrev pub report : String → WorkItem → Result Exception Value → LeaseQueue → Bool × LeaseQueue
report w t (ok v) q = complete t.work_id w v q
report w t (err e) q = fail t.work_id w e.message q

abbrev pub handle_item :
    String → (Fields → Result Exception Value) → Option WorkItem × LeaseQueue → Bool × LeaseQueue
handle_item w handler (none, q) = (false, q)
handle_item w handler (some t, q) = (true, (report w t (handler t.payload) q).1)

unfoldable pub run_once :
    String → (Fields → Result Exception Value) → ℕ → LeaseQueue → Bool × LeaseQueue
unfolding claim complete fail
run_once w handler now q = handle_item w handler (claim w now q)
