-- ===== src/Production/Workers/Sound.antt =====
-- An invariant of the items of the lease queue (workers.py).
use mathlib.Core.Path.{subst}
use niceone_obsidian.Prelude.{
  ℕ, ◌+◌, ◌≤◌, ◌<◌, String, true, ◌&&◌, ◌≡◌, refl, Option, none, some, List, [], ◌∷◌, arith, All,
  str_eq, string_eq, ltb, is_some, Bool-cases, inl, inr,
}
use niceone_obsidian.Prelude.Dict.{Dict, get, set}
use niceone_obsidian.Prelude.Values.{Value, Fields}
use niceone_obsidian.Prelude.Exec.{Result, ok, err}
use niceone_obsidian.Kernel.Errors.{Exception}
use niceone_obsidian.Production.Workers.{
  WorkItem, LeaseQueue, new_item, enqueue, is_queued, is_running, is_worker, is_expired,
  expire_item, expire_items, can_claim, claimed_item, claim_first, claim, update_held, heartbeat,
  complete, fail, recover_expired, report, handle_item, run_once,
}
use niceone_obsidian.Production.Workers.Settled.{
  Command, step, run_commands, enqueuing, claiming, beating, completing, failing, recovering,
  working,
}

-- The attempts are within the limit; an item that waits has one left; one that runs has a worker and a
-- lease.
pub record IsSound (limit : ℕ) (t : WorkItem) : Type 0 where
  pub bounded : t.attempts ≤ limit
  pub waits : is_queued t.status ≡ true → t.attempts < limit
  pub held : is_running t.status ≡ true → (is_some t.worker_id && is_some t.lease_until) ≡ true

abbrev pub AllSound : ℕ → Dict String WorkItem → Type 0
AllSound limit d = All (λ (p : String × WorkItem). IsSound limit p.1) d

expire_item-IsSound :
    (limit now : ℕ) (t : WorkItem) → IsSound limit t → IsSound limit (expire_item limit now t)
expire_item-IsSound limit now t s = elim (Bool-cases (is_expired now t)) [
  | inl y ↦ elim (Bool-cases (ltb t.attempts limit)) [
    | inl z ↦
        rw (y, z)
          (record {
            bounded = s.bounded;
            waits = λ h. ground (arith, z);
            held = λ h. absurd (ground (arith, h));
          })
    | inr z ↦
        rw (y, z)
          (record {
            bounded = s.bounded;
            waits = λ h. absurd (ground (arith, h));
            held = λ h. absurd (ground (arith, h));
          })
  ]
  | inr n ↦ rw n s
]

expire_items-AllSound :
    (limit now : ℕ) (d : Dict String WorkItem)
    → AllSound limit d
    → AllSound limit (expire_items limit now d)
unfolding expire_items
expire_items-AllSound limit now [] a = tt
expire_items-AllSound limit now ((i, t) ∷ d) (s, a) =
    (expire_item-IsSound limit now t s, expire_items-AllSound limit now d a)

claimed_item-IsSound :
    (limit until : ℕ) (w : String) (t : WorkItem)
    → can_claim limit t ≡ true
    → IsSound limit (claimed_item w until t)
claimed_item-IsSound limit until w t h = record {
  bounded = ground (arith, h);
  waits = λ x. absurd (ground (arith, x));
  held = λ x. refl;
}

claim_first-AllSound :
    (limit until : ℕ) (w : String) (d : Dict String WorkItem)
    → AllSound limit d
    → AllSound limit (claim_first limit w until d).0
unfolding claim_first
claim_first-AllSound limit until w [] a = tt
claim_first-AllSound limit until w ((i, t) ∷ d) (s, a) = elim (Bool-cases (can_claim limit t)) [
  | inl y ↦ rw y (claimed_item-IsSound limit until w t y, a)
  | inr n ↦ rw n (s, claim_first-AllSound limit until w d a)
]

set-AllSound :
    (limit : ℕ) (d : Dict String WorkItem) (i : String) (t : WorkItem)
    → AllSound limit d
    → IsSound limit t
    → AllSound limit (set d i t)
unfolding set
set-AllSound limit [] i t a s = (s, tt)
set-AllSound limit ((j, u) ∷ d) i t (r, a) s = elim (Bool-cases (str_eq j i)) [
  | inl y ↦ rw y (s, a)
  | inr n ↦ rw n (r, set-AllSound limit d i t a s)
]

get-AllSound :
    (limit : ℕ) (d : Dict String WorkItem) (i : String) (t : WorkItem)
    → AllSound limit d
    → get d i ≡ some t
    → IsSound limit t
unfolding get
get-AllSound limit [] i t a g = absurd (ground (arith, g))
get-AllSound limit ((j, u) ∷ d) i t (s, a) g = elim (Bool-cases (str_eq j i)) [
  | inl y ↦ let same : u ≡ t = ground (arith, g, y) in subst (IsSound limit) same s
  | inr n ↦ get-AllSound limit d i t a (ground (arith, g, n))
]

-- A queue with its limit.
abbrev pub SoundQueue : ℕ → LeaseQueue → Type 0
SoundQueue limit q = (q.max_attempts ≡ limit) × AllSound limit q.items

update_held-SoundQueue :
    (limit : ℕ) (i w : String) (f : WorkItem → WorkItem) (o : Option WorkItem) (q : LeaseQueue)
    → get q.items i ≡ o
    → ((t : WorkItem) → is_running t.status ≡ true → IsSound limit t → IsSound limit (f t))
    → SoundQueue limit q
    → SoundQueue limit (update_held i w f o q).1
update_held-SoundQueue limit i w f none q e k s = s
update_held-SoundQueue limit i w f (some t) q e k (m, a) =
    elim (Bool-cases (is_running t.status && is_worker w t.worker_id)) [
      | inl y ↦ rw y (
        m,
        set-AllSound limit q.items i (f t) a
            (k t (ground (arith, y)) (get-AllSound limit q.items i t a e)),
      )
      | inr n ↦ rw n (m, a)
    ]

heartbeat-IsSound :
    (limit until : ℕ) (t : WorkItem)
    → IsSound limit t
    → IsSound limit (record t { lease_until = some until })
heartbeat-IsSound limit until t s = record {
  bounded = s.bounded;
  waits = s.waits;
  held = λ h. ground (arith, s.held h);
}

complete-SoundQueue :
    (limit : ℕ) (i w : String) (v : Value) (q : LeaseQueue)
    → SoundQueue limit q
    → SoundQueue limit (complete i w v q).1
unfolding complete
complete-SoundQueue limit i w v q s =
    update_held-SoundQueue limit i w _ (get q.items i) q refl
      (λ t r u. record {
        bounded = u.bounded;
        waits = λ h. absurd (ground (arith, h));
        held = λ h. absurd (ground (arith, h));
      })
      s

fail-SoundQueue :
    (limit : ℕ) (i w e : String) (q : LeaseQueue)
    → SoundQueue limit q
    → SoundQueue limit (fail i w e q).1
unfolding fail
fail-SoundQueue limit i w e q s =
    update_held-SoundQueue limit i w _ (get q.items i) q refl
      (λ t r u. record {
        bounded = u.bounded;
        waits = λ h. ground (arith, h, s.0);
        held = λ h. absurd (ground (arith, h));
      })
      s

claim-SoundQueue :
    (limit now : ℕ) (w : String) (q : LeaseQueue)
    → SoundQueue limit q
    → SoundQueue limit (claim w now q).1
unfolding claim
claim-SoundQueue limit now w q (m, a) = (
  m,
  rw m (
      claim_first-AllSound limit (now + q.lease_seconds) w (expire_items limit now q.items)
        (expire_items-AllSound limit now q.items a)),
)

report-SoundQueue :
    (limit : ℕ) (w : String) (u : WorkItem) (r : Result Exception Value) (q : LeaseQueue)
    → SoundQueue limit q
    → SoundQueue limit (report w u r q).1
report-SoundQueue limit w u (ok v) q s = complete-SoundQueue limit u.work_id w v q s
report-SoundQueue limit w u (err e) q s = fail-SoundQueue limit u.work_id w e.message q s

handle_item-SoundQueue :
    (limit : ℕ) (w : String) (handler : Fields → Result Exception Value)
    (o : Option WorkItem × LeaseQueue)
    → SoundQueue limit o.1
    → SoundQueue limit (handle_item w handler o).1
handle_item-SoundQueue limit w handler (none, q) s = s
handle_item-SoundQueue limit w handler (some u, q) s =
    report-SoundQueue limit w u (handler u.payload) q s

step-SoundQueue :
    (limit : ℕ) (c : Command) (q : LeaseQueue)
    → 1 ≤ limit
    → SoundQueue limit q
    → SoundQueue limit (step c q)
unfolding step enqueue heartbeat recover_expired run_once
step-SoundQueue limit (enqueuing j p) q l (m, a) = (
  m,
  set-AllSound limit q.items j (new_item j p) a (record {
    bounded = omega (arith, l);
    waits = λ h. omega (arith, l);
    held = λ h. absurd (ground (arith, h));
  }),
)
step-SoundQueue limit (claiming w now) q l s = claim-SoundQueue limit now w q s
step-SoundQueue limit (beating j w now) q l s =
    update_held-SoundQueue limit j w _ (get q.items j) q refl
      (λ t r u. heartbeat-IsSound limit (now + q.lease_seconds) t u) s
step-SoundQueue limit (completing j w v) q l s = complete-SoundQueue limit j w v q s
step-SoundQueue limit (failing j w e) q l s = fail-SoundQueue limit j w e q s
step-SoundQueue limit (recovering now) q l (m, a) =
    (m, rw m (expire_items-AllSound limit now q.items a))
step-SoundQueue limit (working w handler now) q l s =
    handle_item-SoundQueue limit w handler (claim w now q) (claim-SoundQueue limit now w q s)

-- If the limit on attempts is positive, every item stays within it over any operations: one that waits
-- has an attempt left, and one that runs has a worker and a lease.
pub run_commands-SoundQueue :
    (limit : ℕ) (cs : List Command) (q : LeaseQueue)
    → 1 ≤ limit
    → SoundQueue limit q
    → SoundQueue limit (run_commands cs q)
unfolding run_commands
run_commands-SoundQueue limit [] q l s = s
run_commands-SoundQueue limit (c ∷ cs) q l s =
    run_commands-SoundQueue limit cs (step c q) l (step-SoundQueue limit c q l s)
