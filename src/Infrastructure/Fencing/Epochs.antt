-- ===== src/Infrastructure/Fencing/Epochs.antt =====
-- Leases and their epochs among later transactions (postgres_fencing.py).
use mathlib.Core.List.{List, [], ◌∷◌}
use niceone_obsidian.Prelude.{
  ℕ, ◌+◌, ◌≤◌, ◌<◌, String, ◌≡◌, ◌≢◌, refl, sym, ◌∙◌, ap, true, false, Option, none, some, arith,
  str_eq, str_eq_iff, str_eq_refl, string_eq, if◌then◌else◌, Bool-cases, inl, inr,
}
use niceone_obsidian.Prelude.Dict.{get, get-set, get-set_self, get-delete, set, delete}
use niceone_obsidian.Prelude.Exec.{Result, ok, err}
use niceone_obsidian.Kernel.Errors.{Exception}
use niceone_obsidian.Infrastructure.Fencing.{
  WorkerLease, Row, Table, Clocks, claim, claim_row, claimed, holds, is_current, renew, release,
  owns, lease_of,
}

holds_row :
    (now : ℕ) (l : WorkerLease) (o : Option Row)
    → holds now l o ≡ true
    → (r : Row) × (o ≡ some r)
      × (r.worker_id ≡ l.worker_id)
      × (r.epoch ≡ l.epoch)
      × (now < r.lease_expires_at)
holds_row now l none h = cc
holds_row now l (some r) h =
    (r, refl, ground (arith, str_eq_iff r.worker_id l.worker_id), ground arith, ground arith)

-- Two leases of one execution that both pass the check are the same worker's, of the same epoch.
is_current_unique :
    (now later : ℕ) (l m : WorkerLease) (t : Table)
    → l.execution_id ≡ m.execution_id
    → is_current now l t ≡ true
    → is_current later m t ≡ true
    → (l.worker_id ≡ m.worker_id) × (l.epoch ≡ m.epoch)
unfolding is_current
is_current_unique now later l m t e p q =
    let (r, f, w, n, x) = holds_row now l (get t l.execution_id) p in
    let (s, g, v, k, y) = holds_row later m (get t m.execution_id) q in
    let same : some r ≡ some s = sym f ∙ ap (get t) e ∙ g in (cc, cc)

-- The epoch of an execution, 0 while nobody holds it.
abbrev epoch_in : Option Row → ℕ
epoch_in none = 0
epoch_in (some r) = r.epoch

unfoldable pub epoch_of : Table → String → ℕ
epoch_of t x = epoch_in (get t x)

-- A transaction on the table but `release`: it leaves the table when it fails.
pub data Transaction : Type 0 where
  claims : ℕ → Clocks → String → String → Transaction
  renews : ℕ → ℕ → WorkerLease → Transaction

abbrev after_claim : Table → Result Exception (Option WorkerLease × Table) → Table
after_claim t (ok (l, t')) = t'
after_claim t (err e) = t

abbrev after_renew : Table → Result Exception (WorkerLease × Table) → Table
after_renew t (ok (l, t')) = t'
after_renew t (err e) = t

unfoldable pub step : Transaction → Table → Table
unfolding claim renew
step (claims ttl now x worker) t = after_claim t (claim ttl now x worker t)
step (renews ttl now l) t = after_renew t (renew ttl now l t)

unfoldable pub steps : List Transaction → Table → Table
steps [] t = t
steps (a ∷ more) t = steps more (step a t)

epoch_of-set :
    (t : Table) (x y : String) (r : Row)
    → epoch_of (set t x r) y ≡ (if str_eq x y then r.epoch else epoch_of t y)
unfolding epoch_of
epoch_of-set t x y r = ground (arith, get-set t x y r)

-- A write over a row with no greater epoch.
set-epoch-le :
    (t : Table) (x y : String) (r : Row)
    → epoch_of t x ≤ r.epoch
    → epoch_of t y ≤ epoch_of (set t x r) y
set-epoch-le t x y r h =
    ground (arith, epoch_of-set t x y r, str_eq_iff x y, λ (e : x ≡ y). ap (epoch_of t) e)

claim_row-epoch :
    (ttl : ℕ) (now : Clocks) (x worker : String) (t : Table) (o : Option Row)
    → epoch_in o ≡ epoch_of t x
    → (y : String) → epoch_of t y ≤ epoch_of (claim_row ttl now x worker t o).1 y
claim_row-epoch ttl now x worker t none e y = set-epoch-le t x y _ (omega (arith, e))
claim_row-epoch ttl now x worker t (some r) e y =
    let new : Row = claimed ttl now worker r in ground (arith, set-epoch-le t x y new)

current-epoch :
    (now : ℕ) (l : WorkerLease) (t : Table)
    → is_current now l t ≡ true
    → epoch_of t l.execution_id ≡ l.epoch
unfolding is_current epoch_of
current-epoch now l t h =
    let (r, f, w, n, x) = holds_row now l (get t l.execution_id) h in ap epoch_in f ∙ n

step-epoch : (a : Transaction) (t : Table) (y : String) → epoch_of t y ≤ epoch_of (step a t) y
unfolding step epoch_of
step-epoch (claims ttl now x worker) t y =
    ground (arith, claim_row-epoch ttl now x worker t (get t x) refl y)
step-epoch (renews ttl now l) t y = elim (Bool-cases (is_current now l t)) [
  | inl h ↦ rw h (set-epoch-le t l.execution_id y _ (omega (arith, current-epoch now l t h)))
  | inr h ↦ rw h (omega arith)
]

steps-epoch :
    (as_run : List Transaction) (t : Table) (y : String)
    → epoch_of t y ≤ epoch_of (steps as_run t) y
unfolding steps
steps-epoch [] t y = omega arith
steps-epoch (a ∷ more) t y = omega (arith, step-epoch a t y, steps-epoch more (step a t) y)

-- A lease of an epoch that is over never passes the check.
past_epoch :
    (now : ℕ) (l : WorkerLease) (t : Table)
    → l.epoch < epoch_of t l.execution_id
    → is_current now l t ≡ false
past_epoch now l t h = elim (Bool-cases (is_current now l t)) [
  | inl c ↦ absurd (omega (arith, current-epoch now l t c))
  | inr c ↦ c
]

-- Another worker's claim that replaces a held lease begins a later epoch.
takeover-epoch :
    (ttl : ℕ) (clocks : Clocks) (worker : String) (now : ℕ) (l m : WorkerLease) (t t' : Table)
    → is_current now l t ≡ true
    → worker ≢ l.worker_id
    → claim ttl clocks l.execution_id worker t ≡ ok (some m, t')
    → l.epoch < epoch_of t' l.execution_id
unfolding claim is_current epoch_of
takeover-epoch ttl clocks worker now l m t t' c n e =
    let (r, f, w, k, x) = holds_row now l (get t l.execution_id) c in
    ground (
      arith,
      f,
      w,
      k,
      epoch_of-set t l.execution_id l.execution_id (claimed ttl clocks worker r),
      str_eq_iff r.worker_id worker,
      str_eq_refl l.execution_id,
    )

-- Once another worker has claimed an execution from the holder of a current lease, that lease passes
-- no check, after any further claims and renewals by anybody, whatever the clocks show.
pub takeover_fences :
    (ttl : ℕ) (clocks : Clocks) (worker : String) (now : ℕ) (l m : WorkerLease) (t t' : Table)
    → is_current now l t ≡ true
    → worker ≢ l.worker_id
    → claim ttl clocks l.execution_id worker t ≡ ok (some m, t')
    → (later : List Transaction) (moment : ℕ) → is_current moment l (steps later t') ≡ false
takeover_fences ttl clocks worker now l m t t' c n e later moment =
    past_epoch moment l (steps later t') (
      omega (
        arith,
        takeover-epoch ttl clocks worker now l m t t' c n e,
        steps-epoch later t' l.execution_id,
      ))

-- A release forgets the epoch: when the owner of an execution has released it, the next claim, by
-- any worker, is granted, and an old lease of that worker with epoch 1 then passes the check until the
-- new lease expires.
pub release_revives :
    (ttl : ℕ) (clocks : Clocks) (now : ℕ) (l m : WorkerLease) (t : Table)
    → l.execution_id ≡ m.execution_id
    → l.epoch ≡ 1
    → l.worker_id ≢ ""
    → owns m (get t m.execution_id) ≡ true
    → now < clocks.db + ttl
    → (a : WorkerLease) × (t' : Table) × (claim ttl clocks l.execution_id l.worker_id (release m t)
        ≡ ok (some a, t'))
      × (is_current now l t' ≡ true)
unfolding claim release is_current
release_revives ttl clocks now l m t e one n o live = (
  lease_of l.execution_id fresh,
  set (delete t m.execution_id) l.execution_id fresh,
  ground (
    arith,
    get-delete t m.execution_id l.execution_id,
    str_eq_iff m.execution_id l.execution_id,
    str_eq_iff l.worker_id "",
  ),
  ground
      (arith, get-set_self (delete t m.execution_id) l.execution_id fresh, str_eq_refl l.worker_id),
)
  where
    fresh : Row
    fresh = record { worker_id = l.worker_id; epoch = 1; lease_expires_at = clocks.db + ttl }
