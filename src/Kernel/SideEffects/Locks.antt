-- ===== src/Kernel/SideEffects/Locks.antt =====
-- The locks on claimed effects (side_effects.py).
use mathlib.Core.Bool.{false≢true}
use mathlib.Core.Path.{subst, ◌∙◌}
use niceone_obsidian.Prelude.{
  ℕ, ◌+◌, ◌≤◌, String, ◌≡◌, ◌≢◌, refl, sym, ap, true, false, Option, none, some, [], ◌∷◌, arith,
  All, str_eq, str_eq_iff, if◌then◌else◌, Bool-cases, inl, inr, ◌⊎◌, or_else,
}
use niceone_obsidian.Prelude.Values.{Fields}
use niceone_obsidian.Prelude.Exec.{Result, ok, err}
use niceone_obsidian.Kernel.Errors.{Exception}
use niceone_obsidian.Kernel.SideEffects.{
  SideEffectCommand, Row, Outbox, pending, processing, claimable, candidate, update_where, locked,
  claim, claim_row, lock_timeout, fail, unfenced, reopened,
}
use niceone_obsidian.Kernel.SideEffects.Delivery.{NotOlder, candidate-All, candidate-NotOlder}

-- The rows of one effect that an update writes.
abbrev pub Written : (Row → Type 0) → String → Row → Type 0
Written Q i r = str_eq r.effect_id i ≡ true → Q r

update_where-Written :
    (Q : Row → Type 0) (i : String) (f : Row → Row)
    → ((r : Row) → Q (f r))
    → (rows : Outbox) → All (Written Q i) (update_where i f rows)
unfolding update_where
update_where-Written Q i f h [] = tt
update_where-Written Q i f h (r ∷ rows) =
    (one (Bool-cases (str_eq r.effect_id i)), update_where-Written Q i f h rows)
  where
    one :
        (str_eq r.effect_id i ≡ true) ⊎ (str_eq r.effect_id i ≡ false)
        → Written Q i (if str_eq r.effect_id i then f r else r)
    one (inl b) = rw b (λ _. h r)
    one (inr b) = rw b (λ c. absurd (false≢true (sym b ∙ c)))

All-tt : (rows : Outbox) → All (λ (q : Row). Unit {0}) rows
All-tt [] = tt
All-tt (r ∷ rows) = (tt, All-tt rows)

abbrev rows_of : Outbox → Result Exception Outbox → Outbox
rows_of d (ok rows) = rows
rows_of d (err e) = d

ok_inj :
    {rows rows' : Outbox} → ◌≡◌ {A = Result Exception Outbox} (ok rows) (ok rows') → rows ≡ rows'
ok_inj {rows} e = ap (λ (r : Result Exception Outbox). rows_of rows r) e

pub from_row :
    (now : ℕ) (rows rows' : Outbox) (c : SideEffectCommand) (o : Option Row)
    → claim_row now rows o ≡ (some c, rows')
    → (r : Row) × (o ≡ some r)
      × (r.command ≡ c)
      × (rows' ≡ update_where c.effect_id (locked now) rows)
from_row now rows rows' c none e = cc (ap (λ (p : Option SideEffectCommand × Outbox). p.0) e)
from_row now rows rows' c (some r) e =
    let same : r.command ≡ c = ap (λ (p : Option SideEffectCommand × Outbox). or_else p.0 c) e in
    (
      r,
      refl,
      same,
      sym (ap (λ (p : Option SideEffectCommand × Outbox). p.1) e)
          ∙ ap (λ (d : SideEffectCommand). update_where d.effect_id (locked now) rows) same,
    )

-- A claim that hands out a command takes it from a claimable row than which no claimable row is
-- older, and leaves every row of that effect locked at the time of the claim.
pub claim_oldest :
    (now : ℕ) (rows rows' : Outbox) (c : SideEffectCommand)
    → claim now rows ≡ (some c, rows')
    → (r : Row) × (r.command ≡ c)
      × (claimable now r ≡ true)
      × All (NotOlder now r) rows
      × All (Written (λ q. (q.status ≡ processing) × (q.locked_at ≡ some now)) c.effect_id) rows'
unfolding claim
claim_oldest now rows rows' c e =
    let (r, o, same, u) = from_row now rows rows' c (candidate now rows) e in
    (
      r,
      same,
      (candidate-All (λ q. Unit {0}) now rows r (All-tt rows) o).1,
      candidate-NotOlder now rows r o,
      subst (All (Written (λ q. (q.status ≡ processing) × (q.locked_at ≡ some now)) c.effect_id))
          (sym u)
          (update_where-Written (λ q. (q.status ≡ processing) × (q.locked_at ≡ some now))
            c.effect_id (locked now) (λ q. (refl, refl)) rows),
    )

-- After a claim that hands out an effect, a next claim hands out another one while the lock is at
-- most five minutes old.
pub claim_exclusive :
    (now later : ℕ) (rows rows' rows'' : Outbox) (c d : SideEffectCommand)
    → claim now rows ≡ (some c, rows')
    → later ≤ now + lock_timeout
    → claim later rows' ≡ (some d, rows'')
    → d.effect_id ≢ c.effect_id
unfolding claim
claim_exclusive now later rows rows' rows'' c d e l f same =
    let (r, o, is_c, u) = from_row now rows rows' c (candidate now rows) e in
    let (s, p, is_d, v) = from_row later rows' rows'' d (candidate later rows') f in
    let (kept, free) =
      candidate-All (Written (λ q. claimable later q ≡ false) c.effect_id) later rows' s
        (subst (All (Written (λ q. claimable later q ≡ false) c.effect_id)) (sym u) (
          update_where-Written (λ q. claimable later q ≡ false) c.effect_id (locked now)
            (λ q. ground arith) rows))
        p in
    false≢true (
      sym (
        kept (
          (str_eq_iff s.effect_id c.effect_id).1
            (ap (λ (x : SideEffectCommand). x.effect_id) is_d ∙ same)))
      ∙ free)

-- After an unfenced `fail` every row of the effect is pending, and so claimable at any time, whatever
-- its status was, completed too.
pub fail_reopens :
    (now later : ℕ) (c : SideEffectCommand) (error : Fields) (rows rows' : Outbox)
    → fail now unfenced c error rows ≡ ok rows'
    → All (Written (λ q. (q.status ≡ pending) × (claimable later q ≡ true)) c.effect_id) rows'
unfolding fail
fail_reopens now later c error rows rows' e =
    subst (All (Written (λ q. (q.status ≡ pending) × (claimable later q ≡ true)) c.effect_id))
      (ok_inj e)
      (update_where-Written (λ q. (q.status ≡ pending) × (claimable later q ≡ true)) c.effect_id
        (reopened now error) (λ q. (refl, refl)) rows)
