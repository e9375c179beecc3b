-- ===== src/Kernel/SideEffects/History.antt =====
-- Sequences of transactions on the outbox (side_effects.py).
use mathlib.Core.Path.{◌∙◌}
use niceone_obsidian.Prelude.{
  ℕ, String, ◌≡◌, refl, sym, Option, none, some, List, [], ◌∷◌, map, str_eq, Bool-cases, inl, inr,
  Extends, Extends-refl, Extends-trans, append-nil,
}
use mathlib.Core.List.{map-append}
use niceone_obsidian.Prelude.Values.{Fields}
use niceone_obsidian.Prelude.Exec.{Result, ok, err}
use niceone_obsidian.Kernel.Errors.{Exception}
use niceone_obsidian.Kernel.SideEffects.{
  SideEffectCommand, SideEffectResult, Row, Outbox, candidate, update_where, locked, claim,
  claim_row, enqueue, complete, fail, recover_stale, unlock_stale, fenced, Fence, unfenced,
  unleased, checked, finished, reopened, new_row, is_abandoned, has_invocation, violates,
}

-- A transaction with its arguments. One that fails leaves the table.
pub data Transaction : Type 0 where
  enqueues : ℕ → SideEffectCommand → Transaction
  claims : ℕ → Transaction
  completes : ℕ → Fence → SideEffectCommand → SideEffectResult → Transaction
  fails : ℕ → Fence → SideEffectCommand → Fields → Transaction
  recovers : ℕ → Transaction

abbrev pub after_enqueue : Outbox → Result Exception (SideEffectCommand × Outbox) → Outbox
after_enqueue rows (ok (c, rows')) = rows'
after_enqueue rows (err e) = rows

abbrev pub after : Outbox → Result Exception Outbox → Outbox
after rows (ok rows') = rows'
after rows (err e) = rows

unfoldable pub step : Transaction → Outbox → Outbox
step (enqueues now c) rows = after_enqueue rows (enqueue now c rows)
step (claims now) rows = (claim now rows).1
step (completes now f c res) rows = after rows (complete now f c res rows)
step (fails now f c error) rows = after rows (fail now f c error rows)
step (recovers now) rows = (recover_stale now rows).1

unfoldable pub run : List Transaction → Outbox → Outbox
run [] rows = rows
run (a ∷ more) rows = run more (step a rows)

abbrev pub commands : Outbox → List SideEffectCommand
commands = map (λ r. r.command)

commands-update_where :
    (i : String) (f : Row → Row)
    → ((r : Row) → (f r).command ≡ r.command)
    → (rows : Outbox) → commands (update_where i f rows) ≡ commands rows
unfolding update_where
commands-update_where i f h [] = refl
commands-update_where i f h (r ∷ rows) = elim (Bool-cases (str_eq r.effect_id i)) [
  | inl b ↦ rw (b, h r, commands-update_where i f h rows) refl
  | inr b ↦ rw (b, commands-update_where i f h rows) refl
]

commands-unlock_stale : (now : ℕ) (rows : Outbox) → commands (unlock_stale now rows) ≡ commands rows
unfolding unlock_stale
commands-unlock_stale now [] = refl
commands-unlock_stale now (r ∷ rows) = elim (Bool-cases (is_abandoned now r)) [
  | inl b ↦ rw (b, commands-unlock_stale now rows) refl
  | inr b ↦ rw (b, commands-unlock_stale now rows) refl
]

Extends-of : {xs ys : List SideEffectCommand} → ys ≡ xs → Extends xs ys
Extends-of {xs} e = ([], e ∙ sym (append-nil xs))

commands-fenced :
    (f : Fence) (rows rows' : Outbox)
    → commands rows' ≡ commands rows
    → commands (after rows (fenced f rows')) ≡ commands rows
commands-fenced unfenced rows rows' e = e
commands-fenced unleased rows rows' e = refl
commands-fenced (checked (ok x)) rows rows' e = e
commands-fenced (checked (err x)) rows rows' e = refl

commands-claim_row :
    (now : ℕ) (rows : Outbox) (o : Option Row) → commands (claim_row now rows o).1 ≡ commands rows
commands-claim_row now rows none = refl
commands-claim_row now rows (some r) =
    commands-update_where r.effect_id (locked now) (λ q. refl) rows

pub commands-step :
    (a : Transaction) (rows : Outbox) → Extends (commands rows) (commands (step a rows))
unfolding step enqueue claim complete fail recover_stale
commands-step (enqueues now c) rows = elim (Bool-cases (has_invocation c.invocation_id rows)) [
  | inl b ↦ rw b (Extends-refl (commands rows))
  | inr b ↦ elim (Bool-cases (violates c rows)) [
    | inl v ↦ rw (b, v) (Extends-refl (commands rows))
    | inr v ↦ rw (b, v) (c ∷ [], map-append (λ (r : Row). r.command) rows (new_row now c ∷ []))
  ]
]
commands-step (claims now) rows = Extends-of (commands-claim_row now rows (candidate now rows))
commands-step (completes now f c res) rows = Extends-of (
    commands-fenced f rows _
      (commands-update_where c.effect_id (finished now res) (λ q. refl) rows))
commands-step (fails now f c error) rows = Extends-of (
    commands-fenced f rows _
      (commands-update_where c.effect_id (reopened now error) (λ q. refl) rows))
commands-step (recovers now) rows = Extends-of (commands-unlock_stale now rows)

-- Whatever transactions follow, every command of the table stays, unchanged and in its place; new
-- ones come behind.
pub commands-run :
    (as_run : List Transaction) (rows : Outbox)
    → Extends (commands rows) (commands (run as_run rows))
unfolding run
commands-run [] rows = Extends-refl (commands rows)
commands-run (a ∷ more) rows =
    Extends-trans (commands rows) (commands (step a rows)) (commands (run more (step a rows)))
      (commands-step a rows) (commands-run more (step a rows))
