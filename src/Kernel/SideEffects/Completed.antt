-- ===== src/Kernel/SideEffects/Completed.antt =====
-- Completed effects among later transactions (side_effects.py).
use mathlib.Core.Bool.{false≢true}
use mathlib.Core.Path.{subst, ◌∙◌}
use niceone_obsidian.Prelude.{
  ℕ, String, ◌≡◌, ◌≢◌, refl, sym, ap, Bool, true, false, Option, none, some, List, [], ◌∷◌, ◌++◌,
  All, str_eq, str_eq_iff, Bool-cases, inl, inr, any,
}
use niceone_obsidian.Prelude.Exec.{ok, err}
use niceone_obsidian.Kernel.SideEffects.{
  SideEffectCommand, Row, Outbox, completed, candidate, update_where, locked, claim, claim_row,
  enqueue, complete, fail, recover_stale, unlock_stale, fenced, Fence, unfenced, unleased, checked,
  finished, reopened, new_row, is_abandoned, has_invocation, violates,
}
use niceone_obsidian.Kernel.SideEffects.Delivery.{candidate-All}
use niceone_obsidian.Kernel.SideEffects.Locks.{Written, from_row}
use niceone_obsidian.Kernel.SideEffects.History.{
  Transaction, enqueues, claims, completes, fails, recovers, after, step, run, commands,
  commands-step,
}

abbrev pub Finished : String → Row → Type 0
Finished = Written (λ r. r.status ≡ completed)

abbrev pub is_there : String → List SideEffectCommand → Bool
is_there i cs = any (λ c. str_eq c.effect_id i) cs

-- The effect is in the table, and completed.
pub record IsDone (i : String) (rows : Outbox) : Type 0 where
  pub there : is_there i (commands rows) ≡ true
  pub done : All (Finished i) rows

-- The transaction is not a failure of this effect.
abbrev pub Spares : String → Transaction → Type 0
Spares i (fails now f c error) = c.effect_id ≢ i
Spares i a = Unit

is_there-append :
    (i : String) (cs ds : List SideEffectCommand)
    → is_there i cs ≡ true
    → is_there i (cs ++ ds) ≡ true
is_there-append i [] ds h = cc
is_there-append i (c ∷ cs) ds h = elim (Bool-cases (str_eq c.effect_id i)) [
  | inl b ↦ rw b refl
  | inr b ↦ rw b (is_there-append i cs ds (rw b at h))
]

there-step :
    (i : String) (a : Transaction) (rows : Outbox)
    → is_there i (commands rows) ≡ true
    → is_there i (commands (step a rows)) ≡ true
there-step i a rows h =
    let (more, e) = commands-step a rows in rw e (is_there-append i (commands rows) more h)

update_where-Finished :
    (i j : String) (f : Row → Row)
    → ((r : Row) → Finished i r → str_eq r.effect_id j ≡ true → Finished i (f r))
    → (rows : Outbox) → All (Finished i) rows
    → All (Finished i) (update_where j f rows)
unfolding update_where
update_where-Finished i j f h [] d = tt
update_where-Finished i j f h (r ∷ rows) d = elim (Bool-cases (str_eq r.effect_id j)) [
  | inl b ↦ rw b (h r d.0 b, update_where-Finished i j f h rows d.1)
  | inr b ↦ rw b (d.0, update_where-Finished i j f h rows d.1)
]

-- An update of another effect.
other_effect :
    (i j : String) (f : Row → Row)
    → ((r : Row) → (f r).command ≡ r.command)
    → j ≢ i
    → (r : Row) → Finished i r
    → str_eq r.effect_id j ≡ true
    → Finished i (f r)
other_effect i j f k n r d b c = absurd (
    n (
      sym ((str_eq_iff r.effect_id j).0 b)
      ∙ ap (λ (x : SideEffectCommand). x.effect_id) (sym (k r))
      ∙ (str_eq_iff (f r).effect_id i).0 c))

unlock_stale-Finished :
    (i : String) (now : ℕ) (rows : Outbox)
    → All (Finished i) rows
    → All (Finished i) (unlock_stale now rows)
unfolding unlock_stale
unlock_stale-Finished i now [] d = tt
unlock_stale-Finished i now (r ∷ rows) d = elim (Bool-cases (is_abandoned now r)) [
  | inl b ↦ rw b (λ c. absurd (false≢true (rw (d.0 c) at b)), unlock_stale-Finished i now rows d.1)
  | inr b ↦ rw b (d.0, unlock_stale-Finished i now rows d.1)
]

fenced-Finished :
    (i : String) (f : Fence) (rows rows' : Outbox)
    → All (Finished i) rows
    → All (Finished i) rows'
    → All (Finished i) (after rows (fenced f rows'))
fenced-Finished i unfenced rows rows' d e = e
fenced-Finished i unleased rows rows' d e = d
fenced-Finished i (checked (ok x)) rows rows' d e = e
fenced-Finished i (checked (err x)) rows rows' d e = d

-- The candidate of a claim is not a finished effect.
candidate-other :
    (i : String) (now : ℕ) (rows : Outbox) (r : Row)
    → All (Finished i) rows
    → candidate now rows ≡ some r
    → r.effect_id ≢ i
candidate-other i now rows r d e same =
    let (f, c) = candidate-All (Finished i) now rows r d e in
    false≢true (rw (f ((str_eq_iff r.effect_id i).1 same)) at c)

claim_row-Finished :
    (i : String) (now : ℕ) (rows : Outbox) (o : Option Row)
    → ((r : Row) → o ≡ some r → r.effect_id ≢ i)
    → All (Finished i) rows
    → All (Finished i) (claim_row now rows o).1
claim_row-Finished i now rows none n d = d
claim_row-Finished i now rows (some r) n d =
    update_where-Finished i r.effect_id (locked now)
      (other_effect i r.effect_id (locked now) (λ q. refl) (n r refl)) rows d

append-Finished :
    (i : String) (rows more : Outbox)
    → All (Finished i) rows
    → All (Finished i) more
    → All (Finished i) (rows ++ more)
append-Finished i [] more d e = e
append-Finished i (r ∷ rows) more d e = (d.0, append-Finished i rows more d.1 e)

there-violates :
    (c : SideEffectCommand) (rows : Outbox)
    → is_there c.effect_id (commands rows) ≡ true
    → violates c rows ≡ true
there-violates c [] h = cc
there-violates c (r ∷ rows) h = elim (Bool-cases (str_eq r.effect_id c.effect_id)) [
  | inl b ↦ rw b refl
  | inr b ↦ elim (Bool-cases (str_eq r.idempotency_key c.idempotency_key)) [
    | inl k ↦ rw (b, k) refl
    | inr k ↦ rw (b, k) (there-violates c rows (rw b at h))
  ]
]

done-step :
    (i : String) (a : Transaction) (rows : Outbox)
    → Spares i a
    → IsDone i rows
    → All (Finished i) (step a rows)
unfolding step enqueue claim complete fail recover_stale
done-step i (enqueues now c) rows s d = elim (Bool-cases (has_invocation c.invocation_id rows)) [
  | inl b ↦ rw b d.done
  | inr b ↦ elim (Bool-cases (violates c rows)) [
    | inl v ↦ rw (b, v) d.done
    | inr v ↦ rw (b, v) (append-Finished i rows (new_row now c ∷ []) d.done (fresh v, tt))
  ]
]
  where
    fresh : violates c rows ≡ false → Finished i (new_row now c)
    fresh v same = absurd (
        false≢true (
          sym v
          ∙ there-violates c rows (
              subst (λ j. is_there j (commands rows) ≡ true)
                (sym ((str_eq_iff c.effect_id i).0 same)) d.there)))
done-step i (claims now) rows s d =
    claim_row-Finished i now rows (candidate now rows)
      (λ r e. candidate-other i now rows r d.done e) d.done
done-step i (completes now f c res) rows s d =
    fenced-Finished i f rows _ d.done
      (update_where-Finished i c.effect_id (finished now res) (λ r h b g. refl) rows d.done)
done-step i (fails now f c error) rows s d = fenced-Finished i f rows _ d.done (
    update_where-Finished i c.effect_id (reopened now error)
      (other_effect i c.effect_id (reopened now error) (λ r. refl) s) rows d.done)
done-step i (recovers now) rows s d = unlock_stale-Finished i now rows d.done

step-IsDone :
    (i : String) (a : Transaction) (rows : Outbox)
    → Spares i a
    → IsDone i rows
    → IsDone i (step a rows)
step-IsDone i a rows s d = record {
  there = there-step i a rows d.there;
  done = done-step i a rows s d;
}

run-IsDone :
    (i : String) (later : List Transaction) (rows : Outbox)
    → All (Spares i) later
    → IsDone i rows
    → IsDone i (run later rows)
unfolding run
run-IsDone i [] rows s d = d
run-IsDone i (a ∷ more) rows s d = run-IsDone i more (step a rows) s.1 (step-IsDone i a rows s.0 d)

-- Once an effect of the table is completed, no claim hands it out again, whatever transactions come
-- between, if none of them fails it.
pub completed_not_claimed :
    (i : String) (later : List Transaction) (rows : Outbox)
    → IsDone i rows
    → All (Spares i) later
    → (now : ℕ) (d : SideEffectCommand) (rows' : Outbox)
    → claim now (run later rows) ≡ (some d, rows')
    → d.effect_id ≢ i
unfolding claim
completed_not_claimed i later rows done s now d rows' e same =
    let (r, o, is_d, u) =
      from_row now (run later rows) rows' d (candidate now (run later rows)) e in
    candidate-other i now (run later rows) r (run-IsDone i later rows s done).done o
      (ap (λ (x : SideEffectCommand). x.effect_id) is_d ∙ same)
