-- ===== src/Kernel/SideEffects/Delivery.antt =====
-- The candidate of a claim (side_effects.py).
use mathlib.Core.Bool.{false≢true}
use mathlib.Core.Path.{subst, ◌∙◌}
use niceone_obsidian.Prelude.{
  ℕ, ◌≤◌, ◌≡◌, refl, sym, ap, Bool, true, false, Option, none, some, [], ◌∷◌, arith, All, leb,
  if◌then◌else◌, Bool-cases, inl, inr, ◌⊎◌, or_else,
}
use niceone_obsidian.Kernel.SideEffects.{Row, Outbox, claimable, older, candidate}

some_inj : {a b : Row} → some a ≡ some b → a ≡ b
some_inj {a} e = ap (λ o. or_else o a) e

-- The candidate is the first row or the candidate of the others.
candidate_cons :
    (now : ℕ) (s : Row) (o : Option Row) (b : Bool) (r : Row)
    → (if b then some (older s o) else o) ≡ some r
    → ((s ≡ r) × (b ≡ true)) ⊎ (o ≡ some r)
candidate_cons now s none true r e = inl (some_inj e, refl)
candidate_cons now s (some q) true r e = elim (Bool-cases (leb s.created_at q.created_at)) [
  | inl b ↦ inl (some_inj (rw b at e), refl)
  | inr b ↦ inr (rw b at e)
]
candidate_cons now s o false r e = inr e

-- What holds of all rows holds of the candidate, which is claimable.
pub candidate-All :
    (P : Row → Type 0) (now : ℕ) (rows : Outbox) (r : Row)
    → All P rows
    → candidate now rows ≡ some r
    → P r × (claimable now r ≡ true)
unfolding candidate
candidate-All P now [] r h e = cc
candidate-All P now (s ∷ rows) r h e =
    elim (candidate_cons now s (candidate now rows) (claimable now s) r e) [
      | inl (same, c) ↦ (subst P same h.0, subst (λ q. claimable now q ≡ true) same c)
      | inr f ↦ candidate-All P now rows r h.1 f
    ]

-- No claimable row is older than the candidate.
abbrev pub NotOlder : ℕ → Row → Row → Type 0
NotOlder now r s = claimable now s ≡ true → r.created_at ≤ s.created_at

NotOlder-none :
    (now : ℕ) (r : Row) (rows : Outbox) → candidate now rows ≡ none → All (NotOlder now r) rows
unfolding candidate
NotOlder-none now r [] e = tt
NotOlder-none now r (s ∷ rows) e = elim (Bool-cases (claimable now s)) [
  | inl c ↦ cc (rw c at e)
  | inr c ↦ (λ d. absurd (false≢true (sym c ∙ d)), NotOlder-none now r rows (rw c at e))
]

NotOlder-trans :
    (now : ℕ) (r q : Row) (rows : Outbox)
    → r.created_at ≤ q.created_at
    → All (NotOlder now q) rows
    → All (NotOlder now r) rows
NotOlder-trans now r q [] l h = tt
NotOlder-trans now r q (s ∷ rows) l h =
    (λ c. omega (arith, h.0 c), NotOlder-trans now r q rows l h.1)

NotOlder-cons :
    (now : ℕ) (s : Row) (rows : Outbox) (o : Option Row) (r : Row)
    → ((q : Row) → o ≡ some q → All (NotOlder now q) rows)
    → (o ≡ none → All (NotOlder now s) rows)
    → (b : Bool) → claimable now s ≡ b
    → (if b then some (older s o) else o) ≡ some r
    → All (NotOlder now r) (s ∷ rows)
NotOlder-cons now s rows none r h n true c e =
    subst (λ r. All (NotOlder now r) (s ∷ rows)) (some_inj e) (λ d. omega arith, n refl)
NotOlder-cons now s rows (some q) r h n true c e =
    elim (Bool-cases (leb s.created_at q.created_at)) [
      | inl b ↦
          subst (λ r. All (NotOlder now r) (s ∷ rows)) (some_inj (rw b at e))
            (λ d. omega arith, NotOlder-trans now s q rows (ground arith) (h q refl))
      | inr b ↦
          subst (λ r. All (NotOlder now r) (s ∷ rows)) (some_inj (rw b at e))
            (λ d. ground arith, h q refl)
    ]
NotOlder-cons now s rows o r h n false c e = (λ d. absurd (false≢true (sym c ∙ d)), h r e)

pub candidate-NotOlder :
    (now : ℕ) (rows : Outbox) (r : Row) → candidate now rows ≡ some r → All (NotOlder now r) rows
unfolding candidate
candidate-NotOlder now [] r e = cc
candidate-NotOlder now (s ∷ rows) r e =
    NotOlder-cons now s rows (candidate now rows) r (λ q f. candidate-NotOlder now rows q f)
      (λ f. NotOlder-none now s rows f) (claimable now s) refl e
