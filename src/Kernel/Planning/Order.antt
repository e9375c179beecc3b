-- ===== src/Kernel/Planning/Order.antt =====
-- The order in which the search for cycles leaves the tasks of a plan (planning.py).
use niceone_obsidian.Prelude.{
  ℕ, zero, suc, String, ◌≡◌, refl, true, Option, none, some, List, [], ◌∷◌, arith, str_eq_refl,
  string_eq, Bool-cases, inl, inr, All,
}
use niceone_obsidian.Prelude.Dict.{get}
use niceone_obsidian.Prelude.Exec.{ok, err}
use niceone_obsidian.Kernel.Planning.{
  TaskNode, Tasks, Search, is_member, and_then, each, expand, add_visited, visit,
}

-- Each entry is a task whose dependencies stand further back.
pub data IsOrdered (tasks : Tasks) : List String → Type 0 where
  empty : IsOrdered tasks []
  place :
      (i : String) (t : TaskNode) (back : List String)
      → get tasks i ≡ some t
      → All (λ d. is_member d back ≡ true) t.dependencies
      → IsOrdered tasks back
      → IsOrdered tasks (i ∷ back)

-- What a search adds to the tasks visited before.
pub record Adds (tasks : Tasks) (before after : List String) : Type 0 where
  pub ordered : IsOrdered tasks after
  pub kept : (i : String) → is_member i before ≡ true → is_member i after ≡ true

-- What a visit of one identifier comes to, if it comes to an end without an exception.
abbrev pub VisitOrders : Tasks → (List String → String → Search) → Type 0
VisitOrders tasks f =
    (before after : List String) (i : String)
    → IsOrdered tasks before
    → f before i ≡ some (ok after)
    → Adds tasks before after × (is_member i after ≡ true)

Adds-refl : (tasks : Tasks) (xs : List String) → IsOrdered tasks xs → Adds tasks xs xs
Adds-refl tasks xs o = record { ordered = o; kept = λ i h. h }

and_then_cases :
    (s : Search) (f : List String → Search) (after : List String)
    → and_then s f ≡ some (ok after)
    → (mid : List String) × (s ≡ some (ok mid)) × (f mid ≡ some (ok after))
and_then_cases none f after h = cc
and_then_cases (some (err x)) f after h = ground arith
and_then_cases (some (ok mid)) f after h = (mid, refl, h)

All-kept :
    (xs ys ds : List String)
    → ((i : String) → is_member i xs ≡ true → is_member i ys ≡ true)
    → All (λ d. is_member d xs ≡ true) ds
    → All (λ d. is_member d ys ≡ true) ds
All-kept xs ys [] k a = tt
All-kept xs ys (d ∷ ds) k (h, a) = (k d h, All-kept xs ys ds k a)

pub each-orders :
    (tasks : Tasks) (f : List String → String → Search)
    → VisitOrders tasks f
    → (ds before after : List String) → IsOrdered tasks before
    → each f ds before ≡ some (ok after)
    → Adds tasks before after × All (λ d. is_member d after ≡ true) ds
unfolding each
each-orders tasks f v [] before after o h =
    let same : before ≡ after = ground arith in
    (record { ordered = rw (← same) o; kept = λ i m. rw (← same) m }, tt)
each-orders tasks f v (d ∷ ds) before after o h =
    let (mid, first, rest) = and_then_cases (f before d) (each f ds) after h in
    let (a, m) = v before mid d o first in
    let (b, all) = each-orders tasks f v ds mid after a.ordered rest in
    (record { ordered = b.ordered; kept = λ i k. b.kept i (a.kept i k) }, (b.kept d m, all))

expand-orders :
    (tasks : Tasks) (f : List String → String → Search) (i : String) (o : Option TaskNode)
    (before after : List String)
    → VisitOrders tasks f
    → get tasks i ≡ o
    → IsOrdered tasks before
    → expand f i o before ≡ some (ok after)
    → Adds tasks before after × (is_member i after ≡ true)
expand-orders tasks f i none before after v g o h = ground arith
expand-orders tasks f i (some t) before after v g o h =
    let (mid, first, rest) =
      and_then_cases (each f t.dependencies before) (add_visited i) after h in
    let (a, all) = each-orders tasks f v t.dependencies before mid o first in
    let same : i ∷ mid ≡ after = ground arith in
    (
      record {
        ordered = rw (← same) (place i t mid g all a.ordered);
        kept = λ j k. rw (← same) (ground (arith, a.kept j k));
      },
      rw (← same) (ground (arith, str_eq_refl i)),
    )

pub visit-orders :
    (n : ℕ) (tasks : Tasks) (path : List String) → VisitOrders tasks (visit n tasks path)
unfolding visit
visit-orders zero tasks path before after i o h = cc
visit-orders (suc n) tasks path before after i o h = elim (Bool-cases (is_member i path)) [
  | inl b ↦ absurd (ground (arith, rw b at h))
  | inr b ↦ elim (Bool-cases (is_member i before)) [
    | inl c ↦
        let same : before ≡ after = ground (arith, rw (b, c) at h) in
        (record { ordered = rw (← same) o; kept = λ j m. rw (← same) m }, rw (← same) c)
    | inr c ↦
        expand-orders tasks (visit n tasks (i ∷ path)) i (get tasks i) before after
          (visit-orders n tasks (i ∷ path)) refl o (rw (b, c) at h)
  ]
]
