-- ===== src/Kernel/Planning/Cycles.antt =====
-- Which plans are accepted (planning.py).
use niceone_obsidian.Prelude.{
  ℕ, zero, suc, ◌≤◌, ◌<◌, String, ◌≡◌, ◌≢◌, ◌↔◌, refl, ap, true, false, none, some, List, [], ◌∷◌,
  arith, str_eq, str_eq_iff, str_eq_refl, string_eq, length, if◌then◌else◌, Bool-cases,
  Option-cases, inl, inr, All,
}
use niceone_obsidian.Prelude.Dict.{get, contains, IsDict, get-All}
use niceone_obsidian.Prelude.Exec.{Result, ok, err}
use niceone_obsidian.Kernel.Errors.{Exception}
use niceone_obsidian.Kernel.Planning.{
  TaskNode, Tasks, Search, is_member, and_then, each, expand, add_visited, visit, validate_cycles,
  validate, check_known, check_dependencies, validate_dependencies, after_dependencies, task_ids,
}
use niceone_obsidian.Kernel.Planning.Fuel.{Returns, validate_terminates}
use niceone_obsidian.Kernel.Planning.Order.{IsOrdered, empty, place, each-orders, visit-orders}

-- Each dependency is a task of a lower rank: the dependencies have no cycle.
abbrev pub IsRanked : (String → ℕ) → Tasks → Type 0
IsRanked rank tasks =
    All
      (λ (p : String × TaskNode).
        All (λ d. (contains tasks d ≡ true) × (rank d < rank p.0)) p.1.dependencies)
      tasks

-- The number of entries from an identifier's last place on.
unfoldable pub place_of : List String → String → ℕ
place_of [] x = 0
place_of (v ∷ vs) x =
    let more = place_of vs x in
    if is_member x vs then more else if str_eq x v then suc (length vs) else 0

place_of_le : (vs : List String) (x : String) → place_of vs x ≤ length vs
unfolding place_of
place_of_le [] x = omega arith
place_of_le (v ∷ vs) x = ground (arith, place_of_le vs x)

below-All :
    (v i : String) (vs ds : List String)
    → All (λ d. (is_member d vs ≡ true) × (place_of vs d < place_of vs i)) ds
    → is_member i vs ≡ true
    → All (λ d. (is_member d (v ∷ vs) ≡ true) × (place_of (v ∷ vs) d < place_of (v ∷ vs) i)) ds
unfolding place_of
below-All v i vs [] a m = tt
below-All v i vs (d ∷ ds) (h, a) m = (ground arith, below-All v i vs ds a m)

below_new :
    (v : String) (vs ds : List String)
    → All (λ d. is_member d vs ≡ true) ds
    → is_member v vs ≡ false
    → All (λ d. (is_member d (v ∷ vs) ≡ true) × (place_of (v ∷ vs) d < place_of (v ∷ vs) v)) ds
unfolding place_of
below_new v vs [] a m = tt
below_new v vs (d ∷ ds) (h, a) m =
    (ground (arith, place_of_le vs d, str_eq_refl v), below_new v vs ds a m)

-- In an order of the tasks the dependencies of an entry have earlier places.
ordered_ranked :
    (tasks : Tasks) (vs : List String) (i : String) (t : TaskNode)
    → IsOrdered tasks vs
    → get tasks i ≡ some t
    → is_member i vs ≡ true
    → All (λ d. (is_member d vs ≡ true) × (place_of vs d < place_of vs i)) t.dependencies
ordered_ranked tasks [] i t empty g m = ground arith
ordered_ranked tasks (v ∷ vs) i t (place _ u _ h a o) g m = elim (Bool-cases (is_member i vs)) [
  | inl b ↦ below-All v i vs t.dependencies (ordered_ranked tasks vs i t o g b) b
  | inr b ↦
      let same : v ≡ i = ground (arith, str_eq_iff i v) in
      let node : u ≡ t = cc in
      rw (← same, ← node) (below_new v vs u.dependencies a (rw (← same) at b))
]

-- A visit raises nothing.
abbrev Quiet : (List String → String → Search) → String → Type 0
Quiet f i = (visited : List String) (e : Exception) → f visited i ≢ some (err e)

each-Quiet :
    (f : List String → String → Search) (ds visited : List String) (e : Exception)
    → All (Quiet f) ds
    → each f ds visited ≢ some (err e)
unfolding each
each-Quiet f [] visited e q h = ground arith
each-Quiet f (d ∷ ds) visited e (q, qs) h =
    go (f visited d) refl (λ more. each-Quiet f ds more e qs) h
  where
    go :
        (s : Search)
        → f visited d ≡ s
        → ((more : List String) → each f ds more ≢ some (err e))
        → and_then s (each f ds) ≢ some (err e)
    go none same r k = cc
    go (some (err x)) same r k = q visited x same
    go (some (ok more)) same r k = r more k

expand-Quiet :
    (f : List String → String → Search) (i : String) (t : TaskNode) (visited : List String)
    (e : Exception)
    → All (Quiet f) t.dependencies
    → expand f i (some t) visited ≢ some (err e)
expand-Quiet f i t visited e q h = go (each f t.dependencies visited) refl h
  where
    go :
        (s : Search) → each f t.dependencies visited ≡ s → and_then s (add_visited i) ≢ some (err e)
    go none same k = cc
    go (some (err x)) same k = each-Quiet f t.dependencies visited x q same
    go (some (ok more)) same k = ground arith

-- Ranks rise along the path, so that no task is met on it.
above_path :
    (rank : String → ℕ) (i : String) (path : List String)
    → All (λ v. rank i < rank v) path
    → is_member i path ≡ false
above_path rank i [] a = refl
above_path rank i (v ∷ path) (h, a) =
    ground (arith, above_path rank i path a, str_eq_iff i v, λ (e : i ≡ v). ap rank e)

module _ (rank : String → ℕ) (tasks : Tasks) where
  -- What the visit of a task relies on: its dependencies are tasks of lower ranks.
  abbrev LowerTasks : Type 0
  LowerTasks =
      (i : String) (t : TaskNode)
      → get tasks i ≡ some t
      → All (λ d. (contains tasks d ≡ true) × (rank d < rank i)) t.dependencies

  lower_path :
      (path : List String) (d i : String)
      → rank d < rank i
      → All (λ v. rank i < rank v) path
      → All (λ v. rank d < rank v) (i ∷ path)
  lower_path path d i h a = (h, weaken path a)
    where
      weaken : (xs : List String) → All (λ v. rank i < rank v) xs → All (λ v. rank d < rank v) xs
      weaken [] b = tt
      weaken (x ∷ xs) (g, b) = (omega (arith, h, g), weaken xs b)

  Quiet-All :
      (f : List String → String → Search) (i : String)
      → ((d : String) → contains tasks d ≡ true → rank d < rank i → Quiet f d)
      → (ds : List String) → All (λ d. (contains tasks d ≡ true) × (rank d < rank i)) ds
      → All (Quiet f) ds
  Quiet-All f i q [] b = tt
  Quiet-All f i q (d ∷ ds) ((k, l), b) = (q d k l, Quiet-All f i q ds b)

  visit-Quiet :
      (n : ℕ) (path : List String) (i : String)
      → LowerTasks
      → contains tasks i ≡ true
      → All (λ v. rank i < rank v) path
      → Quiet (visit n tasks path) i
  unfolding visit contains
  visit-Quiet zero path i low c a visited e h = cc
  visit-Quiet (suc n) path i low c a visited e h = elim (Bool-cases (is_member i visited)) [
    | inl b ↦ absurd (ground (arith, rw (above_path rank i path a, b) at h))
    | inr b ↦ elim (Option-cases (get tasks i)) [
      | inl none_there ↦ absurd (ground arith)
      | inr (t, g) ↦
          expand-Quiet (visit n tasks (i ∷ path)) i t visited e
            (Quiet-All (visit n tasks (i ∷ path)) i
              (λ d k l. visit-Quiet n (i ∷ path) d low k (lower_path path d i l a)) t.dependencies
              (low i t g))
            (rw (above_path rank i path a, b, g) at h)
    ]
  ]

-- What holds of all entries holds of the one found.
found-All :
    (P : String × TaskNode → Type 0) (tasks : Tasks) (i : String) (t : TaskNode)
    → All P tasks
    → get tasks i ≡ some t
    → P (i, t)
unfolding get
found-All P [] i t a g = cc
found-All P ((j, u) ∷ rest) i t (h, a) g = elim (Bool-cases (str_eq j i)) [
  | inl b ↦
      let same : j ≡ i = (str_eq_iff j i).0 b in
      let node : u ≡ t = ground (arith, rw b at g) in rw (← same, ← node) h
  | inr b ↦ found-All P rest i t a (rw b at g)
]

known :
    (rank : String → ℕ) (i : String) (tasks : Tasks) (t : TaskNode) (ds : List String)
    → All (λ d. (contains tasks d ≡ true) × (rank d < rank i)) ds
    → check_known tasks t ds ≡ ok tt
unfolding check_known
known rank i tasks t [] a = refl
known rank i tasks t (d ∷ ds) ((k, l), a) = rw k (known rank i tasks t ds a)

dependencies_known :
    (rank : String → ℕ) (tasks rest : Tasks)
    → All
        (λ (p : String × TaskNode).
          All (λ d. (contains tasks d ≡ true) × (rank d < rank p.0)) p.1.dependencies)
        rest
    → check_dependencies tasks rest ≡ ok tt
unfolding check_dependencies
dependencies_known rank tasks [] a = refl
dependencies_known rank tasks ((i, t) ∷ rest) (h, a) =
    rw (known rank i tasks t t.dependencies h) (dependencies_known rank tasks rest a)

ids-Quiet :
    (f : List String → String → Search) (tasks rest : Tasks)
    → ((i : String) → contains tasks i ≡ true → Quiet f i)
    → All (λ (p : String × TaskNode). get tasks p.0 ≡ some p.1) rest
    → All (Quiet f) (task_ids rest)
unfolding contains
ids-Quiet f tasks [] q a = tt
ids-Quiet f tasks ((i, t) ∷ rest) q (h, a) = (q i (rw h refl), ids-Quiet f tasks rest q a)

ranked_accepted :
    (rank : String → ℕ) (tasks : Tasks)
    → IsDict tasks
    → IsRanked rank tasks
    → (visited : List String) × (validate tasks ≡ some (ok visited))
unfolding validate validate_dependencies validate_cycles
ranked_accepted rank tasks d a = go (validate_terminates tasks)
  where
    no_error : (e : Exception) → validate tasks ≢ some (err e)
    no_error e h =
        each-Quiet (visit (suc (length tasks)) tasks []) (task_ids tasks) [] e
          (ids-Quiet (visit (suc (length tasks)) tasks []) tasks tasks
            (λ i c.
              visit-Quiet rank tasks (suc (length tasks)) [] i
                (λ j t g.
                  found-All
                    (λ p.
                      All (λ x. (contains tasks x ≡ true) × (rank x < rank p.0)) p.1.dependencies)
                    tasks j t a g)
                c tt)
            (get-All tasks d))
          (rw (dependencies_known rank tasks tasks a) at h)

    go : Returns (validate tasks) → (visited : List String) × (validate tasks ≡ some (ok visited))
    go (ok visited, same) = (visited, same)
    go (err e, same) = absurd (no_error e same)

ordered_contains :
    (tasks : Tasks) (vs : List String) (d : String)
    → IsOrdered tasks vs
    → is_member d vs ≡ true
    → contains tasks d ≡ true
unfolding contains
ordered_contains tasks [] d empty m = cc
ordered_contains tasks (v ∷ vs) d (place _ t _ g a o) m =
    ground (arith, str_eq_iff d v, g, ordered_contains tasks vs d o)

accepted_parts :
    (tasks : Tasks) (visited : List String)
    → validate tasks ≡ some (ok visited)
    → IsOrdered tasks visited × All (λ i. is_member i visited ≡ true) (task_ids tasks)
unfolding validate validate_cycles
accepted_parts tasks visited h = go (validate_dependencies tasks) h
  where
    go :
        (r : Result Exception (Unit {0}))
        → after_dependencies r (validate_cycles tasks) ≡ some (ok visited)
        → IsOrdered tasks visited × All (λ i. is_member i visited ≡ true) (task_ids tasks)
    go (err e) k = ground arith
    go (ok x) k =
        let (adds, all) =
          each-orders tasks (visit (suc (length tasks)) tasks [])
            (visit-orders (suc (length tasks)) tasks []) (task_ids tasks) [] visited empty k in
        (adds.ordered, all)

entries_ranked :
    (tasks rest : Tasks) (visited : List String)
    → IsOrdered tasks visited
    → All (λ (p : String × TaskNode). get tasks p.0 ≡ some p.1) rest
    → All (λ i. is_member i visited ≡ true) (task_ids rest)
    → All
        (λ (p : String × TaskNode).
          All
            (λ d. (contains tasks d ≡ true) × (place_of visited d < place_of visited p.0))
            p.1.dependencies)
        rest
entries_ranked tasks [] visited o d m = tt
entries_ranked tasks ((i, t) ∷ rest) visited o (g, d) (m, ms) = (
  each_dependency t.dependencies (ordered_ranked tasks visited i t o g m),
  entries_ranked tasks rest visited o d ms,
)
  where
    each_dependency :
        (ds : List String)
        → All (λ x. (is_member x visited ≡ true) × (place_of visited x < place_of visited i)) ds
        → All (λ x. (contains tasks x ≡ true) × (place_of visited x < place_of visited i)) ds
    each_dependency [] a = tt
    each_dependency (x ∷ xs) ((k, l), a) =
        ((ordered_contains tasks visited x o k, l), each_dependency xs a)

-- A plan whose task identifiers are distinct is accepted exactly when its tasks can be ranked so that
-- every dependency of a task is a task of a lower rank.
pub accepted_iff_IsRanked :
    (tasks : Tasks)
    → IsDict tasks
    → ((visited : List String) × (validate tasks ≡ some (ok visited)))
      ↔ ((rank : String → ℕ) × IsRanked rank tasks)
accepted_iff_IsRanked tasks d = (
  λ (visited, h).
      (let (o, m) = accepted_parts tasks visited h in
        (place_of visited, entries_ranked tasks tasks visited o (get-All tasks d) m)),
  λ (rank, a). ranked_accepted rank tasks d a,
)
