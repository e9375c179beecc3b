-- ===== src/Kernel/Planning/Progress.antt =====
-- A plan whose tasks wait or have succeeded is never blocked (planning.py).
use mathlib.Core.Path.{subst}
use niceone_obsidian.Prelude.{
  ℕ, zero, suc, ◌<◌, String, ◌≡◌, refl, ap, ◌⊎◌, Bool, true, false, ◌||◌, some, List, [], ◌∷◌,
  arith, str_eq, str_eq_iff, string_eq, Bool-cases, Option-cases, inl, inr, All, all,
}
use niceone_obsidian.Prelude.Dict.{get, set, contains, contains-set, IsDict, get-All}
use niceone_obsidian.Prelude.Exec.{Result, ok}
use niceone_obsidian.Kernel.Errors.{Exception}
use niceone_obsidian.Kernel.Planning.{
  TaskNode, Tasks, is_pending, is_succeeded, is_finished, with_status, ready, all_succeeded,
  mark_ready, ready_from, ready_tasks, is_complete, validate,
}
use niceone_obsidian.Kernel.Planning.Cycles.{IsRanked, accepted_iff_IsRanked}

-- A task that is PENDING or SUCCEEDED.
abbrev pub is_live : TaskNode → Bool
is_live t = is_pending t.status || is_succeeded t.status

abbrev Known : Tasks → List String → Type 0
Known a ds = All (λ d. contains a d ≡ true) ds

abbrev IsEntry : Tasks → String × TaskNode → Type 0
IsEntry a (i, t) = get a i ≡ some t

ranked_at :
    (a b : Tasks) (rank : String → ℕ) (i : String) (t : TaskNode)
    → All
        (λ (p : String × TaskNode).
          All (λ d. (contains b d ≡ true) × (rank d < rank p.0)) p.1.dependencies)
        a
    → get a i ≡ some t
    → All (λ d. (contains b d ≡ true) × (rank d < rank i)) t.dependencies
unfolding get
ranked_at [] b rank i t h g = absurd (ground arith)
ranked_at ((j, u) ∷ a) b rank i t (h, hs) g = elim (Bool-cases (str_eq j i)) [
  | inl y ↦
      let q : j ≡ i = (str_eq_iff j i).0 y in
      let v : u ≡ t = ground (arith, g, y) in
      subst (λ k. All (λ d. (contains b d ≡ true) × (rank d < rank k)) t.dependencies) q
        (subst (λ x. All (λ d. (contains b d ≡ true) × (rank d < rank j)) x.dependencies) v h)
  | inr n ↦ ranked_at a b rank i t hs (ground (arith, g, n))
]

-- Dependencies that the plan has have all succeeded, or one of them is a task that has not.
all_succeeded-cases :
    (a : Tasks) (rank : String → ℕ) (n : ℕ) (ds : List String)
    → All (λ d. (contains a d ≡ true) × (rank d < n)) ds
    → (all_succeeded a ds ≡ ok true)
      ⊎ ((all_succeeded a ds ≡ ok false)
          × (d : String) × (u : TaskNode) × (get a d ≡ some u)
          × (is_succeeded u.status ≡ false)
          × (rank d < n))
unfolding all_succeeded contains
all_succeeded-cases a rank n [] h = inl refl
all_succeeded-cases a rank n (d ∷ ds) ((k, l), h) = elim (Option-cases (get a d)) [
  | inl x ↦ absurd (ground (arith, k, x))
  | inr (u, x) ↦ elim (Bool-cases (is_succeeded u.status)) [
    | inl y ↦ elim (all_succeeded-cases a rank n ds h) [
      | inl z ↦ inl (rw (x, y, z) refl)
      | inr (z, e, v, f, s, l') ↦ inr (rw (x, y, z) refl, e, v, f, s, l')
    ]
    | inr y ↦ inr (rw (x, y) refl, d, u, x, y, l)
  ]
]

-- A PENDING task whose dependencies have all succeeded.
record Startable (a : Tasks) : Type 0 where
  key : String
  task : TaskNode
  found : get a key ≡ some task
  waits : is_pending task.status ≡ true
  freed : all_succeeded a task.dependencies ≡ ok true

live_at :
    (a : Tasks) (i : String) (t : TaskNode)
    → All (λ (p : String × TaskNode). is_live p.1 ≡ true) a
    → get a i ≡ some t
    → is_live t ≡ true
unfolding get
live_at [] i t h g = absurd (ground arith)
live_at ((j, u) ∷ a) i t (h, hs) g = elim (Bool-cases (str_eq j i)) [
  | inl y ↦ let v : u ≡ t = ground (arith, g, y) in subst (λ x. is_live x ≡ true) v h
  | inr n ↦ live_at a i t hs (ground (arith, g, n))
]

Startable-below :
    (n : ℕ) (a : Tasks) (rank : String → ℕ) (i : String) (t : TaskNode)
    → IsRanked rank a
    → All (λ (p : String × TaskNode). is_live p.1 ≡ true) a
    → get a i ≡ some t
    → is_pending t.status ≡ true
    → rank i < n
    → Startable a
Startable-below zero a rank i t r h g p l = absurd (omega (arith, l))
Startable-below (suc n) a rank i t r h g p l =
    elim (all_succeeded-cases a rank (rank i) t.dependencies (ranked_at a a rank i t r g)) [
      | inl x ↦ record { key = i; task = t; found = g; waits = p; freed = x }
      | inr (x, d, u, f, s, m) ↦
          Startable-below n a rank d u r h f (ground (arith, live_at a d u h f, s))
            (omega (arith, l, m))
    ]

unfinished :
    (a rest : Tasks)
    → All (IsEntry a) rest
    → All (λ (p : String × TaskNode). is_live p.1 ≡ true) rest
    → all (λ (p : String × TaskNode). is_finished p.1.status) rest ≡ false
    → (i : String) × (t : TaskNode) × (get a i ≡ some t) × (is_pending t.status ≡ true)
unfinished a [] e h n = absurd (ground (arith, n))
unfinished a ((i, t) ∷ rest) (g, e) (l, h) n = elim (Bool-cases (is_pending t.status)) [
  | inl y ↦ (i, t, g, y)
  | inr x ↦ unfinished a rest e h (ground (arith, l, x, n))
]

-- Every dependency of a task is a task of the plan.
abbrev Closed : Tasks → Tasks → Type 0
Closed a = All (λ (p : String × TaskNode). Known a p.1.dependencies)

Known-set :
    (a : Tasks) (i : String) (t : TaskNode) (ds : List String) → Known a ds → Known (set a i t) ds
Known-set a i t [] h = tt
Known-set a i t (d ∷ ds) (k, h) = (ground (arith, contains-set a i d t, k), Known-set a i t ds h)

Closed-set :
    (a : Tasks) (i : String) (t : TaskNode) (rest : Tasks) → Closed a rest → Closed (set a i t) rest
Closed-set a i t [] h = tt
Closed-set a i t ((j, u) ∷ rest) (k, h) =
    (Known-set a i t u.dependencies k, Closed-set a i t rest h)

Known-answers :
    (a : Tasks) (ds : List String) → Known a ds → (b : Bool) × (all_succeeded a ds ≡ ok b)
unfolding all_succeeded contains
Known-answers a [] h = (true, refl)
Known-answers a (d ∷ ds) (k, h) = elim (Option-cases (get a d)) [
  | inl x ↦ absurd (ground (arith, k, x))
  | inr (u, x) ↦ elim (Bool-cases (is_succeeded u.status)) [
    | inl y ↦ let (b, e) = Known-answers a ds h in (b, rw (x, y, e) refl)
    | inr y ↦ (false, rw (x, y) refl)
  ]
]

abbrev ReadyRun : Type 0
ReadyRun = Result Exception (Tasks × List String)

ready_from_returns :
    (rest a : Tasks)
    → Closed a rest
    → (b : Tasks) × (is : List String) × (ready_from rest a ≡ ok (b, is))
unfolding ready_from mark_ready
ready_from_returns [] a h = (a, [], refl)
ready_from_returns ((i, t) ∷ rest) a (k, h) =
    let (x, e) = Known-answers a t.dependencies k in
    let (b, is, f) = ready_from_returns rest a h in
    let (c, js, g) =
      ready_from_returns rest (set a i (with_status ready t))
        (Closed-set a i (with_status ready t) rest h) in
    elim (Bool-cases (is_pending t.status)) [
      | inl y ↦ elim (Bool-cases x) [
        | inl z ↦ (c, i ∷ js, rw (y, e, z, g) refl)
        | inr z ↦ (b, is, rw (y, e, z, f) refl)
      ]
      | inr y ↦ (b, is, rw (y, f) refl)
    ]

-- Some task is marked if the entries hold one that can start.
ready_from-some :
    (rest a : Tasks) (j : String) (u : TaskNode)
    → Closed a rest
    → get rest j ≡ some u
    → is_pending u.status ≡ true
    → all_succeeded a u.dependencies ≡ ok true
    → (b : Tasks) × (i : String) × (is : List String) × (ready_from rest a ≡ ok (b, i ∷ is))
unfolding ready_from mark_ready get
ready_from-some [] a j u h g p f = absurd (ground (arith, g))
ready_from-some ((i, t) ∷ rest) a j u (k, h) g p f =
    let (x, e) = Known-answers a t.dependencies k in
    let (c, js, m) =
      ready_from_returns rest (set a i (with_status ready t))
        (Closed-set a i (with_status ready t) rest h) in
    elim (Bool-cases (str_eq i j)) [
      | inl y ↦
          let v : t ≡ u = ground (arith, g, y) in
          (
            c,
            i,
            js,
            rw
                (
                  ap (λ z. is_pending z.status) v,
                  p,
                  ap (λ z. all_succeeded a z.dependencies) v,
                  f,
                  m,
                )
                refl,
          )
      | inr y ↦
          let (b, l, ls, n) = ready_from-some rest a j u h (ground (arith, g, y)) p f in
          elim (Bool-cases (is_pending t.status)) [
            | inl q ↦ elim (Bool-cases x) [
              | inl z ↦ (c, i, js, rw (q, e, z, m) refl)
              | inr z ↦ (b, l, ls, rw (q, e, z, n) refl)
            ]
            | inr q ↦ (b, l, ls, rw (q, n) refl)
          ]
    ]

Closed-ranked :
    (a rest : Tasks) (rank : String → ℕ)
    → All
        (λ (p : String × TaskNode).
          All (λ d. (contains a d ≡ true) × (rank d < rank p.0)) p.1.dependencies)
        rest
    → Closed a rest
Closed-ranked a [] rank h = tt
Closed-ranked a ((i, t) ∷ rest) rank (k, h) = (known t.dependencies k, Closed-ranked a rest rank h)
  where
    known :
        (ds : List String) → All (λ d. (contains a d ≡ true) × (rank d < rank i)) ds → Known a ds
    known [] h = tt
    known (d ∷ ds) ((x, l), h) = (x, known ds h)

-- An accepted plan with distinct task keys whose tasks are each PENDING or SUCCEEDED, and that is not
-- complete, has a ready task: the orchestrator does not find it blocked.
pub ready_tasks_progress :
    (a : Tasks) (visited : List String)
    → IsDict a
    → validate a ≡ some (ok visited)
    → All (λ (p : String × TaskNode). is_live p.1 ≡ true) a
    → is_complete a ≡ false
    → (b : Tasks) × (i : String) × (is : List String) × (ready_tasks a ≡ ok (b, i ∷ is))
unfolding ready_tasks is_complete
ready_tasks_progress a visited d v h n =
    let (rank, r) = (accepted_iff_IsRanked a d).0 (visited, v) in
    let (i, t, g, p) = unfinished a a (get-All a d) h n in
    let s = Startable-below (suc (rank i)) a rank i t r h g p (omega arith) in
    ready_from-some a a s.key s.task (Closed-ranked a a rank r) s.found s.waits s.freed
