-- ===== src/Kernel/Planning/Fuel.antt =====
-- The recursion of the search for cycles (planning.py): its path only holds tasks, each once.
use niceone_obsidian.Prelude.{
  ℕ, zero, suc, ◌≤◌, ◌<◌, String, ◌≡◌, refl, false, Option, none, some, List, [], ◌∷◌, arith,
  str_eq_iff, string_eq, length, if◌then◌else◌, Bool-cases, inl, inr,
}
use niceone_obsidian.Prelude.Dict.{get}
use niceone_obsidian.Prelude.Exec.{Result, ok, err}
use niceone_obsidian.Kernel.Errors.{Exception}
use niceone_obsidian.Kernel.Planning.{
  TaskNode, Tasks, Search, is_member, and_then, each, expand, add_visited, visit, validate_cycles,
  validate, validate_dependencies, after_dependencies, task_ids,
}

abbrev pub Returns : Search → Type 0
Returns s = (r : Result Exception (List String)) × (s ≡ some r)

-- The tasks that are not on a path.
unfoldable pub outside : Tasks → List String → ℕ
outside [] path = 0
outside ((i, t) ∷ rest) path =
    let more = outside rest path in if is_member i path then more else suc more

outside_le :
    (tasks : Tasks) (path : List String) (i : String)
    → outside tasks (i ∷ path) ≤ outside tasks path
unfolding outside
outside_le [] path i = omega arith
outside_le ((j, t) ∷ rest) path i = ground (arith, outside_le rest path i)

outside_lt :
    (tasks : Tasks) (path : List String) (i : String) (t : TaskNode)
    → get tasks i ≡ some t
    → is_member i path ≡ false
    → outside tasks (i ∷ path) < outside tasks path
unfolding outside get
outside_lt [] path i t g m = ground arith
outside_lt ((j, u) ∷ rest) path i t g m =
    ground (arith, str_eq_iff j i, str_eq_iff i j, outside_le rest path i, outside_lt rest path i t)

outside-nil : (tasks : Tasks) → outside tasks [] ≡ length tasks
unfolding outside
outside-nil [] = refl
outside-nil ((j, u) ∷ rest) = omega (arith, outside-nil rest)

and_then-Returns :
    (s : Search) (f : List String → Search)
    → Returns s
    → ((visited : List String) → Returns (f visited))
    → Returns (and_then s f)
and_then-Returns none f (r, e) k = cc
and_then-Returns (some (err x)) f h k = (err x, refl)
and_then-Returns (some (ok visited)) f h k = k visited

each-Returns :
    (f : List String → String → Search)
    → ((visited : List String) (i : String) → Returns (f visited i))
    → (ds visited : List String) → Returns (each f ds visited)
unfolding each
each-Returns f h [] visited = (ok visited, refl)
each-Returns f h (d ∷ ds) visited =
    and_then-Returns (f visited d) (each f ds) (h visited d) (each-Returns f h ds)

expand-Returns :
    (f : List String → String → Search) (i : String) (o : Option TaskNode) (visited : List String)
    → ((t : TaskNode) → o ≡ some t → (more : List String) (d : String) → Returns (f more d))
    → Returns (expand f i o visited)
expand-Returns f i none visited h = (_, refl)
expand-Returns f i (some t) visited h =
    and_then-Returns (each f t.dependencies visited) (add_visited i)
      (each-Returns f (h t refl) t.dependencies visited) (λ more. (ok (i ∷ more), refl))

visit-Returns :
    (n : ℕ) (tasks : Tasks) (path visited : List String) (i : String)
    → outside tasks path < n
    → Returns (visit n tasks path visited i)
unfolding visit
visit-Returns zero tasks path visited i h = absurd (omega arith)
visit-Returns (suc n) tasks path visited i h = elim (Bool-cases (is_member i path)) [
  | inl b ↦ rw b (_, refl)
  | inr b ↦ elim (Bool-cases (is_member i visited)) [
    | inl c ↦ rw (b, c) (_, refl)
    | inr c ↦
        rw (b, c)
          (expand-Returns (visit n tasks (i ∷ path)) i (get tasks i) visited (λ t g more d.
            visit-Returns n tasks (i ∷ path) more d (omega (arith, outside_lt tasks path i t g b))))
  ]
]

-- The validation of any plan returns or raises: the search for cycles never runs out of fuel.
pub validate_terminates :
    (tasks : Tasks) → (r : Result Exception (List String)) × (validate tasks ≡ some r)
unfolding validate validate_cycles
validate_terminates tasks = go (validate_dependencies tasks)
  where
    go : (r : Result Exception (Unit {0})) → Returns (after_dependencies r (validate_cycles tasks))
    go (err e) = (err e, refl)
    go (ok x) =
        each-Returns (visit (suc (length tasks)) tasks [])
          (λ visited i.
            visit-Returns (suc (length tasks)) tasks [] visited i
              (omega (arith, outside-nil tasks)))
          (task_ids tasks) []
