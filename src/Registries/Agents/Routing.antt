-- ===== src/Registries/Agents/Routing.antt =====
-- Which agent a request is routed to (core.py, AgentRegistry.route).
use mathlib.Core.Path.{subst}
use niceone_obsidian.Prelude.{
  String, ◌≡◌, refl, ap, ◌∙◌, ◌⊎◌, inl, inr, Bool, true, Option, List, [], ◌∷◌, ◌++◌, arith, All,
  keep, Bool-cases,
}
use niceone_obsidian.Prelude.Exec.{Result, ok, err}
use niceone_obsidian.Kernel.Errors.{Exception}
use niceone_obsidian.Kernel.Contracts.{CapabilityContract, InvocationRequest}
use niceone_obsidian.Registries.Capability.{Entries, CapabilityEntry, list_entries}
use niceone_obsidian.Registries.Agents.{
  matches, AgentRoutingDecision, Verdict, eligible, rejected, consider, add_verdict, sift, select,
  candidates_of, route_candidates, route,
}

module _ {C : Type 0} (policy : InvocationRequest → CapabilityContract → Result Exception Bool)
    (availability : Option (CapabilityEntry C → Bool)) (request : InvocationRequest)
    (i v : String) where
  abbrev pub IsRejected : CapabilityEntry C → Type 0
  IsRejected e = (why : String) × (consider policy availability request i v e ≡ ok (rejected why))

  abbrev pub IsEligible : CapabilityEntry C → Type 0
  IsEligible e = consider policy availability request i v e ≡ ok eligible

  -- The one eligible entry among rejected ones.
  abbrev pub Sole : CapabilityEntry C → List (CapabilityEntry C) → Type 0
  Sole e es =
      (front : List (CapabilityEntry C)) × (back : List (CapabilityEntry C)) × (es
        ≡ front ++ e ∷ back)
      × IsEligible e
      × All IsRejected front
      × All IsRejected back

  abbrev Sifted : Type 0
  Sifted = Result Exception (List (CapabilityEntry C) × List String)

  verdict_cases :
      (e : CapabilityEntry C) (x : Result Exception Verdict) (rest : Sifted)
      (chosen : List (CapabilityEntry C)) (rs : List String)
      → add_verdict policy availability request i v e x rest ≡ ok (chosen, rs)
      → ((x ≡ ok eligible)
          × (more : List (CapabilityEntry C)) × (rest ≡ ok (more, rs))
          × (chosen ≡ e ∷ more))
        ⊎ ((why : String) × (fewer : List String) × (x ≡ ok (rejected why))
            × (rest ≡ ok (chosen, fewer)))
  verdict_cases e (err z) rest chosen rs h = ground arith
  verdict_cases e (ok y) (err z) chosen rs h = ground arith
  verdict_cases e (ok eligible) (ok (es, qs)) chosen rs h =
      inl (refl, es, ground arith, ground arith)
  verdict_cases e (ok (rejected r)) (ok (es, qs)) chosen rs h = inr (r, qs, refl, ground arith)

  sift_none :
      (es : List (CapabilityEntry C)) (rs : List String)
      → sift policy availability request i v es ≡ ok ([], rs)
      → All IsRejected es
  unfolding sift
  sift_none [] rs h = tt
  sift_none (e ∷ es) rs h =
      elim (verdict_cases e (consider policy availability request i v e)
        (sift policy availability request i v es) [] rs h) [
          | inl (x, more, r, c) ↦ cc
          | inr (why, fewer, x, r) ↦ ((why, x), sift_none es fewer r)
        ]

  first_eligible :
      (e f : CapabilityEntry C) (es more : List (CapabilityEntry C)) (rs : List String)
      → IsEligible f
      → sift policy availability request i v es ≡ ok (more, rs)
      → e ∷ [] ≡ f ∷ more
      → Sole e (f ∷ es)
  first_eligible e f es more rs x r c =
      let same : f ≡ e = cc in
      let done : more ≡ [] = cc in
      subst (λ y. Sole y (f ∷ es)) same
        ([], es, refl, x, tt, sift_none es rs (r ∙ ap (λ m. ok (m, rs)) done))

  sift_one :
      (e : CapabilityEntry C) (es : List (CapabilityEntry C)) (rs : List String)
      → sift policy availability request i v es ≡ ok (e ∷ [], rs)
      → Sole e es
  unfolding sift
  sift_one e [] rs h = ground arith
  sift_one e (f ∷ es) rs h =
      elim (verdict_cases f (consider policy availability request i v f)
        (sift policy availability request i v es) (e ∷ []) rs h) [
          | inl (x, more, r, c) ↦ first_eligible e f es more rs x r c
          | inr (why, fewer, x, r) ↦
              (let (front, back, split, k, l, m) = sift_one e es fewer r in
                (f ∷ front, back, ap (λ t. f ∷ t) split, k, ((why, x), l), m))
        ]

  keep-All :
      (es : List (CapabilityEntry C))
      → All (λ e. matches i v e.contract ≡ true) (keep (λ e. matches i v e.contract) es)
  keep-All [] = tt
  keep-All (e ∷ es) = elim (Bool-cases (matches i v e.contract)) [
    | inl b ↦ rw b (b, keep-All es)
    | inr b ↦ rw b (keep-All es)
  ]

  All-middle :
      (front : List (CapabilityEntry C)) (e : CapabilityEntry C) (back : List (CapabilityEntry C))
      (P : CapabilityEntry C → Type 0)
      → All P (front ++ e ∷ back)
      → P e
  All-middle [] e back P h = h.0
  All-middle (f ∷ front) e back P h = All-middle front e back P h.1

  select_one :
      (s : Sifted) (d : AgentRoutingDecision C)
      → select policy availability request i v s ≡ ok d
      → (rs : List String) × (s ≡ ok (d.selected ∷ [], rs))
  select_one (err x) d h = ground arith
  select_one (ok ([], rs)) d h = ground arith
  select_one (ok (e ∷ [], rs)) d h = (rs, ground arith)
  select_one (ok (e ∷ f ∷ es, rs)) d h = ground arith

  -- A request that is routed goes to a registered agent of the requested capability and version. It
  -- is the one among the registered ones that policy and availability leave: each of the others was
  -- rejected.
  route-Sole :
      (entries : Entries C) (d : AgentRoutingDecision C)
      → route policy availability request i v entries ≡ ok d
      → (matches i v d.selected.contract ≡ true)
        × Sole d.selected (candidates_of policy availability request i v entries)
  unfolding route candidates_of
  route-Sole entries d h =
      go (candidates_of policy availability request i v entries) (keep-All (list_entries entries)) h
    where
      go :
          (es : List (CapabilityEntry C))
          → All (λ e. matches i v e.contract ≡ true) es
          → route_candidates policy availability request i v es ≡ ok d
          → (matches i v d.selected.contract ≡ true) × Sole d.selected es
      go [] a h = ground arith
      go (e ∷ es) a h =
          let (rs, one) = select_one (sift policy availability request i v (e ∷ es)) d h in
          let (front, back, split, k, l, m) = sift_one d.selected (e ∷ es) rs one in
          (
            All-middle front d.selected back (λ f. matches i v f.contract ≡ true)
                (subst (All (λ f. matches i v f.contract ≡ true)) split a),
            (front, back, split, k, l, m),
          )
