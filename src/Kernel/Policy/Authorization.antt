-- ===== src/Kernel/Policy/Authorization.antt =====
-- When the default policy engine lets a request pass (policy.py).
use niceone_obsidian.Prelude.{
  ◌≤◌, String, ◌≡◌, ◌≢◌, ◌↔◌, refl, Bool, true, false, not, ◌&&◌, ◌||◌, List, [], ◌∷◌, ◌++◌, arith,
  All, ltb, str_eq, str_eq_iff, is_empty, if◌then◌else◌,
}
use niceone_obsidian.Prelude.Exec.{Result, ok, err}
use niceone_obsidian.Kernel.Errors.{Exception}
use niceone_obsidian.Kernel.Contracts.{CapabilityContract, InvocationRequest}
use niceone_obsidian.Kernel.Policy.{
  DefaultPolicyEngine, risk_order, is_irreversible, member, difference, missing_permissions,
  denial_reasons, evaluate, authorize, reason_if,
}

difference_step :
    (s : String) (allowed : Bool) (more : List String)
    → (is_empty (if allowed || member s more then more else s ∷ more) ≡ true)
      ↔ ((allowed ≡ true) × (is_empty more ≡ true))
difference_step s a [] = (λ h. ground arith, λ h. ground arith)
difference_step s a (t ∷ more) = (λ h. ground arith, λ h. ground arith)

-- No permission is missing exactly when each required one is allowed.
difference-nil :
    (required allowed : List String)
    → (is_empty (difference required allowed) ≡ true) ↔ All (λ s. member s allowed ≡ true) required
unfolding difference
difference-nil [] allowed = (λ h. tt, λ h. refl)
difference-nil (s ∷ rest) allowed =
    let (split, join) = difference_step s (member s allowed) (difference rest allowed) in
    let (to, from) = difference-nil rest allowed in
    (λ h. (let (a, b) = split h in (a, to b)), λ (a, b). join (a, from b))

-- What the policy asks of a request.
pub record Permitted (p : DefaultPolicyEngine) (r : InvocationRequest) (k : CapabilityContract)
    : Type 0 where
  pub tenant : r.execution.identity.tenant_id ≢ ""
  pub risk : risk_order k.risk_level ≤ risk_order p.maximum_risk
  pub permissions : All (λ s. member s p.allowed_permissions ≡ true) k.permissions
  pub reversible : is_irreversible k.side_effects ≡ true → p.allow_irreversible ≡ true

-- Four tests with a reason each: there is no reason when every test passes.
no_reasons :
    (a b c d : Bool) (s t u v : String)
    → (is_empty (reason_if a s ++ (reason_if b t ++ (reason_if c u ++ reason_if d v))) ≡ true)
      ↔ ((a ≡ false) × (b ≡ false) × (c ≡ false) × (d ≡ false))
no_reasons true b c d s t u v = (λ h. ground arith, λ h. ground arith)
no_reasons false true c d s t u v = (λ h. ground arith, λ h. ground arith)
no_reasons false false true d s t u v = (λ h. ground arith, λ h. ground arith)
no_reasons false false false true s t u v = (λ h. ground arith, λ h. ground arith)
no_reasons false false false false s t u v = (λ h. (refl, refl, refl, refl), λ h. refl)

-- The four tests as propositions.
tests_pass :
    (p : DefaultPolicyEngine) (r : InvocationRequest) (k : CapabilityContract)
    → ((str_eq r.execution.identity.tenant_id "" ≡ false)
        × (ltb (risk_order p.maximum_risk) (risk_order k.risk_level) ≡ false)
        × (not (is_empty (missing_permissions p k)) ≡ false)
        × ((is_irreversible k.side_effects && not p.allow_irreversible) ≡ false))
      ↔ Permitted p r k
unfolding missing_permissions
tests_pass p r k =
    let (to, from) = difference-nil k.permissions p.allowed_permissions in
    (
      λ (a, b, c, d). record {
        tenant = ground (arith, str_eq_iff r.execution.identity.tenant_id "");
        risk = ground (arith, b);
        permissions = to (ground (arith, c));
        reversible = λ h. ground (arith, d);
      },
      λ h. (
        ground (arith, str_eq_iff r.execution.identity.tenant_id "", h.tenant),
        ground (arith, h.risk),
        ground (arith, from h.permissions),
        ground (arith, h.reversible),
      ),
    )

allowed_step :
    (b : Bool) (e : Exception)
    → let r : Result Exception Bool = if b then ok true else err e in (r ≡ ok true) ↔ (b ≡ true)
allowed_step true e = (λ h. refl, λ h. refl)
allowed_step false e = (λ h. ground arith, λ h. ground arith)

-- `authorize` returns True exactly when the execution has a tenant, the capability's risk is within
-- the limit, each required permission is allowed, and irreversible side effects are allowed if the
-- capability has them.
pub authorize_iff_Permitted :
    (p : DefaultPolicyEngine) (r : InvocationRequest) (k : CapabilityContract)
    → (authorize p r k ≡ ok true) ↔ Permitted p r k
unfolding authorize evaluate denial_reasons
authorize_iff_Permitted p r k =
    let (to, from) = tests_pass p r k in
    let (t, f) =
      no_reasons (str_eq r.execution.identity.tenant_id "")
        (ltb (risk_order p.maximum_risk) (risk_order k.risk_level))
        (not (is_empty (missing_permissions p k)))
        (is_irreversible k.side_effects && not p.allow_irreversible) _ _ _ _ in
    let (out, back) = allowed_step (is_empty (denial_reasons p r k)) _ in
    (λ h. to (t (out h)), λ h. back (f (from h)))
