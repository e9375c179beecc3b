-- ===== src/Governance/Promotion.antt =====
-- ois/governance/promotion.py: which evidence lets a change of the runtime into production.
use niceone_obsidian.Prelude.{
  String, ◌≡◌, ◌↔◌, Bool, true, false, not, ◌&&◌, List, [], ◌∷◌, arith, all, is_empty, length,
  if◌then◌else◌,
}
use niceone_obsidian.Prelude.Texts.{join, decimal}
use niceone_obsidian.Prelude.Exec.{Result, ok, err}
use niceone_obsidian.Kernel.Errors.{Exception, exception, value_error, other}
use Prim.Native.String.{◌++◌ as text_append}

pub data EvidenceStatus : Type 0 where
  unknown designed implemented tested integrated deployed activated production_verified :
      EvidenceStatus

pub record PromotionEvidence : Type 0 where
  pub implementation : Bool
  pub tests : Bool
  pub integration : Bool
  pub runtime : Bool
  pub security : Bool
  pub observability : Bool
  pub recovery : Bool
  pub rollback : Bool
  pub provenance : List String

pub record PromotionDecision : Type 0 where
  pub status : EvidenceStatus
  pub allowed : Bool
  pub missing : List String
  pub reason : String

-- `_REQUIRED`, each name with the attribute that it reads.
abbrev pub required : PromotionEvidence → List (String × Bool)
required e =
    ("implementation", e.implementation)
    ∷ ("tests", e.tests)
    ∷ ("integration", e.integration)
    ∷ ("runtime", e.runtime)
    ∷ ("security", e.security)
    ∷ ("observability", e.observability)
    ∷ ("recovery", e.recovery)
    ∷ ("rollback", e.rollback)
    ∷ []

unfoldable pub unmet : List (String × Bool) → List String
unmet [] = []
unmet ((name, b) ∷ rest) = if b then unmet rest else name ∷ unmet rest

abbrev pub decide_missing : PromotionEvidence → List String → PromotionDecision
decide_missing e (name ∷ names) = record {
  status = if e.integration then integrated else tested;
  allowed = false;
  missing = name ∷ names;
  reason = "production promotion blocked: required evidence is missing";
}
decide_missing e [] =
    if is_empty e.provenance
    then record {
      status = integrated;
      allowed = false;
      missing = "provenance" ∷ [];
      reason = "production promotion blocked: evidence provenance is missing";
    }
    else record {
      status = production_verified;
      allowed = true;
      missing = [];
      reason = "all production promotion evidence requirements are satisfied";
    }

-- EvidencePromotionGate.evaluate
unfoldable pub evaluate : PromotionEvidence → PromotionDecision
unfolding unmet
evaluate e = decide_missing e (unmet (required e))

-- EvidencePromotionGate.require, with the message of PromotionBlocked
unfoldable pub require : PromotionEvidence → Result Exception PromotionDecision
unfolding evaluate
require e =
    let d = evaluate e in
    if d.allowed
    then ok d
    else err (
        exception (other "PromotionBlocked")
          (text_append d.reason (text_append ": " (join ", " d.missing))))

-- `PromotionEvidence(*values, provenance=...)`, after the check of the number of values
unfoldable pub verified_from : List Bool → List String → Result Exception PromotionEvidence
verified_from (a ∷ b ∷ c ∷ d ∷ e ∷ f ∷ g ∷ h ∷ []) provenance = ok (record {
  implementation = a;
  tests = b;
  integration = c;
  runtime = d;
  security = e;
  observability = f;
  recovery = g;
  rollback = h;
  provenance = provenance;
})
verified_from checks provenance =
    err (exception value_error (text_append "expected 8 checks, got " (decimal (length checks))))

evaluate_allowed :
    (e : PromotionEvidence)
    → (evaluate e).allowed
      ≡ all (λ (p : String × Bool). p.1) (required e) && not (is_empty e.provenance)
unfolding evaluate
evaluate_allowed e = ground arith

collected :
    (checks : List Bool) (provenance : List String) (e : PromotionEvidence)
    → verified_from checks provenance ≡ ok e
    → (all (λ (p : String × Bool). p.1) (required e) ≡ all (λ b. b) checks)
      × (e.provenance ≡ provenance)
unfolding verified_from
collected (a ∷ b ∷ c ∷ d ∷ x ∷ f ∷ g ∷ h ∷ []) provenance e v = (ground arith, ground arith)
collected checks provenance e v = (ground arith, ground arith)

require_allowed :
    (e : PromotionEvidence)
    → ((d : PromotionDecision) × (require e ≡ ok d)) ↔ ((evaluate e).allowed ≡ true)
unfolding require
require_allowed e = go (evaluate e)
  where
    go :
        (d : PromotionDecision)
        → ((x : PromotionDecision) × ((if d.allowed
                then ok d
                else err (
                    exception
                      (other "PromotionBlocked")
                      (text_append d.reason (text_append ": " (join ", " d.missing)))))
              ≡ ok x))
          ↔ (d.allowed ≡ true)
    go d = (λ (x, e). ground arith, λ h. (d, ground arith))

-- Evidence collected from checks is let into production exactly when every one of the checks holds
-- and it has a provenance.
promotion_exact :
    (checks : List Bool) (provenance : List String) (e : PromotionEvidence)
    → verified_from checks provenance ≡ ok e
    → ((d : PromotionDecision) × (require e ≡ ok d))
      ↔ ((all (λ b. b) checks ≡ true) × (is_empty provenance ≡ false))
promotion_exact checks provenance e h =
    let (a, p) = collected checks provenance e h in
    let (to, from) = require_allowed e in
    (
      λ r. ground (arith, to r, evaluate_allowed e, a, p),
      λ (c, n). from (ground (arith, evaluate_allowed e, a, p)),
    )
