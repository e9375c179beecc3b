-- ===== src/Autonomy/Loops/Cleared.antt =====
-- When the autonomous loop executes a workflow (ois/autonomy/loops.py).
use niceone_obsidian.Prelude.{
  String, ◌≡◌, ◌⊎◌, refl, sym, ap, ◌∙◌, All, inl, inr, Bool, true, false, Option, List, [], ◌∷◌,
  arith, Bool-cases,
}
use niceone_obsidian.Prelude.Values.{Value, Fields, get_field}
use niceone_obsidian.Prelude.Exec.{Result, ok, err}
use niceone_obsidian.Kernel.Errors.{Exception}
use niceone_obsidian.Kernel.Types.{RiskLevel}
use niceone_obsidian.Autonomy.Approvals.{EventEnvelope, ApprovalRequest, ApprovalGate, request}
use niceone_obsidian.Autonomy.Policy.{
  PolicyRule, PolicyEvaluation, parse_risk, risk_text, needs_approval, other_type, evaluate_rule,
  matched, no_match, evaluate,
}
use niceone_obsidian.Autonomy.Policy.First.{Matches, IsFirst, first, later, evaluate-IsFirst}
use niceone_obsidian.Autonomy.Workflows.{SourceWorkflow, workflow_matches}
use niceone_obsidian.Autonomy.Loops.{
  LoopWorld, AutonomousLoop, Runner, runner_of, Decided, policy_context, question, awaited, ask,
  attempts, evaluated, run,
}

-- The workflow is triggered, the risk level of its event is known, a rule of the policy matches, and the
-- approval that the event asks for, if it does, is granted.
pub record Permitted {W : Type 0} (str : Value → String) (l : AutonomousLoop)
    (w : SourceWorkflow (LoopWorld W)) (e : EventEnvelope) (granted : Bool) : Type 0 where
  pub triggered : workflow_matches w e ≡ true
  pub risk : RiskLevel
  pub known : parse_risk (risk_text str (get_field (policy_context e) "risk_level")) ≡ ok risk
  pub rule : PolicyRule
  pub is_first : IsFirst risk (policy_context e) rule l.policy
  pub approved : needs_approval (policy_context e) ≡ true → granted ≡ true

-- With an unknown risk level no rule matches: each is for another type of event, or raises.
evaluate_unknown :
    (str : Value → String) (context : Fields) (x : Exception)
    → parse_risk (risk_text str (get_field context "risk_level")) ≡ err x
    → (rules : List PolicyRule)
    → (evaluate str rules context ≡ err x) ⊎ (evaluate str rules context ≡ ok no_match)
unfolding evaluate evaluate_rule
evaluate_unknown str context x u [] = inr refl
evaluate_unknown str context x u (r ∷ rules) =
    elim (Bool-cases (other_type r.event_type (get_field context "event_type"))) [
      | inl o ↦ rw o (evaluate_unknown str context x u rules)
      | inr s ↦ rw (s, u) (inl refl)
    ]

IsFirst-All :
    {risk : RiskLevel} {context : Fields} {r : PolicyRule} {rules : List PolicyRule}
    → IsFirst risk context r rules
    → All (λ q. ¬ Matches risk context q) rules
    → ⊥
IsFirst-All (first rules m) (n, a) = n m
IsFirst-All (later q rules x f) (n, a) = IsFirst-All f a

module _ {W : Type 0} (str : Value → String) (l : AutonomousLoop) (w : SourceWorkflow (LoopWorld W))
    (e : EventEnvelope) where
  -- A call does not depend on what is executed, and leaves what that acts on.
  abbrev pub Idle : Bool → LoopWorld W → Type 0
  Idle granted s =
      (a b : Option (Runner W))
      → (run str l w e a granted s ≡ run str l w e b granted s)
        × ((run str l w e a granted s).1.world ≡ s.world)

  run_evaluated :
      (granted : Bool) (execute : Option (Runner W)) (s : LoopWorld W)
      (o : Result Exception PolicyEvaluation)
      → workflow_matches w e ≡ true
      → evaluate str l.policy (policy_context e) ≡ o
      → run str l w e execute granted s ≡ evaluated str l w e execute granted s o
  unfolding run
  run_evaluated granted execute s o m q = rw (m, q) refl

  -- A matching rule executes, but for an approval that is asked for and not granted.
  cleared_attempts :
      (granted b : Bool) (execute : Option (Runner W)) (s : LoopWorld W) (r : PolicyRule)
      → (b ≡ true → granted ≡ true)
      → evaluated str l w e execute granted s (ok (matched r "rule matched" b))
        ≡ attempts l.max_retries (runner_of execute) w e l.max_iterations 1 s
  cleared_attempts true true execute s r h = refl
  cleared_attempts false true execute s r h = absurd (ground (arith, h refl))
  cleared_attempts granted false execute s r h = refl

  -- A permitted call executes the workflow.
  pub run-Permitted :
      (granted : Bool) (execute : Option (Runner W)) (s : LoopWorld W)
      → Permitted str l w e granted
      → run str l w e execute granted s
        ≡ attempts l.max_retries (runner_of execute) w e l.max_iterations 1 s
  run-Permitted granted execute s p =
      elim (evaluate-IsFirst str (policy_context e) p.risk p.known l.policy) [
        | inl (r, f, q) ↦
            run_evaluated granted execute s _ p.triggered q
            ∙ cleared_attempts granted (needs_approval (policy_context e)) execute s r p.approved
        | inr (n, q) ↦ absurd (IsFirst-All p.is_first n)
      ]

  evaluated-Idle :
      (granted : Bool) (s : LoopWorld W) (o : Result Exception PolicyEvaluation)
      → workflow_matches w e ≡ true
      → evaluate str l.policy (policy_context e) ≡ o
      → (d : Decided W) → ((a : Option (Runner W)) → evaluated str l w e a granted s o ≡ d)
      → d.1.world ≡ s.world
      → Idle granted s
  evaluated-Idle granted s o m q d h k a b =
      let ea : run str l w e a granted s ≡ d = run_evaluated granted a s o m q ∙ h a in
      let eb : run str l w e b granted s ≡ d = run_evaluated granted b s o m q ∙ h b in
      (ea ∙ sym eb, ap (λ (x : Decided W). x.1.world) ea ∙ k)

  ask_world : (reason : String) (s : LoopWorld W) → (ask w e reason s).1.world ≡ s.world
  unfolding ask
  ask_world reason s = go (request s.now (s.uuids s.drawn) (question w.workflow_id reason e) s.gate)
    where
      go :
          (o : Result Exception ApprovalRequest × ApprovalGate)
          → (awaited {W = W} s o).1.world ≡ s.world
      go (ok r, g) = refl
      go (err x, g) = refl

  matched-Permitted :
      (granted : Bool) (s : LoopWorld W) (b : Bool) (risk : RiskLevel) (r : PolicyRule)
      → workflow_matches w e ≡ true
      → parse_risk (risk_text str (get_field (policy_context e) "risk_level")) ≡ ok risk
      → IsFirst risk (policy_context e) r l.policy
      → needs_approval (policy_context e) ≡ b
      → evaluate str l.policy (policy_context e) ≡ ok (matched r "rule matched" b)
      → Permitted str l w e granted ⊎ Idle granted s
  matched-Permitted false s true risk r m k f n q =
      inr (evaluated-Idle false s _ m q (ask w e "rule matched" s) (λ a. refl) (ask_world _ s))
  matched-Permitted true s b risk r m k f n q = inl (record {
    triggered = m;
    risk = risk;
    known = k;
    rule = r;
    is_first = f;
    approved = λ h. refl;
  })
  matched-Permitted false s false risk r m k f n q = inl (record {
    triggered = m;
    risk = risk;
    known = k;
    rule = r;
    is_first = f;
    approved = λ h. sym n ∙ h;
  })

  denied_Idle :
      (granted : Bool) (s : LoopWorld W)
      → workflow_matches w e ≡ true
      → evaluate str l.policy (policy_context e) ≡ ok no_match
      → Idle granted s
  denied_Idle granted s m q = evaluated-Idle granted s _ m q _ (λ a. refl) refl

  triggered-Permitted :
      (granted : Bool) (s : LoopWorld W) (k : Result Exception RiskLevel)
      → workflow_matches w e ≡ true
      → parse_risk (risk_text str (get_field (policy_context e) "risk_level")) ≡ k
      → Permitted str l w e granted ⊎ Idle granted s
  triggered-Permitted granted s (ok risk) m k =
      elim (evaluate-IsFirst str (policy_context e) risk k l.policy) [
        | inl (r, f, q) ↦ matched-Permitted granted s _ risk r m k f refl q
        | inr (n, q) ↦ inr (denied_Idle granted s m q)
      ]
  triggered-Permitted granted s (err x) m k =
      elim (evaluate_unknown str (policy_context e) x k l.policy) [
        | inl q ↦ inr (evaluated-Idle granted s _ m q _ (λ a. refl) refl)
        | inr q ↦ inr (denied_Idle granted s m q)
      ]

  -- A call of `run` is permitted, or it comes to the same whatever it is given to execute, and leaves
  -- alone what that would act on. It is permitted if the workflow is triggered by the event, the event's
  -- risk level is known, a rule of the policy matches, and the approval that the event asks for, if it
  -- does, is granted.
  pub run-Idle : (granted : Bool) (s : LoopWorld W) → Permitted str l w e granted ⊎ Idle granted s
  unfolding run
  run-Idle granted s = elim (Bool-cases (workflow_matches w e)) [
    | inr n ↦ inr (λ a b. (rw n refl, rw n refl))
    | inl y ↦ triggered-Permitted granted s _ y refl
  ]
