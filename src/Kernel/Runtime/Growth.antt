-- ===== src/Kernel/Runtime/Growth.antt =====
-- What the runtime's operations keep of the ledger, the results and the status (runtime.py).
pub mod Execute
use niceone_obsidian.Prelude.{
  ◌∙◌, sym, append-nil, ◌⊎◌, inl, inr, Bool-cases, ℕ, String, ◌≡◌, refl, Bool, true, Option, none,
  some, ◌∷◌, [], arith, Extends, Extends-refl, Extends-trans, string_eq,
}
use niceone_obsidian.Prelude.Dict.{get, get-set_default, get-set_default_new}
use niceone_obsidian.Prelude.Exec.{
  Result, ok, err, pure, raise, gets, lift, ◌>>=◌, try_, Keeps, IsPreorder, Keeps-pure, Keeps-raise,
  Keeps-gets, Keeps-lift, Keeps-bind, Keeps-try, Keeps-if,
}
use niceone_obsidian.Prelude.Values.{Fields}
use niceone_obsidian.Kernel.Errors.{
  Exception, ExceptionKind, execution_cancellation, authorization_denied, permission_error,
}
use niceone_obsidian.Kernel.Types.{is_final, ExecutionStatus, FailureClass}
use niceone_obsidian.Kernel.State.{ExecutionContext, is_terminal}
use niceone_obsidian.Kernel.Contracts.{CapabilityContract, InvocationRequest, InvocationResult}
use niceone_obsidian.Kernel.Recovery.{RecoveryPolicy}
use niceone_obsidian.Kernel.World.{
  World, uuid4, record_event, save_checkpoint, get_result, put_result, raise_if_cancelled,
  set_status, update, apply_recovery,
}
use niceone_obsidian.Kernel.World
use niceone_obsidian.Kernel.Invocation.{
  Capability, WorkerLease, Runtime, Call, Run, assert_fence, fence_with, fenced_save, cache_result,
  handle_cancellation, handle_failure, absorb_failure, draw_id,
}
use niceone_obsidian.Kernel.Runtime.{
  observe, conclude, settle, invoke_once, handle_kind, run_fresh, run_cached, record_denial, denied,
  attempt, after_policy, run_entry, guard_over, execute, complete,
}
use niceone_obsidian.Registries.Capability.{CapabilityEntry, get_entry}

pub record Grows (s t : World) : Type 0 where
  pub evidence : Extends s.evidence t.evidence
  pub results :
      (k : String) (r : InvocationResult) → get s.results k ≡ some r → get t.results k ≡ some r
  pub added :
      (k : String) (r : InvocationResult)
      → get t.results k ≡ some r
      → (get s.results k ≡ some r) ⊎ (is_final r.status ≡ true)
  pub terminal : is_terminal s.context.status ≡ true → t.context.status ≡ s.context.status

-- A step that leaves ledger, results and status alone.
pub Grows_same :
    (s t : World)
    → t.evidence ≡ s.evidence
    → t.results ≡ s.results
    → t.context.status ≡ s.context.status
    → Grows s t
Grows_same s t e r c = record {
  evidence = ([], e ∙ sym (append-nil s.evidence));
  results = λ k q h. rw r h;
  added = λ k q h. inl (rw r at h);
  terminal = λ h. c;
}

added_trans :
    (s t u : World)
    → Grows s t
    → Grows t u
    → (k : String) (r : InvocationResult) → get u.results k ≡ some r
    → (get s.results k ≡ some r) ⊎ (is_final r.status ≡ true)
added_trans s t u a b k r h = elim (b.added k r h) [ inl old ↦ a.added k r old | inr new ↦ inr new ]

pub Grows-preorder : IsPreorder Grows
Grows-preorder = record {
  refl_at = λ s. Grows_same s s refl refl refl;
  trans_at = λ s t u a b. record {
    evidence = Extends-trans s.evidence t.evidence u.evidence a.evidence b.evidence;
    results = λ k r h. b.results k r (a.results k r h);
    added = added_trans s t u a b;
    terminal = λ h. ground (arith, a.terminal h, b.terminal);
  };
}

pub uuid4-Grows : Keeps Grows uuid4
unfolding uuid4
uuid4-Grows = record { at = λ s. Grows_same s _ refl refl refl }

pub record_event-Grows : (x n : String) (f : Fields) → Keeps Grows (record_event x n f)
unfolding record_event
record_event-Grows x n f = record {
  at = λ s. record {
    evidence = (_ ∷ [], refl);
    results = λ k r h. h;
    added = λ k r h. inl h;
    terminal = λ h. refl;
  };
}

pub save_checkpoint-Grows : Keeps Grows save_checkpoint
unfolding save_checkpoint
save_checkpoint-Grows = record { at = λ s. Grows_same s _ refl refl refl }

pub get_result-Grows : (k : String) → Keeps Grows (get_result k)
unfolding get_result
get_result-Grows k = record { at = λ s. Grows_same s s refl refl refl }

pub put_result-Grows :
    (k : String) (r : InvocationResult) → is_final r.status ≡ true → Keeps Grows (put_result k r)
unfolding put_result
put_result-Grows k r f = record {
  at = λ s. record {
    evidence = Extends-refl s.evidence;
    results = λ j q h. get-set_default s.results k r j q h;
    added = λ j q h. ground (arith, get-set_default_new s.results k r j q h);
    terminal = λ h. refl;
  };
}

raise_if_cancelled_same : (s : World) → (raise_if_cancelled s).1 ≡ s
unfolding raise_if_cancelled
raise_if_cancelled_same s = ground arith

pub raise_if_cancelled-Grows : Keeps Grows raise_if_cancelled
raise_if_cancelled-Grows = record {
  at = λ s. rw (raise_if_cancelled_same s) (Grows_same s s refl refl refl);
}

pub set_status-Grows : (x : ExecutionStatus) → Keeps Grows (set_status x)
unfolding set_status
set_status-Grows x = record {
  at = λ s. record {
    evidence = ground (arith, Extends-refl s.evidence);
    results = λ k r h. ground arith;
    added = λ k r h. inl (ground arith);
    terminal = λ h. ground arith;
  };
}

pub update-Grows :
    (f : ExecutionContext → ExecutionContext)
    → ((c : ExecutionContext) → (f c).status ≡ c.status)
    → Keeps Grows (update f)
unfolding update
update-Grows f h = record { at = λ s. Grows_same s _ refl refl (h s.context) }

pub apply_recovery-Grows :
    (p : RecoveryPolicy) (f : FailureClass) → Keeps Grows (apply_recovery p f)
unfolding apply_recovery
apply_recovery-Grows p f = record {
  at = λ s. record {
    evidence = Extends-refl s.evidence;
    results = λ k r h. h;
    added = λ k r h. inl h;
    terminal = λ h. ground arith;
  };
}

abbrev o : IsPreorder Grows
o = Grows-preorder

pub assert_fence-Grows : (rt : Runtime) (l : Option WorkerLease) → Keeps Grows (assert_fence rt l)
unfolding assert_fence
assert_fence-Grows rt l = go rt.fencing l
  where
    go :
        (f : Option (WorkerLease → ℕ → Result Exception (Unit {0}))) (l : Option WorkerLease)
        → Keeps Grows (fence_with f l)
    go none l = Keeps-pure o tt
    go (some f) none = Keeps-raise o _
    go (some f) (some l) = record { at = λ s. Grows_same s _ refl refl refl }

pub ruleset world_rules = (
  uuid4-Grows, record_event-Grows, save_checkpoint-Grows, get_result-Grows, put_result-Grows,
  raise_if_cancelled-Grows, set_status-Grows, apply_recovery-Grows, assert_fence-Grows,
)

pub pure-Grows : {A : Type 0} (a : A) → Keeps Grows (pure {E = Exception} a)
pure-Grows a = Keeps-pure o a

pub raise-Grows : {A : Type 0} (e : Exception) → Keeps Grows (raise {A = A} e)
raise-Grows e = Keeps-raise o e

pub gets-Grows : {A : Type 0} (f : World → A) → Keeps Grows (gets {E = Exception} f)
gets-Grows f = Keeps-gets o f

pub lift-Grows : {A : Type 0} (r : Result Exception A) → Keeps Grows (lift r)
lift-Grows r = Keeps-lift o r

pub bind-Grows :
    {A B : Type 0} (m : World.Action A) (f : A → World.Action B)
    → Keeps Grows m
    → ((a : A) → Keeps Grows (f a))
    → Keeps Grows (m >>= f)
bind-Grows m f km kf = Keeps-bind o m f km kf

pub try-Grows :
    {A B : Type 0} (m : World.Action A) (f : A → World.Action B) (h : Exception → World.Action B)
    → Keeps Grows m
    → ((a : A) → Keeps Grows (f a))
    → ((e : Exception) → Keeps Grows (h e))
    → Keeps Grows (try_ m f h)
try-Grows m f h km kf kh = Keeps-try o m f h km kf kh

pub ruleset growth =
    (world_rules, pure-Grows, raise-Grows, gets-Grows, lift-Grows, bind-Grows, try-Grows, Keeps-if)
