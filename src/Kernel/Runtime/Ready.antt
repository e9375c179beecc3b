-- ===== src/Kernel/Runtime/Ready.antt =====
-- The way of a call of `execute` (runtime.py) to the policy: what it does to the world before the
-- capability is reached.
use niceone_obsidian.Prelude.{String, ◌≡◌, false, none, some, arith, or_else}
use niceone_obsidian.Prelude.Exec.{ok, ◌>>=◌, try_}
use niceone_obsidian.Kernel.Types.{ExecutionStatus}
use niceone_obsidian.Kernel.State.{is_terminal}
use niceone_obsidian.Kernel.Contracts.{CapabilityContract}
use niceone_obsidian.Kernel.World.{World, raise_if_cancelled, set_status}
use niceone_obsidian.Kernel.Invocation.{Capability, Runtime, Call, Run, assert_fence, present}
use niceone_obsidian.Kernel.Runtime.{run_entry, request_of, execute}
use niceone_obsidian.Registries.Capability.{CapabilityEntry, get_entry}

abbrev pub with_status : ExecutionStatus → World → World
with_status s w = record w { context = record w.context { status = s; updated_at = w.now } }

-- The local variables of the call.
abbrev pub run_of : Call → World → String → Run
run_of call w i = record {
  call = call;
  execution = w.context.identity.execution_id;
  id = i;
  key = or_else (present call.idempotency_key) i;
}

-- The call meets no obstacle up to the validation of its input. There is no fencing.
pub record Ready (rt : Runtime) (call : Call) (w : World) (i : String)
    (entry : CapabilityEntry Capability) (k : CapabilityContract) : Type 0 where
  pub live : is_terminal w.context.status ≡ false
  pub named : present call.invocation_id ≡ some i
  pub unfenced : rt.fencing ≡ none
  pub registered : get_entry rt.registry call.capability_id call.version ≡ ok entry
  pub contracted : entry.contract ≡ some k
  pub running : w.token.cancelled ≡ false
  pub valid :
      rt.validate_input
        (request_of (run_of call w i) k (with_status ExecutionStatus.plan_validated w).context)
        k
      ≡ ok tt

set_status_live :
    (s : ExecutionStatus) (w : World)
    → is_terminal w.context.status ≡ false
    → set_status s w ≡ (ok tt, with_status s w)
unfolding set_status
set_status_live s w h = rw h

module _ (rt : Runtime) (call : Call) (w : World) (i : String) (entry : CapabilityEntry Capability)
    (k : CapabilityContract) (h : Ready rt call w i entry k) where
  pub execute-Ready :
      execute rt call w
      ≡ run_entry rt
          (run_of call w i)
          entry
          entry.contract
          (with_status ExecutionStatus.plan_validated w)
  unfolding execute ◌>>=◌ assert_fence set_status try_ raise_if_cancelled
  execute-Ready = ground arith
