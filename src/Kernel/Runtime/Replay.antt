-- ===== src/Kernel/Runtime/Replay.antt =====
-- Any sequence of calls of `execute` (runtime.py) on one execution.
use niceone_obsidian.Prelude.{String, ◌≡◌, Bool, some, List, [], ◌∷◌, string_eq}
use niceone_obsidian.Prelude.Dict.{get}
use niceone_obsidian.Prelude.Exec.{ok}
use niceone_obsidian.Kernel.Contracts.{CapabilityContract, InvocationResult}
use niceone_obsidian.Kernel.World.{World}
use niceone_obsidian.Kernel.Invocation.{Capability, Runtime, Call}
use niceone_obsidian.Kernel.Runtime.{execute}
use niceone_obsidian.Kernel.Runtime.Growth.{Grows, Grows-preorder}
use niceone_obsidian.Kernel.Runtime.Growth.Execute.{CapabilitiesGrow, execute-Grows}
use niceone_obsidian.Kernel.Runtime.Ready.{Ready, run_of}
use niceone_obsidian.Kernel.Runtime.Outcomes.{execute_cached, request}
use niceone_obsidian.Registries.Capability.{CapabilityEntry}

-- The world after calls one after another, whatever each of them returns or raises.
unfoldable pub after_calls : Runtime → List Call → World → World
after_calls rt [] w = w
after_calls rt (call ∷ calls) w = after_calls rt calls (execute rt call w).1

pub after_calls-Grows :
    (rt : Runtime) (calls : List Call) (w : World)
    → CapabilitiesGrow rt
    → Grows w (after_calls rt calls w)
unfolding after_calls
after_calls-Grows rt [] w g = Grows-preorder.refl_at w
after_calls-Grows rt (call ∷ calls) w g =
    Grows-preorder.trans_at w (execute rt call w).1 (after_calls rt calls (execute rt call w).1)
      ((execute-Grows rt call g).at w) (after_calls-Grows rt calls (execute rt call w).1 g)

-- Once a key has a result, every later call of that key that is ready and authorized returns that
-- result and leaves the kept results, whatever calls came between, if the registered capabilities
-- keep what a run keeps.
pub replayed :
    (rt : Runtime) (calls : List Call) (call : Call) (w : World) (i : String)
    (entry : CapabilityEntry Capability) (k : CapabilityContract) (r : InvocationResult) (b : Bool)
    → CapabilitiesGrow rt
    → get w.results (run_of call w i).key ≡ some r
    → Ready rt call (after_calls rt calls w) i entry k
    → rt.authorize (request call (after_calls rt calls w) i k) k ≡ ok b
    → let (a, w') = execute rt call (after_calls rt calls w) in
      (a ≡ ok r) × (w'.results ≡ (after_calls rt calls w).results)
replayed rt calls call w i entry k r b g kept h a =
    let w' : World = after_calls rt calls w in
    let (out, res, c, x, t) =
      execute_cached rt call w' i entry k h b r a
        ((after_calls-Grows rt calls w g).results (run_of call w i).key r kept) in
    (out, res)
