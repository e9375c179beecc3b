-- ===== src/Examples/Queues.antt =====
-- The properties of the lease queue on two items and two workers.
use niceone_obsidian.Prelude.{◌≡◌, refl, some, List, [], ◌∷◌, string_eq, arith}
use niceone_obsidian.Prelude.Dict.{get}
use niceone_obsidian.Prelude.Values.{null, text, end}
use niceone_obsidian.Prelude.Exec.{err}
use niceone_obsidian.Kernel.Errors.{exception, other}
use niceone_obsidian.Production.Workers.{WorkItem, LeaseQueue, new_item, succeeded}
use niceone_obsidian.Production.Workers.Settled.{
  Command, run_commands, enqueuing, claiming, beating, completing, failing, recovering, working,
  settled_final,
}
use niceone_obsidian.Production.Workers.Sound.{SoundQueue, run_commands-SoundQueue}

abbrev finished : WorkItem
finished = record (new_item "work-1" end) {
  attempts = 1;
  status = succeeded;
  worker_id = some "worker-1";
  result = text "done";
}

abbrev queue : LeaseQueue
queue = record {
  lease_seconds = 30;
  max_attempts = 2;
  items = ("work-1", finished) ∷ ("work-2", new_item "work-2" end) ∷ [];
}

-- The first worker fails the second item late; the other one claims it after its lease and completes it.
abbrev commands : List Command
commands =
    claiming "worker-1" 100
    ∷ recovering 200
    ∷ working "worker-2" (λ p. err (exception (other "OSError") "offline")) 201
    ∷ enqueuing "work-3" end
    ∷ completing "work-1" "worker-1" null
    ∷ beating "work-3" "worker-1" 202
    ∷ failing "work-1" "worker-1" "late"
    ∷ []

settled_final_example : get (run_commands commands queue).items "work-1" ≡ some finished
unfolding get
settled_final_example =
    settled_final commands queue "work-1" finished refl refl
      (tt, (tt, (tt, (refl, (tt, (tt, (tt, tt)))))))

run_commands-SoundQueue_example : SoundQueue 2 (run_commands commands queue)
run_commands-SoundQueue_example = run_commands-SoundQueue 2 commands queue (omega arith) (
  refl,
  (
    record {
      bounded = omega arith;
      waits = λ h. absurd (ground (arith, h));
      held = λ h. absurd (ground (arith, h));
    },
    (
      record {
        bounded = omega arith;
        waits = λ h. omega arith;
        held = λ h. absurd (ground (arith, h));
      },
      tt,
    ),
  ),
)
