-- ===== src/Tests/AssignTests.antt =====
-- The choice of a worker, the assignment of a task and a poll of internal/scheduler/engine.go at a
-- concrete engine.
use splai.Base.{
  ◌≤◌, ◌+◌, ◌≡◌, refl, Bool, false, [], ◌∷◌, length, count, ltb, ◌==◌, is_empty, trim_space, lookup,
  equal_fold, to_lower,
}
use splai.State.{queued, TaskRecord, WorkerRecord, QueueClaim}
use splai.Store.{list_workers, get_worker, get_job, get_task}
use splai.Policy.{is_noop}
use splai.Scheduler.Engine.{Engine, parse_bool, dependencies_completed}
use splai.Scheduler.Placement.{Scores, best_worker_for_task, is_eligible, better}
use splai.Scheduler.Assign.{try_assign}
use splai.Scheduler.Poll.{given, poll_loop, sort_claims}
use splai.Scheduler.Poll.Sorting.{poll_loop-sorts_out}
use splai.Tests.Samples.{
  digest, start, job, first_task, second_task, store, engine, two_items, first_ref,
}

abbrev worker : WorkerRecord
worker = record {
  id = "w1";
  cpu = 8;
  memory = "16Gi";
  gpu = false;
  models = [];
  tools = [];
  backends = [];
  locality = "";
  health = "healthy";
  queue_depth = 0;
  running_tasks = 0;
  cpu_util = 0;
  memory_util = 0;
  last_heartbeat = start;
}

-- all workers score the same
abbrev scores : Scores
scores = record {
  score = λ t w n used spread parallel. 1;
  above = λ x y. ltb y x;
  near = λ x y. x == y;
  lowest = 0;
}

abbrev waiting_task : TaskRecord
waiting_task = record first_task {
  status = queued;
  worker_id = "";
  lease_id = "";
  lease_expires = 0;
  attempt = 0;
}

abbrev waiting : Engine
waiting = record engine {
  store = record store {
    tasks = ("job-1", ("t1", waiting_task) ∷ ("t2", second_task) ∷ []) ∷ [];
    workers = ("w1", worker) ∷ [];
  };
  queue = two_items;
}

abbrev first_claim : QueueClaim
first_claim = record {
  ref = first_ref;
  receipt = "mem:w1:1";
  claimed_by = "w1";
  claimed_at = start;
  visible_at = start + 15;
}

chosen : best_worker_for_task scores job waiting_task waiting.store ≡ "w1"
unfolding best_worker_for_task list_workers is_eligible is_empty trim_space lookup equal_fold
    parse_bool to_lower better
chosen = refl

given_test : given (try_assign digest scores start "w1" first_ref waiting).1 ≡ 1
unfolding try_assign get_job lookup get_task get_worker dependencies_completed is_empty
    best_worker_for_task list_workers is_eligible trim_space equal_fold parse_bool to_lower better
    is_noop
given_test = refl

poll_loop-sorts_out_example :
    let r =
      (poll_loop digest scores start "w1" 1
        (sort_claims waiting.store (first_claim ∷ []))
        0
        waiting).1 in
    ((p : QueueClaim → Bool)
      → count p r.ack_claims + count p r.nack_claims + count p r.nack_error_claims
        ≡ count p (first_claim ∷ []))
    × (length r.ready_assignments ≡ length r.ack_claims)
    × (length r.ready_assignments ≤ 1)
poll_loop-sorts_out_example =
    poll_loop-sorts_out digest scores start "w1" 1 (first_claim ∷ []) waiting
