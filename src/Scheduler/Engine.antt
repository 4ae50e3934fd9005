-- ===== src/Scheduler/Engine.antt =====
-- The state of internal/scheduler/engine.go and its small helpers. The engine's store and queue are
-- the in-memory ones (`NewInMemoryEngine`), which return no error; so the only errors are the
-- engine's own.
use splai.Base.{
  ℕ, ◌-◌, ◌^◌, ◌*◌, min, String, Bool, true, false, ◌&&◌, ◌||◌, Option, none, some, List, [], ◌∷◌,
  ◌==◌, if◌then◌else◌, lookup_or, str_eq, trim_space, to_lower,
}
use splai.State.{
  second, Status, completed, failed, canceled, archived, status_eq, TaskRecord, TaskRef,
}
use splai.Queue.{MemoryQueue}
use splai.Store.{MemoryStore, get_task}
use splai.Policy.{Engine as PolicyEngine}

-- The name of the queue's backend, which only labels metrics, and the weights, which only enter the
-- scores, are left out.
pub record Engine : Type 0 where
  pub store : MemoryStore
  pub queue : MemoryQueue
  pub lease_duration : ℕ
  pub policy : PolicyEngine
  pub preempt : Bool

abbrev pub is_terminal : Status → Bool
is_terminal completed = true
is_terminal failed = true
is_terminal canceled = true
is_terminal archived = true
is_terminal _ = false

unfoldable pub priority_rank : String → ℕ
priority_rank priority =
    let p = to_lower (trim_space priority) in
    if str_eq p "interactive" || str_eq p "high"
    then 3
    else if str_eq p "standard" || str_eq p "medium"
    then 2
    else if str_eq p "batch" || str_eq p "low"
    then 1
    else 2

-- a parameter of a task, or the empty text
abbrev pub input : String → TaskRecord → String
input key t = lookup_or "" key t.inputs

unfoldable pub parse_bool : String → Bool
parse_bool v = let s = to_lower (trim_space v) in str_eq s "1" || str_eq s "true" || str_eq s "yes"

-- `1 << min(attempt-1, 5)` seconds
unfoldable pub retry_backoff : ℕ → ℕ
retry_backoff attempt =
    let attempt = if attempt == 0 then 1 else attempt in 2 ^ min (attempt - 1) 5 * second

abbrev pub is_completed : Option TaskRecord → Bool
is_completed none = false
is_completed (some t) = status_eq t.status completed

unfoldable pub dependencies_completed : String → List String → MemoryStore → Bool
dependencies_completed job_id [] s = true
dependencies_completed job_id (dep ∷ deps) s =
    is_completed (get_task job_id dep s) && dependencies_completed job_id deps s

abbrev pub ref_of : TaskRecord → TaskRef
ref_of t = record { job_id = t.job_id; task_id = t.task_id }
