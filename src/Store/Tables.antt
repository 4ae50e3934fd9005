-- ===== src/Store/Tables.antt =====
-- The tables of internal/state/memory_store.go: reads after writes, and the keys under which
-- records stand.
use splai.Base.{
  String, ◌≡◌, refl, ◌&&◌, some, [], ◌∷◌, arith, if◌then◌else◌, str_eq, eq_iff, Map, lookup,
  lookup_or, insert, lookup-insert, Option-cases, inl, inr,
}
use splai.State.{Time, JobRecord, TaskRecord, WorkerRecord}
use splai.Store.{
  MemoryStore, get_job, update_job, get_task, update_task, stamp, upsert_worker, get_worker,
}

module _ (now : Time) (s : MemoryStore) where
  -- a job that was written is read back with its new time, and no other job changes
  pub get_job-update_job :
      (job : JobRecord) (id : String)
      → get_job id (update_job now job s)
        ≡ (if str_eq job.id id then some (record job { updated_at = now }) else get_job id s)
  unfolding get_job update_job
  get_job-update_job job id = lookup-insert job.id id (record job { updated_at = now }) s.jobs

  pub get_task-update_job :
      (job : JobRecord) (j t : String) → get_task j t (update_job now job s) ≡ get_task j t s
  unfolding get_task update_job
  get_task-update_job job j t = refl

  pub get_job-update_task :
      (task : TaskRecord) (id : String) → get_job id (update_task now task s) ≡ get_job id s
  unfolding get_job update_task
  get_job-update_task task id = refl

  -- A task that was written is read back, with its new time, by the names of its job and its own,
  -- and under no other pair of names does a read change.
  pub get_task-update_task :
      (task : TaskRecord) (j t : String)
      → get_task j t (update_task now task s) ≡ (
          if str_eq task.job_id j && str_eq task.task_id t
          then some (record task { updated_at = now })
          else get_task j t s)
  unfolding get_task update_task lookup
  get_task-update_task task j t =
      let task' = record task { updated_at = now } in
      let by_id = lookup_or [] task.job_id s.tasks in
      ground (
        arith,
        lookup-insert task.job_id j (insert task.task_id task' by_id) s.tasks,
        lookup-insert task.task_id t task' by_id,
        eq_iff task.job_id j,
      )

  pub get_worker-upsert_worker :
      (w : WorkerRecord) (id : String)
      → get_worker id (upsert_worker now w s) ≡ (
          if str_eq w.id id
          then some (record w { last_heartbeat = stamp now w.last_heartbeat })
          else get_worker id s)
  unfolding get_worker upsert_worker
  get_worker-upsert_worker w id =
      lookup-insert w.id id (record w { last_heartbeat = stamp now w.last_heartbeat }) s.workers

-- Every task stands under its own identifier in the table of its own job.
abbrev pub IsRowOf : String → Map TaskRecord → Type 0
IsRowOf j [] = Unit
IsRowOf j ((k, t) ∷ m) = ((t.job_id ≡ j) × (t.task_id ≡ k)) × IsRowOf j m

abbrev pub AreRows : Map (Map TaskRecord) → Type 0
AreRows [] = Unit
AreRows ((j, m) ∷ ms) = IsRowOf j m × AreRows ms

abbrev pub AreJobs : Map JobRecord → Type 0
AreJobs [] = Unit
AreJobs ((k, job) ∷ m) = (job.id ≡ k) × AreJobs m

pub record IsKeyed (s : MemoryStore) : Type 0 where
  pub jobs : AreJobs s.jobs
  pub tasks : AreRows s.tasks

IsRowOf-insert :
    (j k : String) (t : TaskRecord) (m : Map TaskRecord)
    → t.job_id ≡ j
    → t.task_id ≡ k
    → IsRowOf j m
    → IsRowOf j (insert k t m)
unfolding insert
IsRowOf-insert j k t [] p q r = ((p, q), tt)
IsRowOf-insert j k t ((i, u) ∷ m) p q r = ground (arith, IsRowOf-insert j k t m p q r.1)

AreRows-insert :
    (j : String) (m : Map TaskRecord) (ms : Map (Map TaskRecord))
    → IsRowOf j m
    → AreRows ms
    → AreRows (insert j m ms)
unfolding insert
AreRows-insert j m [] r rs = (r, tt)
AreRows-insert j m ((i, n) ∷ ms) r rs = ground (arith, AreRows-insert j m ms r rs.1)

AreJobs-insert : (job : JobRecord) (m : Map JobRecord) → AreJobs m → AreJobs (insert job.id job m)
unfolding insert
AreJobs-insert job [] a = (refl, tt)
AreJobs-insert job ((k, other) ∷ m) a = ground (arith, AreJobs-insert job m a.1)

IsRowOf-lookup :
    (j : String) (ms : Map (Map TaskRecord)) → AreRows ms → IsRowOf j (lookup_or [] j ms)
unfolding lookup
IsRowOf-lookup j [] a = tt
IsRowOf-lookup j ((i, m) ∷ ms) a = ground (arith, eq_iff i j, IsRowOf-lookup j ms a.1)

-- `UpdateTask` keeps every record under its own key.
pub update_task-IsKeyed :
    (now : Time) (task : TaskRecord) (s : MemoryStore)
    → IsKeyed s
    → IsKeyed (update_task now task s)
unfolding update_task
update_task-IsKeyed now task s k = record {
  jobs = k.jobs;
  tasks =
      AreRows-insert task.job_id _ s.tasks
        (IsRowOf-insert task.job_id task.task_id (record task { updated_at = now }) _ refl refl
          (IsRowOf-lookup task.job_id s.tasks k.tasks))
        k.tasks;
}

pub update_job-IsKeyed :
    (now : Time) (job : JobRecord) (s : MemoryStore) → IsKeyed s → IsKeyed (update_job now job s)
unfolding update_job
update_job-IsKeyed now job s k = record {
  jobs = AreJobs-insert (record job { updated_at = now }) s.jobs k.jobs;
  tasks = k.tasks;
}

-- a task that is read has the names that were asked for
row_names :
    (j t : String) (m : Map TaskRecord) (task : TaskRecord)
    → IsRowOf j m
    → lookup t m ≡ some task
    → (task.job_id ≡ j) × (task.task_id ≡ t)
unfolding lookup
row_names j t [] task r e = ground arith
row_names j t ((k, u) ∷ m) task r e = ground (arith, eq_iff k t, row_names j t m task r.1)

pub get_task-named :
    (j t : String) (s : MemoryStore) (task : TaskRecord)
    → IsKeyed s
    → get_task j t s ≡ some task
    → (task.job_id ≡ j) × (task.task_id ≡ t)
unfolding get_task
get_task-named j t s task k e = elim (Option-cases (lookup j s.tasks)) [
  | inl p ↦ ground arith
  | inr (m, p) ↦ row_names j t m task (rows m p) (ground arith)
]
  where
    rows : (m : Map TaskRecord) → lookup j s.tasks ≡ some m → IsRowOf j m
    rows m p = ground (arith, IsRowOf-lookup j s.tasks k.tasks)

job_named :
    (id : String) (m : Map JobRecord) (job : JobRecord)
    → AreJobs m
    → lookup id m ≡ some job
    → job.id ≡ id
unfolding lookup
job_named id [] job a e = ground arith
job_named id ((k, u) ∷ m) job a e = ground (arith, eq_iff k id, job_named id m job a.1)

pub get_job-named :
    (id : String) (s : MemoryStore) (job : JobRecord)
    → IsKeyed s
    → get_job id s ≡ some job
    → job.id ≡ id
unfolding get_job
get_job-named id s job k e = job_named id s.jobs job k.jobs e
