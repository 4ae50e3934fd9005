-- ===== src/Api/Jobs/Targets.antt =====
-- `handleModelPrefetch` of internal/api/server.go reaches every worker that it is meant for.
use splai.Base.{
  ℕ, ◌+◌, String, ◌⧺◌, ◌≡◌, refl, sym, subst, ap, ◌∙◌, Bool, false, not, ◌&&◌, some, List, [], ◌∷◌,
  arith, ltb, length, str_eq, is_empty, equal_fold, member, trim_space, to_lower, lookup, insert,
  inl, inr, if_intro, Result, ok, err,
}
use mathlib.Core.List.{Memᴰ}
use splai.State.{Time, WorkerRecord, TaskRecord, TaskRef}
use splai.Store.{AuditPayload, get_task}
use splai.Queue.{MemoryQueue, enqueue_many}
use splai.Planner.{Task, Dag}
use splai.Scheduler.Engine.{Engine, input, ref_of}
use splai.Scheduler.Sweep.{mem-append_right}
use splai.Scheduler.Submit.{Submission, add_job, task_record}
use splai.Scheduler.Submit.Accepted.{AreInitial, IsCreated, Submitted, add_job-cases}
use splai.Scheduler.Submit.Plans.{ordered-distinct_ids}
use splai.Scheduler.Workers.{list_all_workers}
use splai.Auth.{Request}
use splai.Auth.Tokens.{add_scopes, trimmed_parts}
use splai.Api.Messages.{PrefetchModelRequest, PrefetchModelResponse, Payload, Response}
use splai.Api.Server.{refused, Server, next_seq, job_name, tenant_from_request, require_scopes}
use splai.Api.Server.Checks.{RefusesWell, require_scopes-RefusesWell, with_access_intro}
use splai.Api.Jobs.{
  submission_of_prefetch, prefetch_task, prefetch_tasks, targeted, answer_prefetch, start_prefetch,
  prefetch, handle_model_prefetch, or_else,
}
use splai.Api.Jobs.Prefetch.{prefetch_tasks-is_plan}

-- a stored task of the job is meant for the worker, and waits in the queue
pub record Reaches (id : String) (w : WorkerRecord) (e : Engine) : Type 0 where
  pub task : TaskRecord
  pub stored : get_task id task.task_id e.store ≡ some task
  pub meant : input "_target_worker" task ≡ w.id
  pub of_job : task.job_id ≡ id
  pub in_queue : Memᴰ (ref_of task) e.queue.items

-- the workers of a request: healthy enough, and named if the request names any
abbrev pub IsMeant : PrefetchModelRequest → WorkerRecord → Type 0
IsMeant req w =
    let named = add_scopes (trimmed_parts req.workers) [] in
    (equal_fold w.health "unhealthy" ≡ false)
    × ((ltb 0 (length named) && not (member w.id named)) ≡ false)

targeted-Memᴰ :
    (set : List String) (ws : List WorkerRecord) (w : WorkerRecord)
    → Memᴰ w ws
    → equal_fold w.health "unhealthy" ≡ false
    → (ltb 0 (length set) && not (member w.id set)) ≡ false
    → Memᴰ w (targeted set ws)
unfolding targeted
targeted-Memᴰ set [] w i h k = elim i [ ]
targeted-Memᴰ set (v ∷ ws) w (Memᴰ.head e) h k =
    let h' = subst (λ (u : WorkerRecord). equal_fold u.health "unhealthy" ≡ false) e h in
    let k' =
      subst (λ (u : WorkerRecord). (ltb 0 (length set) && not (member u.id set)) ≡ false) e k in
    rw h' (rw k' (Memᴰ.head e))
targeted-Memᴰ set (v ∷ ws) w (Memᴰ.tail i) h k =
    if_intro (Memᴰ w) (equal_fold v.health "unhealthy") (λ bad. targeted-Memᴰ set ws w i h k)
      λ good.
        if_intro (Memᴰ w) (ltb 0 (length set) && not (member v.id set))
          (λ other. targeted-Memᴰ set ws w i h k) λ meant. Memᴰ.tail (targeted-Memᴰ set ws w i h k)

module _ (model source : String) (only_missing : Bool) where
  -- the task of a worker, wherever it stands in the list
  task_of :
      (i : ℕ) (ws : List WorkerRecord) (w : WorkerRecord)
      → Memᴰ w ws
      → (j : ℕ) × Memᴰ
          (prefetch_task j model source only_missing w)
          (prefetch_tasks i model source only_missing ws)
  unfolding prefetch_tasks
  task_of i [] w m = elim m [ ]
  task_of i (v ∷ ws) w (Memᴰ.head e) =
      (i, Memᴰ.head (ap (prefetch_task i model source only_missing) e))
  task_of i (v ∷ ws) w (Memᴰ.tail m) = let (j, n) = task_of (i + 1) ws w m in (j, Memᴰ.tail n)

  all_free :
      (i : ℕ) (ws : List WorkerRecord) (t : Task)
      → Memᴰ t (prefetch_tasks i model source only_missing ws)
      → t.dependencies ≡ []
  unfolding prefetch_tasks prefetch_task
  all_free i [] t m = elim m [ ]
  all_free i (w ∷ ws) t (Memᴰ.head e) = ap (λ (u : Task). u.dependencies) e
  all_free i (w ∷ ws) t (Memᴰ.tail m) = all_free (i + 1) ws t m

initial-Memᴰ :
    (now : Time) (sub : Submission) (ts : List Task) (refs : List TaskRef) (t : Task)
    → AreInitial now sub ts refs
    → Memᴰ t ts
    → t.dependencies ≡ []
    → Memᴰ (record { job_id = sub.id; task_id = t.task_id }) refs
initial-Memᴰ now sub [] refs t a m free = elim m [ ]
initial-Memᴰ now sub (u ∷ ts) refs t (AreInitial.waits n a) (Memᴰ.head e) free =
    absurd (n (sym (ap (λ (x : Task). x.dependencies) e) ∙ free))
initial-Memᴰ now sub (u ∷ ts) refs t (AreInitial.waits n a) (Memᴰ.tail m) free =
    initial-Memᴰ now sub ts refs t a m free
initial-Memᴰ now sub (u ∷ ts) (r ∷ refs) t (AreInitial.starts n a) (Memᴰ.head e) free =
    Memᴰ.head (ap (λ (x : Task). record { job_id = sub.id; task_id = x.task_id }) e)
initial-Memᴰ now sub (u ∷ ts) (r ∷ refs) t (AreInitial.starts n a) (Memᴰ.tail m) free =
    Memᴰ.tail (initial-Memᴰ now sub ts refs t a m free)

prefetch_record-input :
    (now : Time) (sub : Submission) (j : ℕ) (model source : String) (only_missing : Bool)
    (w : WorkerRecord)
    → input "_target_worker" (task_record now sub (prefetch_task j model source only_missing w))
      ≡ w.id
unfolding task_record prefetch_task lookup insert
prefetch_record-input now sub j model source only_missing w = ground arith

module _ (digest : AuditPayload → String) (now : Time) where
  -- an answer with 202 names a job that reaches the workers
  abbrev ReachesAll : (WorkerRecord → Type 0) → Server × Response → Type 0
  ReachesAll Meant (s', a) =
      a.status ≡ 202
      → (w : WorkerRecord) → Meant w
      → (out : PrefetchModelResponse) × (a.payload ≡ Payload.prefetched out)
        × Reaches out.job_id w s'.engine

  created-Reaches :
      (sub : Submission) (dag_id model source : String) (only_missing : Bool)
      (ws : List WorkerRecord) (e e' : Engine) (w : WorkerRecord)
      → IsCreated now sub
          (record { dag_id = dag_id; tasks = prefetch_tasks 0 model source only_missing ws })
          e
          e'
      → Memᴰ w ws
      → Reaches sub.id w e'
  unfolding task_record enqueue_many
  created-Reaches sub dag_id model source only_missing ws e e' w c m =
      let (j, t) = task_of model source only_missing 0 ws w m in
      let task = prefetch_task j model source only_missing w in
      let ref : TaskRef = record { job_id = sub.id; task_id = task.task_id } in
      record {
        task = task_record now sub task;
        stored = c.tasks task t;
        meant = prefetch_record-input now sub j model source only_missing w;
        of_job = refl;
        in_queue = subst (Memᴰ ref) (sym (ap (λ (q : MemoryQueue). q.items) c.queue.1)) (
            mem-append_right e.queue.items (
              initial-Memᴰ now sub _ c.queue.0 task c.queue.2 t
                (all_free model source only_missing 0 ws task t)));
      }

  answer_prefetch-ReachesAll :
      (out : PrefetchModelResponse) (s s' : Server) (sub : Submission)
      (dag_id model source : String) (only_missing : Bool) (ws : List WorkerRecord)
      (r : Engine × Result (Unit {0}))
      → sub.id ≡ out.job_id
      → Submitted now sub
          (record { dag_id = dag_id; tasks = prefetch_tasks 0 model source only_missing ws })
          s.engine
          r
      → ReachesAll (λ w. Memᴰ w ws) (answer_prefetch digest now out s' r)
  unfolding answer_prefetch
  answer_prefetch-ReachesAll out s s' sub dag_id model source only_missing ws (e, err m) named h =
      λ code. absurd (omega (arith, code))
  answer_prefetch-ReachesAll out s s' sub dag_id model source only_missing ws (e, ok u) named
        (inl y) =
      λ code w m. (
        out,
        refl,
        subst (λ id. Reaches id w e) named
            (created-Reaches sub dag_id model source only_missing ws s.engine e w y.2 m),
      )
  answer_prefetch-ReachesAll out s s' sub dag_id model source only_missing ws (e, ok u) named
        (inr n) =
      λ code. absurd (cc (n.1))

  start_prefetch-ReachesAll :
      (r : Request) (req : PrefetchModelRequest) (model source : String) (only_missing : Bool)
      (ws : List WorkerRecord) (s : Server)
      → ReachesAll (λ w. Memᴰ w ws) (start_prefetch digest now r req model source only_missing ws s)
  unfolding start_prefetch
  start_prefetch-ReachesAll r req model source only_missing [] s =
      λ code. absurd (omega (arith, code))
  start_prefetch-ReachesAll r req model source only_missing (w ∷ ws) s =
      let sub =
        submission_of_prefetch (job_name (next_seq s.seq)) (tenant_from_request r req.tenant) model
          (or_else (trim_space req.priority) "standard") in
      let tasks = prefetch_tasks 0 model source only_missing (w ∷ ws) in
      let dag : Dag = record { dag_id = "dag-prefetch-" ⧺ sub.id; tasks = tasks } in
      answer_prefetch-ReachesAll _ s (record s { seq = next_seq s.seq }) sub dag.dag_id model source
        only_missing (w ∷ ws) (add_job digest now sub dag s.engine) refl
        (add_job-cases digest now sub dag s.engine (
          ordered-distinct_ids [] tasks
            (ground (arith, prefetch_tasks-is_plan model source only_missing w ws))))

  handle_model_prefetch-ReachesAll :
      (r : Request) (req : PrefetchModelRequest) (s : Server)
      → ReachesAll
          (λ w. Memᴰ w (list_all_workers s.engine) × IsMeant req w)
          (handle_model_prefetch digest now r (some req) s)
  unfolding handle_model_prefetch prefetch
  handle_model_prefetch-ReachesAll r req s =
      let P = ReachesAll (λ w. Memᴰ w (list_all_workers s.engine) × IsMeant req w) in
      let named = add_scopes (trimmed_parts req.workers) [] in
      with_access_intro P s (require_scopes s r ("operator" ∷ []))
        (λ a h code. absurd (refusal h code))
        λ p who.
          if_intro P (not (str_eq r.method "POST")) (λ h code. absurd (omega (arith, code)))
            λ post.
              if_intro P (is_empty (trim_space req.model)) (λ h code. absurd (omega (arith, code)))
                λ model.
                  if_intro P
                    (not (
                      str_eq (or_else (to_lower (trim_space req.source)) "huggingface")
                        "huggingface"))
                    (λ h code. absurd (omega (arith, code)))
                    λ source code w meant.
                      start_prefetch-ReachesAll r req _ _ _
                        (targeted named (list_all_workers s.engine)) s code w
                        (targeted-Memᴰ named (list_all_workers s.engine) w meant.0 meant.1.0
                          meant.1.1)
    where
      refusal :
          {a : Response} → require_scopes s r ("operator" ∷ []) ≡ refused a → a.status ≡ 202 → ⊥
      refusal h code =
          elim (subst RefusesWell h (require_scopes-RefusesWell s r ("operator" ∷ []))) [
            | inl u ↦ omega (arith, u, code)
            | inr f ↦ omega (arith, f, code)
          ]

  -- A prefetch that is answered with 202 has created the job that the answer names, and for every
  -- worker that is registered, not unhealthy, and named by the request if it names any, a task of
  -- this job for this worker is stored and waits in the queue.
  pub handle_model_prefetch-Reaches :
      (r : Request) (req : PrefetchModelRequest) (s : Server) (w : WorkerRecord)
      → (handle_model_prefetch digest now r (some req) s).1.status ≡ 202
      → Memᴰ w (list_all_workers s.engine)
      → IsMeant req w
      → (out : PrefetchModelResponse) × ((handle_model_prefetch digest now r (some req) s).1.payload
          ≡ Payload.prefetched out)
        × Reaches out.job_id w (handle_model_prefetch digest now r (some req) s).0.engine
  handle_model_prefetch-Reaches r req s w code there meant =
      handle_model_prefetch-ReachesAll r req s code w (there, meant)
