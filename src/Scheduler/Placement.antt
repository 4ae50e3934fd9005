-- ===== src/Scheduler/Placement.antt =====
-- `bestWorkerForTask` of internal/scheduler/engine.go and its helpers: which worker a task should
-- go to. The scores are float64 values; what the loop needs of them is a parameter, `Scores`.
pub mod Eligible
use Prim.Native.Nat.{Ordering}
use Prim.Native.String.{compare}
use splai.Base.{
  ℕ, ◌+◌, ◌*◌, ◌/◌, ◌%◌, ◌^◌, String, ◌⧺◌, Bool, true, false, ◌&&◌, ◌||◌, not, Option, none, some,
  List, [], ◌∷◌, ◌++◌, ltb, leb, ◌==◌, if◌then◌else◌, length, str_eq, is_empty, trim_space, bytes,
  fnv32a, to_lower, equal_fold, Map, lookup_or, insert,
}
use splai.State.{Float, running, JobRecord, TaskRecord, WorkerRecord}
use splai.Store.{MemoryStore, list_workers, list_tasks_by_job, count_tasks_by_tenant_status}
use splai.Scheduler.Engine.{input, parse_bool}
use splai.Scheduler.Report.{contains_folded}

unfoldable pub normalize_backend : String → String
normalize_backend name =
    let s = to_lower (trim_space name) in
    if str_eq s "remote-api" then "remote_api" else if str_eq s "llamacpp" then "llama.cpp" else s

abbrev known_backend : String → Bool
known_backend s =
    str_eq s "ollama" || str_eq s "vllm" || str_eq s "llama.cpp" || str_eq s "remote_api"

names_backend : List String → Bool
unfolding normalize_backend
names_backend [] = false
names_backend (t ∷ ts) = known_backend (normalize_backend t) || names_backend ts

unfoldable pub worker_has_backend_inventory : WorkerRecord → Bool
unfolding names_backend
worker_has_backend_inventory w = ltb 0 (length w.backends) || names_backend w.tools

unfoldable pub lists_backend : String → List String → Bool
unfolding normalize_backend
lists_backend backend [] = false
lists_backend backend (b ∷ bs) = str_eq (normalize_backend b) backend || lists_backend backend bs

unfoldable pub worker_supports_backend : WorkerRecord → String → Bool
unfolding lists_backend normalize_backend
worker_supports_backend w name =
    let backend = normalize_backend name in
    is_empty backend || lists_backend backend w.backends || lists_backend backend w.tools

unfoldable pub tie_hash : String → String → ℕ
unfolding fnv32a bytes
tie_hash task_key worker_id = fnv32a (bytes (task_key ⧺ ("|" ⧺ worker_id))) 2166136261

unfoldable pub insert_text : String → List String → List String
insert_text s [] = s ∷ []
insert_text s (t ∷ ts) = elim (compare t s) [ Ordering.lt ↦ t ∷ insert_text s ts | _ ↦ s ∷ t ∷ ts ]

-- sort.Strings
unfoldable pub sort_texts : List String → List String
unfolding insert_text
sort_texts [] = []
sort_texts (s ∷ ss) = insert_text s (sort_texts ss)

join_bar : List String → String
join_bar [] = ""
join_bar (s ∷ []) = s
join_bar (s ∷ t ∷ ts) = s ⧺ ("|" ⧺ join_bar (t ∷ ts))

-- where no dependencies are, sorting and joining give the empty text, too
unfoldable pub dependency_key : List String → String
unfolding sort_texts join_bar
dependency_key deps = join_bar (sort_texts deps)

stage_loop : List TaskRecord → String → Map ℕ → ℕ → Map ℕ × ℕ
unfolding dependency_key
stage_loop [] key usage n = (usage, n)
stage_loop (t ∷ ts) key usage n =
    let next =
      if is_empty (trim_space t.worker_id)
      then usage
      else insert t.worker_id (lookup_or 0 t.worker_id usage + 1) usage in
    if str_eq (dependency_key t.dependencies) key
    then stage_loop ts key next (n + 1)
    else stage_loop ts key usage n

unfoldable pub compute_stage_worker_usage : List TaskRecord → TaskRecord → Map ℕ × Bool
unfolding stage_loop dependency_key
compute_stage_worker_usage tasks current =
    let (usage, n) = stage_loop tasks (dependency_key current.dependencies) [] 0 in (usage, ltb 1 n)

-- What the loop needs of the scores: `computeWorkerScore`, for a task, a worker, the running tasks
-- of the tenant, the use of the worker by the stage, and whether the job spreads and has a parallel
-- stage; the order, the distance below 0.0001, and the score that is below all others.
pub record Scores : Type 0 where
  pub score : TaskRecord → WorkerRecord → ℕ → ℕ → Bool → Bool → Float
  pub above : Float → Float → Bool
  pub near : Float → Float → Bool
  pub lowest : Float

-- what the fleet as a whole offers
pub record Fleet : Type 0 where
  pub has_backends : Bool
  pub has_models : Bool

unfoldable pub fleet_of : List WorkerRecord → Fleet
unfolding worker_has_backend_inventory
fleet_of [] = record { has_backends = false; has_models = false }
fleet_of (w ∷ ws) =
    let rest = fleet_of ws in
    record {
      has_backends = worker_has_backend_inventory w || rest.has_backends;
      has_models = ltb 0 (length w.models) || rest.has_models;
    }

abbrev pub is_llm_task : TaskRecord → Bool
is_llm_task t = str_eq t.type "llm_inference"

-- the worker passes all of the loop's filters
unfoldable pub is_eligible : TaskRecord → Fleet → WorkerRecord → Bool
unfolding contains_folded
is_eligible t fleet w =
    let target = trim_space (input "_target_worker" t) in
    let backend = normalize_backend (input "backend" t) in
    let model = trim_space (input "model" t) in
    not (not (is_empty target) && not (str_eq w.id target))
    && not (equal_fold w.health "unhealthy")
    && not (parse_bool (input "_requires_gpu" t) && not w.gpu)
    && not (
        is_llm_task t
        && not (is_empty backend)
        && fleet.has_backends
        && not (worker_supports_backend w backend))
    && not (
        is_llm_task t
        && not (is_empty model)
        && fleet.has_models
        && not (contains_folded w.models model))

pub record Best : Type 0 where
  pub id : String
  pub score : Float
  pub tie : ℕ

abbrev task_key : TaskRecord → String
task_key t = t.job_id ⧺ ("|" ⧺ t.task_id)

-- a worker that passed the filters against the best one so far
unfoldable pub better : Scores → TaskRecord → WorkerRecord → Float → Best → Best
unfolding tie_hash
better scores t w score best =
    let tie = tie_hash (task_key t) w.id in
    let new : Best = record { id = w.id; score = score; tie = tie } in
    if scores.above score best.score
    then new
    else if scores.near score best.score && ltb best.tie tie
    then new
    else best

unfoldable pub best_loop :
    Scores → (WorkerRecord → Float) → TaskRecord → Fleet → List WorkerRecord → Best → Best
best_loop scores score t fleet [] best = best
best_loop scores score t fleet (w ∷ ws) best =
    best_loop scores score t fleet ws
      (if is_eligible t fleet w then better scores t w (score w) best else best)

-- the fleet's inventory counts for tasks of inference only
abbrev pub fleet_for : TaskRecord → List WorkerRecord → Fleet
fleet_for t ws =
    if is_llm_task t then fleet_of ws else record { has_backends = false; has_models = false }

unfoldable pub best_worker_for_task : Scores → JobRecord → TaskRecord → MemoryStore → String
unfolding best_loop fleet_of compute_stage_worker_usage
best_worker_for_task scores job t s =
    let ws = list_workers s in
    let spread = parse_bool (input "_job_spread" t) in
    let (usage, parallel) =
      if spread then compute_stage_worker_usage (list_tasks_by_job job.id s) t else ([], false) in
    let tenant_running = count_tasks_by_tenant_status job.tenant running s in
    let score = λ (w : WorkerRecord).
      scores.score t w tenant_running (lookup_or 0 w.id usage) spread parallel in
    (best_loop scores score t (fleet_for t ws) ws
      (record { id = ""; score = scores.lowest; tie = 0 })).id
