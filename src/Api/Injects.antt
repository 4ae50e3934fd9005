-- ===== src/Api/Injects.antt =====
-- What internal/api/server.go adds to a plan before it becomes a job.
use splai.Base.{
  String, Bool, true, false, ◌||◌, ◌&&◌, not, List, [], ◌∷◌, ◌++◌, if◌then◌else◌, str_eq,
  equal_fold, is_empty, trim_space, to_lower, member, lookup_or, insert, none, ℕ, ◌==◌, length,
}
use splai.Planner.{Task, Dag}
pub mod Order

-- whether a task runs a language model
unfoldable pub is_llm_inference : Task → Bool
is_llm_inference t = equal_fold (trim_space t.type) "llm_inference"

unfoldable pub any_llm : List Task → Bool
unfolding is_llm_inference
any_llm [] = false
any_llm (t ∷ ts) = is_llm_inference t || any_llm ts

unfoldable pub has_task : String → List Task → Bool
has_task id [] = false
has_task id (t ∷ ts) = str_eq id t.task_id || has_task id ts

unfoldable pub install_task : String → String → String → Task
install_task id model source = record {
  task_id = id;
  type = "model_download";
  inputs = ("model", model) ∷ ("source", source) ∷ ("only_if_missing", "true") ∷ [];
  dependencies = [];
  timeout_sec = 1800;
  max_retries = 1;
  resources = none;
  constraints = none;
}

-- a task of the plan that waits for the installation
unfoldable pub wait_for_install : String → String → Task → Task
unfolding is_llm_inference
wait_for_install id source t =
    if str_eq t.task_id id then t else if not (is_llm_inference t) then t else record t {
      inputs = insert "model_source" source (insert "_install_model_if_missing" "true" t.inputs);
      dependencies = if member id t.dependencies then t.dependencies else t.dependencies ++ id ∷ [];
    }

unfoldable pub all_wait : String → String → List Task → List Task
unfolding wait_for_install
all_wait id source [] = []
all_wait id source (t ∷ ts) = wait_for_install id source t ∷ all_wait id source ts

unfoldable pub install_id : List Task → String
unfolding has_task
install_id ts = if has_task "t0-model-install" ts then "t0-model-install-1" else "t0-model-install"

unfoldable pub inject_model_install_tasks : Dag → String → String → Bool → Dag
unfolding any_llm install_task all_wait install_id
inject_model_install_tasks dag model backend install_if_missing =
    let m = trim_space model in
    let source =
      if str_eq (to_lower (trim_space backend)) "ollama" then "ollama" else "huggingface" in
    if not install_if_missing || is_empty m || length dag.tasks == 0
    then dag
    else if not (any_llm dag.tasks)
    then dag
    else let id = install_id dag.tasks in
      record dag { tasks = all_wait id source (install_task id m source ∷ dag.tasks) }

unfoldable pub with_backend : String → Task → Task
unfolding is_llm_inference
with_backend backend t =
    if not (is_llm_inference t)
    then t
    else if is_empty (trim_space (lookup_or "" "backend" t.inputs))
    then record t { inputs = insert "backend" backend t.inputs }
    else t

unfoldable pub all_with_backend : String → List Task → List Task
unfolding with_backend
all_with_backend backend [] = []
all_with_backend backend (t ∷ ts) = with_backend backend t ∷ all_with_backend backend ts

unfoldable pub inject_model_backend : Dag → String → Dag
unfolding all_with_backend
inject_model_backend dag backend =
    let b = trim_space backend in
    if is_empty b then dag else record dag { tasks = all_with_backend b dag.tasks }

unfoldable pub all_spread : List Task → List Task
all_spread [] = []
all_spread (t ∷ ts) = record t { inputs = insert "_job_spread" "true" t.inputs } ∷ all_spread ts

unfoldable pub inject_job_spread : Dag → Bool → Dag
unfolding all_spread
inject_job_spread dag enabled =
    if not enabled then dag else record dag { tasks = all_spread dag.tasks }
