-- ===== src/Api/Jobs/Plans.antt =====
-- The plans that `handleJobs` of internal/api/server.go hands to the engine.
use splai.Base.{String, ◌≡◌, true, false, ◌&&◌, none, arith, inl, inr, Bool-cases}
use splai.Planner.{
  Compiler, provided, compile_llm, compile_with_mode, compile_hybrid, compile_template, with_tail,
  decompose,
}
use splai.Planner.Order.{is_plan, is_llm, llm-mode}
use splai.Router.{Decision}
use splai.Api.Messages.{SubmitJobRequest}
use splai.Api.Jobs.{plan_job}
use splai.Api.Injects.{has_task, inject_model_backend}
use splai.Api.Injects.Order.{
  inject_model_backend-is_plan, inject_model_install_tasks-is_plan, inject_job_spread-is_plan,
  has_task-backend,
}

-- The plan that a submission is given is in order, as soon as the compiled plan is and does not use
-- both of the names that an installation of the model can take.
pub plan_job-is_plan :
    (c : Compiler) (job_id : String) (req : SubmitJobRequest) (d : Decision)
    → let ts = (compile_with_mode c job_id req.type req.input req.planner_mode).tasks in
      is_plan ts ≡ true
      → (has_task "t0-model-install" ts && has_task "t0-model-install-1" ts) ≡ false
      → is_plan (plan_job c job_id req d).tasks ≡ true
unfolding plan_job
plan_job-is_plan c job_id req d o n =
    let dag = compile_with_mode c job_id req.type req.input req.planner_mode in
    let dag' = inject_model_backend dag d.backend in
    inject_job_spread-is_plan _ req.job_spread (
      inject_model_install_tasks-is_plan dag' req.model d.backend req.install_model_if_missing
        (ground (
          arith,
          has_task-backend "t0-model-install" dag d.backend,
          has_task-backend "t0-model-install-1" dag d.backend,
        ))
        (inject_model_backend-is_plan dag d.backend o))

static-names :
    (c : Compiler) (job_id req_type input mode : String)
    → is_llm mode ≡ false
    → has_task "t0-model-install" (compile_with_mode c job_id req_type input mode).tasks ≡ false
unfolding compile_with_mode compile_hybrid compile_template with_tail has_task
static-names c job_id req_type input mode h = ground arith

decompose-names :
    (job_id req_type input : String)
    → has_task "t0-model-install" (decompose job_id req_type input).tasks ≡ false
unfolding decompose has_task
decompose-names job_id req_type input = ground arith

-- a plan that no provider gave has no task of the name
pub compile_with_mode-names :
    (c : Compiler) (job_id req_type input mode : String)
    → provided c job_id req_type input ≡ none
    → has_task "t0-model-install" (compile_with_mode c job_id req_type input mode).tasks ≡ false
unfolding compile_llm
compile_with_mode-names c job_id req_type input mode p = elim (Bool-cases (is_llm mode)) [
  | inl h ↦
      rw (llm-mode c job_id req_type input mode h)
        (rw (p, compile_llm) (decompose-names job_id req_type input))
  | inr h ↦ static-names c job_id req_type input mode h
]
