-- ===== src/Planner.antt =====
-- internal/planner/planner.go: how a job is split into the tasks of a DAG. The provider of plans
-- (internal/planner/provider.go calls a server) is a function, which returns none for an error.
pub mod Order
use splai.Base.{
  ℕ, String, ◌⧺◌, Bool, true, false, ◌||◌, Option, none, some, List, [], ◌∷◌, ◌++◌, if◌then◌else◌,
  ltb, leb, length, str_eq, Map, trim_space, to_lower, contains,
}

pub record TaskResources : Type 0 where
  pub cpu : ℕ
  pub memory : String
  pub gpu : Bool

pub record TaskConstraints : Type 0 where
  pub data_locality : String

pub record Task : Type 0 where
  pub task_id : String
  pub type : String
  pub inputs : Map String
  pub dependencies : List String
  pub timeout_sec : ℕ
  pub max_retries : ℕ
  pub resources : Option TaskResources
  pub constraints : Option TaskConstraints

pub record Dag : Type 0 where
  pub dag_id : String
  pub tasks : List Task

pub record Compiler : Type 0 where
  pub llm : Option (String → String → String → Option Dag)

-- the resources of a step, none of which asks for a GPU
abbrev needs : ℕ → String → Option TaskResources
needs cpu memory = some (record { cpu = cpu; memory = memory; gpu = false })

-- what the steps of the static plans have in common
abbrev step : String → String → Map String → List String → ℕ → Option TaskResources → Task
step task_id type inputs dependencies timeout_sec resources = record {
  task_id = task_id;
  type = type;
  inputs = inputs;
  dependencies = dependencies;
  timeout_sec = timeout_sec;
  max_retries = 2;
  resources = resources;
  constraints = none;
}

abbrev is_analysis : String → String → Bool
is_analysis req_type input = contains (to_lower input) "analyze" || str_eq req_type "batch_analysis"

unfoldable pub compile_template : String → String → String → Dag
compile_template job_id req_type input =
    if is_analysis req_type input
    then record {
      dag_id = job_id ⧺ "-dag";
      tasks =
          step "t1-split" "tool_execution" (("op", "split") ∷ ("text", input) ∷ []) [] 30
            (needs 1 "1Gi")
          ∷ step "t2-embed" "embedding" (("op", "embed") ∷ []) ("t1-split" ∷ []) 60 (needs 2 "2Gi")
          ∷ step "t3-summarize" "llm_inference" (("op", "summarize") ∷ []) ("t2-embed" ∷ []) 60
              (needs 2 "4Gi")
          ∷ [];
    }
    else record {
      dag_id = job_id ⧺ "-dag";
      tasks = step "t1" "llm_inference" (("prompt", input) ∷ []) [] 60 (needs 2 "4Gi") ∷ [];
    }

-- the plan of `compileLLM` where no provider gives one
unfoldable pub decompose : String → String → String → Dag
decompose job_id req_type input =
    let first =
      step "t1-decompose" "llm_inference" (("op", "decompose") ∷ ("prompt", input) ∷ []) [] 45
        (needs 2 "4Gi") in
    if is_analysis req_type input
    then record {
      dag_id = job_id ⧺ "-dag";
      tasks =
          first
          ∷ step "t2-retrieve" "retrieval" (("op", "retrieve") ∷ []) ("t1-decompose" ∷ []) 45
              (needs 2 "2Gi")
          ∷ step "t3-reason" "llm_inference" (("op", "reason") ∷ []) ("t2-retrieve" ∷ []) 90
              (needs 2 "4Gi")
          ∷ step "t4-report" "aggregation" (("op", "report") ∷ []) ("t3-reason" ∷ []) 45
              (needs 1 "1Gi")
          ∷ [];
    }
    else record {
      dag_id = job_id ⧺ "-dag";
      tasks =
          first
          ∷ step "t2-respond" "llm_inference" (("op", "respond") ∷ []) ("t1-decompose" ∷ []) 60
              (needs 2 "4Gi")
          ∷ [];
    }

-- the provider's plan, if there is a provider and its plan has tasks
unfoldable pub provided : Compiler → String → String → String → Option Dag
provided c job_id req_type input = elim c.llm [
  | none ↦ none
  | some plan ↦ elim (plan job_id req_type input) [
    | none ↦ none
    | some dag ↦ if ltb 0 (length dag.tasks) then some dag else none
  ]
]

unfoldable pub compile_llm : Compiler → String → String → String → Dag
unfolding provided decompose
compile_llm c job_id req_type input = elim (provided c job_id req_type input) [
  | none ↦ decompose job_id req_type input
  | some dag ↦ dag
]

-- the identifier of the last task, of `t` where none follows it
last_id : Task → List Task → String
last_id t [] = t.task_id
last_id t (u ∷ us) = last_id u us

unfoldable pub with_tail : Dag → List Task → Dag
unfolding last_id
with_tail base [] = base
with_tail base (t ∷ ts) = if leb (length base.tasks) 1 then base else record base {
  tasks =
      base.tasks
      ++ step "t4-aggregate" "aggregation" (("op", "aggregate") ∷ []) (last_id t ts ∷ []) 30
          (needs 1 "1Gi")
        ∷ [];
}

unfoldable pub compile_hybrid : String → String → String → Dag
unfolding compile_template with_tail
compile_hybrid job_id req_type input =
    let base = compile_template job_id req_type input in with_tail base base.tasks

unfoldable pub compile_with_mode : Compiler → String → String → String → String → Dag
unfolding compile_hybrid compile_template compile_llm
compile_with_mode c job_id req_type input mode =
    let m = to_lower (trim_space mode) in
    if str_eq m "" || str_eq m "hybrid"
    then compile_hybrid job_id req_type input
    else if str_eq m "template"
    then compile_template job_id req_type input
    else if str_eq m "llm" || str_eq m "llm_planner"
    then compile_llm c job_id req_type input
    else compile_hybrid job_id req_type input

unfoldable pub compile : Compiler → String → String → String → Dag
unfolding compile_with_mode
compile c job_id req_type input = compile_with_mode c job_id req_type input "hybrid"
