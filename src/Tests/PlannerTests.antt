-- ===== src/Tests/PlannerTests.antt =====
-- The plans and the submissions of internal/planner/planner.go and internal/scheduler/engine.go at
-- concrete inputs.
use splai.Base.{String, refl, Bool, none, str_eq, to_lower, trim_space, contains}
use splai.Planner.{Task, Compiler, provided, compile_with_mode}
use splai.Planner.Order.{IsNext, compile_with_mode-progresses}
use splai.Scheduler.Submit.{Submission, add_job}
use splai.Scheduler.Submit.Accepted.{Submitted, add_job-cases}
use splai.Tests.Samples.{engine, digest, start}

abbrev alone : Compiler
alone = record { llm = none }

-- only the first task of the analysis is done
abbrev split_done : String → Bool
split_done s = str_eq s "t1-split"

abbrev analysis : Submission
analysis = record {
  id = "job-2";
  tenant = "acme";
  req_type = "batch_analysis";
  input = "Analyze this";
  policy_name = "";
  priority = "high";
  data_classification = "internal";
  model = "";
  network_isolation = "";
}

compile_with_mode-progresses_example :
    (t : Task) × IsNext split_done
      (compile_with_mode alone "job-2" "chat" "analyze" "hybrid").tasks
      t
unfolding compile_with_mode provided to_lower trim_space contains
compile_with_mode-progresses_example =
    compile_with_mode-progresses alone "job-2" "chat" "analyze" "hybrid" split_done refl refl

add_job-cases_example :
    Submitted start analysis (compile_with_mode alone "job-2" "chat" "analyze" "hybrid") engine (
      add_job digest start analysis
        (compile_with_mode alone "job-2" "chat" "analyze" "hybrid")
        engine)
unfolding compile_with_mode to_lower trim_space contains
add_job-cases_example =
    add_job-cases digest start analysis (compile_with_mode alone "job-2" "chat" "analyze" "hybrid")
      engine refl
