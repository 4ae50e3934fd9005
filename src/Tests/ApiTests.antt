-- ===== src/Tests/ApiTests.antt =====
-- The handlers of internal/api/server.go at concrete requests.
use splai.Base.{
  ℕ, ◌+◌, ◌*◌, ◌≤◌, ◌<◌, String, ◌≡◌, refl, ◌⊎◌, inl, inr, Bool, true, false, Option, none, some,
  List, [], ◌∷◌, arith, length, keep, map,
}
use mathlib.Core.List.{Memᴰ}
use splai.State.{Time, second, queued, TaskRef, WorkerRecord}
use splai.Queue.{requeue_dead_letters, list_dead_letters}
use splai.Limits.{AdminSafety, new_submit_limiter}
use splai.Planner.{Compiler}
use splai.Router.{new_default_router}
use splai.Scheduler.Workers.{TaskStatus, task_status, list_all_workers}
use splai.Auth.{Principal, Request, Authorizer}
use splai.Api.Messages.{
  Payload, PrefetchModelResponse, SubmitJobRequest, PrefetchModelRequest, DeadLetterTask,
  RequeueDeadLettersRequest,
}
use splai.Api.Server.{Server}
use splai.Api.Jobs.{handle_model_prefetch}
use splai.Api.Jobs.Targets.{Reaches, IsMeant, handle_model_prefetch-Reaches}
use splai.Api.Listing.{handle_job_by_id, task_passes, task_item}
use splai.Api.Listing.Guards.{IsGuarded, job_id_of, handle_job_by_id-IsGuarded}
use splai.Api.Listing.Pages.{walk_pages, walk_pages-covers}
use splai.Api.Admin.{handle_dead_letter_queue, count_matching_refs}
use splai.Api.Admin.DryRuns.{dry_run-announces}
use splai.Tests.Samples.{
  engine, start, digest, dead_item, first_ref, second_ref, first_task, second_task,
}

abbrev admin : Principal
admin = record { id = "tok-1"; scopes = "operator" ∷ [] }

abbrev member_ : Principal
member_ = record { id = "tok-2"; scopes = "tenant:default" ∷ [] }

abbrev safety : AdminSafety
safety = record {
  max_batch = 100;
  rate_limit_per_min = 30;
  confirm_threshold = 2;
  confirm_token = "yes";
  recent_requeue_unix = [];
}

abbrev pub server : Server
server = record {
  planner = record { llm = none };
  engine = record engine { queue = dead_item };
  auth = record { enabled = true; tokens = ("root", admin) ∷ ("user", member_) ∷ [] };
  safety = safety;
  limiter = some (new_submit_limiter 10 100);
  router = new_default_router;
  compat = true;
  timeout = second;
  artifact_root = "/tmp/splai-artifacts";
  seq = 7;
}

abbrev post : String → Request
post token = record {
  method = "POST";
  url_path = "";
  query = [];
  header = ("Authorization", token) ∷ ("X-Splai-Confirm", "yes") ∷ [];
  remote_addr = "10.0.0.1";
}

abbrev chat : SubmitJobRequest
chat = record {
  type = "chat";
  input = "hello";
  policy = "";
  priority = "";
  planner_mode = "";
  job_spread = true;
  install_model_if_missing = true;
  tenant = "";
  model = "";
  latency_class = "";
  reasoning_required = false;
  data_classification = "";
  network_isolation = "";
}

abbrev worker : WorkerRecord
worker = record {
  id = "w1";
  cpu = 4;
  memory = "8Gi";
  gpu = false;
  models = [];
  tools = [];
  backends = [];
  locality = "eu";
  health = "healthy";
  queue_depth = 0;
  running_tasks = 0;
  cpu_util = 0;
  memory_util = 0;
  last_heartbeat = start;
}

abbrev staffed : Server
staffed = record server {
  engine = record engine { store = record engine.store { workers = ("w1", worker) ∷ [] } };
}

abbrev download : PrefetchModelRequest
download = record {
  model = "llama3-8b-q4";
  source = "";
  workers = "w1 " ∷ [];
  only_missing = none;
  priority = "";
  tenant = "";
}

downloads :
    (handle_model_prefetch digest start (post "Bearer root") (some download) staffed).1.status ≡ 202
unfolding handle_model_prefetch splai.Api.Server.require_scopes splai.Auth.authorize
    splai.Base.is_empty splai.Auth.bearer_token splai.Base.has_prefix splai.Base.to_lower
    splai.Base.trim_space splai.Base.lookup splai.Base.drop_text list_all_workers
    splai.Store.list_workers splai.Base.equal_fold splai.Auth.Tokens.add_scopes
    splai.Auth.Tokens.trimmed_parts splai.Scheduler.Submit.add_job splai.Policy.is_noop
    splai.Policy.evaluate_submit
downloads = refl

worker-IsMeant : IsMeant download worker
unfolding splai.Base.equal_fold splai.Auth.Tokens.add_scopes splai.Auth.Tokens.trimmed_parts
    splai.Base.is_empty splai.Base.trim_space
worker-IsMeant = (refl, refl)

handle_model_prefetch-Reaches_example :
    (out : PrefetchModelResponse) × ((handle_model_prefetch digest start
        (post "Bearer root")
        (some download)
        staffed).1.payload
      ≡ Payload.prefetched out)
    × Reaches out.job_id worker
        (handle_model_prefetch digest start (post "Bearer root") (some download) staffed).0.engine
unfolding list_all_workers splai.Store.list_workers
handle_model_prefetch-Reaches_example =
    handle_model_prefetch-Reaches digest start (post "Bearer root") download staffed worker
      downloads (Memᴰ.head refl) worker-IsMeant

abbrev letters : RequeueDeadLettersRequest
letters = record {
  tasks =
      record { job_id = "job-1"; task_id = "t1" }
      ∷ record { job_id = "job-1"; task_id = "t2" }
      ∷ [];
  dry_run = false;
}

abbrev no_hash : List DeadLetterTask → String
no_hash tasks = "00"

requeued_letters :
    (handle_dead_letter_queue digest no_hash start
      (post "Bearer root")
      (some letters)
      server).0.engine.queue.items
    ≡ first_ref ∷ second_ref ∷ []
unfolding handle_dead_letter_queue splai.Api.Server.require_scopes splai.Auth.authorize
    splai.Base.is_empty splai.Auth.bearer_token splai.Base.has_prefix splai.Base.to_lower
    splai.Base.trim_space splai.Base.lookup splai.Base.drop_text splai.Limits.allow_requeue
    splai.Scheduler.Workers.append_event splai.Scheduler.Workers.requeue_dead_refs
    requeue_dead_letters splai.Base.insert splai.State.encode_task_ref
requeued_letters = refl

dry_run-announces_example :
    let announced =
      count_matching_refs
        (second_ref ∷ [])
        (list_dead_letters (length (second_ref ∷ []) * 4) dead_item) in
    let moved = (requeue_dead_letters (second_ref ∷ []) dead_item).1 in
    (announced ≤ moved) × (length dead_item.dead ≤ length (second_ref ∷ []) * 4 → announced ≡ moved)
dry_run-announces_example = dry_run-announces (second_ref ∷ []) dead_item

abbrev delete : Request
delete = record (post "Bearer user") { method = "DELETE"; url_path = "/v1/jobs/job-1" }

handle_job_by_id-IsGuarded_example :
    IsGuarded start delete server (job_id_of delete) (handle_job_by_id start delete server)
handle_job_by_id-IsGuarded_example = handle_job_by_id-IsGuarded start delete server

canceled_job : (handle_job_by_id start delete server).1.status ≡ 200
unfolding handle_job_by_id splai.Base.is_empty splai.Base.trim_prefix splai.Base.split
    splai.Scheduler.Workers.get_job_view splai.Store.get_job splai.Base.lookup
    splai.Api.Server.require_tenant_action splai.Auth.authorize splai.Auth.bearer_token
    splai.Base.to_lower splai.Base.trim_space splai.Auth.can_tenant_action splai.Auth.action_within
canceled_job = refl

abbrev pub statuses : List TaskStatus
statuses = task_status first_task ∷ task_status second_task ∷ []

walk_pages-covers_example :
    walk_pages 1 "job-1" "Queued" "" 1 0 statuses
    ≡ map task_item (keep (task_passes "Queued" "") statuses)
unfolding task_passes task_status splai.Api.Listing.tasks_page splai.Base.is_empty
walk_pages-covers_example = walk_pages-covers "job-1" "Queued" "" 1 statuses (omega arith)
