-- ===== src/Api/Compat/Waiting.antt =====
-- The OpenAI-compatible handlers of internal/api/server.go answer, and what an answer means.
use splai.Base.{
  ℕ, zero, suc, ◌+◌, ◌*◌, ◌≤◌, ◌<◌, String, ◌≡◌, refl, sym, subst, true, not, ◌&&◌, Option, none,
  some, [], arith, ltb, ◌==◌, str_eq, is_empty, if_intro, option_intro, Result, ok, err,
}
use splai.State.{Time, completed, status_eq, JobRecord}
use splai.Store.{AuditPayload}
use splai.Scheduler.Engine.{Engine}
use splai.Scheduler.Workers.{get_job_view}
use splai.Auth.{Request, authorize, can_tenant_action}
use splai.Api.Messages.{Completion, Payload, Response}
use splai.Api.Server.{Server, next_seq, job_name, tenant_from_request}
use splai.Api.Artifacts.{Artifact}
use splai.Api.Compat.{
  ChatRequest, Ran, job_outcome, wait_loop, await_job, run_openai_compat_job, answer_run,
  http_status_for_compat_err, handle_openai_chat_completions, build_chat_prompt,
}

-- the pause between two looks: 200 milliseconds
abbrev pub pause : ℕ
pause = 200_000_000

-- The clock at the rounds, which lie at least one pause apart.
abbrev pub IsTicking : (ℕ → Time × Server) → Type 0
IsTicking look = (n : ℕ) → (look n).0 + pause ≤ (look (n + 1)).0

-- the job was seen completed before the deadline
pub record IsSeen (look : ℕ → Time × Server) (deadline : Time) (job_id : String) : Type 0 where
  pub round : ℕ
  pub job : JobRecord
  pub found : get_job_view job_id (look round).1.engine ≡ some job
  pub over : status_eq job.status completed ≡ true
  pub in_time : (look round).0 < deadline

abbrev pub Explains : (ℕ → Time × Server) → Time → String → Ran → Type 0
Explains look deadline job_id (s, ok x) = IsSeen look deadline job_id
Explains look deadline job_id (s, err m) = Unit

abbrev Ends : (ℕ → Time × Server) → Time → String → Option Ran → Type 0
Ends look deadline job_id none = ⊥
Ends look deadline job_id (some ran) = Explains look deadline job_id ran

module _ (read : String → Option Artifact) (look : ℕ → Time × Server) (deadline : Time)
    (job_id model : String) (ticks : IsTicking look) where
  job_outcome-Explains :
      (n : ℕ) (o : Option JobRecord) (ran : Ran)
      → get_job_view job_id (look n).1.engine ≡ o
      → (look n).0 < deadline
      → job_outcome read job_id model (look n).1 o ≡ some ran
      → Explains look deadline job_id ran
  unfolding job_outcome
  job_outcome-Explains n none (s, ok x) found in_time h = absurd (cc)
  job_outcome-Explains n o (s, err m) found in_time h = tt
  job_outcome-Explains n (some job) (s, ok x) found in_time h = record {
    round = n;
    job = job;
    found = found;
    over = ground (arith, h);
    in_time = in_time;
  }

  wait_loop-Ends :
      (fuel n : ℕ)
      → deadline ≤ (look n).0 + fuel * pause
      → Ends look deadline job_id (wait_loop read (suc fuel) look n deadline job_id model)
  unfolding wait_loop
  wait_loop-Ends zero n enough =
      if_intro (Ends look deadline job_id) (not (ltb (look n).0 deadline)) (λ h. tt)
        λ early. absurd (ground (arith, early))
  wait_loop-Ends (suc fuel) n enough =
      if_intro (Ends look deadline job_id) (not (ltb (look n).0 deadline)) (λ h. tt)
        λ early.
          option_intro (Ends look deadline job_id)
            (job_outcome read job_id model (look n).1 (get_job_view job_id (look n).1.engine))
            (λ goes_on. wait_loop-Ends fuel (n + 1) (omega (arith, ticks n, enough)))
            λ ran told.
              job_outcome-Explains n (get_job_view job_id (look n).1.engine) ran refl
                (ground (arith, early)) told

module _ (read : String → Option Artifact) (digest : AuditPayload → String) (now : Time) (fuel : ℕ)
    (look : ℕ → Time × Server) (done : Time) (ticks : IsTicking look) (later : now ≤ (look 0).0)
    (r : Request) (s : Server) (enough : s.timeout ≤ fuel * pause) where
  abbrev deadline : Time
  deadline = now + s.timeout

  abbrev job_id : String
  job_id = job_name (next_seq s.seq)

  await_job-Ends :
      (model : String) (s' : Server) (x : Engine × Result (Unit {0}))
      → s'.timeout ≡ s.timeout
      → Ends look deadline job_id (await_job read digest now (suc fuel) look done job_id model s' x)
  unfolding await_job
  await_job-Ends model s' (e, err m) same = tt
  await_job-Ends model s' (e, ok u) same =
      subst
        (λ t. Ends look deadline job_id (wait_loop read (suc fuel) look 0 (now + t) job_id model))
        (sym same)
        (wait_loop-Ends read look deadline job_id model ticks fuel 0 (omega (arith, later, enough)))

  run_openai_compat_job-Ends :
      (model prompt : String)
      → Ends look deadline job_id
          (run_openai_compat_job read digest now (suc fuel) look done r model prompt s)
  unfolding run_openai_compat_job
  run_openai_compat_job-Ends model prompt =
      if_intro (Ends look deadline job_id) (not ((authorize s.auth r []).1 == 200)) (λ h. tt)
        λ known.
          if_intro (Ends look deadline job_id)
            (s.auth.enabled
              && not
                  (can_tenant_action (authorize s.auth r []).0 (tenant_from_request r "") "submit"))
            (λ h. tt) λ may. await_job-Ends _ (record s { seq = next_seq s.seq }) _ refl

  -- an answer that is 200 only for a job that was seen completed
  abbrev pub IsAnswered : Option (Server × Response) → Type 0
  IsAnswered none = ⊥
  IsAnswered (some (s', a)) = a.status ≡ 200 → IsSeen look deadline job_id

  answer_run-IsAnswered :
      (shape : Completion → Payload) (prefix : String) (o : Option Ran)
      → Ends look deadline job_id o
      → IsAnswered (answer_run read digest now (suc fuel) look done shape prefix o)
  unfolding answer_run http_status_for_compat_err
  answer_run-IsAnswered shape prefix none h = h
  answer_run-IsAnswered shape prefix (some (s', err m)) h = λ e. absurd (ground (arith, e))
  answer_run-IsAnswered shape prefix (some (s', ok (content, model))) h = λ e. h

  -- A chat request is always answered, given rounds for the whole timeout and a clock that moves on by
  -- 200 milliseconds between two looks; and it is answered with 200 only if its job was seen completed
  -- before the deadline.
  pub handle_openai_chat_completions-IsAnswered :
      (body : Option ChatRequest)
      → IsAnswered (handle_openai_chat_completions read digest now (suc fuel) look done r body s)
  unfolding handle_openai_chat_completions
  handle_openai_chat_completions-IsAnswered body =
      if_intro IsAnswered (not (str_eq r.method "POST")) (λ h e. absurd (omega (arith, e)))
        λ post.
          option_intro IsAnswered body (λ h e. absurd (omega (arith, e)))
            λ req given.
              if_intro IsAnswered req.stream (λ h e. absurd (omega (arith, e)))
                λ no_stream.
                  if_intro IsAnswered (is_empty (build_chat_prompt req.messages))
                    (λ h e. absurd (omega (arith, e)))
                    λ prompted.
                      answer_run-IsAnswered Payload.chat_completion "chatcmpl-" _
                        (run_openai_compat_job-Ends _ (build_chat_prompt req.messages))
