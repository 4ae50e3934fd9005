-- ===== src/Scheduler/Poll.antt =====
-- `PollAssignments` of internal/scheduler/engine.go: a worker asks for tasks.
pub mod Sorting
use splai.Base.{
  ℕ, ◌+◌, ◌*◌, String, ◌⧺◌, Bool, true, false, ◌&&◌, ◌||◌, not, Option, none, some, List, [], ◌∷◌,
  ltb, leb, ◌==◌, if◌then◌else◌, Result, ok, err,
}
use splai.State.{Time, is_zero, unix_epoch, TaskRef, TaskRecord, QueueClaim}
use splai.Queue.{MemoryQueue, requeue_expired, claim, ack, nack}
use splai.Store.{MemoryStore, AuditPayload, get_task, get_worker}
use splai.Scheduler.Engine.{Engine, input, priority_rank}
use splai.Scheduler.Progress.{requeue_expired_leases}
use splai.Scheduler.Placement.{Scores, tie_hash}
use splai.Scheduler.Assign.{Assignment, try_assign}

abbrev task_ref_key : TaskRef → String
task_ref_key ref = ref.job_id ⧺ ("/" ⧺ ref.task_id)

claim_priority : TaskRef → MemoryStore → ℕ
claim_priority ref s = elim (get_task ref.job_id ref.task_id s) [
  | none ↦ 0
  | some t ↦ priority_rank (input "_priority" t)
]

claim_created_at : TaskRef → MemoryStore → Time
claim_created_at ref s = elim (get_task ref.job_id ref.task_id s) [
  | none ↦ unix_epoch
  | some t ↦ if is_zero t.created_at then unix_epoch else t.created_at
]

-- the claim `c` comes before `d`: by priority, then by age, then by hash
unfoldable pub goes_first : MemoryStore → QueueClaim → QueueClaim → Bool
unfolding claim_priority claim_created_at
goes_first s c d =
    let p = claim_priority c.ref s in
    let q = claim_priority d.ref s in
    let t = claim_created_at c.ref s in
    let u = claim_created_at d.ref s in
    if not (p == q)
    then ltb q p
    else if t == u
    then ltb (tie_hash (task_ref_key d.ref) d.claimed_by)
        (tie_hash (task_ref_key c.ref) c.claimed_by)
    else ltb t u

unfoldable pub insert_claim : MemoryStore → QueueClaim → List QueueClaim → List QueueClaim
insert_claim s c [] = c ∷ []
insert_claim s c (d ∷ ds) =
    let rest = insert_claim s c ds in if goes_first s d c then d ∷ rest else c ∷ d ∷ ds

-- sort.SliceStable
unfoldable pub sort_claims : MemoryStore → List QueueClaim → List QueueClaim
unfolding insert_claim
sort_claims s [] = []
sort_claims s (c ∷ cs) = insert_claim s c (sort_claims s cs)

-- what the loop over the claims has collected
pub record Polled : Type 0 where
  pub ready_assignments : List Assignment
  pub ack_claims : List QueueClaim
  pub nack_claims : List QueueClaim
  pub nack_error_claims : List QueueClaim

abbrev pub nothing : Polled
nothing = record {
  ready_assignments = [];
  ack_claims = [];
  nack_claims = [];
  nack_error_claims = [];
}

-- a claim joins those with the same answer
unfoldable pub put : QueueClaim → Result (Option Assignment) → Polled → Polled
put c (err m) r = record r { nack_error_claims = c ∷ r.nack_error_claims }
put c (ok none) r = record r { nack_claims = c ∷ r.nack_claims }
put c (ok (some a)) r = record r {
  ready_assignments = a ∷ r.ready_assignments;
  ack_claims = c ∷ r.ack_claims;
}

abbrev pub given : Result (Option Assignment) → ℕ
given (ok (some a)) = 1
given _ = 0

-- The loop over the claims, of which `n` have been given. Once `max` are, each further claim is
-- answered as one whose task is not ready.
unfoldable pub poll_loop :
    (AuditPayload → String)
    → Scores
    → Time
    → String
    → ℕ
    → List QueueClaim
    → ℕ
    → Engine
    → Engine × Polled
unfolding put
poll_loop digest scores now worker_id max [] n e = (e, nothing)
poll_loop digest scores now worker_id max (c ∷ cs) n e =
    let (e', answer) =
      if leb max n then (e, ok none) else try_assign digest scores now worker_id c.ref e in
    let (e'', r) = poll_loop digest scores now worker_id max cs (n + given answer) e' in
    (e'', put c answer r)

-- the claims go back to the queue, or leave it
abbrev settle : Polled → MemoryQueue → MemoryQueue
settle r q = nack r.nack_error_claims "error" (nack r.nack_claims "not_ready" (ack r.ack_claims q))

-- the sweeps that come first
abbrev refreshed : Time → ℕ → Engine → Engine
refreshed now max e =
    requeue_expired_leases now (record e { queue = (requeue_expired now (max * 8) e.queue).0 })

poll_claims :
    (AuditPayload → String)
    → Scores
    → Time
    → String
    → ℕ
    → List QueueClaim
    → Engine
    → Engine × Result (List Assignment)
unfolding poll_loop sort_claims
poll_claims digest scores now worker_id max [] e = (e, ok [])
poll_claims digest scores now worker_id max (c ∷ cs) e =
    let (e', r) = poll_loop digest scores now worker_id max (sort_claims e.store (c ∷ cs)) 0 e in
    (record e' { queue = settle r e'.queue }, ok r.ready_assignments)

unfoldable pub poll_assignments :
    (AuditPayload → String)
    → Scores
    → Time
    → String
    → ℕ
    → Engine
    → Engine × Result (List Assignment)
unfolding poll_claims
poll_assignments digest scores now worker_id max e = elim (get_worker worker_id e.store) [
  | none ↦ (e, err "worker not registered")
  | some w ↦
      let max = if max == 0 then 1 else max in
      let e₁ = refreshed now max e in
      let (q, claims) = claim (max * 32) worker_id e.lease_duration now e₁.queue in
      poll_claims digest scores now worker_id max claims (record e₁ { queue = q })
]
