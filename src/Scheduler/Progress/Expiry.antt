-- ===== src/Scheduler/Progress/Expiry.antt =====
-- The sweep over expired leases, `requeueExpiredLeases` of internal/scheduler/engine.go.
use mathlib.Core.List.{Memᴰ}
use splai.Base.{
  ◌<◌, String, ◌≡◌, ◌⊎◌, inl, inr, refl, sym, ◌∙◌, subst, Bool, true, false, some, List, [], ◌∷◌,
  arith, if◌then◌else◌, Bool-cases, Option-cases, keep, All,
}
use splai.State.{Time, failed, TaskRecord}
use splai.Queue.{enqueue_many}
use splai.Store.{
  MemoryStore, get_job, get_task, update_task, list_expired_leased_tasks, all_tasks,
  is_expired_lease,
}
use splai.Store.Tables.{IsKeyed, get_task-update_job}
use splai.Scheduler.Engine.{Engine, ref_of}
use splai.Scheduler.Progress.{
  expire_task, expire_tasks, expired_refs, affected_jobs, reconcile_job_status, reconcile_all,
  requeue_expired_leases, gives_up, timed_out, is_closed,
}
use splai.Scheduler.Sweep.{sweep, sweep-cures, mem-stored, mem-keep, mem-append_right}

-- an expired task is rewritten to one that holds no lease
expire_task-named :
    (now : Time) (t : TaskRecord)
    → ((expire_task now t).job_id ≡ t.job_id) × ((expire_task now t).task_id ≡ t.task_id)
unfolding expire_task
expire_task-named now t = ground arith

expire_task-cured :
    (now : Time) (t : TaskRecord)
    → is_expired_lease now (record (expire_task now t) { updated_at = now }) ≡ false
unfolding expire_task is_expired_lease
expire_task-cured now t = ground arith

expire_tasks-sweep :
    (now : Time) (ts : List TaskRecord) (s : MemoryStore)
    → All (λ t. is_expired_lease now t ≡ true) ts
    → expire_tasks now ts s ≡ sweep (is_expired_lease now) (expire_task now) now ts s
unfolding expire_tasks sweep
expire_tasks-sweep now [] s a = refl
expire_tasks-sweep now (t ∷ ts) s a =
    rw a.0 (expire_tasks-sweep now ts (update_task now (expire_task now t) s) a.1)

All-keep : (p : TaskRecord → Bool) (ts : List TaskRecord) → All (λ t. p t ≡ true) (keep p ts)
All-keep p [] = tt
All-keep p (t ∷ ts) = elim (Bool-cases (p t)) [
  | inl b ↦ rw b (b, All-keep p ts)
  | inr b ↦ rw b (All-keep p ts)
]

get_task-reconcile :
    (now : Time) (id : String) (s : MemoryStore) (j k : String)
    → get_task j k (reconcile_job_status now id s) ≡ get_task j k s
unfolding reconcile_job_status
get_task-reconcile now id s j k = elim (Option-cases (get_job id s)) [
  | inl p ↦ rw (p, reconcile_job_status)
  | inr (job, p) ↦ elim (Bool-cases (is_closed job.status)) [
    | inl b ↦ rw (p, reconcile_job_status) (rw b refl)
    | inr b ↦ rw (p, reconcile_job_status) (rw b (get_task-update_job now s _ j k))
  ]
]

get_task-reconcile_all :
    (now : Time) (ids : List String) (s : MemoryStore) (j k : String)
    → get_task j k (reconcile_all now ids s) ≡ get_task j k s
unfolding reconcile_all
get_task-reconcile_all now [] s j k = refl
get_task-reconcile_all now (id ∷ ids) s j k =
    get_task-reconcile_all now ids (reconcile_job_status now id s) j k
    ∙ get_task-reconcile now id s j k

-- After the sweep at `now` no stored task is running or assigned under a lease that expired before
-- `now`.
pub requeue_expired_leases-cures :
    (now : Time) (e : Engine) (j k : String) (t : TaskRecord)
    → IsKeyed e.store
    → get_task j k (requeue_expired_leases now e).store ≡ some t
    → is_expired_lease now t ≡ false
unfolding requeue_expired_leases list_expired_leased_tasks
requeue_expired_leases-cures now e j k t key h =
    let p = is_expired_lease now in
    let ts = keep p (all_tasks e.store.tasks) in
    let read =
      sym (get_task-reconcile_all now (affected_jobs ts []) (expire_tasks now ts e.store) j k)
      ∙ h in
    sweep-cures (λ _. Unit {0}) p (expire_task now) now (expire_task-named now)
      (expire_task-cured now) ts e.store key
      (λ i l u here g b. mem-keep p (mem-stored i l e.store u g) b) j k t tt
      (rw (expire_tasks-sweep now ts e.store (All-keep p (all_tasks e.store.tasks))) at read)

mem-expired_refs :
    (now : Time) {t : TaskRecord} {ts : List TaskRecord}
    → gives_up now t ≡ false
    → Memᴰ t ts
    → Memᴰ (ref_of t) (expired_refs now ts)
unfolding expired_refs
mem-expired_refs now {t} h (Memᴰ.head {xs = xs} e) =
    subst
      (λ u.
        Memᴰ (ref_of t)
          (if gives_up now u then expired_refs now xs else ref_of u ∷ expired_refs now xs))
      e (rw h (Memᴰ.head refl))
mem-expired_refs now h (Memᴰ.tail {x = x} m) = elim (Bool-cases (gives_up now x)) [
  | inl b ↦ rw b (mem-expired_refs now h m)
  | inr b ↦ rw b (Memᴰ.tail (mem-expired_refs now h m))
]

-- No expired task is lost: a stored task whose lease has expired at `now` either has timed out with
-- more attempts than retries, and so fails, or its reference is in the queue after the sweep.
pub requeue_expired_leases-requeues :
    (now : Time) (e : Engine) (j k : String) (t : TaskRecord)
    → get_task j k e.store ≡ some t
    → is_expired_lease now t ≡ true
    → (timed_out now t ≡ true) × (t.max_retries < t.attempt) × ((expire_task now t).status ≡ failed)
      ⊎ Memᴰ (ref_of t) (requeue_expired_leases now e).queue.items
unfolding requeue_expired_leases list_expired_leased_tasks enqueue_many
requeue_expired_leases-requeues now e j k t h x = elim (Bool-cases (gives_up now t)) [
  | inl b ↦ inl (fails b)
  | inr b ↦ inr (
      mem-append_right e.queue.items
        (mem-expired_refs now b (mem-keep (is_expired_lease now) (mem-stored j k e.store t h) x)))
]
  where
    fails :
        gives_up now t ≡ true
        → (timed_out now t ≡ true)
          × (t.max_retries < t.attempt)
          × ((expire_task now t).status ≡ failed)
    fails b = unfold expire_task in ground arith
