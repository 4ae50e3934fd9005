-- ===== src/Scheduler/Placement/Eligible.antt =====
-- The worker that `bestWorkerForTask` of internal/scheduler/engine.go chooses.
use splai.Base.{
  String, ◌≡◌, refl, sym, subst, str_eq, eq_iff, eq_refl, ◌∙◌, Bool, true, List, [], ◌∷◌, arith,
  inl, inr, ◌⊎◌, Bool-cases,
}
use mathlib.Core.List.{Memᴰ}
use splai.State.{Float, JobRecord, TaskRecord, WorkerRecord}
use splai.Store.{MemoryStore, list_workers}
use splai.Scheduler.Placement.{
  Scores, Fleet, is_eligible, Best, better, best_loop, fleet_for, best_worker_for_task,
}

-- a worker of this name is among `ws` and passes the filters
pub record IsChoice (t : TaskRecord) (fleet : Fleet) (ws : List WorkerRecord) (id : String)
    : Type 0 where
  pub worker : WorkerRecord
  pub listed : Memᴰ worker ws
  pub named : worker.id ≡ id
  pub eligible : is_eligible t fleet worker ≡ true

IsChoice-tail :
    (t : TaskRecord) (fleet : Fleet) (w : WorkerRecord) (ws : List WorkerRecord) (id : String)
    → IsChoice t fleet ws id
    → IsChoice t fleet (w ∷ ws) id
IsChoice-tail t fleet w ws id c = record {
  worker = c.worker;
  listed = Memᴰ.tail c.listed;
  named = c.named;
  eligible = c.eligible;
}

better-IsChoice :
    (scores : Scores) (t : TaskRecord) (fleet : Fleet) (w : WorkerRecord) (ws : List WorkerRecord)
    (score : Float) (best : Best)
    → is_eligible t fleet w ≡ true
    → ((better scores t w score best).id ≡ best.id)
      ⊎ IsChoice t fleet (w ∷ ws) (better scores t w score best).id
unfolding better
better-IsChoice scores t fleet w ws score best h = elim (Bool-cases (is_better)) [
  | inl b ↦ inr (record {
    worker = w;
    listed = Memᴰ.head refl;
    named = sym ((eq_iff (better scores t w score best).id w.id).0 b);
    eligible = h;
  })
  | inr b ↦ inl (ground (arith, eq_refl w.id))
]
  where
    is_better : Bool
    is_better = str_eq (better scores t w score best).id w.id

-- the loop keeps the best worker so far or takes one of its list
best_loop-IsChoice :
    (scores : Scores) (score : WorkerRecord → Float) (t : TaskRecord) (fleet : Fleet)
    (ws : List WorkerRecord) (best : Best)
    → ((best_loop scores score t fleet ws best).id ≡ best.id)
      ⊎ IsChoice t fleet ws (best_loop scores score t fleet ws best).id
unfolding best_loop
best_loop-IsChoice scores score t fleet [] best = inl refl
best_loop-IsChoice scores score t fleet (w ∷ ws) best = elim (Bool-cases (is_eligible t fleet w)) [
  | inr h ↦ rw (h, best_loop) (skipped best (best_loop-IsChoice scores score t fleet ws best))
  | inl h ↦
      let next = better scores t w (score w) best in
      rw (h, best_loop)
        (taken next (better-IsChoice scores t fleet w ws (score w) best h)
          (best_loop-IsChoice scores score t fleet ws next))
]
  where
    skipped :
        (b : Best)
        → ((best_loop scores score t fleet ws b).id ≡ b.id)
          ⊎ IsChoice t fleet ws (best_loop scores score t fleet ws b).id
        → ((best_loop scores score t fleet ws b).id ≡ b.id)
          ⊎ IsChoice t fleet (w ∷ ws) (best_loop scores score t fleet ws b).id
    skipped b (inl e) = inl e
    skipped b (inr c) = inr (IsChoice-tail t fleet w ws _ c)

    taken :
        (next : Best)
        → (next.id ≡ best.id) ⊎ IsChoice t fleet (w ∷ ws) next.id
        → ((best_loop scores score t fleet ws next).id ≡ next.id)
          ⊎ IsChoice t fleet ws (best_loop scores score t fleet ws next).id
        → ((best_loop scores score t fleet ws next).id ≡ best.id)
          ⊎ IsChoice t fleet (w ∷ ws) (best_loop scores score t fleet ws next).id
    taken next n (inr c) = inr (IsChoice-tail t fleet w ws _ c)
    taken next (inl n) (inl e) = inl (e ∙ n)
    taken next (inr c) (inl e) = inr (subst (IsChoice t fleet (w ∷ ws)) (sym e) c)

-- Whatever the scores are, the engine chooses no worker, or a registered one that passes all filters
-- for the task: the worker that the task targets, a healthy one, one with a GPU, with the backend
-- and with the model, as far as the task asks for these and, with the last two, as far as any worker
-- reports them.
pub best_worker_for_task-IsChoice :
    (scores : Scores) (job : JobRecord) (t : TaskRecord) (s : MemoryStore)
    → let ws = list_workers s in
      let id = best_worker_for_task scores job t s in (id ≡ "") ⊎ IsChoice t (fleet_for t ws) ws id
unfolding best_worker_for_task
best_worker_for_task-IsChoice scores job t s = best_loop-IsChoice scores _ t _ (list_workers s) _
