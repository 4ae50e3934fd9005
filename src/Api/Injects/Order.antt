-- ===== src/Api/Injects/Order.antt =====
-- What internal/api/server.go adds to a plan leaves the plan in order.
use splai.Base.{
  member, String, ◌≡◌, refl, Bool, true, false, ◌&&◌, ◌||◌, List, [], ◌∷◌, ◌++◌, arith, str_eq,
  eq_iff, trim_space, to_lower, if◌then◌else◌,
}
use splai.Planner.{Task, Dag}
use splai.Planner.Order.{all_done, is_ordered, is_plan}
use splai.Api.Injects.{
  has_task, install_task, wait_for_install, all_wait, install_id, inject_model_install_tasks,
  with_backend, all_with_backend, inject_model_backend, all_spread, inject_job_spread,
}

-- names and dependencies stay, one by one
data AreAlike : List Task → List Task → Type 0 where
  none : AreAlike [] []
  more :
      {t u : Task} {ts us : List Task}
      → t.task_id ≡ u.task_id
      → t.dependencies ≡ u.dependencies
      → AreAlike ts us
      → AreAlike (t ∷ ts) (u ∷ us)

AreAlike-is_ordered :
    (seen : List String) (ts us : List Task)
    → AreAlike ts us
    → is_ordered seen ts ≡ true
    → is_ordered seen us ≡ true
AreAlike-is_ordered seen [] [] AreAlike.none h = refl
AreAlike-is_ordered seen [] (u ∷ us) a h = elim a [ ]
AreAlike-is_ordered seen (t ∷ ts) [] a h = elim a [ ]
AreAlike-is_ordered seen (t ∷ ts) (u ∷ us) (AreAlike.more same deps rest) h =
    let ih = AreAlike-is_ordered (t.task_id ∷ seen) ts us rest (ground arith) in
    rw (← same) (rw (← deps) (ground (arith, ih)))

AreAlike-is_plan : {ts us : List Task} → AreAlike ts us → is_plan ts ≡ true → is_plan us ≡ true
AreAlike-is_plan AreAlike.none h = h
AreAlike-is_plan {ts = t ∷ ts} {us = u ∷ us} (AreAlike.more same deps rest) h =
    ground (arith, AreAlike-is_ordered [] (t ∷ ts) (u ∷ us) (AreAlike.more same deps rest))

all_with_backend-AreAlike : (b : String) (ts : List Task) → AreAlike ts (all_with_backend b ts)
unfolding all_with_backend with_backend
all_with_backend-AreAlike b [] = AreAlike.none
all_with_backend-AreAlike b (t ∷ ts) =
    AreAlike.more (ground arith) (ground arith) (all_with_backend-AreAlike b ts)

all_spread-AreAlike : (ts : List Task) → AreAlike ts (all_spread ts)
unfolding all_spread
all_spread-AreAlike [] = AreAlike.none
all_spread-AreAlike (t ∷ ts) = AreAlike.more refl refl (all_spread-AreAlike ts)

AreAlike-has_task :
    (id : String) {ts us : List Task} → AreAlike ts us → has_task id us ≡ has_task id ts
unfolding has_task
AreAlike-has_task id AreAlike.none = refl
AreAlike-has_task id (AreAlike.more same deps rest) = ground (arith, AreAlike-has_task id rest)

pub has_task-backend :
    (id : String) (dag : Dag) (backend : String)
    → has_task id (inject_model_backend dag backend).tasks ≡ has_task id dag.tasks
unfolding inject_model_backend
has_task-backend id dag backend =
    ground (arith, AreAlike-has_task id (all_with_backend-AreAlike (trim_space backend) dag.tasks))

pub inject_model_backend-is_plan :
    (dag : Dag) (backend : String)
    → is_plan dag.tasks ≡ true
    → is_plan (inject_model_backend dag backend).tasks ≡ true
unfolding inject_model_backend
inject_model_backend-is_plan dag backend h =
    ground (arith, AreAlike-is_plan (all_with_backend-AreAlike (trim_space backend) dag.tasks) h)

pub inject_job_spread-is_plan :
    (dag : Dag) (enabled : Bool)
    → is_plan dag.tasks ≡ true
    → is_plan (inject_job_spread dag enabled).tasks ≡ true
unfolding inject_job_spread
inject_job_spread-is_plan dag enabled h =
    ground (arith, AreAlike-is_plan (all_spread-AreAlike dag.tasks) h)

-- `wide` has what `seen` has, and `id`
abbrev Widens : String → List String → List String → Type 0
Widens id seen wide = (x : String) → member x wide ≡ (str_eq x id || member x seen)

module _ (id source : String) where
  Widens-cons :
      (t : String) (seen wide : List String) → Widens id seen wide → Widens id (t ∷ seen) (t ∷ wide)
  Widens-cons t seen wide w x = ground (arith, w x)

  all_done-Widens :
      (seen wide ds : List String)
      → Widens id seen wide
      → all_done (λ d. member d seen) ds ≡ true
      → all_done (λ d. member d wide) ds ≡ true
  all_done-Widens seen wide [] w h = refl
  all_done-Widens seen wide (d ∷ ds) w h = ground (arith, w d, all_done-Widens seen wide ds w)

  all_done-append :
      (done : String → Bool) (ds es : List String)
      → all_done done (ds ++ es) ≡ (all_done done ds && all_done done es)
  all_done-append done [] es = refl
  all_done-append done (d ∷ ds) es = ground (arith, all_done-append done ds es)

  all_wait-is_ordered :
      (seen wide : List String) (ts : List Task)
      → Widens id seen wide
      → has_task id ts ≡ false
      → is_ordered seen ts ≡ true
      → is_ordered wide (all_wait id source ts) ≡ true
  unfolding all_wait wait_for_install has_task
  all_wait-is_ordered seen wide [] w n h = refl
  all_wait-is_ordered seen wide (t ∷ ts) w n h =
      let ih =
        all_wait-is_ordered (t.task_id ∷ seen) (t.task_id ∷ wide) ts
          (Widens-cons t.task_id seen wide w) (ground arith) (ground arith) in
      ground (
        arith,
        ih,
        w t.task_id,
        w id,
        eq_iff id id,
        eq_iff t.task_id id,
        eq_iff id t.task_id,
        all_done-Widens seen wide t.dependencies w,
        all_done-append (λ d. member d wide) t.dependencies (id ∷ []),
      )

-- the name of the installation is new, unless the plan has both of its names
install_id-is_new :
    (ts : List Task)
    → (has_task "t0-model-install" ts && has_task "t0-model-install-1" ts) ≡ false
    → has_task (install_id ts) ts ≡ false
unfolding install_id
install_id-is_new ts h = ground arith

pub inject_model_install_tasks-is_plan :
    (dag : Dag) (model backend : String) (install_if_missing : Bool)
    → (has_task "t0-model-install" dag.tasks && has_task "t0-model-install-1" dag.tasks) ≡ false
    → is_plan dag.tasks ≡ true
    → is_plan (inject_model_install_tasks dag model backend install_if_missing).tasks ≡ true
unfolding inject_model_install_tasks all_wait install_task wait_for_install
inject_model_install_tasks-is_plan dag model backend install_if_missing n h =
    let id = install_id dag.tasks in
    let source : String =
      if str_eq (to_lower (trim_space backend)) "ollama" then "ollama" else "huggingface" in
    ground (
      arith,
      eq_iff id id,
      all_wait-is_ordered id source [] (id ∷ []) dag.tasks (λ x. refl)
          (install_id-is_new dag.tasks n),
    )
