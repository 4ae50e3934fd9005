-- ===== src/Planner/Order.antt =====
-- The plans of internal/planner/planner.go can be carried out: their tasks stand in an order in
-- which each task comes after those that it depends on.
use splai.Base.{
  member, String, ◌≡◌, refl, sym, ◌∙◌, ap, Bool, true, false, ◌&&◌, ◌||◌, not, none, some, List, [],
  ◌∷◌, arith, str_eq, eq_iff, inl, inr, ◌⊎◌, Bool-cases, Option-cases, length, ltb, map, trim_space,
  to_lower,
}
use splai.Planner.{
  Task, Compiler, compile_template, decompose, provided, compile_llm, with_tail, last_id,
  compile_hybrid, compile_with_mode,
}
use mathlib.Core.List.{Memᴰ}

abbrev pub all_done : (String → Bool) → List String → Bool
all_done done [] = true
all_done done (d ∷ ds) = done d && all_done done ds

-- no task repeats an identifier, and each depends on earlier tasks only
abbrev pub is_ordered : List String → List Task → Bool
is_ordered seen [] = true
is_ordered seen (t ∷ ts) =
    not (member t.task_id seen)
    && all_done (λ d. member d seen) t.dependencies
    && is_ordered (t.task_id ∷ seen) ts

module _ (done : String → Bool) where
  member-all_done :
      (s : String) (seen : List String)
      → all_done done seen ≡ true
      → member s seen ≡ true
      → done s ≡ true
  member-all_done s [] a h = ground arith
  member-all_done s (t ∷ ts) a h = ground (arith, eq_iff s t, member-all_done s ts, ap done)

  all_done_trans :
      (ds seen : List String)
      → all_done done seen ≡ true
      → all_done (λ d. member d seen) ds ≡ true
      → all_done done ds ≡ true
  all_done_trans [] seen a h = refl
  all_done_trans (d ∷ ds) seen a h =
      ground (arith, member-all_done d seen a, all_done_trans ds seen a)

  -- a task that can be carried out next
  pub record IsNext (ts : List Task) (t : Task) : Type 0 where
    pub listed : Memᴰ t ts
    pub undone : done t.task_id ≡ false
    pub ready : all_done done t.dependencies ≡ true

  IsNext-of :
      (t : Task) (ts : List Task) → (u : Task) × IsNext ts u → (u : Task) × IsNext (t ∷ ts) u
  IsNext-of t ts (u, n) =
      (u, record { listed = Memᴰ.tail n.listed; undone = n.undone; ready = n.ready })

  -- where the earlier tasks are done, the first open one is ready
  ordered-IsNext :
      (seen : List String) (ts : List Task)
      → is_ordered seen ts ≡ true
      → all_done done seen ≡ true
      → all_done (λ t. done t) (map (λ t. t.task_id) ts) ≡ false
      → (u : Task) × IsNext ts u
  ordered-IsNext seen [] o a h = ground arith
  ordered-IsNext seen (t ∷ ts) o a h = elim (Bool-cases (done t.task_id)) [
    | inl d ↦
        IsNext-of t ts
          (ordered-IsNext (t.task_id ∷ seen) ts (ground arith) (ground arith) (ground arith))
    | inr d ↦ (
      t,
      record {
        listed = Memᴰ.head refl;
        undone = d;
        ready = all_done_trans t.dependencies seen a (ground arith);
      },
    )
  ]

-- a plan has tasks, and they are in order
abbrev pub is_plan : List Task → Bool
is_plan ts = ltb 0 (length ts) && is_ordered [] ts

-- whether the mode asks for the provider
abbrev pub is_llm : String → Bool
is_llm mode =
    let m = to_lower (trim_space mode) in
    not (str_eq m "" || str_eq m "hybrid" || str_eq m "template")
    && (str_eq m "llm" || str_eq m "llm_planner")

static-is_plan :
    (c : Compiler) (job_id req_type input mode : String)
    → is_llm mode ≡ false
    → is_plan (compile_with_mode c job_id req_type input mode).tasks ≡ true
unfolding compile_with_mode compile_hybrid compile_template with_tail last_id
static-is_plan c job_id req_type input mode h = ground arith

pub llm-mode :
    (c : Compiler) (job_id req_type input mode : String)
    → is_llm mode ≡ true
    → compile_with_mode c job_id req_type input mode ≡ compile_llm c job_id req_type input
unfolding compile_with_mode
llm-mode c job_id req_type input mode h = ground arith

decompose-is_plan :
    (job_id req_type input : String) → is_plan (decompose job_id req_type input).tasks ≡ true
unfolding decompose
decompose-is_plan job_id req_type input = ground arith

llm-is_plan :
    (c : Compiler) (job_id req_type input : String)
    → let dag = compile_llm c job_id req_type input in
      (is_plan dag.tasks ≡ true) ⊎ (provided c job_id req_type input ≡ some dag)
unfolding compile_llm
llm-is_plan c job_id req_type input = elim (Option-cases (provided c job_id req_type input)) [
  | inl p ↦ inl (ground (arith, decompose-is_plan job_id req_type input))
  | inr (dag, p) ↦ inr (ground arith)
]

-- In every mode the plan has tasks and is in order, so that no task repeats an identifier and each depends on
-- earlier tasks only, or it is one that the provider gave.
pub compile_with_mode-is_plan :
    (c : Compiler) (job_id req_type input mode : String)
    → let dag = compile_with_mode c job_id req_type input mode in
      (is_plan dag.tasks ≡ true) ⊎ (provided c job_id req_type input ≡ some dag)
compile_with_mode-is_plan c job_id req_type input mode = elim (Bool-cases (is_llm mode)) [
  | inl h ↦ rw (llm-mode c job_id req_type input mode h) (llm-is_plan c job_id req_type input)
  | inr h ↦ inl (static-is_plan c job_id req_type input mode h)
]

-- A plan that no provider gave never blocks: whichever of its tasks are done, as long as one is not,
-- there is an undone task all of whose dependencies are done.
pub compile_with_mode-progresses :
    (c : Compiler) (job_id req_type input mode : String) (done : String → Bool)
    → let dag = compile_with_mode c job_id req_type input mode in
      provided c job_id req_type input ≡ none
      → all_done done (map (λ t. t.task_id) dag.tasks) ≡ false
      → (t : Task) × IsNext done dag.tasks t
compile_with_mode-progresses c job_id req_type input mode done p h =
    ordered-IsNext done [] (compile_with_mode c job_id req_type input mode).tasks
      (ground (arith, ordered)) refl h
  where
    ordered : is_plan (compile_with_mode c job_id req_type input mode).tasks ≡ true
    ordered = elim (compile_with_mode-is_plan c job_id req_type input mode) [
      | inl o ↦ o
      | inr q ↦ ground (arith, sym p ∙ q)
    ]
