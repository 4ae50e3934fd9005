-- ===== src/Api/Stream/Views.antt =====
-- What a client of `streamJobEvents` in internal/api/server.go knows of a job.
use splai.Base.{
  map, subst, String, ◌≡◌, refl, sym, ◌∙◌, false, Option, none, some, List, [], ◌∷◌, ◌++◌, arith,
  if◌then◌else◌, str_eq, eq_iff, Map, lookup, insert, lookup-insert, inl, inr, Bool-cases,
  Option-cases, member, map, subst,
}
use mathlib.Core.List.{Memᴰ}
use splai.State.{Time, JobRecord}
use splai.Scheduler.Workers.{TaskStatus}
use splai.Api.Stream.{
  Event, StreamState, job_state_hash, task_state_hash, first_states, has_changed, task_updates,
}

-- what a client has seen last of the job and of each task
pub record View : Type 0 where
  pub job : Option JobRecord
  pub tasks : Map TaskStatus

abbrev pub nothing_seen : View
nothing_seen = record { job = none; tasks = [] }

abbrev pub see_tasks : List TaskStatus → Map TaskStatus → Map TaskStatus
see_tasks [] m = m
see_tasks (t ∷ ts) m = see_tasks ts (insert t.task_id t m)

abbrev pub see : Event → View → View
see (Event.failure msg) v = v
see (Event.snapshot job ts) v = record { job = some job; tasks = see_tasks ts v.tasks }
see (Event.job_changed job) v = record v { job = some job }
see (Event.task_update t) v = record v { tasks = insert t.task_id t v.tasks }
see (Event.final name job) v = record v { job = some job }
see Event.keepalive v = v

abbrev pub see_all : List Event → View → View
see_all [] v = v
see_all (e ∷ es) v = see_all es (see e v)

pub see_all-append :
    (es fs : List Event) (v : View) → see_all (es ++ fs) v ≡ see_all fs (see_all es v)
see_all-append [] fs v = refl
see_all-append (e ∷ es) fs v = see_all-append es fs (see e v)

module _ (format : Time → String) where
  abbrev pub hash_of : Option TaskStatus → Option String
  hash_of none = none
  hash_of (some t) = some (task_state_hash format t)

  abbrev pub job_hash_of : Option JobRecord → Option String
  job_hash_of none = none
  job_hash_of (some job) = some (job_state_hash format job)

  -- the server remembers what the client has seen
  pub record IsSynced (st : StreamState) (v : View) : Type 0 where
    pub tasks : (id : String) → lookup id st.task_states ≡ hash_of (lookup id v.tasks)
    pub job : some st.last_job_state ≡ job_hash_of v.job

  -- the client knows the state of the job and of each task
  pub record Knows (v : View) (job : JobRecord) (ts : List TaskStatus) : Type 0 where
    pub of_job : job_hash_of v.job ≡ some (job_state_hash format job)
    pub of_tasks :
        (t : TaskStatus)
        → Memᴰ t ts
        → hash_of (lookup t.task_id v.tasks) ≡ some (task_state_hash format t)

  abbrev pub AreDistinct : List TaskStatus → Type 0
  AreDistinct [] = Unit
  AreDistinct (t ∷ ts) =
      (member t.task_id (map (λ (u : TaskStatus). u.task_id) ts) ≡ false) × AreDistinct ts

  -- what is remembered once a task has been looked at
  abbrev noted : TaskStatus → Map String → Map String
  noted t m = if has_changed format t m then insert t.task_id (task_state_hash format t) m else m

  noted_here :
      (t : TaskStatus) (m : Map String)
      → lookup t.task_id (noted t m) ≡ some (task_state_hash format t)
  unfolding has_changed
  noted_here t m = elim (Option-cases (lookup t.task_id m)) [
    | inl n ↦ ground (
      arith,
      n,
      lookup-insert t.task_id t.task_id (task_state_hash format t) m,
      eq_iff t.task_id t.task_id,
    )
    | inr (prev, p) ↦ ground (
      arith,
      p,
      eq_iff prev (task_state_hash format t),
      lookup-insert t.task_id t.task_id (task_state_hash format t) m,
      eq_iff t.task_id t.task_id,
    )
  ]

  noted_elsewhere :
      (t : TaskStatus) (m : Map String) (id : String)
      → str_eq id t.task_id ≡ false
      → lookup id (noted t m) ≡ lookup id m
  noted_elsewhere t m id h = ground (
    arith,
    lookup-insert t.task_id id (task_state_hash format t) m,
    eq_iff t.task_id id,
    eq_iff id t.task_id,
  )

  task_updates-elsewhere :
      (ts : List TaskStatus) (m : Map String) (id : String)
      → member id (map (λ (u : TaskStatus). u.task_id) ts) ≡ false
      → lookup id (task_updates format ts m).0 ≡ lookup id m
  unfolding task_updates
  task_updates-elsewhere [] m id h = refl
  task_updates-elsewhere (t ∷ ts) m id h =
      task_updates-elsewhere ts (noted t m) id (ground arith)
      ∙ noted_elsewhere t m id (ground arith)

  pub task_updates-notes :
      (ts : List TaskStatus) (m : Map String) (t : TaskStatus)
      → AreDistinct ts
      → Memᴰ t ts
      → lookup t.task_id (task_updates format ts m).0 ≡ some (task_state_hash format t)
  unfolding task_updates
  task_updates-notes [] m t d i = elim i [ ]
  task_updates-notes (u ∷ ts) m t d (Memᴰ.head e) =
      subst
        (λ (x : TaskStatus).
          lookup x.task_id (task_updates format (u ∷ ts) m).0 ≡ some (task_state_hash format x))
        (sym e) (task_updates-elsewhere ts (noted u m) u.task_id d.0 ∙ noted_here u m)
  task_updates-notes (u ∷ ts) m t d (Memᴰ.tail i) = task_updates-notes ts (noted u m) t d.1 i

  -- the updates bring the client to what is remembered, and leave the job alone
  pub task_updates-IsSynced :
      (ts : List TaskStatus) (st : StreamState) (v : View)
      → IsSynced st v
      → IsSynced
          (record st { task_states = (task_updates format ts st.task_states).0 })
          (see_all (task_updates format ts st.task_states).1 v)
  unfolding task_updates
  task_updates-IsSynced [] st v s = record { tasks = s.tasks; job = s.job }
  task_updates-IsSynced (t ∷ ts) st v s = elim (Bool-cases (has_changed format t st.task_states)) [
    | inl changed ↦
        let st' : StreamState = record st {
          task_states = insert t.task_id (task_state_hash format t) st.task_states;
        } in
        let v' = see (Event.task_update t) v in
        rw changed (
          task_updates-IsSynced ts st' v' (record {
            tasks = λ id. ground (
              arith,
              s.tasks id,
              lookup-insert t.task_id id (task_state_hash format t) st.task_states,
              lookup-insert t.task_id id t v.tasks,
            );
            job = s.job;
          }))
    | inr same ↦ rw same (task_updates-IsSynced ts st v s)
  ]

  -- the snapshot
  pub first_states-see_tasks :
      (ts : List TaskStatus) (m : Map String) (seen : Map TaskStatus)
      → ((id : String) → lookup id m ≡ hash_of (lookup id seen))
      → (id : String)
      → lookup id (first_states format ts m) ≡ hash_of (lookup id (see_tasks ts seen))
  unfolding first_states
  first_states-see_tasks [] m seen h id = h id
  first_states-see_tasks (t ∷ ts) m seen h id =
      first_states-see_tasks ts (insert t.task_id (task_state_hash format t) m)
        (insert t.task_id t seen)
        (λ k. ground (
          arith,
          h k,
          lookup-insert t.task_id k (task_state_hash format t) m,
          lookup-insert t.task_id k t seen,
        ))
        id

  first_states-elsewhere :
      (ts : List TaskStatus) (m : Map String) (id : String)
      → member id (map (λ (u : TaskStatus). u.task_id) ts) ≡ false
      → lookup id (first_states format ts m) ≡ lookup id m
  unfolding first_states
  first_states-elsewhere [] m id h = refl
  first_states-elsewhere (t ∷ ts) m id h =
      first_states-elsewhere ts (insert t.task_id (task_state_hash format t) m) id (ground arith)
      ∙ ground (
        arith,
        lookup-insert t.task_id id (task_state_hash format t) m,
        eq_iff t.task_id id,
        eq_iff id t.task_id,
      )

  pub first_states-notes :
      (ts : List TaskStatus) (m : Map String) (t : TaskStatus)
      → AreDistinct ts
      → Memᴰ t ts
      → lookup t.task_id (first_states format ts m) ≡ some (task_state_hash format t)
  unfolding first_states
  first_states-notes [] m t d i = elim i [ ]
  first_states-notes (u ∷ ts) m t d (Memᴰ.head e) =
      subst
        (λ (x : TaskStatus).
          lookup x.task_id (first_states format (u ∷ ts) m) ≡ some (task_state_hash format x))
        (sym e)
        (first_states-elsewhere ts (insert u.task_id (task_state_hash format u) m) u.task_id d.0
          ∙ ground (
            arith,
            lookup-insert u.task_id u.task_id (task_state_hash format u) m,
            eq_iff u.task_id u.task_id,
          ))
  first_states-notes (u ∷ ts) m t d (Memᴰ.tail i) =
      first_states-notes ts (insert u.task_id (task_state_hash format u) m) t d.1 i
