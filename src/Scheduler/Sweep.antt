-- ===== src/Scheduler/Sweep.antt =====
-- The pattern of two loops of internal/scheduler/engine.go: some of the tasks that were listed
-- beforehand are rewritten, one by one.
use mathlib.Core.List.{Memᴰ}
use splai.Base.{
  String, ◌≡◌, ◌⊎◌, inl, inr, refl, sym, ◌∙◌, ap, subst, Bool, true, false, ◌&&◌, Option, none,
  some, List, [], ◌∷◌, ◌++◌, arith, if◌then◌else◌, str_eq, eq_iff, Bool-cases, Map, lookup, values,
  keep,
}
use splai.State.{Time, TaskRecord}
use splai.Store.{MemoryStore, get_task, update_task, list_tasks_by_job, all_tasks}
use splai.Store.Tables.{IsKeyed, get_task-update_task, get_task-named, update_task-IsKeyed}

-- `f` rewrites the tasks that pass the test `p`
unfoldable pub sweep :
    (TaskRecord → Bool)
    → (TaskRecord → TaskRecord)
    → Time
    → List TaskRecord
    → MemoryStore
    → MemoryStore
sweep p f now [] s = s
sweep p f now (t ∷ ts) s = sweep p f now ts (if p t then update_task now (f t) s else s)

pub sweep-IsKeyed :
    (p : TaskRecord → Bool) (f : TaskRecord → TaskRecord) (now : Time) (ts : List TaskRecord)
    (s : MemoryStore)
    → IsKeyed s
    → IsKeyed (sweep p f now ts s)
unfolding sweep
sweep-IsKeyed p f now [] s k = k
sweep-IsKeyed p f now (t ∷ ts) s k = elim (Bool-cases (p t)) [
  | inl b ↦
      rw b (sweep-IsKeyed p f now ts (update_task now (f t) s) (update_task-IsKeyed now (f t) s k))
  | inr b ↦ rw b (sweep-IsKeyed p f now ts s k)
]

-- the stored tasks of the jobs in `Scope` that pass the test are among `ts`
abbrev pub Covered :
    (String → Type 0) → (TaskRecord → Bool) → List TaskRecord → MemoryStore → Type 0
Covered Scope p ts s =
    (j k : String) (t : TaskRecord) → Scope j → get_task j k s ≡ some t → p t ≡ true → Memᴰ t ts

module _ (Scope : String → Type 0) (p : TaskRecord → Bool) (f : TaskRecord → TaskRecord)
    (now : Time)
    (named : (t : TaskRecord) → ((f t).job_id ≡ t.job_id) × ((f t).task_id ≡ t.task_id))
    (cured : (t : TaskRecord) → p (record (f t) { updated_at = now }) ≡ false) where
  Covered-skip :
      (t : TaskRecord) (ts : List TaskRecord) (s : MemoryStore)
      → p t ≡ false
      → Covered Scope p (t ∷ ts) s
      → Covered Scope p ts s
  Covered-skip t ts s b c j k u i e h = other_ (c j k u i e h)
    where
      other_ : Memᴰ u (t ∷ ts) → Memᴰ u ts
      other_ (Memᴰ.head q) = absurd (clash q)
        where
          clash : u ≡ t → ⊥
          clash q = cc (ap p q)
      other_ (Memᴰ.tail m) = m

  -- what is read after one rewrite: the rewritten task, or what was there before
  read_back :
      (t : TaskRecord) (s : MemoryStore) (j k : String) (u : TaskRecord)
      → get_task j k (update_task now (f t) s) ≡ some u
      → (u ≡ record (f t) { updated_at = now })
        ⊎ (get_task j k s ≡ some u) × ((t.job_id ≡ j) × (t.task_id ≡ k) → ⊥)
  read_back t s j k u e =
      let (n, m) = named t in
      elim (Bool-cases (str_eq (f t).job_id j && str_eq (f t).task_id k)) [
        | inl b ↦ inl (ground (arith, get_task-update_task now s (f t) j k))
        | inr b ↦ inr (
          ground (arith, get_task-update_task now s (f t) j k),
          (λ (x, y). ground (arith, eq_iff (f t).job_id j, eq_iff (f t).task_id k)),
        )
      ]

  Covered-step :
      (t : TaskRecord) (ts : List TaskRecord) (s : MemoryStore)
      → IsKeyed s
      → Covered Scope p (t ∷ ts) s
      → Covered Scope p ts (update_task now (f t) s)
  Covered-step t ts s key c j k u i e h = elim (read_back t s j k u e) [
    | inl q ↦ absurd (healed q)
    | inr (old, apart) ↦ rest old apart (c j k u i old h)
  ]
    where
      healed : u ≡ record (f t) { updated_at = now } → ⊥
      healed q = cc (ap p q, cured t)

      rest :
          get_task j k s ≡ some u
          → ((t.job_id ≡ j) × (t.task_id ≡ k) → ⊥)
          → Memᴰ u (t ∷ ts)
          → Memᴰ u ts
      rest old apart (Memᴰ.head q) =
          let (x, y) = get_task-named j k s u key old in
          absurd (
            apart (
              ap (λ (r : TaskRecord). r.job_id) (sym q) ∙ x,
              ap (λ (r : TaskRecord). r.task_id) (sym q) ∙ y,
            ))
      rest old apart (Memᴰ.tail m) = m

  -- After the loop no stored task of these jobs passes the test.
  pub sweep-cures :
      (ts : List TaskRecord) (s : MemoryStore)
      → IsKeyed s
      → Covered Scope p ts s
      → (j k : String) (t : TaskRecord) → Scope j
      → get_task j k (sweep p f now ts s) ≡ some t
      → p t ≡ false
  unfolding sweep
  sweep-cures [] s key c j k t i e = elim (Bool-cases (p t)) [
    | inl b ↦ elim (c j k t i e b) [ ]
    | inr b ↦ b
  ]
  sweep-cures (u ∷ ts) s key c j k t i e = elim (Bool-cases (p u)) [
    | inl b ↦
        sweep-cures ts (update_task now (f u) s) (update_task-IsKeyed now (f u) s key)
          (Covered-step u ts s key c) j k t i (rw b at e)
    | inr b ↦ sweep-cures ts s key (Covered-skip u ts s b c) j k t i (rw b at e)
  ]

-- a task that is read is listed among those of its job, and among all tasks
mem-values : {V : Type 0} (k : String) (v : V) (m : Map V) → lookup k m ≡ some v → Memᴰ v (values m)
unfolding lookup
mem-values k v [] e = cc
mem-values k v ((j, w) ∷ m) e = elim (Bool-cases (str_eq j k)) [
  | inl b ↦ Memᴰ.head (ground arith)
  | inr b ↦ Memᴰ.tail (mem-values k v m (ground arith))
]

get_task-lookup :
    (j k : String) (s : MemoryStore) (t : TaskRecord)
    → get_task j k s ≡ some t
    → (m : Map TaskRecord) × (lookup j s.tasks ≡ some m) × (lookup k m ≡ some t)
unfolding get_task
get_task-lookup j k s t e = ground arith

pub mem-list_tasks_by_job :
    (j k : String) (s : MemoryStore) (t : TaskRecord)
    → get_task j k s ≡ some t
    → Memᴰ t (list_tasks_by_job j s)
unfolding list_tasks_by_job
mem-list_tasks_by_job j k s t e =
    let (m, p, q) = get_task-lookup j k s t e in
    subst (λ (o : Option (Map TaskRecord)). Memᴰ t (values (elim o [ none ↦ [] | some v ↦ v ])))
      (sym p) (mem-values k t m q)

mem-append_left : {A : Type 0} {a : A} {xs : List A} (ys : List A) → Memᴰ a xs → Memᴰ a (xs ++ ys)
mem-append_left ys (Memᴰ.head e) = Memᴰ.head e
mem-append_left ys (Memᴰ.tail m) = Memᴰ.tail (mem-append_left ys m)

pub mem-append_right :
    {A : Type 0} {a : A} (xs : List A) {ys : List A} → Memᴰ a ys → Memᴰ a (xs ++ ys)
mem-append_right [] m = m
mem-append_right (x ∷ xs) m = Memᴰ.tail (mem-append_right xs m)

mem-all_tasks :
    (j k : String) (t : TaskRecord) (ms : Map (Map TaskRecord)) (m : Map TaskRecord)
    → lookup j ms ≡ some m
    → lookup k m ≡ some t
    → Memᴰ t (all_tasks ms)
unfolding lookup all_tasks
mem-all_tasks j k t [] m p q = cc
mem-all_tasks j k t ((i, n) ∷ ms) m p q = elim (Bool-cases (str_eq i j)) [
  | inl b ↦ mem-append_left (all_tasks ms) (mem-values k t n (found (rw b at p)))
  | inr b ↦ mem-append_right (values n) (mem-all_tasks j k t ms m (rw b at p) q)
]
  where
    found : some n ≡ some m → lookup k n ≡ some t
    found e = cc

pub mem-stored :
    (j k : String) (s : MemoryStore) (t : TaskRecord)
    → get_task j k s ≡ some t
    → Memᴰ t (all_tasks s.tasks)
mem-stored j k s t e =
    let (m, p, q) = get_task-lookup j k s t e in mem-all_tasks j k t s.tasks m p q

pub mem-keep :
    {A : Type 0} {a : A} (p : A → Bool) {xs : List A} → Memᴰ a xs → p a ≡ true → Memᴰ a (keep p xs)
mem-keep {a = a} p (Memᴰ.head {xs = xs} e) h =
    subst (λ y. Memᴰ a (if p y then y ∷ keep p xs else keep p xs)) e (rw h (Memᴰ.head refl))
mem-keep p (Memᴰ.tail {x = x} m) h = elim (Bool-cases (p x)) [
  | inl b ↦ rw b (Memᴰ.tail (mem-keep p m h))
  | inr b ↦ rw b (mem-keep p m h)
]
