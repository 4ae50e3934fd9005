-- ===== src/Api/Listing/Pages.antt =====
-- The pages of a job's tasks that `handleJobByID` of internal/api/server.go answers with.
use splai.Base.{
  drop_beyond, ℕ, zero, suc, ◌+◌, ◌≤◌, ◌<◌, String, ◌≡◌, refl, sym, ap, ◌∙◌, List, [], ◌∷◌, ◌++◌,
  arith, ltb, length, take, drop, keep, map, Bool-cases, inl, inr,
}
use mathlib.Core.List.{append-nil}
use splai.Scheduler.Workers.{TaskStatus}
use splai.Api.Messages.{JobTaskStatus}
use splai.Api.Listing.{page_of, tasks_page, task_passes, task_item}

module _ {A : Type 0} where
  take-append-drop : (k : ℕ) (xs : List A) → take k xs ++ drop k xs ≡ xs
  take-append-drop zero xs = refl
  take-append-drop (suc k) [] = refl
  take-append-drop (suc k) (x ∷ xs) = ap (λ ys. x ∷ ys) (take-append-drop k xs)

  drop_nothing : (n : ℕ) → drop {A = A} n [] ≡ []
  drop_nothing zero = refl
  drop_nothing (suc n) = refl

  drop-drop : (n k : ℕ) (xs : List A) → drop (n + k) xs ≡ drop k (drop n xs)
  drop-drop zero k xs = ap (λ m. drop m xs) (omega arith)
  drop-drop (suc n) k [] = drop_nothing (suc n + k) ∙ sym (drop_nothing k)
  drop-drop (suc n) k (x ∷ xs) =
      let e : suc n + k ≡ suc (n + k) = omega arith in
      ap (λ m. drop m (x ∷ xs)) e ∙ drop-drop n k xs

  -- a page and what lies behind it
  page-append-rest :
      (limit offset : ℕ) (xs : List A)
      → 0 < limit
      → page_of limit offset xs ++ drop (offset + limit) xs ≡ drop offset xs
  unfolding page_of
  page-append-rest limit offset xs h = elim (Bool-cases (ltb (length xs) offset)) [
    | inl far ↦
        ground (
          arith,
          drop_beyond offset xs,
          drop_beyond (offset + limit) xs,
          drop_beyond (length xs) xs,
        )
    | inr near ↦ elim (Bool-cases (ltb limit (length (drop offset xs)))) [
      | inl more ↦
          ground (arith, take-append-drop limit (drop offset xs), drop-drop offset limit xs)
      | inr whole ↦ ground (
        arith,
        drop-drop offset limit xs,
        drop_beyond limit (drop offset xs),
        append-nil (drop offset xs),
      )
    ]
  ]

map-append : {A B : Type 0} (f : A → B) (xs ys : List A) → map f (xs ++ ys) ≡ map f xs ++ map f ys
map-append f [] ys = refl
map-append f (x ∷ xs) ys = ap (λ zs. f x ∷ zs) (map-append f xs ys)

-- the tasks on the pages from an offset on, one page behind the other
abbrev pub walk_pages : ℕ → String → String → String → ℕ → ℕ → List TaskStatus → List JobTaskStatus
walk_pages zero job_id status worker limit offset tasks = []
walk_pages (suc pages) job_id status worker limit offset tasks =
    (tasks_page job_id status worker limit offset tasks).tasks
    ++ walk_pages pages job_id status worker limit (offset + limit) tasks

walk_pages-rest :
    (pages : ℕ) (job_id status worker : String) (limit offset : ℕ) (tasks : List TaskStatus)
    → 0 < limit
    → length (keep (task_passes status worker) tasks) ≤ offset + pages
    → walk_pages pages job_id status worker limit offset tasks
      ≡ map task_item (drop offset (keep (task_passes status worker) tasks))
unfolding tasks_page
walk_pages-rest zero job_id status worker limit offset tasks h enough =
    ap (map task_item) (sym (drop_beyond offset _ (omega (arith, enough))))
walk_pages-rest (suc pages) job_id status worker limit offset tasks h enough =
    let xs = keep (task_passes status worker) tasks in
    ap (λ ys. map task_item (page_of limit offset xs) ++ ys)
      (walk_pages-rest pages job_id status worker limit (offset + limit) tasks h
        (omega (arith, enough, h)))
    ∙ sym (map-append task_item (page_of limit offset xs) (drop (offset + limit) xs))
    ∙ ap (map task_item) (page-append-rest limit offset xs h)

-- Whoever asks for one page behind the other, with the same filters and a positive limit, has seen
-- each task that passes the filters exactly once, in order, after at most as many pages as there are
-- such tasks.
pub walk_pages-covers :
    (job_id status worker : String) (limit : ℕ) (tasks : List TaskStatus)
    → 0 < limit
    → let found = keep (task_passes status worker) tasks in
      walk_pages (length found) job_id status worker limit 0 tasks ≡ map task_item found
walk_pages-covers job_id status worker limit tasks h =
    walk_pages-rest (length (keep (task_passes status worker) tasks)) job_id status worker limit 0
      tasks h (omega arith)
