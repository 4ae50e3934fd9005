-- ===== src/Api/Jobs/Prefetch.antt =====
-- The jobs that `handleModelPrefetch` of internal/api/server.go creates.
use splai.Base.{
  ℕ, zero, suc, ◌+◌, ◌<◌, String, ◌⧺◌, ◌≡◌, refl, ◌∙◌, Bool, true, false, some, List, [], ◌∷◌,
  arith, ltb, eq_iff, member, itoa, scan, scan-itoa, if_intro,
}
use text.Mathlib.TextLemmas.{nil-append, cons-append, append_cancel_left}
use splai.State.{WorkerRecord}
use splai.Planner.Order.{is_ordered, is_plan}
use splai.Api.Jobs.{three_digits, prefetch_task, prefetch_tasks}

zero-scan : (s : String) → scan ("0" ⧺ s) 0 ≡ scan s 0
unfolding scan
zero-scan s = rw (cons-append "0" "" s) (rw (nil-append s) refl)

zeros-scan : (s : String) → scan ("00" ⧺ s) 0 ≡ scan s 0
unfolding scan
zeros-scan s = rw (cons-append "0" "0" s) (zero-scan s)

three_digits-scan : (n : ℕ) → scan (three_digits n) 0 ≡ some n
three_digits-scan n =
    let P = λ (s : String). scan s 0 ≡ some n in
    if_intro P (ltb n 10) (λ one. zeros-scan (itoa n) ∙ scan-itoa n)
      λ more. if_intro P (ltb n 100) (λ two. zero-scan (itoa n) ∙ scan-itoa n) λ three. scan-itoa n

abbrev name : ℕ → String
name n = "prefetch-" ⧺ three_digits n

name_inj : (m n : ℕ) → name m ≡ name n → m ≡ n
name_inj m n e =
    let same = append_cancel_left "prefetch-" (three_digits m) (three_digits n) e in
    cc (three_digits-scan m, three_digits-scan n, same)

-- the names up to a number
names : ℕ → List String
names zero = []
names (suc n) = name (suc n) ∷ names n

member-names : (k n : ℕ) → n < k → member (name k) (names n) ≡ false
unfolding names
member-names k zero h = refl
member-names k (suc n) h =
    ground (arith, eq_iff (name k) (name (suc n)), name_inj k (suc n), member-names k n)

module _ (model source : String) (only_missing : Bool) where
  prefetch_tasks-is_ordered :
      (i : ℕ) (ws : List WorkerRecord)
      → is_ordered (names i) (prefetch_tasks i model source only_missing ws) ≡ true
  unfolding prefetch_tasks prefetch_task names
  prefetch_tasks-is_ordered i [] = refl
  prefetch_tasks-is_ordered i (w ∷ ws) =
      let next : i + 1 ≡ suc i = omega arith in
      let rest = prefetch_tasks-is_ordered (suc i) ws in
      rw next (ground (arith, rest, member-names (suc i) i))

  -- the plan of a prefetch is in order, and has a task for each worker
  pub prefetch_tasks-is_plan :
      (w : WorkerRecord) (ws : List WorkerRecord)
      → is_plan (prefetch_tasks 0 model source only_missing (w ∷ ws)) ≡ true
  unfolding names prefetch_tasks prefetch_task
  prefetch_tasks-is_plan w ws = ground (arith, prefetch_tasks-is_ordered 0 (w ∷ ws))
