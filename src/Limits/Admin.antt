-- ===== src/Limits/Admin.antt =====
-- The limit on requeue requests of internal/api/admin_safety.go over whole sequences of requests.
use splai.Base.{
  ℕ, ◌+◌, ◌≤◌, ◌<◌, ◌≡◌, refl, ◌∙◌, false, List, [], ◌∷◌, ◌++◌, arith, if◌then◌else◌, leb, ◌==◌,
  length, keep, count, count-append, length-append, count-le_length, Bool-cases, inl, inr,
}
use splai.Limits.{AdminSafety, allow_requeue}

-- requests, one after the other, and the instants of those that were let through
abbrev pub run_requeue : List ℕ → AdminSafety → List ℕ → AdminSafety × List ℕ
run_requeue [] a log = (a, log)
run_requeue (now ∷ rs) a log =
    let (a', ok) = allow_requeue now a in run_requeue rs a' (if ok then log ++ now ∷ [] else log)

abbrev pub IsTicking : ℕ → List ℕ → Type 0
IsTicking now [] = Unit
IsTicking now (ts ∷ rs) = (now ≤ ts) × IsTicking ts rs

abbrev pub final_tick : ℕ → List ℕ → ℕ
final_tick now [] = now
final_tick now (ts ∷ rs) = final_tick ts rs

-- how many of the instants are `n`, or at most 60 seconds before
abbrev pub recent : ℕ → List ℕ → ℕ
recent n xs = count (λ x. leb n (x + 60)) xs

record Remembers (now max : ℕ) (h log : List ℕ) : Type 0 where
  covers : (n : ℕ) → now ≤ n → recent n h ≡ recent n log
  bound : (n : ℕ) → now ≤ n → recent n log ≤ max

recent-keep :
    (n now : ℕ) (xs : List ℕ) → now ≤ n → recent n (keep (λ x. leb now (x + 60)) xs) ≡ recent n xs
recent-keep n now [] le = refl
recent-keep n now (x ∷ xs) le = ground (arith, recent-keep n now xs le)

module _ (now ts max : ℕ) (h log : List ℕ) (le : now ≤ ts) (r : Remembers now max h log) where
  abbrev kept : List ℕ
  kept = keep (λ x. leb ts (x + 60)) h

  refused-Remembers : Remembers ts max kept log
  refused-Remembers = record {
    covers = λ n m. recent-keep n ts h m ∙ r.covers n (omega (arith, le, m));
    bound = λ n m. r.bound n (omega (arith, le, m));
  }

  passed-Remembers : length kept < max → Remembers ts max (kept ++ ts ∷ []) (log ++ ts ∷ [])
  passed-Remembers lt = record {
    covers = same;
    bound = λ n m. omega (
      arith,
      same n m,
      lt,
      count-le_length (λ x. leb n (x + 60)) (kept ++ ts ∷ []),
      length-append kept (ts ∷ []),
    );
  }
    where
      same : (n : ℕ) → ts ≤ n → recent n (kept ++ ts ∷ []) ≡ recent n (log ++ ts ∷ [])
      same n m = omega (
        arith,
        recent-keep n ts h m,
        r.covers n (omega (arith, le, m)),
        count-append (λ x. leb n (x + 60)) kept (ts ∷ []),
        count-append (λ x. leb n (x + 60)) log (ts ∷ []),
      )

allow_requeue-Remembers :
    (now max ts : ℕ) (a : AdminSafety) (log : List ℕ)
    → a.rate_limit_per_min ≡ max
    → 0 < max
    → now ≤ ts
    → Remembers now max a.recent_requeue_unix log
    → let (a', ok) = allow_requeue ts a in
      (a'.rate_limit_per_min ≡ max)
      × Remembers ts max a'.recent_requeue_unix (if ok then log ++ ts ∷ [] else log)
unfolding allow_requeue
allow_requeue-Remembers now max ts a log e p le r =
    let h = a.recent_requeue_unix in
    let on : (a.rate_limit_per_min == 0) ≡ false = ground arith in
    elim (Bool-cases (leb a.rate_limit_per_min (length (kept now ts max h log le r)))) [
      | inl full ↦ rw (on, full) (e, refused-Remembers now ts max h log le r)
      | inr room ↦ rw (on, room) (e, passed-Remembers now ts max h log le r (ground arith))
    ]

run_requeue-Remembers :
    (now max : ℕ) (rs : List ℕ) (a : AdminSafety) (log : List ℕ)
    → a.rate_limit_per_min ≡ max
    → 0 < max
    → IsTicking now rs
    → Remembers now max a.recent_requeue_unix log
    → let (a', log') = run_requeue rs a log in
      Remembers (final_tick now rs) max a'.recent_requeue_unix log'
run_requeue-Remembers now max [] a log e p c r = r
run_requeue-Remembers now max (ts ∷ rs) a log e p c r =
    let (a', ok) = allow_requeue ts a in
    let (e', r') = allow_requeue-Remembers now max ts a log e p c.0 r in
    run_requeue-Remembers ts max rs a' (if ok then log ++ ts ∷ [] else log) e' p c.1 r'

-- However many requests come in under a clock that does not run backwards: those that a positive
-- limit lets through in the last 60 seconds, both ends counted, are no more than the limit.
pub run_requeue-recent :
    (rs : List ℕ) (a : AdminSafety)
    → 0 < a.rate_limit_per_min
    → a.recent_requeue_unix ≡ []
    → IsTicking 0 rs
    → recent (final_tick 0 rs) (run_requeue rs a []).1 ≤ a.rate_limit_per_min
run_requeue-recent rs a p e c =
    let r =
      run_requeue-Remembers 0 a.rate_limit_per_min rs a [] refl p c
        (record { covers = λ n m. ground (arith, e); bound = λ n m. omega arith }) in
    r.bound (final_tick 0 rs) (omega arith)
