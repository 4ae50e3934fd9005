-- ===== src/Scheduler/Workers/Backends.antt =====
-- The names of backends that internal/scheduler/engine.go stores for a worker.
use splai.Base.{
  ℕ, String, ◌≡◌, refl, ◌∙◌, ◌&&◌, not, List, [], ◌∷◌, arith, if◌then◌else◌, str_eq, eq_iff,
  is_empty, member, count,
}
use splai.Scheduler.Placement.{normalize_backend, lists_backend, insert_text, sort_texts}
use splai.Scheduler.Workers.{distinct_backends, normalize_backends}

module _ (s : String) where
  abbrev copies_of : List String → ℕ
  copies_of = count (λ t. str_eq s t)

  count-insert_text :
      (t : String) (ts : List String) → copies_of (insert_text t ts) ≡ copies_of (t ∷ ts)
  unfolding insert_text
  count-insert_text t [] = refl
  count-insert_text t (u ∷ us) = ground (arith, count-insert_text t us)

  count-sort_texts : (ts : List String) → copies_of (sort_texts ts) ≡ copies_of ts
  unfolding sort_texts
  count-sort_texts [] = refl
  count-sort_texts (t ∷ ts) =
      omega (arith, count-insert_text t (sort_texts ts), count-sort_texts ts)

  count-distinct_backends :
      (bs seen : List String)
      → copies_of (distinct_backends bs seen)
        ≡ (if not (is_empty s) && lists_backend s bs && not (member s seen) then 1 else 0)
  unfolding distinct_backends lists_backend
  count-distinct_backends [] seen = ground arith
  count-distinct_backends (b ∷ bs) seen = ground (
    arith,
    eq_iff s (normalize_backend b),
    eq_iff (normalize_backend b) s,
    count-distinct_backends bs seen,
    count-distinct_backends bs (normalize_backend b ∷ seen),
  )

-- Of the backends that a worker names when it registers, each is kept under its normal name, once,
-- if that is not empty, and nothing else is kept.
pub normalize_backends-counts :
    (s : String) (names : List String)
    → count (λ t. str_eq s t) (normalize_backends names)
      ≡ (if not (is_empty s) && lists_backend s names then 1 else 0)
unfolding normalize_backends
normalize_backends-counts s names =
    count-sort_texts s (distinct_backends names [])
    ∙ count-distinct_backends s names []
    ∙ ground arith
