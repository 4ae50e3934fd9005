-- ===== src/Limits/Sorted.antt =====
-- The histories of internal/api/rate_limit.go are sorted, so that what `trimCutoff` leaves of them
-- lies within the window.
use splai.Base.{
  ℕ, ◌+◌, ◌≤◌, ◌<◌, ◌≡◌, refl, List, [], ◌∷◌, ◌++◌, arith, ltb, leb, length, count, Bool-cases, inl,
  inr,
}
use splai.Limits.{trim_cutoff}

-- ascending, from `lo` to `hi` at most
abbrev pub Ascending : ℕ → ℕ → List ℕ → Type 0
Ascending lo hi [] = lo ≤ hi
Ascending lo hi (x ∷ xs) = (lo ≤ x) × Ascending x hi xs

Ascending-le : (lo hi : ℕ) (xs : List ℕ) → Ascending lo hi xs → lo ≤ hi
Ascending-le lo hi [] a = a
Ascending-le lo hi (x ∷ xs) a = omega (arith, a.0, Ascending-le x hi xs a.1)

pub Ascending-later :
    (lo hi hi' : ℕ) (xs : List ℕ) → Ascending lo hi xs → hi ≤ hi' → Ascending lo hi' xs
Ascending-later lo hi hi' [] a le = omega (arith, a, le)
Ascending-later lo hi hi' (x ∷ xs) a le = (a.0, Ascending-later x hi hi' xs a.1 le)

Ascending-earlier :
    (lo lo' hi : ℕ) (xs : List ℕ) → Ascending lo hi xs → lo' ≤ lo → Ascending lo' hi xs
Ascending-earlier lo lo' hi [] a le = omega (arith, a, le)
Ascending-earlier lo lo' hi (x ∷ xs) a le = (omega (arith, a.0, le), a.1)

pub Ascending-append :
    (lo hi : ℕ) (xs : List ℕ) (ts : ℕ)
    → Ascending lo hi xs
    → hi ≤ ts
    → Ascending lo ts (xs ++ ts ∷ [])
Ascending-append lo hi [] ts a le = (omega (arith, a, le), omega arith)
Ascending-append lo hi (x ∷ xs) ts a le = (a.0, Ascending-append x hi xs ts a.1 le)

pub trim_cutoff-Ascending :
    (w ts lo hi : ℕ) (xs : List ℕ) → Ascending lo hi xs → Ascending lo hi (trim_cutoff w ts xs)
unfolding trim_cutoff
trim_cutoff-Ascending w ts lo hi [] a = a
trim_cutoff-Ascending w ts lo hi (x ∷ xs) a =
    ground (arith, trim_cutoff-Ascending w ts lo hi xs (Ascending-earlier x lo hi xs a.1 a.0))

all_live :
    (w ts lo hi : ℕ) (xs : List ℕ)
    → Ascending lo hi xs
    → ts < lo + w
    → count (λ x. ltb ts (x + w)) xs ≡ length xs
all_live w ts lo hi [] a lt = refl
all_live w ts lo hi (x ∷ xs) a lt =
    ground (arith, all_live w ts x hi xs a.1 (omega (arith, a.0, lt)))

-- every entry that is left is live
pub trim_cutoff-live :
    (w ts lo hi : ℕ) (xs : List ℕ)
    → Ascending lo hi xs
    → count (λ x. ltb ts (x + w)) (trim_cutoff w ts xs) ≡ length (trim_cutoff w ts xs)
unfolding trim_cutoff
trim_cutoff-live w ts lo hi [] a = refl
trim_cutoff-live w ts lo hi (x ∷ xs) a = elim (Bool-cases (leb (x + w) ts)) [
  | inl p ↦ rw p (trim_cutoff-live w ts x hi xs a.1)
  | inr p ↦ rw p (all_live w ts x hi (x ∷ xs) (omega arith, a.1) (ground arith))
]
