-- ===== src/Limits/Windows.antt =====
-- How many requests pass the limits of internal/api/rate_limit.go and internal/api/admin_safety.go
-- within one window.
use splai.Base.{
  ℕ, ◌+◌, ◌≤◌, ◌<◌, String, ◌≡◌, refl, ◌∙◌, ap, Bool, true, false, ◌&&◌, not, List, [], ◌∷◌, ◌++◌,
  arith, if◌then◌else◌, ltb, leb, str_eq, eq_iff, length, count, count-append, length-append,
  count-le_length, lookup_or, insert, lookup-insert, Bool-cases, inl, inr, Map,
}
use splai.Limits.{SubmitLimiter, trim_cutoff, allow_locked}
use splai.Limits.Sorted.{
  Ascending, Ascending-later, Ascending-append, trim_cutoff-Ascending, trim_cutoff-live,
}

-- how many of the instants `xs` lie within the window that ends at `n`
abbrev pub within : ℕ → ℕ → List ℕ → ℕ
within w n xs = count (λ x. ltb n (x + w)) xs

-- From `now` on, the history `h` holds as many live entries as there were requests let through.
abbrev pub Covers : ℕ → ℕ → List ℕ → List ℕ → Type 0
Covers w now h log = (n : ℕ) → now ≤ n → within w n h ≡ within w n log

module _ (w ts : ℕ) where
  within-trim_cutoff :
      (n : ℕ) (xs : List ℕ) → ts ≤ n → within w n (trim_cutoff w ts xs) ≡ within w n xs
  unfolding trim_cutoff
  within-trim_cutoff n [] le = refl
  within-trim_cutoff n (x ∷ xs) le = ground (arith, within-trim_cutoff n xs le)

  trim_cutoff-Covers :
      (now : ℕ) (h log : List ℕ)
      → Covers w now h log
      → now ≤ ts
      → Covers w ts (trim_cutoff w ts h) log
  trim_cutoff-Covers now h log c le n m = within-trim_cutoff n h m ∙ c n (omega (arith, le, m))

  pub append-Covers :
      (h log : List ℕ) → Covers w ts h log → Covers w ts (h ++ ts ∷ []) (log ++ ts ∷ [])
  append-Covers h log c n m = omega (
    arith,
    c n m,
    count-append (λ x. ltb n (x + w)) h (ts ∷ []),
    count-append (λ x. ltb n (x + w)) log (ts ∷ []),
  )

  -- what a history covers is bounded by its length
  Covers-bound :
      (max : ℕ) (h log : List ℕ)
      → Covers w ts h log
      → length h < max
      → (n : ℕ) → ts ≤ n
      → within w n (log ++ ts ∷ []) ≤ max
  Covers-bound max h log c lt n m = omega (
    arith,
    lt,
    append-Covers h log c n m,
    count-le_length (λ x. ltb n (x + w)) (h ++ ts ∷ []),
    length-append h (ts ∷ []),
  )

-- the instants of the requests that were let through, of all tenants and of one
abbrev pub times : List (String × ℕ) → List ℕ
times [] = []
times ((k, ts) ∷ log) = ts ∷ times log

abbrev pub served : String → List (String × ℕ) → List ℕ
served k [] = []
served k ((j, ts) ∷ log) = let rest = served k log in if str_eq j k then ts ∷ rest else rest

-- what a limiter should decide, from what was let through alone
abbrev pub lets_through : ℕ → ℕ → ℕ → String × ℕ → List (String × ℕ) → Bool
lets_through w global per_tenant (k, ts) log =
    not (ltb 0 global && leb global (within w ts (times log)))
    && not (ltb 0 per_tenant && leb per_tenant (within w ts (served k log)))

times-append :
    (log : List (String × ℕ)) (k : String) (ts : ℕ)
    → times (log ++ (k, ts) ∷ []) ≡ times log ++ ts ∷ []
times-append [] k ts = refl
times-append ((j, t) ∷ log) k ts = ap (λ xs. t ∷ xs) (times-append log k ts)

served-append :
    (k : String) (log : List (String × ℕ)) (j : String) (ts : ℕ)
    → served k (log ++ (j, ts) ∷ [])
      ≡ (if str_eq j k then served k log ++ ts ∷ [] else served k log)
served-append k [] j ts = ground arith
served-append k ((i, t) ∷ log) j ts = ground (arith, served-append k log j ts)

lookup_or-insert :
    (j k : String) (h : List ℕ) (m : Map (List ℕ))
    → lookup_or [] k (insert j h m) ≡ (if str_eq j k then h else lookup_or [] k m)
lookup_or-insert j k h m = ground (arith, lookup-insert j k h m)

-- The limiter remembers enough of what it let through, and has let through no more than it may.
pub record Tracks (now : ℕ) (l : SubmitLimiter) (log : List (String × ℕ)) : Type 0 where
  pub global_covers : Covers l.window now l.global (times log)
  pub tenant_covers : (k : String) → Covers l.window now (lookup_or [] k l.tenants) (served k log)
  pub global_sorted : Ascending 0 now l.global
  pub tenant_sorted : (k : String) → Ascending 0 now (lookup_or [] k l.tenants)
  pub global_bound :
      0 < l.global_max → (n : ℕ) → now ≤ n → within l.window n (times log) ≤ l.global_max
  pub tenant_bound :
      0 < l.per_tenant_max
      → (k : String) (n : ℕ) → now ≤ n
      → within l.window n (served k log) ≤ l.per_tenant_max

-- the step of one request
abbrev pub log_of : Bool → String → ℕ → List (String × ℕ) → List (String × ℕ)
log_of true k ts log = log ++ (k, ts) ∷ []
log_of false k ts log = log

module _ (now ts : ℕ) (le : now ≤ ts) (k : String) (l : SubmitLimiter) (log : List (String × ℕ))
    (t : Tracks now l log) where
  abbrev global_now : List ℕ
  global_now = trim_cutoff l.window ts l.global

  abbrev history_now : List ℕ
  history_now = trim_cutoff l.window ts (lookup_or [] k l.tenants)

  global_now-Covers : Covers l.window ts global_now (times log)
  global_now-Covers = trim_cutoff-Covers l.window ts now l.global (times log) t.global_covers le

  history_now-Covers : Covers l.window ts history_now (served k log)
  history_now-Covers =
      trim_cutoff-Covers l.window ts now (lookup_or [] k l.tenants) (served k log)
        (t.tenant_covers k) le

  global_now-sorted : Ascending 0 ts global_now
  global_now-sorted =
      trim_cutoff-Ascending l.window ts 0 ts l.global
        (Ascending-later 0 now ts l.global t.global_sorted le)

  later : (j : String) → Ascending 0 ts (lookup_or [] j l.tenants)
  later j = Ascending-later 0 now ts (lookup_or [] j l.tenants) (t.tenant_sorted j) le

  history_now-sorted : Ascending 0 ts history_now
  history_now-sorted = trim_cutoff-Ascending l.window ts 0 ts (lookup_or [] k l.tenants) (later k)

  global-Tracks : Tracks ts (record l { global = global_now }) log
  global-Tracks = record {
    global_covers = global_now-Covers;
    tenant_covers = λ j n m. t.tenant_covers j n (omega (arith, le, m));
    global_sorted = global_now-sorted;
    tenant_sorted = λ j. later j;
    global_bound = λ p n m. t.global_bound p n (omega (arith, le, m));
    tenant_bound = λ p j n m. t.tenant_bound p j n (omega (arith, le, m));
  }

  tenant-Tracks :
      Tracks ts (record l { global = global_now; tenants = insert k history_now l.tenants }) log
  tenant-Tracks = record {
    global_covers = global_now-Covers;
    tenant_covers = λ j n m. ground (
      arith,
      eq_iff k j,
      lookup_or-insert k j history_now l.tenants,
      history_now-Covers n m,
      t.tenant_covers j n (omega (arith, le, m)),
    );
    global_sorted = global_now-sorted;
    tenant_sorted = λ j.
        ground (arith, lookup_or-insert k j history_now l.tenants, history_now-sorted, later j);
    global_bound = λ p n m. t.global_bound p n (omega (arith, le, m));
    tenant_bound = λ p j n m. t.tenant_bound p j n (omega (arith, le, m));
  }

  accepted-Tracks :
      (0 < l.global_max → length global_now < l.global_max)
      → (0 < l.per_tenant_max → length history_now < l.per_tenant_max)
      → Tracks ts
          (record l {
            global = global_now ++ ts ∷ [];
            tenants = insert k (history_now ++ ts ∷ []) l.tenants;
          })
          (log ++ (k, ts) ∷ [])
  accepted-Tracks g h = record {
    global_covers =
        rw (times-append log k ts)
          (append-Covers l.window ts global_now (times log) global_now-Covers);
    tenant_covers = λ j n m. ground (
      arith,
      eq_iff k j,
      lookup_or-insert k j (history_now ++ ts ∷ []) l.tenants,
      served-append j log k ts,
      append-Covers l.window ts history_now (served k log) history_now-Covers n m,
      t.tenant_covers j n (omega (arith, le, m)),
    );
    global_sorted = Ascending-append 0 ts global_now ts global_now-sorted (omega arith);
    tenant_sorted = λ j. ground (
      arith,
      lookup_or-insert k j (history_now ++ ts ∷ []) l.tenants,
      later j,
      Ascending-append 0 ts history_now ts history_now-sorted (omega arith),
    );
    global_bound = λ p n m.
        rw (times-append log k ts) (
          Covers-bound l.window ts l.global_max global_now (times log) global_now-Covers (g p) n m);
    tenant_bound = λ p j n m. ground (
      arith,
      eq_iff k j,
      served-append j log k ts,
      Covers-bound l.window ts l.per_tenant_max history_now (served k log) history_now-Covers (h p)
          n m,
      t.tenant_bound p j n (omega (arith, le, m)),
    );
  }

  pub allow_locked-Tracks : let (l', ok) = allow_locked k ts l in Tracks ts l' (log_of ok k ts log)
  unfolding allow_locked
  allow_locked-Tracks =
      elim (Bool-cases (ltb 0 l.global_max && leb l.global_max (length global_now))) [
        | inl p ↦ rw p global-Tracks
        | inr p ↦
            elim (Bool-cases
              (ltb 0 l.per_tenant_max && leb l.per_tenant_max (length history_now))) [
                | inl q ↦ rw (p, q) tenant-Tracks
                | inr q ↦ rw (p, q) (accepted-Tracks (λ z. ground arith) (λ z. ground arith))
              ]
      ]

  pub allow_locked-decides :
      (allow_locked k ts l).1 ≡ lets_through l.window l.global_max l.per_tenant_max (k, ts) log
  unfolding allow_locked
  allow_locked-decides = ground (
    arith,
    trim_cutoff-live l.window ts 0 ts l.global
        (Ascending-later 0 now ts l.global t.global_sorted le),
    trim_cutoff-live l.window ts 0 ts (lookup_or [] k l.tenants) (later k),
    global_now-Covers ts (omega arith),
    history_now-Covers ts (omega arith),
  )
