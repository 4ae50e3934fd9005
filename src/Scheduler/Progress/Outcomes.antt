-- ===== src/Scheduler/Progress/Outcomes.antt =====
-- What a job's outcome says of its tasks (internal/scheduler/engine.go).
use splai.Base.{
  count-le_length, ◌+◌, ◌<◌, ◌≡◌, ◌≢◌, ◌↔◌, ◌⊎◌, inl, inr, refl, Bool, true, List, [], ◌∷◌, arith,
  if◌then◌else◌, length, count, All,
}
use splai.State.{Status, completed, failed, status_eq, TaskRecord}
use splai.Scheduler.Progress.{
  Tally, tally, tally_one, no_tally, has_failed, has_completed, goes_on, outcome,
}

abbrev pub is_failed : TaskRecord → Bool
is_failed t = status_eq t.status failed

abbrev pub is_done : TaskRecord → Bool
is_done t = status_eq t.status completed

tally_one-counts :
    (t : TaskRecord) (s : Status) (c : Tally)
    → ((tally_one t s c).failed_count ≡ c.failed_count + (if status_eq s failed then 1 else 0))
      × ((tally_one t s c).completed_count
          ≡ c.completed_count + (if status_eq s completed then 1 else 0))
unfolding tally_one
tally_one-counts t completed c = omega arith
tally_one-counts t failed c = omega arith
tally_one-counts t _ c = omega arith

tally-counts :
    (ts : List TaskRecord) (c : Tally)
    → ((tally ts c).failed_count ≡ c.failed_count + count is_failed ts)
      × ((tally ts c).completed_count ≡ c.completed_count + count is_done ts)
unfolding tally
tally-counts [] c = omega arith
tally-counts (t ∷ ts) c =
    omega (arith, tally-counts ts (tally_one t t.status c), tally_one-counts t t.status c)

-- every task completed
abbrev pub AllDone : List TaskRecord → Type 0
AllDone = All (λ t. t.status ≡ completed)

status_completed : (s : Status) → status_eq s completed ≡ true → s ≡ completed
status_completed s h = ground arith

count-AllDone : (ts : List TaskRecord) → count is_done ts ≡ length ts → AllDone ts
count-AllDone [] h = tt
count-AllDone (t ∷ ts) h =
    ground (arith, count-AllDone ts, count-le_length is_done ts, status_completed t.status)

AllDone-count : (ts : List TaskRecord) → AllDone ts → count is_done ts ≡ length ts
AllDone-count [] a = refl
AllDone-count (t ∷ ts) a = ground (arith, AllDone-count ts a.1)

AllDone-failed : (ts : List TaskRecord) → AllDone ts → count is_failed ts ≡ 0
AllDone-failed [] a = refl
AllDone-failed (t ∷ ts) a = ground (arith, AllDone-failed ts a.1)

length-nil : (ts : List TaskRecord) → (length ts ≡ 0) ↔ (ts ≡ [])
length-nil [] = ((λ h. refl), (λ h. refl))
length-nil (t ∷ ts) = ((λ h. absurd (omega arith)), (λ h. cc))

module _ (ts : List TaskRecord) where
  counted :
      ((tally ts no_tally).failed_count ≡ count is_failed ts)
      × ((tally ts no_tally).completed_count ≡ count is_done ts)
  counted = omega (arith, tally-counts ts no_tally)

  -- the outcome by counts alone
  outcome_counts :
      (outcome ts ≡ has_failed) × (0 < count is_failed ts)
      ⊎ (outcome ts ≡ has_completed)
        × (count is_failed ts ≡ 0)
        × (count is_done ts ≡ length ts)
        × (0 < length ts)
      ⊎ (outcome ts ≡ goes_on)
        × (count is_failed ts ≡ 0)
        × ((length ts ≡ 0) ⊎ (count is_done ts < length ts))
  unfolding outcome
  outcome_counts = ground (arith, counted, count-le_length is_done ts)

  completes : outcome ts ≡ has_completed → (ts ≢ []) × AllDone ts
  completes h = elim outcome_counts [
    | inl x ↦ absurd (cc x.0)
    | inr (inl (o, f, d, n)) ↦ ((λ z. omega (arith, (length-nil ts).1 z)), count-AllDone ts d)
    | inr (inr x) ↦ absurd (cc x.0)
  ]

  completed_by : (ts ≢ []) → AllDone ts → outcome ts ≡ has_completed
  completed_by n a = elim outcome_counts [
    | inl x ↦ absurd (omega (arith, x.1, AllDone-failed ts a))
    | inr (inl x) ↦ x.0
    | inr (inr (o, f, inl z)) ↦ absurd (n ((length-nil ts).0 z))
    | inr (inr (o, f, inr l)) ↦ absurd (omega (arith, AllDone-count ts a))
  ]

  goes :
      outcome ts ≡ goes_on → (count is_failed ts ≡ 0) × ((ts ≡ []) ⊎ (count is_done ts < length ts))
  goes h = elim outcome_counts [
    | inl x ↦ absurd (cc x.0)
    | inr (inl x) ↦ absurd (cc x.0)
    | inr (inr (o, f, inl z)) ↦ (f, inl ((length-nil ts).0 z))
    | inr (inr (o, f, inr l)) ↦ (f, inr l)
  ]

  goes_by :
      count is_failed ts ≡ 0 → (ts ≡ []) ⊎ (count is_done ts < length ts) → outcome ts ≡ goes_on
  goes_by f r = elim outcome_counts [
    | inl x ↦ absurd (omega (arith, x.1))
    | inr (inl x) ↦ absurd (short r x.2 x.3)
    | inr (inr x) ↦ x.0
  ]
    where
      short :
          (ts ≡ []) ⊎ (count is_done ts < length ts)
          → count is_done ts ≡ length ts
          → 0 < length ts
          → ⊥
      short (inl z) d n = omega (arith, (length-nil ts).1 z)
      short (inr l) d n = omega arith

-- A job has failed exactly if one of its tasks has, it has completed exactly if it has tasks and
-- all of them completed, and it goes on in every other case.
pub outcome_iff :
    (ts : List TaskRecord)
    → ((outcome ts ≡ has_failed) ↔ (0 < count is_failed ts))
      × ((outcome ts ≡ has_completed) ↔ ((ts ≢ []) × AllDone ts))
      × ((outcome ts ≡ goes_on)
          ↔ ((count is_failed ts ≡ 0) × ((ts ≡ []) ⊎ (count is_done ts < length ts))))
outcome_iff ts =
    let cases = outcome_counts ts in
    (
      ((λ h. ground (arith, cases)), (λ h. ground (arith, cases))),
      (completes ts, λ (n, a). completed_by ts n a),
      (goes ts, λ (f, r). goes_by ts f r),
    )
