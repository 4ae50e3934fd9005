-- ===== src/Api/Admin/DryRuns.antt =====
-- A dry run of `handleDeadLetterQueue` in internal/api/server.go against the run itself.
use splai.Base.{
  take_whole, ℕ, zero, suc, ◌+◌, ◌-◌, ◌*◌, ◌≤◌, ◌<◌, min, String, ◌≡◌, refl, ap, List, [], ◌∷◌,
  arith, if◌then◌else◌, Map, lookup, lookup_or, insert, str_eq, eq_iff, length, take,
}
use splai.State.{TaskRef, encode_task_ref}
use splai.Queue.{
  MemoryQueue, count_targets, requeue_dead_loop, list_dead_letters, requeue_dead_letters,
}
use splai.Queue.DeadLetters.{
  with_key, count_targets-with_key, loop-with_key, requeue_dead_letters-Revives,
}
use splai.Api.Admin.{match_loop, count_matching_refs}

-- the list without its first reference of an encoding
without : String → List TaskRef → List TaskRef
without k [] = []
without k (r ∷ rs) =
    let rest = without k rs in if str_eq (encode_task_ref r) k then rs else r ∷ rest

length-without :
    (k : String) (rs : List TaskRef) → 0 < with_key k rs → length rs ≡ length (without k rs) + 1
unfolding without
length-without k [] h = absurd (omega arith)
length-without k (r ∷ rs) h = ground (arith, length-without k rs)

with_key-without :
    (k j : String) (rs : List TaskRef)
    → 0 < with_key k rs
    → with_key j rs ≡ (if str_eq k j then 1 else 0) + with_key j (without k rs)
unfolding without
with_key-without k j [] h = absurd (omega arith)
with_key-without k j (r ∷ rs) h =
    let e = encode_task_ref r in
    ground (arith, eq_iff e k, eq_iff e j, eq_iff k j, with_key-without k j rs)

-- a list that holds no encoding more often than another is not longer
length-le :
    (rs ss : List TaskRef) → ((k : String) → with_key k rs ≤ with_key k ss) → length rs ≤ length ss
length-le [] ss h = omega arith
length-le (r ∷ rs) ss h =
    let k = encode_task_ref r in
    let held : 0 < with_key k ss = ground (arith, h k, eq_iff k k) in
    omega (
      arith,
      length-without k ss held,
      length-le rs (without k ss) (λ j. ground (arith, h j, with_key-without k j ss, eq_iff k j)),
    )

-- the loop of the dry run counts what the loop of the queue would, with the lists exchanged
match_loop-counts :
    (rs : List TaskRef) (available : Map ℕ)
    → match_loop rs available ≡ length (requeue_dead_loop rs available).moved
unfolding match_loop requeue_dead_loop
match_loop-counts [] available = refl
match_loop-counts (r ∷ rs) available =
    let k = encode_task_ref r in
    let n = lookup_or 0 k available in
    ground
      (arith, match_loop-counts rs available, match_loop-counts rs (insert k (n - 1) available))

with_key-take : (n : ℕ) (k : String) (rs : List TaskRef) → with_key k (take n rs) ≤ with_key k rs
with_key-take zero k rs = omega arith
with_key-take (suc n) k [] = omega arith
with_key-take (suc n) k (r ∷ rs) = omega (arith, with_key-take n k rs)

module _ (refs : List TaskRef) (q : MemoryQueue) where
  abbrev listed : ℕ → List TaskRef
  listed limit = list_dead_letters limit q

  abbrev matched : List TaskRef → List TaskRef
  matched in_dead = (requeue_dead_loop refs (count_targets in_dead [])).moved

  matched-with_key :
      (in_dead : List TaskRef) (k : String)
      → with_key k (matched in_dead) ≡ min (with_key k refs) (with_key k in_dead)
  unfolding lookup
  matched-with_key in_dead k =
      ground (
        arith,
        loop-with_key refs (count_targets in_dead []) k,
        count_targets-with_key in_dead [] k,
      )

  -- what a queue would move, if its dead letters were the listed ones
  count_matching_refs-le :
      (in_dead : List TaskRef)
      → ((k : String) → with_key k in_dead ≤ with_key k q.dead)
      → count_matching_refs refs in_dead ≤ (requeue_dead_letters refs q).1
  unfolding count_matching_refs
  count_matching_refs-le in_dead h =
      let v = requeue_dead_letters-Revives refs q in
      omega (
        arith,
        match_loop-counts refs (count_targets in_dead []),
        v.counted,
        length-le (matched in_dead) v.moved
            (λ k. omega (arith, matched-with_key in_dead k, v.exact k, h k)),
      )

  le-count_matching_refs :
      (in_dead : List TaskRef)
      → ((k : String) → with_key k q.dead ≤ with_key k in_dead)
      → (requeue_dead_letters refs q).1 ≤ count_matching_refs refs in_dead
  unfolding count_matching_refs
  le-count_matching_refs in_dead h =
      let v = requeue_dead_letters-Revives refs q in
      omega (
        arith,
        match_loop-counts refs (count_targets in_dead []),
        v.counted,
        length-le v.moved (matched in_dead)
            (λ k. omega (arith, matched-with_key in_dead k, v.exact k, h k)),
      )

  list_dead_letters-le :
      (limit : ℕ) (k : String) → with_key k (list_dead_letters limit q) ≤ with_key k q.dead
  unfolding list_dead_letters
  list_dead_letters-le limit k = with_key-take _ k q.dead

  list_dead_letters-all : (limit : ℕ) → length q.dead ≤ limit → list_dead_letters limit q ≡ q.dead
  unfolding list_dead_letters
  list_dead_letters-all limit h = take_whole _ q.dead (ground arith)

  -- A dry run, which lists at most four dead letters for each requested reference, never announces
  -- more than the run itself would put back; and it announces exactly as much if there are no more
  -- dead letters than it lists.
  pub dry_run-announces :
      let announced = count_matching_refs refs (list_dead_letters (length refs * 4) q) in
      let moved = (requeue_dead_letters refs q).1 in
      (announced ≤ moved) × (length q.dead ≤ length refs * 4 → announced ≡ moved)
  dry_run-announces =
      let limit = length refs * 4 in
      let below = count_matching_refs-le (list_dead_letters limit q) (list_dead_letters-le limit) in
      (
        below,
        λ h. omega (
          arith,
          below,
          le-count_matching_refs (list_dead_letters limit q)
              (λ k. omega (arith, ap (with_key k) (list_dead_letters-all limit h))),
        ),
      )
