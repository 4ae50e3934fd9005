-- ===== src/Scheduler/Poll/Sorting.antt =====
-- What `PollAssignments` of internal/scheduler/engine.go gives, and where each of its claims goes.
use splai.Base.{
  ℕ, ◌+◌, ◌≤◌, String, ◌≡◌, refl, ◌∙◌, Bool, true, Option, none, some, List, [], ◌∷◌, arith,
  if◌then◌else◌, leb, length, count, inl, inr, Bool-cases, Result, ok, err,
}
use splai.State.{Time, QueueClaim}
use splai.Store.{MemoryStore, AuditPayload}
use splai.Scheduler.Engine.{Engine}
use splai.Scheduler.Placement.{Scores}
use splai.Scheduler.Assign.{Assignment, try_assign}
use splai.Scheduler.Poll.{goes_first, insert_claim, sort_claims, Polled, put, given, poll_loop}

module _ (p : QueueClaim → Bool) (s : MemoryStore) where
  count-insert_claim :
      (c : QueueClaim) (cs : List QueueClaim) → count p (insert_claim s c cs) ≡ count p (c ∷ cs)
  unfolding insert_claim
  count-insert_claim c [] = refl
  count-insert_claim c (d ∷ ds) = elim (Bool-cases (goes_first s d c)) [
    | inl h ↦ rw (h, insert_claim) (omega (arith, count-insert_claim c ds))
    | inr h ↦ rw (h, insert_claim) refl
  ]

  count-sort_claims : (cs : List QueueClaim) → count p (sort_claims s cs) ≡ count p cs
  unfolding sort_claims
  count-sort_claims [] = refl
  count-sort_claims (c ∷ cs) =
      omega (arith, count-insert_claim c (sort_claims s cs), count-sort_claims cs)

-- each claim is in exactly one of the three lists, and each assignment has its claim
pub record IsSorted (max n : ℕ) (cs : List QueueClaim) (r : Polled) : Type 0 where
  pub parts :
      (p : QueueClaim → Bool)
      → count p r.ack_claims + count p r.nack_claims + count p r.nack_error_claims ≡ count p cs
  pub paired : length r.ready_assignments ≡ length r.ack_claims
  pub bounded : n ≤ max → n + length r.ready_assignments ≤ max

put-IsSorted :
    (max n : ℕ) (c : QueueClaim) (cs : List QueueClaim) (answer : Result (Option Assignment))
    (r : Polled)
    → (leb max n ≡ true → given answer ≡ 0)
    → IsSorted max (n + given answer) cs r
    → IsSorted max n (c ∷ cs) (put c answer r)
unfolding put
put-IsSorted max n c cs (err m) r g i = record {
  parts = λ p. omega (arith, i.parts p);
  paired = i.paired;
  bounded = λ le. omega (arith, i.bounded (omega (arith, le)));
}
put-IsSorted max n c cs (ok none) r g i = record {
  parts = λ p. omega (arith, i.parts p);
  paired = i.paired;
  bounded = λ le. omega (arith, i.bounded (omega (arith, le)));
}
put-IsSorted max n c cs (ok (some a)) r g i = record {
  parts = λ p. omega (arith, i.parts p);
  paired = omega (arith, i.paired);
  bounded = λ le. elim (Bool-cases (leb max n)) [
    | inl full ↦ ground (arith, g full)
    | inr room ↦ omega (arith, i.bounded (ground arith))
  ];
}

module _ (digest : AuditPayload → String) (scores : Scores) (now : Time) (worker_id : String)
    (max : ℕ) where
  poll_loop-IsSorted :
      (cs : List QueueClaim) (n : ℕ) (e : Engine)
      → IsSorted max n cs (poll_loop digest scores now worker_id max cs n e).1
  unfolding poll_loop
  poll_loop-IsSorted [] n e = record {
    parts = λ p. refl;
    paired = refl;
    bounded = λ le. omega (arith, le);
  }
  poll_loop-IsSorted (c ∷ cs) n e =
      let (e', answer) =
        if leb max n then (e, ok none) else try_assign digest scores now worker_id c.ref e in
      put-IsSorted max n c cs answer
        (poll_loop digest scores now worker_id max cs (n + given answer) e').1 idle
        (poll_loop-IsSorted cs (n + given answer) e')
    where
      idle :
          leb max n ≡ true
          → given
              (if leb max n then (e, ok none) else try_assign digest scores now worker_id c.ref e).1
            ≡ 0
      idle full = rw full refl

  -- The loop over the sorted claims of a poll loses and doubles no claim: each of them, in whichever
  -- order they were claimed, is acknowledged or returned or returned as an error, once; as many are
  -- acknowledged as assignments are given, and these are no more than the worker asked for.
  pub poll_loop-sorts_out :
      (cs : List QueueClaim) (e : Engine)
      → let r = (poll_loop digest scores now worker_id max (sort_claims e.store cs) 0 e).1 in
        ((p : QueueClaim → Bool)
          → count p r.ack_claims + count p r.nack_claims + count p r.nack_error_claims ≡ count p cs)
        × (length r.ready_assignments ≡ length r.ack_claims)
        × (length r.ready_assignments ≤ max)
  poll_loop-sorts_out cs e =
      let i = poll_loop-IsSorted (sort_claims e.store cs) 0 e in
      (
        (λ p. i.parts p ∙ count-sort_claims p e.store cs),
        i.paired,
        omega (arith, i.bounded (omega arith)),
      )

-- an answer with assignments, `max` at most
pub record IsAnswer (max : ℕ) (r : Result (List Assignment)) : Type 0 where
  pub assignments : List Assignment
  pub answered : r ≡ ok assignments
  pub bounded : length assignments ≤ max
