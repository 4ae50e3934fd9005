-- ===== src/Queue/Expiry.antt =====
-- `RequeueExpired` of internal/state/memory_queue.go: which claims it takes back, and how many.
use splai.Base.{
  ℕ, ◌+◌, ◌≤◌, ◌<◌, String, ◌≡◌, refl, ◌∙◌, ◌⊎◌, inl, inr, none, some, [], ◌∷◌, ◌++◌, arith, Map,
  lookup, delete, Distinct, delete-Distinct, length, lookup-delete, eq_iff, count-append,
  length-append, ltb, leb, ◌&&◌, Bool-cases,
}
use splai.State.{QueueClaim, ref_eq}
use splai.Queue.{MemoryQueue, requeue_loop, requeue_expired}
use splai.Queue.Inflight.{AllIssued-delete, claims_of-delete}
use splai.Queue.Claims.{IsWellFormed, Conserves}

-- the entries that are still to be visited are in the table
abbrev AllIn : Map QueueClaim → Map QueueClaim → Type 0
AllIn [] m = Unit
AllIn ((k, c) ∷ es) m = (lookup k m ≡ some c) × AllIn es m

AllIn-delete :
    (k : String) (es m : Map QueueClaim) → lookup k es ≡ none → AllIn es m → AllIn es (delete k m)
unfolding lookup
AllIn-delete k [] m h a = tt
AllIn-delete k ((j, c) ∷ es) m h a =
    ground (arith, lookup-delete k j m, eq_iff j k, eq_iff k j, AllIn-delete k es m)

AllIn-cons :
    (k : String) (c : QueueClaim) (es m : Map QueueClaim)
    → lookup k es ≡ none
    → AllIn es m
    → AllIn es ((k, c) ∷ m)
unfolding lookup
AllIn-cons k c [] m h a = tt
AllIn-cons k c ((j, d) ∷ es) m h a = ground (arith, eq_iff k j, eq_iff j k, AllIn-cons k c es m)

AllIn-self : (m : Map QueueClaim) → Distinct m → AllIn m m
unfolding lookup
AllIn-self [] d = tt
AllIn-self ((k, c) ∷ m) d = ground (arith, eq_iff k k, AllIn-cons k c m m d.0 (AllIn-self m d.1))

-- one expired claim goes back to the items
abbrev taken_back : String → QueueClaim → MemoryQueue → MemoryQueue
taken_back k c q = record q { items = q.items ++ c.ref ∷ []; inflight = delete k q.inflight }

taken_back-IsWellFormed :
    (k : String) (c : QueueClaim) (q : MemoryQueue)
    → IsWellFormed q
    → IsWellFormed (taken_back k c q)
taken_back-IsWellFormed k c q w = record {
  distinct = delete-Distinct k q.inflight w.distinct;
  issued = AllIssued-delete q.counter k q.inflight w.issued;
  small = w.small;
}

taken_back-Conserves :
    (k : String) (c : QueueClaim) (q : MemoryQueue)
    → IsWellFormed q
    → lookup k q.inflight ≡ some c
    → Conserves q (taken_back k c q)
taken_back-Conserves k c q w e r = omega (
  arith,
  claims_of-delete r k c q.inflight w.distinct e,
  count-append (ref_eq r) q.items (c.ref ∷ []),
)

still_hidden :
    (k j : String) (c b : QueueClaim) (now : ℕ) (q : MemoryQueue)
    → lookup k q.inflight ≡ some c
    → lookup j q.inflight ≡ some b
    → now < b.visible_at
    → c.visible_at ≤ now
    → lookup j (delete k q.inflight) ≡ some b
still_hidden k j c b now q p e h g = ground (arith, lookup-delete k j q.inflight, eq_iff k j)

-- What `RequeueExpired` promises of the queue `q'` and the number it returns.
pub record Requeues (now max moved : ℕ) (q q' : MemoryQueue) (n : ℕ) : Type 0 where
  pub sound : IsWellFormed q'
  pub kept : Conserves q q'
  -- the number is that of the items put back
  pub counted : length q'.items + moved ≡ length q.items + n
  -- a positive limit is respected
  pub limited : 0 < max → moved ≤ max → n ≤ max
  -- a claim that is still hidden stays in flight
  pub hidden :
      (k : String) (c : QueueClaim)
      → lookup k q.inflight ≡ some c
      → now < c.visible_at
      → lookup k q'.inflight ≡ some c
  pub same_dead : q'.dead ≡ q.dead

requeue_loop-Requeues :
    (es : Map QueueClaim) (now max moved : ℕ) (q : MemoryQueue)
    → IsWellFormed q
    → Distinct es
    → AllIn es q.inflight
    → Requeues now max moved q
        (requeue_loop es now max moved q).0
        (requeue_loop es now max moved q).1
unfolding requeue_loop
requeue_loop-Requeues [] now max moved q w d a = record {
  sound = w;
  kept = λ r. refl;
  counted = refl;
  limited = λ p h. h;
  hidden = λ k c e h. e;
  same_dead = refl;
}
requeue_loop-Requeues ((k, c) ∷ es) now max moved q w d a =
    elim (Bool-cases (ltb 0 max && leb max moved)) [
      | inl full ↦ rw full (record {
        sound = w;
        kept = λ r. refl;
        counted = refl;
        limited = λ p h. h;
        hidden = λ k c e h. e;
        same_dead = refl;
      })
      | inr open_ ↦ elim (Bool-cases (ltb now c.visible_at)) [
        | inl early ↦ rw open_ (rw early (requeue_loop-Requeues es now max moved q w d.1 a.1))
        | inr late ↦
            let ih =
              requeue_loop-Requeues es now max (moved + 1) (taken_back k c q)
                (taken_back-IsWellFormed k c q w) d.1 (AllIn-delete k es q.inflight d.0 a.1) in
            rw open_ (
              rw late (record {
                sound = ih.sound;
                kept = λ r. ih.kept r ∙ taken_back-Conserves k c q w a.0 r;
                counted = omega (arith, ih.counted, length-append q.items (c.ref ∷ []));
                limited = λ p h. ih.limited p (ground arith);
                hidden =
                    λ j b e h. ih.hidden j b (still_hidden k j c b now q a.0 e h (ground arith)) h;
                same_dead = ih.same_dead;
              }))
      ]
    ]

-- On a well-formed queue `RequeueExpired` loses and doubles no reference, keeps the queue
-- well-formed and the dead letters as they are, returns the number of items that it put back,
-- which a positive limit bounds, and leaves every claim in flight that is hidden beyond `now`.
pub requeue_expired-Requeues :
    (now max : ℕ) (q : MemoryQueue)
    → IsWellFormed q
    → Requeues now max 0 q (requeue_expired now max q).0 (requeue_expired now max q).1
unfolding requeue_expired
requeue_expired-Requeues now max q w =
    requeue_loop-Requeues q.inflight now max 0 q w w.distinct (AllIn-self q.inflight w.distinct)

-- each claim in flight is hidden beyond `now`, or is still to be visited
abbrev Pending : ℕ → Map QueueClaim → MemoryQueue → Type 0
Pending now es q =
    (k : String) (c : QueueClaim)
    → lookup k q.inflight ≡ some c
    → (now < c.visible_at) ⊎ (lookup k es ≡ some c)

Pending-skip :
    (now : ℕ) (k : String) (c : QueueClaim) (es : Map QueueClaim) (q : MemoryQueue)
    → now < c.visible_at
    → Pending now ((k, c) ∷ es) q
    → Pending now es q
unfolding lookup
Pending-skip now k c es q h p j b e = ground (arith, p j b e, eq_iff k j)

Pending-taken_back :
    (now : ℕ) (k : String) (c : QueueClaim) (es : Map QueueClaim) (q : MemoryQueue)
    → Pending now ((k, c) ∷ es) q
    → Pending now es (taken_back k c q)
unfolding lookup
Pending-taken_back now k c es q p j b e = ground (
  arith,
  p j b (ground (arith, lookup-delete k j q.inflight, eq_iff k j)),
  lookup-delete k j q.inflight,
  eq_iff k j,
)

requeue_loop-drains :
    (es : Map QueueClaim) (now moved : ℕ) (q : MemoryQueue)
    → Pending now es q
    → (k : String) (c : QueueClaim) → lookup k (requeue_loop es now 0 moved q).0.inflight ≡ some c
    → now < c.visible_at
unfolding requeue_loop lookup
requeue_loop-drains [] now moved q p k c e = ground (arith, p k c e)
requeue_loop-drains ((j, d) ∷ es) now moved q p k c e = elim (Bool-cases (ltb now d.visible_at)) [
  | inl early ↦
      requeue_loop-drains es now moved q (Pending-skip now j d es q (ground arith) p) k c
        (rw early at e)
  | inr late ↦
      requeue_loop-drains es now (moved + 1) (taken_back j d q) (Pending-taken_back now j d es q p)
        k c (rw late at e)
]

-- Without a limit `RequeueExpired` leaves no expired claim in flight: what is in flight afterwards
-- is hidden beyond `now`.
pub requeue_expired-drains :
    (now : ℕ) (q : MemoryQueue) (k : String) (c : QueueClaim)
    → lookup k (requeue_expired now 0 q).0.inflight ≡ some c
    → now < c.visible_at
unfolding requeue_expired
requeue_expired-drains now q k c e = requeue_loop-drains q.inflight now 0 q (λ j b h. inr h) k c e
