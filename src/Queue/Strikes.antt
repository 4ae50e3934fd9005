-- ===== src/Queue/Strikes.antt =====
-- Failures in a row, and the dead letters of internal/state/memory_queue.go.
use splai.Base.{
  ℕ, zero, suc, ◌+◌, ◌<◌, String, ◌≡◌, refl, ◌∙◌, ap, none, some, List, [], ◌∷◌, ◌++◌, arith, Map,
  lookup, lookup_or, insert, delete, lookup-delete, lookup-insert, eq_iff,
}
use splai.State.{Time, TaskRef, QueueClaim, encode_task_ref}
use splai.Queue.{
  MemoryQueue, new_claim, pop_claim, claim_loop, claim_timeout, claim, nack, nack_one, nack_found,
  claim_size,
}

-- One failed attempt: the oldest item is claimed, and the claim is answered with an error.
abbrev pub strike : String → ℕ → Time → MemoryQueue → MemoryQueue
strike consumer timeout now q =
    let (q', out) = claim 1 consumer timeout now q in nack out "error" q'

abbrev pub strikes : ℕ → String → ℕ → Time → MemoryQueue → MemoryQueue
strikes zero consumer timeout now q = q
strikes (suc k) consumer timeout now q =
    strike consumer timeout now (strikes k consumer timeout now q)

-- how many failures in a row the queue has on record for a reference
abbrev pub failures : TaskRef → MemoryQueue → ℕ
failures ref q = lookup_or 0 (encode_task_ref ref) q.nack

nack_held :
    (c held : QueueClaim) (q : MemoryQueue)
    → lookup c.receipt q.inflight ≡ some held
    → nack (c ∷ []) "error" q ≡ nack_found c held "error" q
unfolding nack
nack_held c held q e = rw (e, nack_one)

lookup-insert_same {ℓ} :
    {V : Type ℓ} (key : String) (x : V) (rest : Map V) → lookup key (insert key x rest) ≡ some x
lookup-insert_same key x rest = ground (arith, eq_iff key key, lookup-insert key key x rest)

lookup-delete_self {ℓ} : {V : Type ℓ} (k : String) (m : Map V) → lookup k (delete k m) ≡ none
lookup-delete_self k m = ground (arith, lookup-delete k k m, eq_iff k k)

claim_size_one : (ref : TaskRef) (rest : List TaskRef) → claim_size 1 (ref ∷ rest) ≡ 1
claim_size_one ref rest = ground arith

module _ (consumer : String) (timeout now : ℕ) (ref : TaskRef) (rest : List TaskRef) where
  -- the claim that the next call makes, and the queue once it is in flight
  abbrev claimed : MemoryQueue → QueueClaim
  claimed q = new_claim consumer now (claim_timeout timeout) q ref

  abbrev after_claim : MemoryQueue → MemoryQueue
  after_claim q = pop_claim consumer now (claim_timeout timeout) ref rest q

  claim_one :
      (q : MemoryQueue)
      → q.items ≡ ref ∷ rest
      → claim 1 consumer timeout now q ≡ (after_claim q, claimed q ∷ [])
  unfolding claim claim_loop
  claim_one q e =
      ap (λ items. claim_loop (claim_size 1 items) items consumer now (claim_timeout timeout) q) e
      ∙ rw (claim_size_one ref rest) refl

  held_claim :
      (q : MemoryQueue) → lookup (claimed q).receipt (after_claim q).inflight ≡ some (claimed q)
  unfolding pop_claim
  held_claim q = lookup-insert_same (claimed q).receipt (claimed q) q.inflight

  strike_lem :
      (q : MemoryQueue)
      → q.items ≡ ref ∷ rest
      → strike consumer timeout now q ≡ nack_found (claimed q) (claimed q) "error" (after_claim q)
  strike_lem q e =
      ap (λ (p : MemoryQueue × List QueueClaim). nack p.1 "error" p.0) (claim_one q e)
      ∙ nack_held (claimed q) (claimed q) (after_claim q) (held_claim q)

  -- below the limit the reference goes to the end of the line, with one more failure on record
  strike_below :
      (q : MemoryQueue)
      → q.items ≡ ref ∷ rest
      → failures ref q + 1 < 5
      → let q' = strike consumer timeout now q in
        (q'.items ≡ rest ++ ref ∷ []) × (q'.dead ≡ q.dead) × (failures ref q' ≡ failures ref q + 1)
  unfolding nack_found pop_claim new_claim
  strike_below q e h =
      rw (strike_lem q e)
        (ground (arith, lookup-insert_same (encode_task_ref ref) (failures ref q + 1) q.nack))

  -- at the limit it is parked, and its failures are forgotten
  strike_out :
      (q : MemoryQueue)
      → q.items ≡ ref ∷ rest
      → failures ref q ≡ 4
      → let q' = strike consumer timeout now q in
        (q'.items ≡ rest) × (q'.dead ≡ q.dead ++ ref ∷ []) × (failures ref q' ≡ 0)
  unfolding nack_found pop_claim new_claim
  strike_out q e h =
      rw (strike_lem q e) (ground (arith, lookup-delete_self (encode_task_ref ref) q.nack))

strikes_below :
    (k : ℕ) (consumer : String) (timeout now : ℕ) (ref : TaskRef) (q : MemoryQueue)
    → q.items ≡ ref ∷ []
    → failures ref q ≡ 0
    → k < 5
    → let q' = strikes k consumer timeout now q in
      (q'.items ≡ ref ∷ []) × (q'.dead ≡ q.dead) × (failures ref q' ≡ k)
strikes_below zero consumer timeout now ref q e z h = (e, refl, z)
strikes_below (suc k) consumer timeout now ref q e z h =
    let (items, dead, n) = strikes_below k consumer timeout now ref q e z (omega arith) in
    let (items', dead', n') =
      strike_below consumer timeout now ref [] (strikes k consumer timeout now q) items
        (omega (arith, n)) in
    (items', dead' ∙ dead, omega (arith, n, n'))

-- A reference alone in line, with no failure on record, is retried after each of its first four
-- failed attempts, and parked with the dead letters by the fifth, which clears its record.
pub strikes_five :
    (consumer : String) (timeout now : ℕ) (ref : TaskRef) (q : MemoryQueue)
    → q.items ≡ ref ∷ []
    → failures ref q ≡ 0
    → ((k : ℕ)
        → k < 5
        → let q' = strikes k consumer timeout now q in
          (q'.items ≡ ref ∷ []) × (q'.dead ≡ q.dead) × (failures ref q' ≡ k))
      × (let q' = strikes 5 consumer timeout now q in
          (q'.items ≡ []) × (q'.dead ≡ q.dead ++ ref ∷ []) × (failures ref q' ≡ 0))
strikes_five consumer timeout now ref q e z =
    let (items, dead, n) = strikes_below 4 consumer timeout now ref q e z (omega arith) in
    let (items', dead', n') =
      strike_out consumer timeout now ref [] (strikes 4 consumer timeout now q) items n in
    (
      (λ k. strikes_below k consumer timeout now ref q e z),
      (items', dead' ∙ ap (λ d. d ++ ref ∷ []) dead, n'),
    )
