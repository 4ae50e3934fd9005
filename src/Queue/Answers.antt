-- ===== src/Queue/Answers.antt =====
-- `Ack` and `Nack` of internal/state/memory_queue.go: what becomes of a claim that is answered.
use splai.Base.{
  ℕ, ◌+◌, ◌^◌, ◌<◌, String, ◌≡◌, ◌≢◌, refl, ◌∙◌, ap, some, List, [], ◌∷◌, arith, if◌then◌else◌, Map,
  lookup, lookup_or, insert, delete, delete-Distinct, count, map, take, lookup-delete, eq_iff,
  count-append, All, Option-cases, inl, inr,
}
use splai.State.{TaskRef, QueueClaim, ref_eq, encode_task_ref}
use splai.Queue.{MemoryQueue, claim, claim_size, ack, nack, nack_one, nack_found}
use splai.Queue.Inflight.{AllIssued-delete, claims_of-delete}
use splai.Queue.Claims.{
  IsWellFormed, SmallCounts, Conserves, copies, Apart, claim-takes_oldest, IsHeld,
}

SmallCounts-delete : (k : String) (m : Map ℕ) → SmallCounts m → SmallCounts (delete k m)
unfolding delete
SmallCounts-delete k [] s = tt
SmallCounts-delete k ((j, n) ∷ m) s = ground (arith, SmallCounts-delete k m s.1)

SmallCounts-insert :
    (k : String) (n : ℕ) (m : Map ℕ) → 0 < n → n < 5 → SmallCounts m → SmallCounts (insert k n m)
unfolding insert
SmallCounts-insert k n [] p b s = ((p, b), tt)
SmallCounts-insert k n ((j, i) ∷ m) p b s = ground (arith, SmallCounts-insert k n m p b s.1)

-- a claim that is looked up under its receipt leaves the table
abbrev IsOut : MemoryQueue → QueueClaim → Type 0
IsOut q c = lookup c.receipt q.inflight ≡ some c

abbrev forget : QueueClaim → MemoryQueue → MemoryQueue
forget c q = record q {
  inflight = delete c.receipt q.inflight;
  nack = delete (encode_task_ref c.ref) q.nack;
}

forget-IsWellFormed :
    (c : QueueClaim) (q : MemoryQueue) → IsWellFormed q → IsWellFormed (forget c q)
forget-IsWellFormed c q w = record {
  distinct = delete-Distinct c.receipt q.inflight w.distinct;
  issued = AllIssued-delete q.counter c.receipt q.inflight w.issued;
  small = SmallCounts-delete (encode_task_ref c.ref) q.nack w.small;
}

forget-copies :
    (r : TaskRef) (c : QueueClaim) (q : MemoryQueue)
    → IsWellFormed q
    → IsOut q c
    → copies r (forget c q) + (if ref_eq r c.ref then 1 else 0) ≡ copies r q
forget-copies r c q w e = omega (arith, claims_of-delete r c.receipt c q.inflight w.distinct e)

forget-IsOut :
    (c : QueueClaim) (q : MemoryQueue) (cs : List QueueClaim)
    → All (λ d. c.receipt ≢ d.receipt) cs
    → All (IsOut q) cs
    → All (IsOut (forget c q)) cs
forget-IsOut c q [] a o = tt
forget-IsOut c q (d ∷ cs) a o = (
  ground (arith, lookup-delete c.receipt d.receipt q.inflight, eq_iff c.receipt d.receipt, a.0),
  forget-IsOut c q cs a.1 o.1,
)

-- `Ack` of claims in flight takes each of their references out of the queue once, and nothing else.
pub ack-copies :
    (cs : List QueueClaim) (q : MemoryQueue) (r : TaskRef)
    → IsWellFormed q
    → All (IsOut q) cs
    → Apart cs
    → copies r (ack cs q) + count (ref_eq r) (map (λ c. c.ref) cs) ≡ copies r q
unfolding ack
ack-copies [] q r w o a = omega arith
ack-copies (c ∷ cs) q r w o a = omega (
  arith,
  forget-copies r c q w o.0,
  ack-copies cs (forget c q) r (forget-IsWellFormed c q w) (forget-IsOut c q cs a.0 o.1) a.1,
)

pub ack-IsWellFormed :
    (cs : List QueueClaim) (q : MemoryQueue) → IsWellFormed q → IsWellFormed (ack cs q)
unfolding ack
ack-IsWellFormed [] q w = w
ack-IsWellFormed (c ∷ cs) q w = ack-IsWellFormed cs (forget c q) (forget-IsWellFormed c q w)

IsHeld-IsOut :
    (consumer : String) (now timeout : ℕ) (q : MemoryQueue) (cs : List QueueClaim)
    → All (IsHeld consumer now timeout q) cs
    → All (IsOut q) cs
IsHeld-IsOut consumer now timeout q [] h = tt
IsHeld-IsOut consumer now timeout q (c ∷ cs) h = (h.0.0, IsHeld-IsOut consumer now timeout q cs h.1)

-- Claiming and acknowledging consumes exactly the oldest items, each once: every reference is in
-- the queue as often as before, less its copies among the items that the claim took.
pub ack-claim :
    (max : ℕ) (consumer : String) (timeout now : ℕ) (q : MemoryQueue) (r : TaskRef)
    → q.counter + claim_size max q.items < 2 ^ 64
    → IsWellFormed q
    → let (q', out) = claim max consumer timeout now q in
      copies r (ack out q') + count (ref_eq r) (take (claim_size max q.items) q.items) ≡ copies r q
ack-claim max consumer timeout now q r h w =
    let (q', out) = claim max consumer timeout now q in
    let c = claim-takes_oldest max consumer timeout now q h w in
    omega (
      arith,
      ack-copies out q' r c.sound (IsHeld-IsOut consumer now _ q' out c.held) c.apart,
      ap (count (ref_eq r)) c.oldest,
      c.kept r,
    )

nack_found-IsWellFormed :
    (c held : QueueClaim) (reason : String) (q : MemoryQueue)
    → IsWellFormed q
    → IsWellFormed (nack_found c held reason q)
unfolding nack_found
nack_found-IsWellFormed c held reason q w =
    let key = encode_task_ref held.ref in
    let n = lookup_or 0 key q.nack + 1 in
    ground (
      arith,
      delete-Distinct c.receipt q.inflight w.distinct,
      AllIssued-delete q.counter c.receipt q.inflight w.issued,
      SmallCounts-delete key q.nack w.small,
      SmallCounts-insert key n q.nack,
      w.small,
    )

nack_found-Conserves :
    (c held : QueueClaim) (reason : String) (q : MemoryQueue)
    → IsWellFormed q
    → lookup c.receipt q.inflight ≡ some held
    → Conserves q (nack_found c held reason q)
unfolding nack_found
nack_found-Conserves c held reason q w e r = ground (
  arith,
  claims_of-delete r c.receipt held q.inflight w.distinct e,
  count-append (ref_eq r) q.items (held.ref ∷ []),
  count-append (ref_eq r) q.dead (held.ref ∷ []),
)

nack_one-keeps :
    (c : QueueClaim) (reason : String) (q : MemoryQueue)
    → IsWellFormed q
    → IsWellFormed (nack_one c reason q) × Conserves q (nack_one c reason q)
unfolding nack_one
nack_one-keeps c reason q w = elim (Option-cases (lookup c.receipt q.inflight)) [
  | inl e ↦ rw (e, nack_one) (w, λ r. refl)
  | inr (held, e) ↦
      rw (e, nack_one)
        (nack_found-IsWellFormed c held reason q w, nack_found-Conserves c held reason q w e)
]

-- `Nack` keeps the queue well-formed and loses and doubles no reference, for any claims (also ones
-- that are no longer in flight) and any reason: a reference goes back to the items or to the dead.
pub nack-Conserves :
    (cs : List QueueClaim) (reason : String) (q : MemoryQueue)
    → IsWellFormed q
    → IsWellFormed (nack cs reason q) × Conserves q (nack cs reason q)
unfolding nack
nack-Conserves [] reason q w = (w, λ r. refl)
nack-Conserves (c ∷ cs) reason q w =
    let (w₁, k₁) = nack_one-keeps c reason q w in
    let (w₂, k₂) = nack-Conserves cs reason (nack_one c reason q) w₁ in (w₂, λ r. k₂ r ∙ k₁ r)
