-- ===== src/Queue/Claims.antt =====
-- The invariant of the queue, and what `Claim` of internal/state/memory_queue.go does.
use splai.Base.{
  ℕ, zero, suc, ◌+◌, ◌%◌, ◌^◌, ◌≤◌, ◌<◌, String, ◌≡◌, ◌≢◌, refl, ◌∙◌, ap, none, some, List, [], ◌∷◌,
  arith, Map, lookup, Distinct, insert-Distinct, count, map, take, drop, length, lookup-insert,
  eq_iff, All,
}
use splai.State.{TaskRef, QueueClaim, ref_eq}
use splai.Queue.{
  MemoryQueue, next_counter, new_claim, pop_claim, claim_loop, claim, claim_size, claim_timeout,
}
use splai.Queue.Inflight.{
  AllIssued, claims_of, fresh_receipt, AllIssued-mono, AllIssued-insert, claims_of-insert,
}

-- every failure count is between one and the last before the dead letters
abbrev pub SmallCounts : Map ℕ → Type 0
SmallCounts [] = Unit
SmallCounts ((k, n) ∷ m) = ((0 < n) × (n < 5)) × SmallCounts m

pub record IsWellFormed (q : MemoryQueue) : Type 0 where
  pub distinct : Distinct q.inflight
  pub issued : AllIssued q.counter q.inflight
  pub small : SmallCounts q.nack

-- how often the queue holds a reference: waiting, in flight or dead
abbrev pub copies : TaskRef → MemoryQueue → ℕ
copies r q = count (ref_eq r) q.items + claims_of r q.inflight + count (ref_eq r) q.dead

-- the same references, each as often
abbrev pub Conserves : MemoryQueue → MemoryQueue → Type 0
Conserves q q' = (r : TaskRef) → copies r q' ≡ copies r q

-- no two of the claims share a receipt
abbrev pub Apart : List QueueClaim → Type 0
Apart [] = Unit
Apart (c ∷ cs) = All (λ d. c.receipt ≢ d.receipt) cs × Apart cs

module _ (consumer : String) (now timeout : ℕ) where
  abbrev popped : TaskRef → List TaskRef → MemoryQueue → MemoryQueue
  popped ref rest q = pop_claim consumer now timeout ref rest q

  counter-popped :
      (ref : TaskRef) (rest : List TaskRef) (q : MemoryQueue)
      → q.counter + 1 < 2 ^ 64
      → (popped ref rest q).counter ≡ q.counter + 1
  unfolding pop_claim next_counter
  counter-popped ref rest q h = omega arith

  popped-fresh :
      (ref : TaskRef) (q : MemoryQueue)
      → q.counter + 1 < 2 ^ 64
      → IsWellFormed q
      → lookup (new_claim consumer now timeout q ref).receipt q.inflight ≡ none
  unfolding new_claim next_counter
  popped-fresh ref q h w =
      fresh_receipt q.counter ((q.counter + 1) % 2 ^ 64) consumer q.inflight w.issued (omega arith)

  popped-IsWellFormed :
      (ref : TaskRef) (rest : List TaskRef) (q : MemoryQueue)
      → q.counter + 1 < 2 ^ 64
      → IsWellFormed q
      → IsWellFormed (popped ref rest q)
  unfolding pop_claim new_claim next_counter
  popped-IsWellFormed ref rest q h w =
      let c = new_claim consumer now timeout q ref in
      let n = next_counter q.counter in
      record {
        distinct = insert-Distinct c.receipt c q.inflight w.distinct;
        issued =
            AllIssued-insert n c.receipt c q.inflight
              (record { number = n; within = omega arith; named = refl; own = refl })
              (AllIssued-mono q.inflight (omega arith) w.issued);
        small = w.small;
      }

  popped-Conserves :
      (ref : TaskRef) (rest : List TaskRef) (q : MemoryQueue)
      → q.items ≡ ref ∷ rest
      → q.counter + 1 < 2 ^ 64
      → IsWellFormed q
      → Conserves q (popped ref rest q)
  unfolding pop_claim
  popped-Conserves ref rest q e h w r = ground (
    arith,
    claims_of-insert r (new_claim consumer now timeout q ref).receipt
        (new_claim consumer now timeout q ref) q.inflight (popped-fresh ref q h w),
    ap (count (ref_eq r)) e,
  )

  -- a claim in flight stays there
  popped-old :
      (ref : TaskRef) (rest : List TaskRef) (q : MemoryQueue) (k : String) (c : QueueClaim)
      → q.counter + 1 < 2 ^ 64
      → IsWellFormed q
      → lookup k q.inflight ≡ some c
      → lookup k (popped ref rest q).inflight ≡ some c
  unfolding pop_claim
  popped-old ref rest q k c h w e =
      let d = new_claim consumer now timeout q ref in
      ground
        (arith, lookup-insert d.receipt k d q.inflight, eq_iff d.receipt k, popped-fresh ref q h w)

  popped-held :
      (ref : TaskRef) (rest : List TaskRef) (q : MemoryQueue)
      → let c = new_claim consumer now timeout q ref in
        lookup c.receipt (popped ref rest q).inflight ≡ some c
  unfolding pop_claim
  popped-held ref rest q =
      let d = new_claim consumer now timeout q ref in
      ground (arith, lookup-insert d.receipt d.receipt d q.inflight, eq_iff d.receipt d.receipt)

  new_claim-visible_at :
      (q : MemoryQueue) (ref : TaskRef)
      → (new_claim consumer now timeout q ref).visible_at ≡ now + timeout
  unfolding new_claim
  new_claim-visible_at q ref = refl

  -- the claim is in flight, and hidden until its timeout
  abbrev pub IsHeld : MemoryQueue → QueueClaim → Type 0
  IsHeld q c = (lookup c.receipt q.inflight ≡ some c) × (c.visible_at ≡ now + timeout)

  -- a receipt that the next queue does not hold is neither this claim's nor one of the queue before
  receipt-new :
      (ref : TaskRef) (rest : List TaskRef) (q : MemoryQueue) (k : String)
      → let c = new_claim consumer now timeout q ref in
        lookup k (popped ref rest q).inflight ≡ none
        → (c.receipt ≢ k) × (lookup k q.inflight ≡ none)
  unfolding pop_claim
  receipt-new ref rest q k e =
      let d = new_claim consumer now timeout q ref in
      (
        (λ p. ground (arith, lookup-insert d.receipt k d q.inflight, eq_iff d.receipt k)),
        ground (arith, lookup-insert d.receipt k d q.inflight, eq_iff d.receipt k),
      )

  abbrev IsNew : MemoryQueue → QueueClaim → Type 0
  IsNew q c = lookup c.receipt q.inflight ≡ none

  All-receipt-IsNew :
      (ref : TaskRef) (rest : List TaskRef) (q : MemoryQueue) (out : List QueueClaim)
      → let c = new_claim consumer now timeout q ref in
        All (IsNew (popped ref rest q)) out
        → All (λ d. c.receipt ≢ d.receipt) out × All (IsNew q) out
  All-receipt-IsNew ref rest q [] a = (tt, tt)
  All-receipt-IsNew ref rest q (d ∷ out) a =
      let (apart, new) = receipt-new ref rest q d.receipt a.0 in
      let (aparts, news) = All-receipt-IsNew ref rest q out a.1 in ((apart, aparts), (new, news))

  -- What holds of the queue and the claims after `n` rounds over `items`: the first `n` items are
  -- claimed, in order.
  pub record Claimed (n : ℕ) (items : List TaskRef) (q q' : MemoryQueue) (out : List QueueClaim)
      : Type 0 where
    pub sound : IsWellFormed q'
    pub kept : Conserves q q'
    pub oldest : map (λ c. c.ref) out ≡ take n items
    pub left : q'.items ≡ drop n items
    pub new : All (λ c. lookup c.receipt q.inflight ≡ none) out
    pub apart : Apart out
    pub held : All (IsHeld q') out
    pub old :
        (k : String) (c : QueueClaim) → lookup k q.inflight ≡ some c → lookup k q'.inflight ≡ some c

  claim_loop-Claimed :
      (n : ℕ) (items : List TaskRef) (q : MemoryQueue)
      → q.items ≡ items
      → n ≤ length items
      → q.counter + n < 2 ^ 64
      → IsWellFormed q
      → Claimed n items q
          (claim_loop n items consumer now timeout q).0
          (claim_loop n items consumer now timeout q).1
  unfolding claim_loop
  claim_loop-Claimed zero items q e b h w = record {
    sound = w;
    kept = λ r. refl;
    oldest = refl;
    left = e;
    new = tt;
    apart = tt;
    held = tt;
    old = λ k c p. p;
  }
  claim_loop-Claimed (suc n) [] q e b h w = absurd (omega arith)
  claim_loop-Claimed (suc n) (ref ∷ rest) q e b h w =
      let q₁ = popped ref rest q in
      let room : q.counter + 1 < 2 ^ 64 = omega arith in
      let ih =
        claim_loop-Claimed n rest q₁ refl (omega arith)
          (omega (arith, counter-popped ref rest q room)) (popped-IsWellFormed ref rest q room w) in
      let (others, news) = All-receipt-IsNew ref rest q _ ih.new in
      record {
        sound = ih.sound;
        new = (popped-fresh ref q room w, news);
        apart = (others, ih.apart);
        kept = λ r. ih.kept r ∙ popped-Conserves ref rest q e room w r;
        oldest = ap (◌∷◌ ref) ih.oldest;
        left = ih.left;
        held = ((ih.old _ _ (popped-held ref rest q), new_claim-visible_at q ref), ih.held);
        old = λ k c p. ih.old k c (popped-old ref rest q k c room w p);
      }

claim_size-le : (max : ℕ) (items : List TaskRef) → claim_size max items ≤ length items
claim_size-le max items = ground arith

pub claim-takes_oldest :
    (max : ℕ) (consumer : String) (timeout now : ℕ) (q : MemoryQueue)
    → q.counter + claim_size max q.items < 2 ^ 64
    → IsWellFormed q
    → Claimed consumer now
        (claim_timeout timeout)
        (claim_size max q.items)
        q.items
        q
        (claim max consumer timeout now q).0
        (claim max consumer timeout now q).1
unfolding claim
claim-takes_oldest max consumer timeout now q h w =
    claim_loop-Claimed consumer now (claim_timeout timeout) (claim_size max q.items) q.items q refl
      (claim_size-le max q.items) h w
