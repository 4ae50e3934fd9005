-- ===== src/Queue.antt =====
-- internal/state/memory_queue.go. Each operation runs under the mutex, so it is one step; the
-- calls of the metrics registry are left out. `now` is what the operation's clock shows.
pub mod Inflight
pub mod Claims
pub mod Answers
pub mod Expiry
pub mod DeadLetters
pub mod Strikes
use splai.Base.{
  ℕ, zero, suc, ◌+◌, ◌%◌, ◌^◌, ◌-◌, ◌*◌, String, ◌⧺◌, Bool, true, false, ◌&&◌, ◌||◌, not, Option,
  none, some, List, [], ◌∷◌, ◌++◌, ltb, leb, ◌==◌, if◌then◌else◌, length, take, Map, lookup,
  lookup_or, insert, delete, itoa, str_eq,
}
use splai.State.{Time, second, TaskRef, QueueClaim, encode_task_ref}

pub record MemoryQueue : Type 0 where
  pub items : List TaskRef
  pub inflight : Map QueueClaim
  pub nack : Map ℕ
  pub dead : List TaskRef
  pub counter : ℕ

unfoldable pub new_memory_queue : MemoryQueue
new_memory_queue = record { items = []; inflight = []; nack = []; dead = []; counter = 0 }

-- the largest number of failed assignments before a reference is parked
abbrev pub dead_letter_max : ℕ
dead_letter_max = 5

unfoldable pub enqueue : TaskRef → MemoryQueue → MemoryQueue
enqueue ref q = record q { items = q.items ++ ref ∷ [] }

unfoldable pub enqueue_many : List TaskRef → MemoryQueue → MemoryQueue
enqueue_many refs q = record q { items = q.items ++ refs }

-- fmt.Sprintf("mem:%s:%d", consumer, counter)
unfoldable pub mem_receipt : String → ℕ → String
mem_receipt consumer n = ("mem:" ⧺ consumer) ⧺ (":" ⧺ itoa n)

-- `q.counter++` on a uint64
next_counter : ℕ → ℕ
next_counter n = (n + 1) % 2 ^ 64

-- the claim that the loop makes for the first item
new_claim : String → Time → ℕ → MemoryQueue → TaskRef → QueueClaim
unfolding next_counter mem_receipt
new_claim consumer now timeout q ref = record {
  ref = ref;
  receipt = mem_receipt consumer (next_counter q.counter);
  claimed_by = consumer;
  claimed_at = now;
  visible_at = now + timeout;
}

-- One round of the loop: the item leaves the list and its claim is in flight.
pop_claim : String → Time → ℕ → TaskRef → List TaskRef → MemoryQueue → MemoryQueue
unfolding new_claim
pop_claim consumer now timeout ref rest q =
    let c = new_claim consumer now timeout q ref in
    record q {
      items = rest;
      inflight = insert c.receipt c q.inflight;
      counter = next_counter q.counter;
    }

-- `n` rounds over `items`, which are the queue's. The second clause would be an access out of
-- range; `claim` never gets there, since it caps the rounds at the number of items.
claim_loop : ℕ → List TaskRef → String → Time → ℕ → MemoryQueue → MemoryQueue × List QueueClaim
unfolding pop_claim
claim_loop zero items consumer now timeout q = (q, [])
claim_loop (suc n) [] consumer now timeout q = (q, [])
claim_loop (suc n) (ref ∷ rest) consumer now timeout q =
    let c = new_claim consumer now timeout q ref in
    let (q', out) =
      claim_loop n rest consumer now timeout (pop_claim consumer now timeout ref rest q) in
    (q', c ∷ out)

-- how many items a call takes
abbrev pub claim_size : ℕ → List TaskRef → ℕ
claim_size max items =
    let max = if max == 0 then 1 else max in if ltb (length items) max then length items else max

-- how long a claim stays invisible
abbrev pub claim_timeout : ℕ → ℕ
claim_timeout timeout = if timeout == 0 then 15 * second else timeout

unfoldable pub claim : ℕ → String → ℕ → Time → MemoryQueue → MemoryQueue × List QueueClaim
unfolding claim_loop
claim max consumer timeout now q =
    claim_loop (claim_size max q.items) q.items consumer now (claim_timeout timeout) q

unfoldable pub ack : List QueueClaim → MemoryQueue → MemoryQueue
ack [] q = q
ack (c ∷ cs) q = ack cs (record q {
  inflight = delete c.receipt q.inflight;
  nack = delete (encode_task_ref c.ref) q.nack;
})

-- the claim `c`, found in flight, goes back to the items or, at its fifth error, to the dead ones
nack_found : QueueClaim → QueueClaim → String → MemoryQueue → MemoryQueue
nack_found c held reason q =
    let key = encode_task_ref held.ref in
    let count = lookup_or 0 key q.nack + 1 in
    let back = record q {
      items = q.items ++ held.ref ∷ [];
      inflight = delete c.receipt q.inflight;
    } in
    if str_eq reason "error"
    then if leb dead_letter_max count
      then record q {
        dead = q.dead ++ held.ref ∷ [];
        nack = delete key q.nack;
        inflight = delete c.receipt q.inflight;
      }
      else record back { nack = insert key count q.nack }
    else back

nack_one : QueueClaim → String → MemoryQueue → MemoryQueue
unfolding nack_found
nack_one c reason q = elim (lookup c.receipt q.inflight) [
  | none ↦ q
  | some held ↦ nack_found c held reason q
]

unfoldable pub nack : List QueueClaim → String → MemoryQueue → MemoryQueue
unfolding nack_one
nack [] reason q = q
nack (c ∷ cs) reason q = nack cs reason (nack_one c reason q)

-- The loop over the claims in flight; `entries` are those that the range has not visited yet.
requeue_loop : Map QueueClaim → Time → ℕ → ℕ → MemoryQueue → MemoryQueue × ℕ
requeue_loop [] now max moved q = (q, moved)
requeue_loop ((receipt, c) ∷ entries) now max moved q =
    let skip = requeue_loop entries now max moved q in
    let move =
      requeue_loop entries now max (moved + 1)
        (record q { items = q.items ++ c.ref ∷ []; inflight = delete receipt q.inflight }) in
    if ltb 0 max && leb max moved then (q, moved) else if ltb now c.visible_at then skip else move

unfoldable pub requeue_expired : Time → ℕ → MemoryQueue → MemoryQueue × ℕ
unfolding requeue_loop
requeue_expired now max q = requeue_loop q.inflight now max 0 q

unfoldable pub list_dead_letters : ℕ → MemoryQueue → List TaskRef
list_dead_letters limit q =
    let n = length q.dead in take (if limit == 0 || ltb n limit then n else limit) q.dead

-- target[encodeTaskRef(r)]++ for each requested reference
unfoldable pub count_targets : List TaskRef → Map ℕ → Map ℕ
count_targets [] target = target
count_targets (r ∷ rs) target =
    let key = encode_task_ref r in count_targets rs (insert key (lookup_or 0 key target + 1) target)

-- what the loop over the dead letters has moved, kept and counted
pub record Requeued : Type 0 where
  pub moved : List TaskRef
  pub kept : List TaskRef
  pub requeued : ℕ

unfoldable pub requeue_dead_loop : List TaskRef → Map ℕ → Requeued
requeue_dead_loop [] target = record { moved = []; kept = []; requeued = 0 }
requeue_dead_loop (r ∷ rs) target =
    let key = encode_task_ref r in
    let wanted = lookup_or 0 key target in
    let rest =
      requeue_dead_loop rs (if ltb 0 wanted then insert key (wanted - 1) target else target) in
    if ltb 0 wanted
    then record rest { moved = r ∷ rest.moved; requeued = rest.requeued + 1 }
    else record rest { kept = r ∷ rest.kept }

requeue_dead : List TaskRef → MemoryQueue → MemoryQueue × ℕ
unfolding requeue_dead_loop count_targets
requeue_dead refs q =
    let r = requeue_dead_loop q.dead (count_targets refs []) in
    (record q { items = q.items ++ r.moved; dead = r.kept }, r.requeued)

unfoldable pub requeue_dead_letters : List TaskRef → MemoryQueue → MemoryQueue × ℕ
unfolding requeue_dead
requeue_dead_letters [] q = (q, 0)
requeue_dead_letters (r ∷ rs) q = requeue_dead (r ∷ rs) q
