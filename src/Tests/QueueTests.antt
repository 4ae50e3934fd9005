-- ===== src/Tests/QueueTests.antt =====
-- internal/state/memory_queue.go on small queues.
use splai.Base.{◌≡◌, refl, [], ◌∷◌, arith, lookup, insert, delete, itoa}
use splai.State.{encode_task_ref, QueueClaim}
use splai.Queue.{
  MemoryQueue, claim, claim_size, claim_timeout, nack, requeue_expired, requeue_dead_letters,
}
use splai.Queue.Claims.{IsWellFormed, Claimed, Conserves, claim-takes_oldest}
use splai.Queue.Answers.{nack-Conserves}
use splai.Queue.Expiry.{Requeues, requeue_expired-Requeues}
use splai.Queue.Strikes.{strikes}
use splai.Queue.DeadLetters.{Revives, requeue_dead_letters-Revives}
use splai.Tests.Samples.{first_ref, second_ref, two_items, one_item, dead_item}

two_items-IsWellFormed : IsWellFormed two_items
two_items-IsWellFormed = record { distinct = tt; issued = tt; small = tt }

claim-takes_oldest_example :
    Claimed "w1" 5
      (claim_timeout 0)
      (claim_size 1 two_items.items)
      two_items.items
      two_items
      (claim 1 "w1" 0 5 two_items).0
      (claim 1 "w1" 0 5 two_items).1
claim-takes_oldest_example =
    claim-takes_oldest 1 "w1" 0 5 two_items (omega arith) two_items-IsWellFormed

claimed_one : MemoryQueue
unfolding claim
claimed_one = (claim 1 "w1" 10 5 two_items).0

nack-Conserves_example :
    IsWellFormed (nack (claim 1 "w1" 0 5 two_items).1 "error" (claim 1 "w1" 0 5 two_items).0)
    × Conserves
        (claim 1 "w1" 0 5 two_items).0
        (nack (claim 1 "w1" 0 5 two_items).1 "error" (claim 1 "w1" 0 5 two_items).0)
nack-Conserves_example =
    nack-Conserves (claim 1 "w1" 0 5 two_items).1 "error" (claim 1 "w1" 0 5 two_items).0
      claim-takes_oldest_example.sound

requeue_expired-Requeues_example :
    Requeues 100 1 0
      (claim 1 "w1" 0 5 two_items).0
      (requeue_expired 100 1 (claim 1 "w1" 0 5 two_items).0).0
      (requeue_expired 100 1 (claim 1 "w1" 0 5 two_items).0).1
requeue_expired-Requeues_example =
    requeue_expired-Requeues 100 1 (claim 1 "w1" 0 5 two_items).0 claim-takes_oldest_example.sound

abbrev held_claim : QueueClaim
held_claim = record {
  ref = first_ref;
  receipt = "mem:w1:1";
  claimed_by = "w1";
  claimed_at = 5;
  visible_at = 15;
}

requeue_dead_letters-Revives_example :
    Revives
      (second_ref ∷ second_ref ∷ [])
      dead_item
      (requeue_dead_letters (second_ref ∷ second_ref ∷ []) dead_item).0
      (requeue_dead_letters (second_ref ∷ second_ref ∷ []) dead_item).1
requeue_dead_letters-Revives_example =
    requeue_dead_letters-Revives (second_ref ∷ second_ref ∷ []) dead_item

-- the fifth failed attempt, run by the code
parked : (strikes 5 "w1" 0 5 one_item).dead ≡ first_ref ∷ []
unfolding claim nack lookup insert delete itoa encode_task_ref
parked = refl

revived : (requeue_dead_letters (second_ref ∷ second_ref ∷ []) dead_item).1 ≡ 1
unfolding requeue_dead_letters encode_task_ref lookup insert
revived = refl
