-- ===== src/Scheduler/Leases/Deadlines.antt =====
-- Lease names, lease ends and backoff of internal/scheduler/engine.go.
use splai.Base.{
  ℕ, zero, suc, ◌+◌, ◌-◌, ◌*◌, ◌<◌, ◌≤◌, ◌^◌, min, String, ◌⧺◌, ◌≡◌, refl, ap, none, some, ◌++◌,
  arith, ◌==◌, if◌then◌else◌, length, length-append, split, last, itoa, last-split-colon,
  parse_positive-itoa, split-colon, length-split_pos,
}
use splai.State.{Time, second, unix_epoch, TaskRecord}
use splai.Scheduler.Engine.{retry_backoff}
use splai.Scheduler.Leases.{new_lease_id, lease_start_from_id, task_attempt_deadline, lease_end}

-- a lease's name splits into four parts at least
lease_parts :
    (worker task : String) (attempt : ℕ) (now : Time)
    → 4 ≤ length (split ":" (new_lease_id worker task attempt now))
unfolding new_lease_id
lease_parts worker task attempt now =
    rw (split-colon (worker ⧺ (":" ⧺ (task ⧺ (":" ⧺ itoa attempt)))) (itoa (now - unix_epoch))) (
      rw (split-colon worker (task ⧺ (":" ⧺ itoa attempt))) (
        rw (split-colon task (itoa attempt)) (
          omega (
            arith,
            length-append (split ":" worker) (split ":" task ++ split ":" (itoa attempt)),
            length-append (split ":" task) (split ":" (itoa attempt)),
            length-append (split ":" worker ++ (split ":" task ++ split ":" (itoa attempt)))
                (split ":" (itoa (now - unix_epoch))),
            length-split_pos ":" worker,
            length-split_pos ":" task,
            length-split_pos ":" (itoa attempt),
            length-split_pos ":" (itoa (now - unix_epoch)),
          ))))

last-lease_id :
    (worker task : String) (attempt : ℕ) (now : Time)
    → last (split ":" (new_lease_id worker task attempt now)) ≡ itoa (now - unix_epoch)
unfolding new_lease_id
last-lease_id worker task attempt now = last-split-colon _ (now - unix_epoch)

-- From a lease's name the engine reads back the instant at which it gave the lease, whatever the
-- names of the worker and the task are, also if they hold colons: for a clock past 1970 that
-- fits 63 bits of nanoseconds.
pub lease_start_from_id-new_lease_id :
    (worker task : String) (attempt : ℕ) (now : Time)
    → unix_epoch < now
    → now < unix_epoch + 2 ^ 63
    → lease_start_from_id (new_lease_id worker task attempt now) ≡ some now
unfolding lease_start_from_id
lease_start_from_id-new_lease_id worker task attempt now after before = ground (
  arith,
  lease_parts worker task attempt now,
  last-lease_id worker task attempt now,
  parse_positive-itoa (now - unix_epoch) (omega arith) (omega arith),
)

-- A lease never outlasts the engine's lease duration, nor the attempt's timeout counted from the
-- instant in its name (from `now`, if it names none); and where neither cuts it, it has the full
-- duration.
pub lease_end_bounds :
    (duration : ℕ) (t : TaskRecord) (now : Time)
    → (lease_end duration t now ≤ now + duration)
      × ((deadline : Time)
          → task_attempt_deadline t now ≡ some deadline
          → lease_end duration t now ≡ min deadline (now + duration))
      × (task_attempt_deadline t now ≡ none → lease_end duration t now ≡ now + duration)
unfolding lease_end
lease_end_bounds duration t now = (ground arith, (λ deadline e. ground arith), (λ e. ground arith))

-- The delay before a retry doubles with each attempt up to the sixth and then stays at 32 seconds;
-- it is 1 second for the first attempt.
pub retry_backoff_doubles :
    (n : ℕ)
    → (retry_backoff 0 ≡ second)
      × (retry_backoff 1 ≡ second)
      × (0 < n → n < 6 → retry_backoff (n + 1) ≡ 2 * retry_backoff n)
      × (6 ≤ n → retry_backoff n ≡ 32 * second)
unfolding retry_backoff
retry_backoff_doubles n = (refl, refl, doubles n, capped n)
  where
    doubles : (m : ℕ) → 0 < m → m < 6 → retry_backoff (m + 1) ≡ 2 * retry_backoff m
    doubles zero h k = absurd (omega arith)
    doubles (suc zero) h k = refl
    doubles (suc (suc zero)) h k = refl
    doubles (suc (suc (suc zero))) h k = refl
    doubles (suc (suc (suc (suc zero)))) h k = refl
    doubles (suc (suc (suc (suc (suc zero))))) h k = refl
    doubles (suc (suc (suc (suc (suc (suc m)))))) h k = absurd (omega arith)

    capped : (m : ℕ) → 6 ≤ m → retry_backoff m ≡ 32 * second
    capped zero h = absurd (omega arith)
    capped (suc m) h =
        let five : min ((if suc m == 0 then 1 else suc m) - 1) 5 ≡ 5 = ground arith in
        ap (λ k. 2 ^ k * second) five
