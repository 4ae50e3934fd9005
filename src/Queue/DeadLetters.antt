-- ===== src/Queue/DeadLetters.antt =====
-- The dead letters of internal/state/memory_queue.go: how an operator gets a reference out.
use splai.Base.{
  ℕ, ◌+◌, ◌-◌, min, String, ◌≡◌, refl, sym, Bool, List, [], ◌∷◌, ◌++◌, arith, if◌then◌else◌, Map,
  lookup, lookup_or, insert, str_eq, count, length, lookup-insert, eq_iff, count-append,
}
use mathlib.Core.List.{append-nil}
use splai.State.{TaskRef, ref_eq, encode_task_ref}
use splai.Queue.{MemoryQueue, count_targets, requeue_dead_loop, requeue_dead, requeue_dead_letters}
use splai.Queue.Claims.{Conserves}

-- how often a reference with this encoding stands in a list
abbrev pub with_key : String → List TaskRef → ℕ
with_key k = count (λ r. str_eq (encode_task_ref r) k)

lookup_or-insert :
    (k j : String) (n : ℕ) (m : Map ℕ)
    → lookup_or 0 j (insert k n m) ≡ (if str_eq k j then n else lookup_or 0 j m)
lookup_or-insert k j n m = ground (arith, lookup-insert k j n m)

-- the targets count the requests
pub count_targets-with_key :
    (refs : List TaskRef) (target : Map ℕ) (k : String)
    → lookup_or 0 k (count_targets refs target) ≡ lookup_or 0 k target + with_key k refs
unfolding count_targets
count_targets-with_key [] target k = omega arith
count_targets-with_key (r ∷ rs) target k =
    let key = encode_task_ref r in
    let n = lookup_or 0 key target + 1 in
    ground (
      arith,
      count_targets-with_key rs (insert key n target) k,
      lookup_or-insert key k n target,
      eq_iff key k,
    )

pub loop-with_key :
    (rs : List TaskRef) (target : Map ℕ) (k : String)
    → with_key k (requeue_dead_loop rs target).moved ≡ min (lookup_or 0 k target) (with_key k rs)
unfolding requeue_dead_loop
loop-with_key [] target k = omega arith
loop-with_key (r ∷ rs) target k =
    let key = encode_task_ref r in
    let n = lookup_or 0 key target in
    ground (
      arith,
      loop-with_key rs target k,
      loop-with_key rs (insert key (n - 1) target) k,
      lookup_or-insert key k (n - 1) target,
      eq_iff key k,
    )

loop-splits :
    (rs : List TaskRef) (target : Map ℕ) (p : TaskRef → Bool)
    → let q = requeue_dead_loop rs target in count p q.moved + count p q.kept ≡ count p rs
unfolding requeue_dead_loop
loop-splits [] target p = refl
loop-splits (r ∷ rs) target p =
    let key = encode_task_ref r in
    let n = lookup_or 0 key target in
    ground (arith, loop-splits rs target p, loop-splits rs (insert key (n - 1) target) p)

pub loop-counts :
    (rs : List TaskRef) (target : Map ℕ)
    → (requeue_dead_loop rs target).requeued ≡ length (requeue_dead_loop rs target).moved
unfolding requeue_dead_loop
loop-counts [] target = refl
loop-counts (r ∷ rs) target =
    let key = encode_task_ref r in
    let n = lookup_or 0 key target in
    ground (arith, loop-counts rs target, loop-counts rs (insert key (n - 1) target))

-- What `RequeueDeadLetters` promises: `moved` goes behind the items, and out of the dead letters.
pub record Revives (refs : List TaskRef) (q q' : MemoryQueue) (n : ℕ) : Type 0 where
  pub moved : List TaskRef
  pub placed : q'.items ≡ q.items ++ moved
  pub counted : n ≡ length moved
  pub exact : (k : String) → with_key k moved ≡ min (with_key k refs) (with_key k q.dead)
  pub kept : Conserves q q'

requeue_dead-Revives :
    (refs : List TaskRef) (q : MemoryQueue)
    → Revives refs q (requeue_dead refs q).0 (requeue_dead refs q).1
unfolding requeue_dead lookup
requeue_dead-Revives refs q =
    let target = count_targets refs [] in
    let r = requeue_dead_loop q.dead target in
    record {
      moved = r.moved;
      placed = refl;
      counted = loop-counts q.dead target;
      exact = λ k. exact k;
      kept = λ x.
          omega
            (arith, count-append (ref_eq x) q.items r.moved, loop-splits q.dead target (ref_eq x));
    }
  where
    none_yet : (k : String) → lookup_or {V = ℕ} 0 k [] ≡ 0
    none_yet k = refl

    exact :
        (k : String)
        → with_key k (requeue_dead_loop q.dead (count_targets refs [])).moved
          ≡ min (with_key k refs) (with_key k q.dead)
    exact k =
        ground
          (arith, loop-with_key q.dead (count_targets refs []) k, count_targets-with_key refs [] k)

-- `RequeueDeadLetters` moves each encoded reference back as often as it was asked for, as far as
-- the dead letters hold it, returns how many it moved, puts them behind the items, and loses and
-- doubles no reference.
pub requeue_dead_letters-Revives :
    (refs : List TaskRef) (q : MemoryQueue)
    → Revives refs q (requeue_dead_letters refs q).0 (requeue_dead_letters refs q).1
unfolding requeue_dead_letters
requeue_dead_letters-Revives [] q = record {
  moved = [];
  placed = sym (append-nil q.items);
  counted = refl;
  exact = λ k. omega arith;
  kept = λ r. refl;
}
requeue_dead_letters-Revives (r ∷ rs) q = requeue_dead-Revives (r ∷ rs) q
