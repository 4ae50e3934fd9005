-- ===== src/Redis/Nacks.antt =====
-- `Nack` of internal/state/redis_queue.go loses and doubles nothing.
use splai.Base.{
  ℕ, ◌+◌, String, ◌≡◌, Bool, true, false, some, ◌∷◌, arith, leb, if◌then◌else◌, delete-Distinct,
  str_eq, eq_iff, lookup, lookup_or, insert, delete, lookup-insert, lookup-delete,
}
use splai.Redis.Server.{Held}
use splai.Redis.Queue.{nack}
use splai.Redis.Kept.{IsSound, Keeps, times-delete}

abbrev pub next_count : String → Held → ℕ
next_count p h = lookup_or 0 p h.nack + 1

abbrev pub counted_up : String → Held → Held
counted_up p h = record h { nack = insert p (next_count p h) h.nack }

-- what the count of failures leaves, and whether it has reached the limit
abbrev pub struck : String → String → Held → Held
struck reason p h = if str_eq reason "error" then counted_up p h else h

abbrev pub is_out : ℕ → String → String → Held → Bool
is_out limit reason p h = if str_eq reason "error" then leb limit (next_count p h) else false

abbrev pub parked : Bool → String → Held → Held
parked true p h = record h { dead = p ∷ h.dead; nack = delete p h.nack }
parked false p h = record h { pending = p ∷ h.pending }

abbrev pub dropped : String → Held → Held
dropped k h = record h { claims = delete k h.claims; visibility = delete k h.visibility }

-- a claimed payload goes back to the waiting ones or to the dead ones, in one copy
pub nacked-Keeps :
    (limit : ℕ) (reason k p : String) (h : Held)
    → IsSound limit h
    → lookup k h.claims ≡ some p
    → Keeps limit h (dropped k (parked (is_out limit reason p h) p (struck reason p h)))
nacked-Keeps limit reason k p h i found = record {
  sound = record {
    distinct = ground (arith, delete-Distinct k h.claims i.distinct);
    filled = λ j v e. ground (arith, lookup-delete k j h.claims, i.filled j v);
    counted = λ v. ground (
      arith,
      i.counted v,
      i.counted p,
      eq_iff p v,
      lookup-insert p v (next_count p h) h.nack,
      lookup-delete p v (insert p (next_count p h) h.nack),
    );
  };
  same = λ x. ground (arith, times-delete x k p h.claims i.distinct found);
}
