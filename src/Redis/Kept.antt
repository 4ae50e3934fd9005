-- ===== src/Redis/Kept.antt =====
-- What the Redis queue of internal/state/redis_queue.go holds: how often each payload stands in it,
-- and what is well-formed.
use splai.Base.{
  ℕ, ◌+◌, ◌<◌, String, ◌≡◌, refl, ◌∙◌, Bool, false, none, some, List, [], ◌∷◌, arith, if◌then◌else◌,
  is_empty, str_eq, eq_iff, count, Map, lookup, lookup_or, insert, delete, values, Distinct,
  delete-Distinct, lookup-delete, member,
}
use splai.Redis.Server.{Held, remove}

abbrev pub one_if : Bool → ℕ
one_if b = if b then 1 else 0

-- how often a payload stands in a list
abbrev pub times : String → List String → ℕ
times p xs = count (λ x. str_eq p x) xs

-- how often a payload waits, is claimed or is dead
abbrev pub copies : String → Held → ℕ
copies p h = times p h.pending + times p (values h.claims) + times p h.dead

-- Each receipt has one payload, which is not empty, and no payload has reached the limit of failures.
pub record IsSound (limit : ℕ) (h : Held) : Type 0 where
  pub distinct : Distinct h.claims
  pub filled : (k p : String) → lookup k h.claims ≡ some p → is_empty p ≡ false
  pub counted : (p : String) → lookup_or 0 p h.nack < limit

-- what is held stays well-formed, and the number of copies of each payload stays
pub record Keeps (limit : ℕ) (h h' : Held) : Type 0 where
  pub sound : IsSound limit h'
  pub same : (p : String) → copies p h' ≡ copies p h

pub Keeps-refl : {limit : ℕ} {h : Held} → IsSound limit h → Keeps limit h h
Keeps-refl i = record { sound = i; same = λ p. refl }

pub Keeps-trans :
    {limit : ℕ} {h h' h'' : Held} → Keeps limit h h' → Keeps limit h' h'' → Keeps limit h h''
Keeps-trans a b = record { sound = b.sound; same = λ p. b.same p ∙ a.same p }

-- a fresh key adds one copy
pub times-insert :
    (p k x : String) (m : Map String)
    → lookup k m ≡ none
    → times p (values (insert k x m)) ≡ times p (values m) + one_if (str_eq p x)
unfolding insert lookup
times-insert p k x [] h = omega arith
times-insert p k x ((j, y) ∷ m) h = ground (arith, times-insert p k x m)

pub times-delete_absent :
    (p k : String) (m : Map String)
    → lookup k m ≡ none
    → times p (values (delete k m)) ≡ times p (values m)
unfolding delete lookup
times-delete_absent p k [] h = refl
times-delete_absent p k ((j, y) ∷ m) h = ground (arith, times-delete_absent p k m)

-- deleting a key takes one copy away
pub times-delete :
    (p k x : String) (m : Map String)
    → Distinct m
    → lookup k m ≡ some x
    → times p (values (delete k m)) + one_if (str_eq p x) ≡ times p (values m)
unfolding delete lookup
times-delete p k x [] d h = ground arith
times-delete p k x ((j, y) ∷ m) d h =
    ground (arith, eq_iff j k, times-delete p k x m d.1, times-delete_absent p k m)

pub times-remove :
    (p x : String) (xs : List String)
    → times p (remove x xs) + (if member x xs then one_if (str_eq p x) else 0) ≡ times p xs
times-remove p x [] = omega arith
times-remove p x (y ∷ ys) = ground (arith, eq_iff x y, times-remove p x ys)

-- a claim without a receipt in the table leaves the table
pub deleted-IsSound :
    {limit : ℕ} (h : Held) (k : String)
    → IsSound limit h
    → IsSound limit (record h { claims = delete k h.claims; visibility = delete k h.visibility })
deleted-IsSound h k i = record {
  distinct = delete-Distinct k h.claims i.distinct;
  filled = λ j p e. ground (arith, lookup-delete k j h.claims, i.filled j p);
  counted = i.counted;
}
