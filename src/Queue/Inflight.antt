-- ===== src/Queue/Inflight.antt =====
-- The table of the claims in flight, `inflight` of internal/state/memory_queue.go: which receipts
-- it holds, and how often each reference stands in it.
use splai.Base.{
  ℕ, ◌+◌, ◌≤◌, ◌<◌, String, ◌⧺◌, ◌≡◌, refl, sym, ◌∙◌, ap, none, some, [], ◌∷◌, arith, if◌then◌else◌,
  Map, lookup, insert, delete, Distinct, itoa, itoa_inj, last, last-split-colon, split, eq_iff,
}
use splai.State.{TaskRef, QueueClaim, ref_eq}
use splai.Queue.{mem_receipt}

-- A receipt ends in its number, whatever colons the consumer's name holds.
last-mem_receipt : (consumer : String) (n : ℕ) → last (split ":" (mem_receipt consumer n)) ≡ itoa n
unfolding mem_receipt
last-mem_receipt consumer n = last-split-colon ("mem:" ⧺ consumer) n

pub mem_receipt_inj : (c d : String) (m n : ℕ) → mem_receipt c m ≡ mem_receipt d n → m ≡ n
mem_receipt_inj c d m n e =
    itoa_inj m n
      (sym (last-mem_receipt c m) ∙ ap (λ s. last (split ":" s)) e ∙ last-mem_receipt d n)

-- the number of a receipt that this queue handed out, at most `n`
pub record IsIssued (n : ℕ) (key : String) (c : QueueClaim) : Type 0 where
  pub number : ℕ
  pub within : number ≤ n
  pub named : key ≡ mem_receipt c.claimed_by number
  pub own : c.receipt ≡ key

abbrev pub AllIssued : ℕ → Map QueueClaim → Type 0
AllIssued n [] = Unit
AllIssued n ((k, c) ∷ m) = IsIssued n k c × AllIssued n m

-- how often a reference stands in the table
abbrev pub claims_of : TaskRef → Map QueueClaim → ℕ
claims_of r [] = 0
claims_of r ((k, c) ∷ m) = (if ref_eq r c.ref then 1 else 0) + claims_of r m

pub fresh_receipt :
    (n j : ℕ) (c : String) (m : Map QueueClaim)
    → AllIssued n m
    → n < j
    → lookup (mem_receipt c j) m ≡ none
unfolding lookup
fresh_receipt n j c [] a h = refl
fresh_receipt n j c ((k, d) ∷ m) a h = ground (
  arith,
  eq_iff k (mem_receipt c j),
  mem_receipt_inj d.claimed_by c a.0.number j,
  fresh_receipt n j c m a.1,
)

IsIssued-mono : {m n : ℕ} {k : String} {c : QueueClaim} → m ≤ n → IsIssued m k c → IsIssued n k c
IsIssued-mono h i = record { number = i.number; within = omega arith; named = i.named; own = i.own }

pub AllIssued-mono : {m n : ℕ} (t : Map QueueClaim) → m ≤ n → AllIssued m t → AllIssued n t
AllIssued-mono [] h a = tt
AllIssued-mono ((k, c) ∷ t) h a = (IsIssued-mono h a.0, AllIssued-mono t h a.1)

pub AllIssued-insert :
    (n : ℕ) (k : String) (c : QueueClaim) (m : Map QueueClaim)
    → IsIssued n k c
    → AllIssued n m
    → AllIssued n (insert k c m)
unfolding insert
AllIssued-insert n k c [] i a = (i, tt)
AllIssued-insert n k c ((j, d) ∷ m) i a = ground (arith, AllIssued-insert n k c m i a.1)

pub AllIssued-delete :
    (n : ℕ) (k : String) (m : Map QueueClaim) → AllIssued n m → AllIssued n (delete k m)
unfolding delete
AllIssued-delete n k [] a = tt
AllIssued-delete n k ((j, d) ∷ m) a = ground (arith, AllIssued-delete n k m a.1)

-- a fresh receipt adds one claim
pub claims_of-insert :
    (r : TaskRef) (k : String) (c : QueueClaim) (m : Map QueueClaim)
    → lookup k m ≡ none
    → claims_of r (insert k c m) ≡ claims_of r m + (if ref_eq r c.ref then 1 else 0)
unfolding insert lookup
claims_of-insert r k c [] h = omega arith
claims_of-insert r k c ((j, d) ∷ m) h = ground (arith, claims_of-insert r k c m)

pub claims_of-delete_absent :
    (r : TaskRef) (k : String) (m : Map QueueClaim)
    → lookup k m ≡ none
    → claims_of r (delete k m) ≡ claims_of r m
unfolding delete lookup
claims_of-delete_absent r k [] h = refl
claims_of-delete_absent r k ((j, d) ∷ m) h = ground (arith, claims_of-delete_absent r k m)

-- deleting a claim takes one away
pub claims_of-delete :
    (r : TaskRef) (k : String) (c : QueueClaim) (m : Map QueueClaim)
    → Distinct m
    → lookup k m ≡ some c
    → claims_of r (delete k m) + (if ref_eq r c.ref then 1 else 0) ≡ claims_of r m
unfolding delete lookup
claims_of-delete r k c [] d h = ground arith
claims_of-delete r k c ((j, e) ∷ m) d h =
    ground (arith, eq_iff j k, claims_of-delete r k c m d.1, claims_of-delete_absent r k m)
