-- ===== src/Base/Results.antt =====
-- A Go function that also returns an error, and methods that change a state and may fail: a chain
-- of them stops at the first error, and what was written stays written.
use Prim.Native.String.{String}
use mathlib.Core.Path.{◌≡◌, refl, sym, ap, subst}

pub data Result {ℓ} (A : Type ℓ) : Type ℓ where
  ok : A → Result A
  err : String → Result A

abbrev pub Action {ℓ κ} : Type ℓ → Type κ → Type (ℓ ⊔ κ)
Action S A = S → S × Result A

abbrev pub pure {ℓ κ} : {S : Type ℓ} {A : Type κ} → A → Action S A
pure a s = (s, ok a)

abbrev pub raise {ℓ κ} : {S : Type ℓ} {A : Type κ} → String → Action S A
raise message s = (s, err message)

-- what comes behind a call, if it has succeeded
abbrev pub after {ℓ κ μ} :
    {S : Type ℓ} {A : Type κ} {B : Type μ} → S × Result A → (A → Action S B) → S × Result B
after (s, ok a) f = f a s
after (s, err message) f = (s, err message)

-- a call whose value and error are dropped
abbrev pub attempt {ℓ κ} : {S : Type ℓ} {A : Type κ} → Action S A → Action S (Unit {0})
attempt m s = ((m s).0, ok tt)

infixl 5 ◌>>=◌ ◌>>◌
abbrev pub ◌>>=◌ {ℓ κ μ} :
    {S : Type ℓ} {A : Type κ} {B : Type μ} → Action S A → (A → Action S B) → Action S B
(m >>= f) s = after (m s) f

abbrev pub ◌>>◌ {ℓ κ} : {S : Type ℓ} {B : Type κ} → Action S (Unit {0}) → Action S B → Action S B
m >> k = m >>= λ _. k

-- The call has succeeded, and `Q` holds of its state and its value.
pub record Ran {ℓ κ μ} {S : Type ℓ} {A : Type κ} (Q : S → A → Type μ) (out : S × Result A)
    : Type (κ ⊔ μ) where
  pub value : A
  pub succeeded : out.1 ≡ ok value
  pub holds : Q out.0 value

pub Ran-pure {ℓ κ μ} :
    {S : Type ℓ} {A : Type κ} {Q : S → A → Type μ} (s : S) (a : A) → Q s a → Ran Q (s, ok a)
Ran-pure s a h = record { value = a; succeeded = refl; holds = h }

pub Ran-map {ℓ κ μ ν} :
    {S : Type ℓ} {A : Type κ} {Q : S → A → Type μ} {R : S → A → Type ν} {out : S × Result A}
    → ((s : S) (a : A) → Q s a → R s a)
    → Ran Q out
    → Ran R out
Ran-map f h = record { value = h.value; succeeded = h.succeeded; holds = f _ h.value h.holds }

abbrev value_or {κ} : {A : Type κ} → A → Result A → A
value_or d (ok a) = a
value_or d (err message) = d

-- Calls in a row: the second one starts where the first one has ended.
pub Ran-after {ℓ κ μ ν ξ} :
    {S : Type ℓ} {A : Type κ} {B : Type μ} {Q : S → A → Type ν} {R : S → B → Type ξ}
    (out : S × Result A) {f : A → Action S B}
    → Ran Q out
    → ((s : S) (a : A) → Q s a → Ran R (f a s))
    → Ran R (after out f)
Ran-after {Q = Q} (s, ok a) h k = k s a (subst (Q s) (ap (value_or a) (sym h.succeeded)) h.holds)
Ran-after (s, err message) h k = absurd (cc (h.succeeded))
