-- ===== src/Limits/Bounds.antt =====
-- The limits of internal/api/rate_limit.go and internal/api/admin_safety.go over whole sequences of
-- requests.
use splai.Base.{
  ℕ, ◌≤◌, ◌<◌, String, ◌≡◌, refl, subst, ◌∙◌, Bool, false, ◌&&◌, List, [], ◌∷◌, arith, ◌==◌, lookup,
  Bool-cases, inl, inr,
}
use splai.Limits.{SubmitLimiter, new_submit_limiter, tenant_key, allow_locked, allow_limited}
use splai.Limits.Windows.{within, times, served, Tracks, log_of, allow_locked-Tracks}

-- requests at the limiter, one after the other, and the list of those that it let through
abbrev pub run :
    List (String × ℕ) → SubmitLimiter → List (String × ℕ) → SubmitLimiter × List (String × ℕ)
run [] l log = (l, log)
run ((k, ts) ∷ rs) l log =
    let (l', ok) = allow_limited k ts l in run rs l' (log_of ok (tenant_key k) ts log)

-- the clock does not run backwards
abbrev pub IsClock : ℕ → List (String × ℕ) → Type 0
IsClock now [] = Unit
IsClock now ((k, ts) ∷ rs) = (now ≤ ts) × IsClock ts rs

abbrev pub last_tick : ℕ → List (String × ℕ) → ℕ
last_tick now [] = now
last_tick now ((k, ts) ∷ rs) = last_tick ts rs

-- the two limiters have the same limits
pub record IsLike (l l' : SubmitLimiter) : Type 0 where
  pub window_like : l'.window ≡ l.window
  pub global_like : l'.global_max ≡ l.global_max
  pub tenant_like : l'.per_tenant_max ≡ l.per_tenant_max

pub allow_limited-IsLike :
    (k : String) (ts : ℕ) (l : SubmitLimiter) → IsLike l (allow_limited k ts l).0
unfolding allow_limited allow_locked
allow_limited-IsLike k ts l = record {
  window_like = ground arith;
  global_like = ground arith;
  tenant_like = ground arith;
}

abbrev pub is_off : SubmitLimiter → Bool
is_off l = l.per_tenant_max == 0 && l.global_max == 0

pub allow_limited-Tracks :
    (now ts : ℕ) (k : String) (l : SubmitLimiter) (log : List (String × ℕ))
    → now ≤ ts
    → is_off l ≡ false
    → Tracks now l log
    → let (l', ok) = allow_limited k ts l in Tracks ts l' (log_of ok (tenant_key k) ts log)
unfolding allow_limited
allow_limited-Tracks now ts k l log le off t =
    rw off (allow_locked-Tracks now ts le (tenant_key k) l log t)

IsLike-trans : (l l' l'' : SubmitLimiter) → IsLike l l' → IsLike l' l'' → IsLike l l''
IsLike-trans l l' l'' a b = record {
  window_like = b.window_like ∙ a.window_like;
  global_like = b.global_like ∙ a.global_like;
  tenant_like = b.tenant_like ∙ a.tenant_like;
}

run-Tracks :
    (now : ℕ) (rs : List (String × ℕ)) (l : SubmitLimiter) (log : List (String × ℕ))
    → IsClock now rs
    → is_off l ≡ false
    → Tracks now l log
    → let (l', log') = run rs l log in Tracks (last_tick now rs) l' log' × IsLike l l'
run-Tracks now [] l log c off t =
    (t, record { window_like = refl; global_like = refl; tenant_like = refl })
run-Tracks now ((k, ts) ∷ rs) l log c off t =
    let s = allow_limited k ts l in
    let like = allow_limited-IsLike k ts l in
    let (t', like') =
      run-Tracks ts rs s.0 (log_of s.1 (tenant_key k) ts log) c.1
        (ground (arith, like.tenant_like, like.global_like))
        (allow_limited-Tracks now ts k l log c.0 off t) in
    (t', IsLike-trans l s.0 (run rs s.0 (log_of s.1 (tenant_key k) ts log)).0 like like')

-- the bounds in terms of the limiter at the start
Tracks-global :
    (n : ℕ) (l l' : SubmitLimiter) (log : List (String × ℕ))
    → IsLike l l'
    → Tracks n l' log
    → 0 < l.global_max
    → within l.window n (times log) ≤ l.global_max
Tracks-global n l l' log like t p =
    subst (λ w. within w n (times log) ≤ l.global_max) like.window_like
      (omega (
        arith,
        like.global_like,
        t.global_bound (omega (arith, p, like.global_like)) n (omega arith),
      ))

Tracks-tenant :
    (n : ℕ) (l l' : SubmitLimiter) (log : List (String × ℕ))
    → IsLike l l'
    → Tracks n l' log
    → 0 < l.per_tenant_max
    → (k : String) → within l.window n (served k log) ≤ l.per_tenant_max
Tracks-tenant n l l' log like t p k =
    subst (λ w. within w n (served k log) ≤ l.per_tenant_max) like.window_like
      (omega (
        arith,
        like.tenant_like,
        t.tenant_bound (omega (arith, p, like.tenant_like)) k n (omega arith),
      ))

pub new-Tracks : (a b : ℕ) → Tracks 0 (new_submit_limiter a b) []
unfolding lookup
new-Tracks a b = record {
  global_covers = λ n m. refl;
  tenant_covers = λ k n m. refl;
  global_sorted = omega arith;
  tenant_sorted = λ k. omega arith;
  global_bound = λ p n m. omega arith;
  tenant_bound = λ p k n m. omega arith;
}

-- However many requests come in under a clock that does not run backwards: within the last 60
-- seconds a new limiter has let through no more of them than its global limit, and no more of one
-- tenant than its limit for a tenant, where a limit of 0 is none.
pub run-within :
    (per_tenant global : ℕ) (rs : List (String × ℕ))
    → IsClock 0 rs
    → let log = (run rs (new_submit_limiter per_tenant global) []).1 in
      (0 < global → within 60 (last_tick 0 rs) (times log) ≤ global)
      × (0 < per_tenant → (k : String) → within 60 (last_tick 0 rs) (served k log) ≤ per_tenant)
run-within per_tenant global rs c =
    elim (Bool-cases (is_off (new_submit_limiter per_tenant global))) [
      | inl off ↦ ((λ p. ground arith), (λ p k. ground arith))
      | inr on ↦
          let (t, like) =
            run-Tracks 0 rs (new_submit_limiter per_tenant global) [] c on
              (new-Tracks per_tenant global) in
          ((λ p. Tracks-global _ _ _ _ like t p), (λ p k. Tracks-tenant _ _ _ _ like t p k))
    ]
