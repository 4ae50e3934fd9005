-- ===== src/Limits/Sliding.antt =====
-- internal/api/rate_limit.go against an abstract limiter, which remembers every request that it let
-- through and counts those within the window.
use splai.Base.{
  ℕ, ◌≤◌, String, ◌≡◌, refl, ◌∙◌, ap, false, List, [], ◌∷◌, ◌++◌, arith, Bool-cases, inl, inr,
}
use splai.Limits.{SubmitLimiter, new_submit_limiter, tenant_key, allow_limited}
use splai.Limits.Windows.{Tracks, log_of, lets_through, allow_locked-decides}
use splai.Limits.Bounds.{
  run, IsClock, IsLike, is_off, allow_limited-IsLike, allow_limited-Tracks, new-Tracks,
}

-- the abstract limiter: what it lets through, given what it has let through so far
abbrev pub slide : ℕ → ℕ → List (String × ℕ) → List (String × ℕ) → List (String × ℕ)
slide global per_tenant [] log = log
slide global per_tenant ((k, ts) ∷ rs) log =
    slide global per_tenant rs
      (log_of (lets_through 60 global per_tenant (tenant_key k, ts) log) (tenant_key k) ts log)

allow_limited-decides :
    (now ts : ℕ) (k : String) (l : SubmitLimiter) (log : List (String × ℕ))
    → now ≤ ts
    → is_off l ≡ false
    → Tracks now l log
    → (allow_limited k ts l).1
      ≡ lets_through l.window l.global_max l.per_tenant_max (tenant_key k, ts) log
unfolding allow_limited
allow_limited-decides now ts k l log le off t =
    rw off (allow_locked-decides now ts le (tenant_key k) l log t)

run-slide :
    (global per_tenant now : ℕ) (rs : List (String × ℕ)) (l : SubmitLimiter)
    (log : List (String × ℕ))
    → IsClock now rs
    → is_off l ≡ false
    → IsLike (new_submit_limiter per_tenant global) l
    → Tracks now l log
    → (run rs l log).1 ≡ slide global per_tenant rs log
run-slide global per_tenant now [] l log c off like t = refl
run-slide global per_tenant now ((k, ts) ∷ rs) l log c off like t =
    let s = allow_limited k ts l in
    let log' = log_of s.1 (tenant_key k) ts log in
    let like' = allow_limited-IsLike k ts l in
    let verdict : s.1 ≡ lets_through 60 global per_tenant (tenant_key k, ts) log = ground (
      arith,
      allow_limited-decides now ts k l log c.0 off t,
      like.window_like,
      like.global_like,
      like.tenant_like,
    ) in
    run-slide global per_tenant ts rs s.0 log' c.1
      (ground (arith, like'.tenant_like, like'.global_like))
      (record {
        window_like = like'.window_like ∙ like.window_like;
        global_like = like'.global_like ∙ like.global_like;
        tenant_like = like'.tenant_like ∙ like.tenant_like;
      })
      (allow_limited-Tracks now ts k l log c.0 off t)
    ∙ ap (λ b. slide global per_tenant rs (log_of b (tenant_key k) ts log)) verdict

-- without limits everything passes
off-slide :
    (rs : List (String × ℕ)) (log : List (String × ℕ))
    → (run rs (new_submit_limiter 0 0) log).1 ≡ slide 0 0 rs log
unfolding allow_limited
off-slide [] log = refl
off-slide ((k, ts) ∷ rs) log = off-slide rs (log ++ (tenant_key k, ts) ∷ [])

-- The limiter decides as the abstract one, which remembers all that it let through: for every
-- sequence of requests under a clock that does not run backwards, both let the same requests
-- through, those at which neither the tenant nor all tenants together have used up the limit of the
-- last 60 seconds.
pub run-refines :
    (per_tenant global : ℕ) (rs : List (String × ℕ))
    → IsClock 0 rs
    → (run rs (new_submit_limiter per_tenant global) []).1 ≡ slide global per_tenant rs []
run-refines per_tenant global rs c =
    let l = new_submit_limiter per_tenant global in
    elim (Bool-cases (is_off l)) [
      | inl off ↦
          let t : per_tenant ≡ 0 = ground arith in
          let g : global ≡ 0 = ground arith in rw (t, g) (off-slide rs [])
      | inr on ↦
          run-slide global per_tenant 0 rs l [] c on
            (record { window_like = refl; global_like = refl; tenant_like = refl })
            (new-Tracks per_tenant global)
    ]
