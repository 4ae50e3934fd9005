-- ===== src/Limits.antt =====
-- The limits on requests: submitLimiter of internal/api/rate_limit.go and adminSafety of
-- internal/api/admin_safety.go. The clock is one from 1970 on, in whole seconds since then; the
-- window and the cutoff are compared by sums, since the code's differences may be negative.
pub mod Sorted
pub mod Windows
pub mod Bounds
pub mod Sliding
pub mod Admin
pub mod Env
use splai.Base.{
  ℕ, ◌+◌, String, Bool, true, false, ◌&&◌, List, [], ◌∷◌, ◌++◌, Option, none, some, if◌then◌else◌,
  ltb, leb, ◌==◌, length, keep, is_empty, Map, lookup_or, insert,
}

pub record SubmitLimiter : Type 0 where
  pub per_tenant_max : ℕ
  pub global_max : ℕ
  pub window : ℕ
  pub tenants : Map (List ℕ)
  pub global : List ℕ

-- the limiter that `newSubmitLimiterFromEnv` builds from the two numbers that it read
abbrev pub new_submit_limiter : ℕ → ℕ → SubmitLimiter
new_submit_limiter per_tenant global = record {
  per_tenant_max = per_tenant;
  global_max = global;
  window = 60;
  tenants = [];
  global = [];
}

-- the entries from the first on that is younger than the window, at the instant `ts`
unfoldable pub trim_cutoff : ℕ → ℕ → List ℕ → List ℕ
trim_cutoff window ts [] = []
trim_cutoff window ts (x ∷ xs) =
    let rest = trim_cutoff window ts xs in if leb (x + window) ts then rest else x ∷ xs

abbrev pub tenant_key : String → String
tenant_key tenant = if is_empty tenant then "default" else tenant

-- the part of `allow` under the lock
unfoldable pub allow_locked : String → ℕ → SubmitLimiter → SubmitLimiter × Bool
unfolding trim_cutoff
allow_locked tenant ts l =
    let global = trim_cutoff l.window ts l.global in
    let history = trim_cutoff l.window ts (lookup_or [] tenant l.tenants) in
    if ltb 0 l.global_max && leb l.global_max (length global)
    then (record l { global = global }, false)
    else if ltb 0 l.per_tenant_max && leb l.per_tenant_max (length history)
    then (record l { global = global; tenants = insert tenant history l.tenants }, false)
    else (
      record l {
        global = global ++ ts ∷ [];
        tenants = insert tenant (history ++ ts ∷ []) l.tenants;
      },
      true,
    )

unfoldable pub allow_limited : String → ℕ → SubmitLimiter → SubmitLimiter × Bool
unfolding allow_locked
allow_limited tenant ts l =
    if l.per_tenant_max == 0 && l.global_max == 0
    then (l, true)
    else allow_locked (tenant_key tenant) ts l

-- `allow`, also on the nil pointer
unfoldable pub allow : String → ℕ → Option SubmitLimiter → Option SubmitLimiter × Bool
unfolding allow_limited
allow tenant ts none = (none, true)
allow tenant ts (some l) = let (l', ok) = allow_limited tenant ts l in (some l', ok)

pub record AdminSafety : Type 0 where
  pub max_batch : ℕ
  pub rate_limit_per_min : ℕ
  pub confirm_threshold : ℕ
  pub confirm_token : String
  pub recent_requeue_unix : List ℕ

unfoldable pub allow_requeue : ℕ → AdminSafety → AdminSafety × Bool
allow_requeue now a =
    let kept = keep (λ ts. leb now (ts + 60)) a.recent_requeue_unix in
    if a.rate_limit_per_min == 0
    then (a, true)
    else if leb a.rate_limit_per_min (length kept)
    then (record a { recent_requeue_unix = kept }, false)
    else (record a { recent_requeue_unix = kept ++ now ∷ [] }, true)
