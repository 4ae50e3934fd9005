-- ===== src/Limits/Env.antt =====
-- How internal/api/rate_limit.go and internal/api/admin_safety.go read their limits from the
-- environment. A negative limit of the second file is off as 0 is, and stands as 0 here.
use splai.Base.{
  ℕ, String, [], Option, none, some, if◌then◌else◌, is_empty, trim_space, ℤ, pos, negsuc, atoi,
}
use splai.Limits.{SubmitLimiter, new_submit_limiter, AdminSafety}

abbrev or_fallback : ℕ → Option ℤ → ℕ
or_fallback fallback none = fallback
or_fallback fallback (some (pos n)) = n
or_fallback fallback (some (negsuc n)) = 0

unfoldable pub getenv_int : (String → String) → String → ℕ → ℕ
getenv_int getenv key fallback =
    let raw = getenv key in if is_empty raw then fallback else or_fallback fallback (atoi raw)

unfoldable pub getenv_int_rl : (String → String) → String → ℕ → ℕ
getenv_int_rl getenv key fallback =
    let raw = trim_space (getenv key) in
    if is_empty raw then fallback else or_fallback fallback (atoi raw)

unfoldable pub new_submit_limiter_from_env : (String → String) → SubmitLimiter
unfolding getenv_int_rl
new_submit_limiter_from_env getenv =
    new_submit_limiter (getenv_int_rl getenv "SPLAI_SUBMIT_RATE_LIMIT_PER_MIN" 1000)
      (getenv_int_rl getenv "SPLAI_SUBMIT_GLOBAL_RATE_LIMIT_PER_MIN" 5000)

unfoldable pub new_admin_safety_from_env : (String → String) → AdminSafety
unfolding getenv_int
new_admin_safety_from_env getenv = record {
  max_batch = getenv_int getenv "SPLAI_ADMIN_REQUEUE_MAX_BATCH" 100;
  rate_limit_per_min = getenv_int getenv "SPLAI_ADMIN_REQUEUE_RATE_LIMIT_PER_MIN" 30;
  confirm_threshold = getenv_int getenv "SPLAI_ADMIN_REQUEUE_CONFIRM_THRESHOLD" 20;
  confirm_token = getenv "SPLAI_ADMIN_REQUEUE_CONFIRM_TOKEN";
  recent_requeue_unix = [];
}
