-- ===== src/Tests/LimitsTests.antt =====
-- The limits of internal/api/rate_limit.go and internal/api/admin_safety.go at concrete requests.
use splai.Base.{ℕ, String, ◌≡◌, List, [], ◌∷◌, arith}
use splai.Limits.{AdminSafety, new_submit_limiter}
use splai.Limits.Bounds.{run, IsClock}
use splai.Limits.Sliding.{slide, run-refines}

-- four requests, the third of them one too many for its tenant
abbrev requests : List (String × ℕ)
requests = ("acme", 100) ∷ ("", 110) ∷ ("acme", 120) ∷ ("acme", 161) ∷ []

requests-IsClock : IsClock 0 requests
requests-IsClock = (omega arith, (omega arith, (omega arith, (omega arith, tt))))

run-refines_example : (run requests (new_submit_limiter 1 3) []).1 ≡ slide 3 1 requests []
run-refines_example = run-refines 1 3 requests requests-IsClock

abbrev safety : AdminSafety
safety = record {
  max_batch = 100;
  rate_limit_per_min = 1;
  confirm_threshold = 20;
  confirm_token = "";
  recent_requeue_unix = [];
}
