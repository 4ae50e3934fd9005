-- ===== src/Redis/Wire/Answers.antt =====
-- `readRESP` of internal/state/redis_queue.go answers on every input.
use Prim.Native.Char.{Char}
use splai.Base.{ℕ, ◌≤◌, String, some, List, length, ok, err}
use splai.Redis.Wire.{Answer}

-- an answer, with no more than `n` characters left
pub data Ends {A : Type 0} (n : ℕ) : Answer A → Type 0 where
  failed : (message : String) → Ends n (some (err message))
  got : (v : A) (rest : List Char) → length rest ≤ n → Ends n (some (ok (v, rest)))
