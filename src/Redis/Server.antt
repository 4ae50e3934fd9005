-- ===== src/Redis/Server.antt =====
-- What the Redis queue of internal/state/redis_queue.go relies on: the documented effect of each
-- command that it sends, on what the server holds under the queue's five keys.
use splai.Base.{
  ℕ, ◌+◌, ◌≤◌, ◌<◌, ◌^◌, String, ◌≡◌, true, Option, none, some, List, [], ◌∷◌, ◌++◌, if◌then◌else◌,
  length, take, itoa, Map, lookup, lookup_or, insert, delete, member, str_eq, Result, Ran,
}
use splai.Redis.Wire.{Reply, no_reply, text, texts}
use splai.Redis.Queue.{
  RedisQueue, Link, pending_key, claims_key, visibility_key, nack_key, dead_key,
}

-- the lists from their left end to their right end; the scores of the claims in milliseconds
pub record Held : Type 0 where
  pub pending : List String
  pub claims : Map String
  pub visibility : Map ℕ
  pub nack : Map ℕ
  pub dead : List String

-- one text after the other, at the left end
abbrev pub push : List String → List String → List String
push [] held = held
push (x ∷ xs) held = push xs (x ∷ held)

-- without its first copy of a text
abbrev pub remove : String → List String → List String
remove x [] = []
remove x (y ∷ ys) = let rest = remove x ys in if str_eq x y then ys else y ∷ rest

abbrev pub stored : Option String → Reply
stored none = no_reply
stored (some s) = text s

-- At most `max` members whose scores are at most `latest`.
pub record AreDue (latest max : ℕ) (h : Held) (receipts : List String) : Type 0 where
  pub few : length receipts ≤ max
  pub due :
      (receipt : String)
      → member receipt receipts ≡ true
      → (score : ℕ) × (lookup receipt h.visibility ≡ some score) × (score ≤ latest)

module _ {S : Type 0} (view : S → Held) where
  -- a command that is answered with a reply and leaves `h`
  abbrev pub Replies : (Reply → Type 0) → Held → S × Result Reply → Type 0
  Replies P h out = Ran (λ s' r. P r × (view s' ≡ h)) out

  pub record Obeys (link : Link S) (q : RedisQueue) : Type 0 where
    pub dial : (s : S) → Ran (λ s' u. view s' ≡ view s) (link.dial s)
    pub auth : (s : S) → Replies (λ r. Unit) (view s) (link.exec ("AUTH" ∷ q.password ∷ []) s)
    pub select : (s : S) → Replies (λ r. Unit) (view s) (link.exec ("SELECT" ∷ itoa q.db ∷ []) s)
    pub lpush_pending :
        (s : S) (xs : List String)
        → Replies
            (λ r. Unit)
            (record (view s) { pending = push xs (view s).pending })
            (link.exec ("LPUSH" ∷ pending_key q ∷ xs) s)
    pub lpush_dead :
        (s : S) (x : String)
        → Replies
            (λ r. Unit)
            (record (view s) { dead = x ∷ (view s).dead })
            (link.exec ("LPUSH" ∷ dead_key q ∷ x ∷ []) s)
    pub rpop_none :
        (s : S)
        → (view s).pending ≡ []
        → Replies (λ r. r ≡ no_reply) (view s) (link.exec ("RPOP" ∷ pending_key q ∷ []) s)
    pub rpop_some :
        (s : S) (xs : List String) (x : String)
        → (view s).pending ≡ xs ++ x ∷ []
        → Replies
            (λ r. r ≡ text x)
            (record (view s) { pending = xs })
            (link.exec ("RPOP" ∷ pending_key q ∷ []) s)
    pub hset :
        (s : S) (k x : String)
        → Replies
            (λ r. Unit)
            (record (view s) { claims = insert k x (view s).claims })
            (link.exec ("HSET" ∷ claims_key q ∷ k ∷ x ∷ []) s)
    pub hget :
        (s : S) (k : String)
        → Replies
            (λ r. r ≡ stored (lookup k (view s).claims))
            (view s)
            (link.exec ("HGET" ∷ claims_key q ∷ k ∷ []) s)
    pub hdel_claims :
        (s : S) (k : String)
        → Replies
            (λ r. Unit)
            (record (view s) { claims = delete k (view s).claims })
            (link.exec ("HDEL" ∷ claims_key q ∷ k ∷ []) s)
    pub hdel_nack :
        (s : S) (k : String)
        → Replies
            (λ r. Unit)
            (record (view s) { nack = delete k (view s).nack })
            (link.exec ("HDEL" ∷ nack_key q ∷ k ∷ []) s)
    pub hincrby :
        (s : S) (k : String)
        → lookup_or 0 k (view s).nack + 1 < 2 ^ 63
        → Replies
            (λ r. r ≡ text (itoa (lookup_or 0 k (view s).nack + 1)))
            (record (view s) { nack = insert k (lookup_or 0 k (view s).nack + 1) (view s).nack })
            (link.exec ("HINCRBY" ∷ nack_key q ∷ k ∷ "1" ∷ []) s)
    pub zadd :
        (s : S) (score : ℕ) (k : String)
        → Replies
            (λ r. Unit)
            (record (view s) { visibility = insert k score (view s).visibility })
            (link.exec ("ZADD" ∷ visibility_key q ∷ itoa score ∷ k ∷ []) s)
    pub zrem :
        (s : S) (k : String)
        → Replies
            (λ r. Unit)
            (record (view s) { visibility = delete k (view s).visibility })
            (link.exec ("ZREM" ∷ visibility_key q ∷ k ∷ []) s)
    pub zrangebyscore :
        (s : S) (latest max : ℕ)
        → Replies
            (λ r.
              (receipts : List String) × (r ≡ texts receipts) × AreDue latest max (view s) receipts)
            (view s)
            (link.exec
              ("ZRANGEBYSCORE"
                ∷ visibility_key q
                ∷ "-inf"
                ∷ itoa latest
                ∷ "LIMIT"
                ∷ "0"
                ∷ itoa max
                ∷ [])
              s)
    pub llen :
        (s : S)
        → Replies
            (λ r. (n : ℕ) × (r ≡ text (itoa n)) × (n < 2 ^ 63))
            (view s)
            (link.exec ("LLEN" ∷ dead_key q ∷ []) s)
    pub lrange :
        (s : S) (last : ℕ)
        → Replies
            (λ r. r ≡ texts (take (last + 1) (view s).dead))
            (view s)
            (link.exec ("LRANGE" ∷ dead_key q ∷ "0" ∷ itoa last ∷ []) s)
    pub lrem :
        (s : S) (x : String)
        → Replies
            (λ r. r ≡ text (if member x (view s).dead then "1" else "0"))
            (record (view s) { dead = remove x (view s).dead })
            (link.exec ("LREM" ∷ dead_key q ∷ "1" ∷ x ∷ []) s)
