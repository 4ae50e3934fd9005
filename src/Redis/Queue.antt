-- ===== src/Redis/Queue.antt =====
-- The operations of RedisQueue in internal/state/redis_queue.go, as sequences of commands. The state
-- is the server's together with the link to it; `link` says what dialing it and one command with
-- its reply (`writeRESP` and then `readRESP`) do to it. The calls of the metrics registry are left
-- out. Where Go returns a count beside an error, the count is left out.
use splai.Base.{
  ℕ, zero, suc, ◌+◌, ◌-◌, ◌*◌, ◌/◌, String, ◌⧺◌, Bool, true, false, ◌||◌, Option, none, some, List,
  [], ◌∷◌, map, ltb, leb, ◌==◌, if◌then◌else◌, length, itoa, atoi, ℤ, pos, negsuc, cut, is_empty,
  str_eq, Action, Result, ok, err, pure, raise, attempt, ◌>>=◌, ◌>>◌,
}
use splai.State.{Time, second, unix_epoch, TaskRef, QueueClaim, encode_task_ref}
use splai.Redis.Wire.{Reply, no_reply, text, texts, to_string_array}

pub record RedisQueue : Type 0 where
  pub password : String
  pub db : ℕ
  pub key : String
  pub dead_letter_max : ℕ

-- NewRedisQueue: what fills in for a missing key and a missing limit
unfoldable pub new_redis_queue : String → ℕ → String → ℕ → RedisQueue
new_redis_queue password db key dead_letter_max = record {
  password = password;
  db = db;
  key = if is_empty key then "splai:tasks" else key;
  dead_letter_max = if dead_letter_max == 0 then 5 else dead_letter_max;
}

pub record Link (S : Type 0) : Type 0 where
  pub dial : Action S (Unit {0})
  pub exec : List String → Action S Reply

-- strings.SplitN at the first bar, with a text on either side
unfoldable pub decode_task_ref : String → Option TaskRef
decode_task_ref raw = elim (cut "|" raw) [
  | none ↦ none
  | some (job, task) ↦
      if is_empty job || is_empty task then none else some (record { job_id = job; task_id = task })
]

abbrev pub lift : {S A : Type 0} → Result A → Action S A
lift r s = (s, r)

abbrev pub numeric : Option ℤ → Result ℤ
numeric none = err "strconv.Atoi: invalid syntax"
numeric (some n) = ok n

unfoldable pub atoi_resp : Reply → Result ℤ
atoi_resp no_reply = ok (pos 0)
atoi_resp (text s) = numeric (atoi s)
atoi_resp (texts arr) = err "unexpected redis integer response type"

abbrev pub at_least : ℕ → ℤ → Bool
at_least limit (pos n) = leb limit n
at_least limit (negsuc n) = false

abbrev pub is_zero_count : ℤ → Bool
is_zero_count (pos n) = n == 0
is_zero_count (negsuc n) = false

-- fmt.Sprintf("%s:%d:%d", consumer, time.Now().UnixNano(), i), for a clock past 1970
unfoldable pub redis_receipt : String → Time → ℕ → String
redis_receipt consumer now i = consumer ⧺ (":" ⧺ (itoa (now - unix_epoch) ⧺ (":" ⧺ itoa i)))

-- time.Time.UnixMilli, for an instant past 1970
abbrev pub unix_milli : Time → ℕ
unix_milli t = (t - unix_epoch) / 1_000_000

abbrev pub redis_claim : String → Time → ℕ → ℕ → TaskRef → QueueClaim
redis_claim consumer now timeout i ref = record {
  ref = ref;
  receipt = redis_receipt consumer now i;
  claimed_by = consumer;
  claimed_at = now;
  visible_at = now + timeout;
}

abbrev pub payload_of : {S : Type 0} → Reply → Action S String
payload_of no_reply = pure ""
payload_of (text s) = pure s
payload_of (texts arr) = raise "unexpected redis payload type"

abbrev pub count_of : {S : Type 0} → Reply → Action S ℤ
count_of no_reply = raise "unexpected redis integer response"
count_of (text s) = lift (numeric (atoi s))
count_of (texts arr) = raise "unexpected redis integer response"

-- the references of the payloads that can be decoded
unfoldable pub decoded : List String → List TaskRef
decoded [] = []
decoded (raw ∷ rest) =
    let refs = decoded rest in elim (decode_task_ref raw) [ none ↦ refs | some ref ↦ ref ∷ refs ]

abbrev pub pending_key : RedisQueue → String
pending_key q = q.key ⧺ ":pending"

abbrev pub claims_key : RedisQueue → String
claims_key q = q.key ⧺ ":claims"

abbrev pub visibility_key : RedisQueue → String
visibility_key q = q.key ⧺ ":visibility"

abbrev pub nack_key : RedisQueue → String
nack_key q = q.key ⧺ ":nack"

abbrev pub dead_key : RedisQueue → String
dead_key q = q.key ⧺ ":dead"

module _ {S : Type 0} (link : Link S) (q : RedisQueue) where
  -- a command whose reply is read and dropped
  abbrev pub run : List String → Action S (Unit {0})
  run parts = do _ ← link.exec parts; pure tt

  unfoldable pub connect : Action S (Unit {0})
  connect = do
    link.dial
    if is_empty q.password then pure tt else run ("AUTH" ∷ q.password ∷ [])
    if ltb 0 q.db then run ("SELECT" ∷ itoa q.db ∷ []) else pure tt

  unfoldable pub enqueue_many : List TaskRef → Action S (Unit {0})
  unfolding connect
  enqueue_many [] = pure tt
  enqueue_many (r ∷ rs) = do
    connect
    run ("LPUSH" ∷ pending_key q ∷ encode_task_ref r ∷ map encode_task_ref rs)

  unfoldable pub enqueue : TaskRef → Action S (Unit {0})
  unfolding enqueue_many
  enqueue ref = enqueue_many (ref ∷ [])

  unfoldable pub push_dead_raw : String → Action S (Unit {0})
  unfolding connect
  push_dead_raw payload = do connect; run ("LPUSH" ∷ dead_key q ∷ payload ∷ [])

  module _ (consumer : String) (now : Time) (timeout : ℕ) where
    -- the claim is recorded, and when it becomes visible again
    unfoldable pub record_claim : String → ℕ → Action S (Unit {0})
    record_claim raw i = do
      run ("HSET" ∷ claims_key q ∷ redis_receipt consumer now i ∷ raw ∷ [])
      run (
          "ZADD"
          ∷ visibility_key q
          ∷ itoa (unix_milli (now + timeout))
          ∷ redis_receipt consumer now i
          ∷ [])

    -- a round of the loop with the payload that it has popped; `more` are the later rounds
    abbrev pub taken :
        String → ℕ → Option TaskRef → Action S (List QueueClaim) → Action S (List QueueClaim)
    taken raw i none more = do attempt (push_dead_raw raw); more
    taken raw i (some ref) more = do
      record_claim raw i
      claims ← more
      pure (redis_claim consumer now timeout i ref ∷ claims)

    abbrev pub popped : ℕ → Reply → Action S (List QueueClaim) → Action S (List QueueClaim)
    popped i no_reply more = pure []
    popped i (text raw) more = taken raw i (decode_task_ref raw) more
    popped i (texts arr) more = raise "unexpected redis response type"

    unfoldable pub claim_loop : ℕ → ℕ → Action S (List QueueClaim)
    unfolding record_claim push_dead_raw
    claim_loop zero i = pure []
    claim_loop (suc n) i = do
      resp ← link.exec ("RPOP" ∷ pending_key q ∷ [])
      popped i resp (claim_loop n (i + 1))

  unfoldable pub claim : ℕ → String → ℕ → Time → Action S (List QueueClaim)
  unfolding connect claim_loop
  claim max consumer timeout now = do
    connect
    claim_loop consumer now (if timeout == 0 then 15 * second else timeout)
        (if max == 0 then 1 else max) 0

  -- the payload of a claim, empty if there is none
  unfoldable pub get_claim_payload : String → Action S String
  get_claim_payload receipt = do
    resp ← link.exec ("HGET" ∷ claims_key q ∷ receipt ∷ [])
    payload_of resp

  abbrev pub drop_claim : String → Action S (Unit {0})
  drop_claim receipt = do
    run ("HDEL" ∷ claims_key q ∷ receipt ∷ [])
    run ("ZREM" ∷ visibility_key q ∷ receipt ∷ [])

  unfoldable pub ack_loop : List QueueClaim → Action S (Unit {0})
  unfolding get_claim_payload
  ack_loop [] = pure tt
  ack_loop (c ∷ cs) = do
    payload ← get_claim_payload c.receipt
    drop_claim c.receipt
    if is_empty payload then pure tt else run ("HDEL" ∷ nack_key q ∷ payload ∷ [])
    ack_loop cs

  unfoldable pub ack : List QueueClaim → Action S (Unit {0})
  unfolding connect ack_loop
  ack [] = pure tt
  ack (c ∷ cs) = do connect; ack_loop (c ∷ cs)

  unfoldable pub incr_nack : String → Action S ℤ
  incr_nack payload = do
    resp ← link.exec ("HINCRBY" ∷ nack_key q ∷ payload ∷ "1" ∷ [])
    count_of resp

  -- whether this failure of the payload is its last one
  unfoldable pub strikes_out : String → String → Action S Bool
  unfolding incr_nack
  strikes_out reason payload =
      if str_eq reason "error"
      then incr_nack payload >>= (λ count. pure (at_least q.dead_letter_max count))
      else pure false

  abbrev pub park : Bool → String → Action S (Unit {0})
  park true payload = do
    run ("LPUSH" ∷ dead_key q ∷ payload ∷ [])
    run ("HDEL" ∷ nack_key q ∷ payload ∷ [])
  park false payload = run ("LPUSH" ∷ pending_key q ∷ payload ∷ [])

  unfoldable pub nack_payload : String → String → String → Action S (Unit {0})
  unfolding strikes_out
  nack_payload reason receipt payload = do
    to_dead ← strikes_out reason payload
    park to_dead payload
    drop_claim receipt

  unfoldable pub nack_loop : List QueueClaim → String → Action S (Unit {0})
  unfolding get_claim_payload nack_payload
  nack_loop [] reason = pure tt
  nack_loop (c ∷ cs) reason = do
    payload ← get_claim_payload c.receipt
    if is_empty payload then pure tt else nack_payload reason c.receipt payload
    nack_loop cs reason

  -- the gauge itself is left out, but not the errors on the way to it
  unfoldable pub refresh_dead_gauge : Action S (Unit {0})
  unfolding connect atoi_resp
  refresh_dead_gauge = do
    connect
    resp ← link.exec ("LLEN" ∷ dead_key q ∷ [])
    n ← lift (atoi_resp resp)
    pure tt

  unfoldable pub nack : List QueueClaim → String → Action S (Unit {0})
  unfolding connect nack_loop refresh_dead_gauge
  nack [] reason = pure tt
  nack (c ∷ cs) reason = do connect; nack_loop (c ∷ cs) reason; refresh_dead_gauge

  unfoldable pub expire_loop : List String → Action S (Unit {0})
  unfolding get_claim_payload
  expire_loop [] = pure tt
  expire_loop (receipt ∷ receipts) = do
    payload ← get_claim_payload receipt
    if is_empty payload then pure tt else run ("LPUSH" ∷ pending_key q ∷ payload ∷ [])
    drop_claim receipt
    expire_loop receipts

  unfoldable pub requeue_expired : Time → ℕ → Action S ℕ
  unfolding connect expire_loop to_string_array
  requeue_expired now max = do
    connect
    resp ← link.exec (
        "ZRANGEBYSCORE"
        ∷ visibility_key q
        ∷ "-inf"
        ∷ itoa (unix_milli now)
        ∷ "LIMIT"
        ∷ "0"
        ∷ itoa (if max == 0 then 100 else max)
        ∷ [])
    receipts ← lift (to_string_array resp)
    expire_loop receipts
    pure (length receipts)

  unfoldable pub list_dead_letters : ℕ → Action S (List TaskRef)
  unfolding connect to_string_array decoded
  list_dead_letters limit = do
    connect
    resp ←
        link.exec ("LRANGE" ∷ dead_key q ∷ "0" ∷ itoa ((if limit == 0 then 50 else limit) - 1) ∷ [])
    items ← lift (to_string_array resp)
    pure (decoded items)

  -- a reference whose payload is no longer among the dead letters is skipped
  abbrev pub revive : String → ℤ → Action S ℕ
  revive raw removed =
      if is_zero_count removed
      then pure 0
      else do run ("LPUSH" ∷ pending_key q ∷ raw ∷ []); run ("HDEL" ∷ nack_key q ∷ raw ∷ []); pure 1

  unfoldable pub revive_loop : List TaskRef → Action S ℕ
  unfolding atoi_resp
  revive_loop [] = pure 0
  revive_loop (r ∷ rs) = do
    resp ← link.exec ("LREM" ∷ dead_key q ∷ "1" ∷ encode_task_ref r ∷ [])
    removed ← lift (atoi_resp resp)
    n ← revive (encode_task_ref r) removed
    m ← revive_loop rs
    pure (n + m)

  unfoldable pub requeue_dead_letters : List TaskRef → Action S ℕ
  unfolding connect revive_loop refresh_dead_gauge
  requeue_dead_letters [] = pure 0
  requeue_dead_letters (r ∷ rs) = do connect; n ← revive_loop (r ∷ rs); refresh_dead_gauge; pure n
