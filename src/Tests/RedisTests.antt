-- ===== src/Tests/RedisTests.antt =====
-- A small server that obeys, and the Redis queue of internal/state/redis_queue.go on it.
use splai.Base.{
  ℕ, ◌+◌, String, ◌≡◌, Bool, false, Option, none, some, List, [], ◌∷◌, ◌++◌, arith, leb,
  if◌then◌else◌, take, keep, itoa, scan, Map, lookup, lookup_or, insert, delete, member, str_eq,
  Result, ok, err,
}
use splai.State.{QueueClaim}
use Prim.Native.Char.{Char}
use splai.Redis.Wire.{Reply, no_reply, text, texts, chars, write_resp, read_resp}
use splai.Redis.Wire.Echoes.{read_resp-write_resp}
use splai.Redis.Server.{Held, push, remove, stored}
use splai.Redis.Queue.{RedisQueue, Link, nack}

abbrev unsnoc : List String → Option (List String × String)
unsnoc [] = none
unsnoc (x ∷ xs) = elim (unsnoc xs) [ none ↦ some ([], x) | some (ys, y) ↦ some (x ∷ ys, y) ]

abbrev keys : Map ℕ → List String
keys [] = []
keys ((k, n) ∷ m) = k ∷ keys m

abbrev is_due : ℕ → Map ℕ → String → Bool
is_due latest m k = elim (lookup k m) [ none ↦ false | some n ↦ leb n latest ]

abbrev number : String → ℕ
number s = elim (scan s 0) [ none ↦ 0 | some n ↦ n ]

abbrev due_now : ℕ → ℕ → Map ℕ → List String
due_now latest max m = take max (keep (is_due latest m) (keys m))

abbrev answered : Held → Reply → Held × Result Reply
answered h r = (h, ok r)

abbrev pop_right : List String → Held → Held × Result Reply
pop_right pending h = elim (unsnoc pending) [
  | none ↦ answered h no_reply
  | some (xs, x) ↦ answered (record h { pending = xs }) (text x)
]

abbrev on_lists : String → String → List String → Held → Held × Result Reply
on_lists cmd key xs h =
    if str_eq cmd "LPUSH"
    then if str_eq key "k:pending"
      then answered (record h { pending = push xs h.pending }) (text "1")
      else answered (record h { dead = push xs h.dead }) (text "1")
    else if str_eq cmd "RPOP"
    then pop_right h.pending h
    else answered h (text (itoa 0))

abbrev one_argument : String → String → String → Held → Held × Result Reply
one_argument cmd key x h =
    if str_eq cmd "HGET"
    then answered h (stored (lookup x h.claims))
    else if str_eq cmd "HDEL"
    then if str_eq key "k:claims"
      then answered (record h { claims = delete x h.claims }) (text "1")
      else answered (record h { nack = delete x h.nack }) (text "1")
    else if str_eq cmd "ZREM"
    then answered (record h { visibility = delete x h.visibility }) (text "1")
    else on_lists cmd key (x ∷ []) h

abbrev two_arguments : String → String → String → String → Held → Held × Result Reply
two_arguments cmd key x y h =
    if str_eq cmd "HSET"
    then answered (record h { claims = insert x y h.claims }) (text "1")
    else if str_eq cmd "HINCRBY"
    then answered (record h { nack = insert x (lookup_or 0 x h.nack + 1) h.nack })
        (text (itoa (lookup_or 0 x h.nack + 1)))
    else if str_eq cmd "ZADD"
    then answered (record h { visibility = insert y (number x) h.visibility }) (text "1")
    else if str_eq cmd "LRANGE"
    then answered h (texts (take (number y + 1) h.dead))
    else if str_eq cmd "LREM"
    then answered (record h { dead = remove y h.dead })
        (text (if member y h.dead then "1" else "0"))
    else on_lists cmd key (x ∷ y ∷ []) h

abbrev exec : List String → Held → Held × Result Reply
exec (cmd ∷ key ∷ []) h = on_lists cmd key [] h
exec (cmd ∷ key ∷ x ∷ []) h = one_argument cmd key x h
exec (cmd ∷ key ∷ x ∷ y ∷ []) h = two_arguments cmd key x y h
exec (cmd ∷ key ∷ a ∷ latest ∷ b ∷ c ∷ max ∷ []) h =
    if str_eq cmd "ZRANGEBYSCORE"
    then answered h (texts (due_now (number latest) (number max) h.visibility))
    else on_lists cmd key (a ∷ latest ∷ b ∷ c ∷ max ∷ []) h
exec (cmd ∷ key ∷ xs) h = on_lists cmd key xs h
exec _ h = (h, err "ERR unknown command")

abbrev mini : Link Held
mini = record { dial = λ h. (h, ok tt); exec = exec }

abbrev queue : RedisQueue
queue = record { password = ""; db = 0; key = "k"; dead_letter_max = 5 }

abbrev whole : Held → Held
whole h = h

abbrev wire_rest : List Char
wire_rest = chars ":1\r\n"

read_resp-write_resp_example :
    read_resp 2 (write_resp ("RPOP" ∷ "k:pending" ∷ []) ++ wire_rest)
    ≡ some (ok (texts ("RPOP" ∷ "k:pending" ∷ []), wire_rest))
read_resp-write_resp_example =
    read_resp-write_resp 0 ("RPOP" ∷ "k:pending" ∷ []) wire_rest (omega arith)
      (omega arith, (omega arith, tt))

abbrev busy : Held
busy = record {
  pending = "job-1|t2" ∷ [];
  claims = ("w1:5:0", "job-1|t1") ∷ [];
  visibility = ("w1:5:0", 20) ∷ [];
  nack = ("job-1|t1", 4) ∷ [];
  dead = [];
}

abbrev failed_claim : QueueClaim
failed_claim = record {
  ref = record { job_id = "job-1"; task_id = "t1" };
  receipt = "w1:5:0";
  claimed_by = "w1";
  claimed_at = 5;
  visible_at = 20;
}
