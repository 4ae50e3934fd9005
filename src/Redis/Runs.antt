-- ===== src/Redis/Runs.antt =====
-- The small calls of internal/state/redis_queue.go on a server that obeys its documentation: they
-- succeed, and this is what they leave.
use splai.Base.{
  String, ◌≡◌, refl, sym, ◌∙◌, ap, subst, false, Option, none, some, List, [], ◌∷◌, ltb, if_intro,
  is_empty, itoa, atoi-itoa, lookup, delete, Result, Action, Ran, Ran-pure, Ran-map, Ran-after,
}
use splai.Redis.Wire.{Reply}
use splai.Redis.Server.{Held, Replies, Obeys, stored}
use splai.Redis.Queue.{
  RedisQueue, Link, run, connect, get_claim_payload, drop_claim, refresh_dead_gauge, payload_of,
  atoi_resp,
}

-- the payload that a receipt stands for, or the empty one
abbrev pub payload_or_none : Option String → String
payload_or_none none = ""
payload_or_none (some p) = p

pub payload_found :
    (m : Option String) (p : String) → p ≡ payload_or_none m → is_empty p ≡ false → m ≡ some p
unfolding is_empty
payload_found none p e given = absurd (cc (given))
payload_found (some x) p e given = ap some (sym e)

module _ {S : Type 0} (view : S → Held) (link : Link S) (q : RedisQueue)
    (o : Obeys view link q) where
  -- the call succeeds and leaves `h`
  abbrev pub Leaves : Held → S × Result (Unit {0}) → Type 0
  Leaves h out = Ran (λ s' u. view s' ≡ h) out

  pub run-Leaves :
      {P : Reply → Type 0} {h : Held} (parts : List String) (s : S)
      → Replies view P h (link.exec parts s)
      → Leaves h (run link q parts s)
  run-Leaves parts s law = Ran-after (link.exec parts s) law (λ s' r k. Ran-pure s' tt k.1)

  pub connect-Leaves : (s : S) → Leaves (view s) (connect link q s)
  unfolding connect
  connect-Leaves s = Ran-after (link.dial s) (o.dial s) λ s1 u e1.
      Ran-after _
        (if_intro (λ (m : Action S (Unit {0})). Leaves (view s1) (m s1)) (is_empty q.password)
          (λ none_set. Ran-pure s1 tt refl)
          λ set. run-Leaves ("AUTH" ∷ q.password ∷ []) s1 (o.auth s1))
        λ s2 u2 e2.
          Ran-map (λ s3 u3 e3. e3 ∙ e2 ∙ e1)
            (if_intro (λ (m : Action S (Unit {0})). Leaves (view s2) (m s2)) (ltb 0 q.db)
              (λ chosen. run-Leaves ("SELECT" ∷ itoa q.db ∷ []) s2 (o.select s2))
              λ first. Ran-pure s2 tt refl)

  payload_of-stored :
      (s : S) (p : Option String)
      → Ran (λ s' a. (a ≡ payload_or_none p) × (view s' ≡ view s)) (payload_of (stored p) s)
  payload_of-stored s none = Ran-pure s "" (refl, refl)
  payload_of-stored s (some p) = Ran-pure s p (refl, refl)

  pub get_claim_payload-Ran :
      (receipt : String) (s : S)
      → Ran
          (λ s' a. (a ≡ payload_or_none (lookup receipt (view s).claims)) × (view s' ≡ view s))
          (get_claim_payload link q receipt s)
  unfolding get_claim_payload
  get_claim_payload-Ran receipt s = Ran-after _ (o.hget s receipt) λ s1 r k.
      Ran-map (λ s2 a m. (m.0, m.1 ∙ k.1))
        (subst
          (λ (x : Reply).
            Ran
              (λ s' a. (a ≡ payload_or_none (lookup receipt (view s).claims)) × (view s' ≡ view s1))
              (payload_of x s1))
          (sym k.0) (payload_of-stored s1 (lookup receipt (view s).claims)))

  pub drop_claim-Leaves :
      (receipt : String) (s : S)
      → Leaves
          (record (view s) {
            claims = delete receipt (view s).claims;
            visibility = delete receipt (view s).visibility;
          })
          (drop_claim link q receipt s)
  drop_claim-Leaves receipt s = Ran-after _ (run-Leaves _ s (o.hdel_claims s receipt)) λ s1 u e.
      Ran-map
        (λ s2 u2 f. f ∙ ap (λ (h : Held). record h { visibility = delete receipt h.visibility }) e)
        (run-Leaves _ s1 (o.zrem s1 receipt))

  pub refresh_dead_gauge-Leaves : (s : S) → Leaves (view s) (refresh_dead_gauge link q s)
  unfolding refresh_dead_gauge atoi_resp
  refresh_dead_gauge-Leaves s = Ran-after _ (connect-Leaves s) λ s1 u e.
      Ran-after _ (o.llen s1) λ s2 r k.
        let (n, is_number, small) = k.0 in
        rw is_number (rw (atoi-itoa n small) (Ran-pure s2 tt (k.1 ∙ e)))
