-- ===== src/Store/Audit.antt =====
-- The audit log of internal/state/memory_store.go: the chain of hashes, the numbering, and the
-- pages that `ListAuditEvents` returns.
use splai.Base.{
  ℕ, zero, suc, ◌+◌, ◌-◌, ◌≤◌, String, ◌≡◌, refl, sym, ◌∙◌, ap, Bool, some, List, [], ◌∷◌, ◌++◌,
  arith, if◌then◌else◌, leb, length, take, drop, keep, reverse, length-append,
}
use splai.State.{Time, AuditEventRecord, AuditQuery}
use splai.Store.{
  MemoryStore, AuditPayload, audit_payload, append_audit_event, list_audit_events, audit_passes,
  last_event,
}

module _ (digest : AuditPayload → String) where
  abbrev pub IsHashed : AuditEventRecord → Type 0
  IsHashed e = e.event_hash ≡ digest (audit_payload e)

  -- Each event carries the hash of its payload, and from the second on that of the event before.
  abbrev pub IsChained : List AuditEventRecord → Type 0
  IsChained [] = Unit
  IsChained (e ∷ []) = IsHashed e
  IsChained (e ∷ f ∷ es) = IsHashed e × (f.prev_hash ≡ e.event_hash) × IsChained (f ∷ es)

  -- the events are numbered in a row from `n`
  abbrev pub IsNumbered : ℕ → List AuditEventRecord → Type 0
  IsNumbered n [] = Unit
  IsNumbered n (e ∷ es) = (e.id ≡ n) × IsNumbered (n + 1) es

  pub record IsAudit (s : MemoryStore) : Type 0 where
    pub chained : IsChained s.audits
    pub numbered : IsNumbered 1 s.audits
    pub next : s.next_id ≡ length s.audits + 1

  -- the event fits behind a log
  abbrev Follows : List AuditEventRecord → AuditEventRecord → Type 0
  Follows [] f = Unit
  Follows (e ∷ []) f = f.prev_hash ≡ e.event_hash
  Follows (e ∷ g ∷ es) f = Follows (g ∷ es) f

  IsChained-append :
      (es : List AuditEventRecord) (f : AuditEventRecord)
      → IsChained es
      → Follows es f
      → IsHashed f
      → IsChained (es ++ f ∷ [])
  IsChained-append [] f c l h = h
  IsChained-append (e ∷ []) f c l h = (c, l, h)
  IsChained-append (e ∷ g ∷ es) f c l h = (c.0, c.1, IsChained-append (g ∷ es) f c.2 l h)

  IsNumbered-append :
      (n : ℕ) (es : List AuditEventRecord) (f : AuditEventRecord)
      → IsNumbered n es
      → f.id ≡ n + length es
      → IsNumbered n (es ++ f ∷ [])
  IsNumbered-append n [] f c h = (omega arith, tt)
  IsNumbered-append n (e ∷ es) f c h = (c.0, IsNumbered-append (n + 1) es f c.1 (omega arith))

  Follows-last :
      (es : List AuditEventRecord) (f : AuditEventRecord)
      → ((e : AuditEventRecord) → last_event es ≡ some e → f.prev_hash ≡ e.event_hash)
      → Follows es f
  Follows-last [] f h = tt
  Follows-last (e ∷ []) f h = h e refl
  Follows-last (e ∷ g ∷ es) f h = Follows-last (g ∷ es) f h

  -- Whatever is appended, and however the caller fills its fields: the log stays a chain in which
  -- each event carries the hash of its payload and, from the second on, that of the event before
  -- it, and its events stay numbered in a row from 1.
  pub append_audit_event-IsAudit :
      (now : Time) (event : AuditEventRecord) (s : MemoryStore)
      → IsAudit s
      → IsAudit (append_audit_event digest now event s)
  unfolding append_audit_event
  append_audit_event-IsAudit now event s a = record {
    chained =
        IsChained-append s.audits _ a.chained (Follows-last s.audits _ (λ e h. ground arith))
          (ground arith);
    numbered = IsNumbered-append 1 s.audits _ a.numbered (ground arith);
    next = omega (arith, a.next, length-append {0} s.audits);
  }

-- the events that pass a query's filters, oldest first
abbrev pub filtered : AuditQuery → MemoryStore → List AuditEventRecord
filtered q s = keep (audit_passes q) s.audits

abbrev pub page_size : AuditQuery → ℕ
page_size q = if leb q.limit 0 then 50 else q.limit

take-append : {A : Type 0} (n : ℕ) (xs ys : List A) → n ≤ length xs → take n (xs ++ ys) ≡ take n xs
take-append zero xs ys h = refl
take-append (suc n) [] ys h = elim h [ ]
take-append (suc n) (x ∷ xs) ys h = ap (◌∷◌ x) (take-append n xs ys (omega arith))

drop-append :
    {A : Type 0} (n : ℕ) (xs ys : List A) → n ≤ length xs → drop n (xs ++ ys) ≡ drop n xs ++ ys
drop-append zero xs ys h = refl
drop-append (suc n) [] ys h = elim h [ ]
drop-append (suc n) (x ∷ xs) ys h = drop-append n xs ys (omega arith)

length-drop : {A : Type 0} (n : ℕ) (xs : List A) → length (drop n xs) ≡ length xs - n
length-drop zero xs = omega arith
length-drop (suc n) [] = omega arith
length-drop (suc n) (x ∷ xs) = omega (arith, length-drop n xs)

keep-append :
    {A : Type 0} (p : A → Bool) (xs ys : List A) → keep p (xs ++ ys) ≡ keep p xs ++ keep p ys
keep-append p [] ys = refl
keep-append p (x ∷ xs) ys = ground (arith, keep-append p xs ys)

-- the page in terms of the filtered events
list_audit_events_lem :
    (q : AuditQuery) (s : MemoryStore)
    → q.offset ≤ length (filtered q s)
    → list_audit_events q s ≡ reverse (take (page_size q) (drop q.offset (filtered q s)))
unfolding list_audit_events
list_audit_events_lem q s h = ground arith

audits-append_audit_event :
    (digest : AuditPayload → String) (now : Time) (event : AuditEventRecord) (s : MemoryStore)
    → (e : AuditEventRecord) × ((append_audit_event digest now event s).audits ≡ s.audits ++ e ∷ [])
unfolding append_audit_event
audits-append_audit_event digest now event s = (_, refl)

-- The page that `ListAuditEvents` returns is filled from the oldest event on: once the events that
-- pass the filters fill the page, an event that is appended later never shows on it.
pub list_audit_events-append :
    (digest : AuditPayload → String) (now : Time) (event : AuditEventRecord) (q : AuditQuery)
    (s : MemoryStore)
    → q.offset + page_size q ≤ length (filtered q s)
    → list_audit_events q (append_audit_event digest now event s) ≡ list_audit_events q s
list_audit_events-append digest now event q s h =
    let (e, p) = audits-append_audit_event digest now event s in
    let s' = append_audit_event digest now event s in
    let longer : filtered q s' ≡ filtered q s ++ keep (audit_passes q) (e ∷ []) =
      ap (keep (audit_passes q)) p ∙ keep-append (audit_passes q) s.audits (e ∷ []) in
    let more = keep (audit_passes q) (e ∷ []) in
    let room : q.offset ≤ length (filtered q s') =
      omega (arith, ap length longer, length-append (filtered q s) more) in
    list_audit_events_lem q s' room
    ∙ ap reverse (
        ap (λ es. take (page_size q) (drop q.offset es)) longer
        ∙ ap (take (page_size q)) (drop-append q.offset (filtered q s) more (omega arith))
        ∙ take-append (page_size q) (drop q.offset (filtered q s)) more
            (omega (arith, length-drop q.offset (filtered q s))))
    ∙ sym (list_audit_events_lem q s (omega arith))
