-- ===== src/Tests/StoreTests.antt =====
-- internal/state/memory_store.go on a small store.
use splai.Base.{◌≡◌, refl, arith, is_empty}
use splai.Store.{append_audit_event, list_audit_events, audit_passes}
use splai.Store.Audit.{IsAudit, append_audit_event-IsAudit, list_audit_events-append}
use splai.Tests.Samples.{store, logged, event, digest, every_event, start}

append_audit_event-IsAudit_example : IsAudit digest (append_audit_event digest start event store)
append_audit_event-IsAudit_example =
    append_audit_event-IsAudit digest start event store
      (record { chained = tt; numbered = tt; next = refl })

list_audit_events-append_example :
    list_audit_events every_event (append_audit_event digest start event logged)
    ≡ list_audit_events every_event logged
unfolding audit_passes is_empty
list_audit_events-append_example =
    list_audit_events-append digest start event every_event logged (omega arith)
