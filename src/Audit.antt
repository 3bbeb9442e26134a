-- ===== src/Audit.antt =====
-- app/audit/emitter.py and the defaults of `AuditEvent` in app/audit/events.py.
pub mod Like
pub mod Render
pub mod Reader
use nurix_takehome.Common.{ℕ, ◌+◌, none, [], ◌∷◌, ◌++◌}
use nurix_takehome.Model.Status.{EventType}
use nurix_takehome.Model.Json.{Text, end}
use nurix_takehome.Model.Rows.{AuditEvent, Db}
use nurix_takehome.Model.Txn.{ok, Txn}

-- `AuditEvent(event_type, reason)`, with every other field at its default.
abbrev pub audit_event : EventType → Text → AuditEvent
audit_event e r = record {
  event_type = e;
  reason = r;
  campaign_id = none;
  call_id = none;
  phone = none;
  attempt_epoch = none;
  state_before = none;
  state_after = none;
  extra = end;
}

-- The database with the event at the end of its log.
abbrev pub logged : AuditEvent → ℕ → Db → Db
logged e now d = record d {
  audit = d.audit ++ record { id = d.audit_seq; ts = now; event = e } ∷ [];
  audit_seq = d.audit_seq + 1;
}

-- The insert joins the caller's transaction: it changes the database that the caller has in hand.
unfoldable pub emit_audit : AuditEvent → Txn (Unit {0})
emit_audit e now d = ok (tt, logged e now d)
