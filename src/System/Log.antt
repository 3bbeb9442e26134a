-- ===== src/System/Log.antt =====
-- The audit log is append-only, over every task.
use nurix_takehome.Common.{
  ℕ, ◌≡◌, refl, sym, ◌∙◌, ap, [], ◌∷◌, ◌++◌, append-nil, append_assoc, arith,
}
use nurix_takehome.Model.Rows.{Db}
use nurix_takehome.Model.Txn.{World, after}
use nurix_takehome.Model.Deps.{Deps}
use nurix_takehome.Audit.{emit_audit}
use nurix_takehome.Persistence.Calls.{claim_next_queued}
use nurix_takehome.Persistence.Cursors.{update_last_dispatch_at}
use nurix_takehome.Persistence.Inbox.{mark_processed}
use nurix_takehome.State.Machine.Log.{transition-AuditGrows}
use nurix_takehome.State.Rollup.Log.{
  Numbered-append, AuditGrows, AuditGrows-refl, promoted-AuditGrows,
}
use nurix_takehome.State.Rollup.Frame.{promote-eq-ok}
use nurix_takehome.Scheduler.Tick.{Others, tick}
use nurix_takehome.Scheduler.Webhook.{process_pending_inbox}
use nurix_takehome.System.Primitives.{Primitives}
use nurix_takehome.System.Tasks.{OthersKeep, tick_keeps, inbox_keeps}

AuditGrows-trans : (a b c : Db) → AuditGrows a b → AuditGrows b c → AuditGrows a c
AuditGrows-trans a b c (xs, e, g) (ys, f, h) = (
  xs ++ ys,
  f ∙ ap (λ z. z ++ ys) e ∙ append_assoc a.audit xs ys,
  Numbered-append a.audit_seq b.audit_seq c.audit_seq xs ys g h,
)

audit_same : (d d' : Db) → d'.audit ≡ d.audit → d'.audit_seq ≡ d.audit_seq → AuditGrows d d'
audit_same d d' e f = ([], e ∙ sym (append-nil d.audit), f)

seq-claim : (i now : ℕ) (d : Db) → (after (claim_next_queued i now d) d).audit_seq ≡ d.audit_seq
unfolding claim_next_queued
seq-claim i now d = ground arith

audit-claim : (i now : ℕ) (d : Db) → (after (claim_next_queued i now d) d).audit ≡ d.audit
unfolding claim_next_queued
audit-claim i now d = ground arith

pub audit_grows : Primitives AuditGrows
unfolding emit_audit update_last_dispatch_at mark_processed
audit_grows = record {
  order = record { reflexive = AuditGrows-refl; transitive = AuditGrows-trans };
  audit = λ e. record {
    at = λ now d. (record { id = d.audit_seq; ts = now; event = e } ∷ [], refl, (refl, refl));
  };
  move = λ m a. record { at = transition-AuditGrows m };
  claim = λ i. record {
    at = λ now d.
        audit_same d (after (claim_next_queued i now d) d) (audit-claim i now d)
          (seq-claim i now d);
  };
  promote = λ i. record { at = λ now d. rw (promote-eq-ok i now d) (promoted-AuditGrows i now d) };
  cursor = λ i ts. record { at = λ now d. AuditGrows-refl d };
  mark = λ i. record { at = λ now d. AuditGrows-refl d };
}

-- A tick only appends to the audit log, if the other tasks do; so does a drain of the inbox.
pub audit-grows :
    (deps : Deps) (others : Others) (w : World)
    → OthersKeep AuditGrows others
    → AuditGrows w.db (tick deps others w).1.db
      × AuditGrows w.db (process_pending_inbox deps w).1.db
audit-grows deps others w k =
    ((tick_keeps audit_grows deps others k).at w, inbox_keeps audit_grows deps w)
