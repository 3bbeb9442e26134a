-- ===== src/State/Rollup/Frame.antt =====
-- The rollup and the promotion never raise, and leave the calls, the cursors and the inbox alone.
use nurix_takehome.Common.{ℕ, ◌≡◌, arith}
use nurix_takehome.Model.Rows.{Db}
use nurix_takehome.Model.Txn.{ok, after}
use nurix_takehome.Audit.{emit_audit}
use nurix_takehome.Persistence.Campaigns.{transition_if}
use nurix_takehome.State.Rollup.{maybe_promote_to_active, maybe_transition_campaign_terminal}

-- The database after the rollup.
unfoldable pub rolled : ℕ → ℕ → Db → Db
unfolding maybe_transition_campaign_terminal
rolled i now d = after (maybe_transition_campaign_terminal i now d) d

unfoldable pub promoted : ℕ → ℕ → Db → Db
unfolding maybe_promote_to_active
promoted i now d = after (maybe_promote_to_active i now d) d

pub rollup-eq-ok :
    (i now : ℕ) (d : Db) → maybe_transition_campaign_terminal i now d ≡ ok (tt, rolled i now d)
unfolding rolled transition_if emit_audit
rollup-eq-ok i now d = ground arith

pub promote-eq-ok :
    (i now : ℕ) (d : Db) → maybe_promote_to_active i now d ≡ ok (tt, promoted i now d)
unfolding promoted transition_if emit_audit
promote-eq-ok i now d = ground arith

module _ (i now : ℕ) (d : Db) where
  pub calls-rolled : (rolled i now d).calls ≡ d.calls
  unfolding rolled transition_if emit_audit
  calls-rolled = ground arith

  pub calls-promoted : (promoted i now d).calls ≡ d.calls
  unfolding promoted transition_if emit_audit
  calls-promoted = ground arith

  pub inbox-rolled : (rolled i now d).inbox ≡ d.inbox
  unfolding rolled transition_if emit_audit
  inbox-rolled = ground arith

  pub inbox-promoted : (promoted i now d).inbox ≡ d.inbox
  unfolding promoted transition_if emit_audit
  inbox-promoted = ground arith
