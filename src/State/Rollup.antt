-- ===== src/State/Rollup.antt =====
-- app/state/campaign_terminal.py. The row lock that the rollup takes has no effect inside one
-- transaction; transactions are taken one after another, which is what the lock is there to force.
pub mod Frame
pub mod Log
pub mod Close
use nurix_takehome.Common.{ℕ, Bool, true, false, some, [], ◌∷◌, ltb, if◌then◌else◌}
use nurix_takehome.Model.Status.{
  CampaignStatus, pending, active, completed, failed, campaign_value, campaign_promoted_active,
  campaign_completed,
}
use nurix_takehome.Model.Json.{Fields, num, str, end, field, txt}
use nurix_takehome.Model.Txn.{ok, Txn, pure, ◌>>=◌}
use nurix_takehome.Audit.{audit_event, emit_audit}
use nurix_takehome.Persistence.Calls.{count_active_by_campaign}
use nurix_takehome.Persistence.Campaigns.{TerminalAggregate, terminal_aggregate, transition_if}

abbrev when : Bool → Txn (Unit {0}) → Txn (Unit {0})
when true m = m
when false m = pure tt

-- The update is the compare-and-set of `transition_if`.
unfoldable pub maybe_promote_to_active : ℕ → Txn (Unit {0})
maybe_promote_to_active campaign = do
  updated ← transition_if campaign pending active
  when updated (
      emit_audit
        (record (audit_event campaign_promoted_active (txt "first call entered DIALING" ∷ [])) {
          campaign_id = some campaign;
          state_before = some "PENDING";
          state_after = some "ACTIVE";
        }))

-- `"COMPLETED" if completed > 0 else "FAILED"`
unfoldable pub rollup_target : TerminalAggregate → CampaignStatus
rollup_target a = if ltb 0 a.completed then completed else failed

abbrev rollup_extra : TerminalAggregate → CampaignStatus → Fields
rollup_extra a target = field "terminal" (str (campaign_value target)) (
    field "completed" (num a.completed) (
      field "failed" (num a.failed)
        (field "no_answer" (num a.no_answer) (field "busy" (num a.busy) end))))

unfoldable pub roll_up : ℕ → TerminalAggregate → Txn (Unit {0})
unfolding rollup_target
roll_up campaign a = do
  updated ← transition_if campaign active (rollup_target a)
  when updated (
      emit_audit
        (record (audit_event campaign_completed (
          txt "all calls terminal; rolling up to " ∷ txt (campaign_value (rollup_target a)) ∷ [])) {
            campaign_id = some campaign;
            state_before = some "ACTIVE";
            state_after = some (campaign_value (rollup_target a));
            extra = rollup_extra a (rollup_target a);
          }))

unfoldable pub maybe_transition_campaign_terminal : ℕ → Txn (Unit {0})
unfolding roll_up
maybe_transition_campaign_terminal campaign now d =
    if ltb 0 (count_active_by_campaign campaign d)
    then ok (tt, d)
    else roll_up campaign (terminal_aggregate campaign d) now d
