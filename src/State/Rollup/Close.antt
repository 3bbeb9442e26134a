-- ===== src/State/Rollup/Close.antt =====
-- When the rollup closes a campaign, and that it leaves none open without a call to wait for.
use nurix_takehome.Common.{
  ℕ, ◌<◌, ◌≡◌, refl, ap, subst, ◌∙◌, inl, inr, Bool, true, false, ◌&&◌, List, [], ◌∷◌, arith, ltb,
  ◌==◌, InList, if◌then◌else◌, any_row, count_where, update_where, Bool-cases, ltb→lt,
}
use nurix_takehome.Model.Status.{
  CampaignStatus, active, completed, failed, CallStatus, campaign_status_eq, status_eq,
}
use nurix_takehome.Model.Rows.{Campaign, Db}
use nurix_takehome.Audit.{emit_audit}
use nurix_takehome.Persistence.Calls.{count_active_by_campaign}
use nurix_takehome.Persistence.Campaigns.{is_in, transition_if, terminal_aggregate}
use nurix_takehome.State.Rollup.{rollup_target}
use nurix_takehome.State.Rollup.Frame.{rolled, calls-rolled}

-- Some call of the campaign was completed.
abbrev pub has_success : ℕ → Db → Bool
has_success i d =
    any_row (λ c. c.campaign_id == i && status_eq c.status CallStatus.completed) d.calls

abbrev pub closed_as : Bool → CampaignStatus
closed_as b = if b then completed else failed

positive_count : {A : Type 0} (p : A → Bool) (xs : List A) → ltb 0 (count_where p xs) ≡ any_row p xs
unfolding count_where any_row
positive_count p [] = refl
positive_count p (x ∷ xs) = ground (arith, positive_count p xs)

target_lem : (i : ℕ) (d : Db) → rollup_target (terminal_aggregate i d) ≡ closed_as (has_success i d)
unfolding rollup_target terminal_aggregate
target_lem i d =
    ap closed_as
      (positive_count (λ c. c.campaign_id == i && status_eq c.status CallStatus.completed) d.calls)

-- What the campaigns of the table become.
abbrev pub closed : ℕ → ℕ → Db → List Campaign
closed i now d =
    update_where (is_in i active)
      (λ c. record c { status = closed_as (has_success i d); updated_at = now }) d.campaigns

-- The rollup leaves the campaigns as they are while a call of this one is active, and else closes
-- it, if it is open: as completed if one call was, and as failed if none was.
pub rolled-campaigns :
    (i now : ℕ) (d : Db)
    → (rolled i now d).campaigns
      ≡ (if ltb 0 (count_active_by_campaign i d) then d.campaigns else closed i now d)
unfolding rolled transition_if emit_audit
rolled-campaigns i now d = ground (arith, target_lem i d)

stays_active :
    (i : ℕ) (s : CampaignStatus) (now : ℕ) (xs : List Campaign) (c : Campaign)
    → campaign_status_eq s active ≡ false
    → InList c (update_where (is_in i active) (λ x. record x { status = s; updated_at = now }) xs)
    → is_in i active c ≡ false
unfolding update_where
stays_active i s now [] c h k = absurd k
stays_active i s now (x ∷ xs) c h (inr k) = stays_active i s now xs c h k
stays_active i s now (x ∷ xs) c h (inl e) = elim (Bool-cases (is_in i active x)) [
  | inl t ↦ rw (rw t at e) (ground (arith, h))
  | inr f ↦ rw (rw f at e) f
]

not_active : (b : Bool) → campaign_status_eq (closed_as b) active ≡ false
unfolding campaign_status_eq
not_active b = ground arith

-- After a rollup, a campaign that is still active has an active call to wait for.
pub rolled-NotStranded :
    (i now : ℕ) (d : Db) (c : Campaign)
    → InList c (rolled i now d).campaigns
    → is_in i active c ≡ true
    → 0 < count_active_by_campaign i (rolled i now d)
unfolding count_active_by_campaign
rolled-NotStranded i now d c k h = elim (Bool-cases (ltb 0 (count_active_by_campaign i d))) [
  | inl t ↦ rw (calls-rolled i now d) (ltb→lt 0 _ t)
  | inr f ↦
      let stands : InList c (closed i now d) =
        subst (InList c) (rolled-campaigns i now d ∙ rw f) k in
      cc (
        stays_active i (closed_as (has_success i d)) now d.campaigns c
          (not_active (has_success i d)) stands)
]
