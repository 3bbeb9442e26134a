-- ===== src/Model/Status.antt =====
-- app/state/types.py and the event types of app/audit/events.py.
use nurix_takehome.Common.{ℕ, String, ◌≡◌, ◌↔◌, Bool, true, false, ◌==◌, arith}

pub data CallStatus : Type 0 where
  queued dialing in_progress retry_pending completed failed no_answer busy : CallStatus

pub data CampaignStatus : Type 0 where
  pending active completed failed : CampaignStatus

-- The strings that the database stores.
unfoldable pub value : CallStatus → String
value queued = "QUEUED"
value dialing = "DIALING"
value in_progress = "IN_PROGRESS"
value retry_pending = "RETRY_PENDING"
value completed = "COMPLETED"
value failed = "FAILED"
value no_answer = "NO_ANSWER"
value busy = "BUSY"

unfoldable pub campaign_value : CampaignStatus → String
campaign_value pending = "PENDING"
campaign_value active = "ACTIVE"
campaign_value completed = "COMPLETED"
campaign_value failed = "FAILED"

-- Membership in `TERMINAL_CALL_STATUSES`.
unfoldable pub is_terminal : CallStatus → Bool
is_terminal completed = true
is_terminal failed = true
is_terminal no_answer = true
is_terminal busy = true
is_terminal _ = false

abbrev rank : CallStatus → ℕ
rank queued = 0
rank dialing = 1
rank in_progress = 2
rank retry_pending = 3
rank completed = 4
rank failed = 5
rank no_answer = 6
rank busy = 7

-- `==` of two call statuses.
unfoldable pub status_eq : CallStatus → CallStatus → Bool
status_eq a b = rank a == rank b

pub status_eq_iff : (a b : CallStatus) → (status_eq a b ≡ true) ↔ (a ≡ b)
unfolding status_eq
status_eq_iff a b = ground arith

abbrev campaign_rank : CampaignStatus → ℕ
campaign_rank pending = 0
campaign_rank active = 1
campaign_rank completed = 2
campaign_rank failed = 3

unfoldable pub campaign_status_eq : CampaignStatus → CampaignStatus → Bool
campaign_status_eq a b = campaign_rank a == campaign_rank b

pub campaign_status_eq_iff : (a b : CampaignStatus) → (campaign_status_eq a b ≡ true) ↔ (a ≡ b)
unfolding campaign_status_eq
campaign_status_eq_iff a b = ground arith

pub data EventType : Type 0 where
  claimed dispatch retry_due skip_business_hour skip_concurrency : EventType
  webhook_ignored_stale transition reclaim_skipped_terminal reclaim_executed : EventType
  campaign_promoted_active campaign_completed debug_age_dialing : EventType
