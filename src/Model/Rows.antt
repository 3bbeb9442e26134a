-- ===== src/Model/Rows.antt =====
-- The tables of schema.sql and the row classes of app/persistence/repositories.py. A UUID is its
-- 128-bit number, and a timestamp counts microseconds from `datetime.min`.
use nurix_takehome.Common.{ℕ, String, Option, List}
use nurix_takehome.Model.Status.{CallStatus, CampaignStatus, EventType}
use nurix_takehome.Model.Json.{Fields, Text}

pub record Campaign : Type 0 where
  pub id : ℕ
  pub name : String
  pub status : CampaignStatus
  pub timezone : String
  pub schedule : Fields
  pub max_concurrent : ℕ
  pub retry_config : Fields
  pub created_at : ℕ
  pub updated_at : ℕ

-- `CampaignRowWithCursor`.
pub record CampaignWithCursor : Type 0 where
  pub campaign : Campaign
  pub open campaign use *
  pub last_dispatch_at : Option ℕ

pub record Call : Type 0 where
  pub id : ℕ
  pub campaign_id : ℕ
  pub phone : String
  pub status : CallStatus
  pub attempt_epoch : ℕ
  pub retries_remaining : ℕ
  pub next_attempt_at : Option ℕ
  pub provider_call_id : Option String
  pub created_at : ℕ
  pub updated_at : ℕ

-- A row of scheduler_campaign_state.
pub record Cursor : Type 0 where
  pub campaign_id : ℕ
  pub last_dispatch_at : Option ℕ

pub record InboxRow : Type 0 where
  pub id : ℕ
  pub provider : String
  pub provider_event_id : String
  pub payload : Fields
  pub received_at : ℕ
  pub processed_at : Option ℕ

pub record AuditEvent : Type 0 where
  pub event_type : EventType
  pub reason : Text
  pub campaign_id : Option ℕ
  pub call_id : Option ℕ
  pub phone : Option String
  pub attempt_epoch : Option ℕ
  pub state_before : Option String
  pub state_after : Option String
  pub extra : Fields

-- A row of scheduler_audit: the event, with the number and the time that the database gives it.
pub record AuditRow : Type 0 where
  pub id : ℕ
  pub ts : ℕ
  pub event : AuditEvent

pub record Db : Type 0 where
  pub campaigns : List Campaign
  pub calls : List Call
  pub cursors : List Cursor
  pub inbox : List InboxRow
  pub audit : List AuditRow
  pub audit_seq : ℕ
