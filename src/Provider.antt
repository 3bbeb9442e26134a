-- ===== src/Provider.antt =====
-- app/provider/mock.py: the translation of a webhook's payload.
pub mod Mock
use nurix_takehome.Common.{String, none, some, str_eq, if◌then◌else◌}
use nurix_takehome.Model.Status.{
  CallStatus, queued, dialing, in_progress, retry_pending, completed, failed, no_answer, busy,
}
use nurix_takehome.Model.Json.{Json, str, Fields, get}
use nurix_takehome.Model.Txn.{Result, ok, err, key_error, value_error}
use nurix_takehome.Model.Deps.{ProviderEvent}

infixl 5 ◌>>=◌
abbrev ◌>>=◌ : {A B : Type 0} → Result A → (A → Result B) → Result B
ok a >>= f = f a
err e >>= f = err e

-- `payload[key]`
unfoldable pub payload_item : String → Fields → Result Json
payload_item key payload = elim (get key payload) [ none ↦ err key_error | some j ↦ ok j ]

-- `CallStatus(text)`
unfoldable pub status_of_text : String → Result CallStatus
status_of_text s =
    if str_eq s "QUEUED"
    then ok queued
    else if str_eq s "DIALING"
    then ok dialing
    else if str_eq s "IN_PROGRESS"
    then ok in_progress
    else if str_eq s "RETRY_PENDING"
    then ok retry_pending
    else if str_eq s "COMPLETED"
    then ok completed
    else if str_eq s "FAILED"
    then ok failed
    else if str_eq s "NO_ANSWER"
    then ok no_answer
    else if str_eq s "BUSY"
    then ok busy
    else err value_error

unfoldable pub status_of : Json → Result CallStatus
status_of (str s) = status_of_text s
status_of _ = err value_error

unfoldable pub parse_event : Fields → Result ProviderEvent
unfolding payload_item status_of status_of_text
parse_event payload = do
  event ← payload_item "provider_event_id" payload
  handle ← payload_item "provider_call_id" payload
  s ← payload_item "status" payload
  status ← status_of s
  ok (record { provider_event_id = event; provider_call_id = handle; status_enum = status })
