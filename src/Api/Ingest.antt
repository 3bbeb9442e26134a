-- ===== src/Api/Ingest.antt =====
-- app/api/webhooks_ingest.py and its route. What `verify_signature_fn` answers is given. The processor that the
-- handler starts after the commit is a task of its own, `process_pending_inbox`.
use nurix_takehome.Common.{ℕ, String, Bool, Option, none, some, str_eq, if◌then◌else◌}
use nurix_takehome.Model.Json.{Json, str, obj, Fields, get}
use nurix_takehome.Model.Txn.{Result, ok, err, World, commit}
use nurix_takehome.Persistence.Inbox.{insert}

-- `HTTPException` with its status code, the response, or an exception of the insert.
pub data Reply : Type 0 where
  refused : ℕ → Reply
  received crashed : Reply

-- `not event_id or not isinstance(event_id, str)`
abbrev pub text_of : Option Json → Option String
text_of (some (str s)) = if str_eq s "" then none else some s
text_of _ = none

abbrev answer : {A : Type 0} → Result A × World → Reply × World
answer (ok _, w) = (received, w)
answer (err _, w) = (crashed, w)

abbrev pub ingest_event : ℕ → String → Option String → Fields → World → Reply × World
ingest_event id provider none payload w = (refused 400, w)
ingest_event id provider (some event) payload w =
    answer (commit (insert id provider event payload) w)

-- `id` is what `gen_random_uuid()` draws for the row.
unfoldable pub handle_webhook_ingest : Bool → ℕ → String → Fields → World → Reply × World
handle_webhook_ingest verified id provider payload w =
    if verified
    then ingest_event id provider (text_of (get "provider_event_id" payload)) payload w
    else (refused 401, w)

-- `receive_webhook` of app/api/routers/webhooks.py. What `json.loads` makes of the body is given; `none`
-- is a JSONDecodeError.
unfoldable pub receive_webhook : Bool → ℕ → Option Json → World → Reply × World
unfolding handle_webhook_ingest
receive_webhook verified id none w = (refused 400, w)
receive_webhook verified id (some (obj payload)) w =
    handle_webhook_ingest verified id "mock" payload w
receive_webhook verified id (some _) w = (refused 400, w)
