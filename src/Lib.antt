-- ===== src/Lib.antt =====
-- A model of a service that places phone calls for campaigns. A scheduler picks a campaign and calls
-- the provider, a webhook inbox brings the provider's events back, and a reclaim sweep frees calls
-- that hang. They share one database and meet in it alone: apart from the claim, every change of a
-- call's status goes through `transition` of app/state/machine.py.
--
-- The files:
--   * Model: the data. Status (app/state/types.py, app/audit/events.py), Json, Rows (schema.sql and
--     the row classes of app/persistence/repositories.py), Deps (app/deps.py, app/config.py,
--     app/provider/types.py), and the shapes of the program: Txn for a transaction, which reads the
--     database time and ends with a new database or an exception that rolls back, and Task for a
--     coroutine that commits one transaction after another. Keeps and Commit have their rules.
--   * Audit: `emit_audit` of app/audit/emitter.py; its children are the audit page, Reader
--     (app/audit/reader.py), Like (its patterns, and `LIKE` of the database) and Render (the text of
--     an f-string). Provider: `parse_event` of app/provider/mock.py, and Mock the provider itself.
--   * Persistence: a module for each repository of app/persistence/repositories.py, a function for
--     each query; Pages has the keyset pages of the two list queries. Their children have the lemmas
--     on unique ids, updates, claims and counts.
--   * State: Machine (app/state/machine.py), Rollup (app/state/campaign_terminal.py), Classify
--     (app/state/retry_classification.py), Retry (app/state/retry_apply.py), and Lifecycle, which
--     says how a call may change.
--   * Scheduler: Hours (app/scheduler/business_hours.py), Select, Dispatch and Tick
--     (app/scheduler/tick.py: the pick, the transactions, and the task that joins them), Reclaim
--     (app/scheduler/reclaim.py), Loop (app/scheduler/wake.py and app/scheduler/loop.py), Webhook
--     (app/scheduler/webhook_processor.py), Daemons (the timer loops of these two files) and Config
--     (how the tick and the processor read a campaign's retry settings).
--   * Api: the HTTP handlers, Ingest (app/api/webhooks_ingest.py and
--     app/api/routers/webhooks.py), Debug (app/api/routers/debug.py),
--     AuditLog (app/api/routers/audit.py), Campaigns (the transaction of `create_campaign` of
--     app/api/routers/campaigns.py) and Routes (that file's routes and app/api/routers/calls.py). Schemas has the request body with its
--     validators (app/api/schemas/campaigns.py: Body, Zones, Phones over Text), and Responses the
--     JSON that is stored of a body and the way back from it.
--   * System: what holds over whole tasks. A relation that the primitive operations keep is kept by
--     the tick, the inbox drain and the sweep; Lifecycle, Log and Phones are three such relations,
--     Cap follows the count of calls in flight, Backlog the rows that wait in the inbox, and Runs
--     joins the tasks and the HTTP handlers to runs of the whole service.
--   * Tests: sample rows, and each property at a concrete database.
--
-- How the code is read. A table is a list of rows, and a query a function on it; rows of equal
-- age come in table order. The UNIQUE index on the phones of live calls is checked at every store
-- of the calls. A UUID is a number, and its random draw is an argument. A timestamp counts
-- microseconds. Text is kept by its parts where it is only logged. The random factor of the
-- backoff is in millionths, from 800000 to 1200000 whatever is drawn, and seconds are whole
-- numbers, so no rounding of floats is modelled. Time zone data, the reading of ISO times and of
-- decimal texts, the phone number library, what pydantic makes of a time, and the provider are
-- arguments. A time of day may carry an offset, as Python's does.
--
-- Bounds. Epochs and audit ids are unbounded here, an INT and a BIGSERIAL in the database, and a backoff
-- is not checked against the limits of timedelta and datetime. The ids of the audit log are counted up
-- by the transactions that commit, one after another; a Postgres sequence also counts those that roll
-- back, and its ids may be committed out of order.
--
-- Concurrency. A transaction runs as one step; row locks and SKIP LOCKED are not modelled. Between
-- the transactions of a tick, and while a reclaim asks the provider, anything may happen to the
-- database: it is an argument, and each result says what it asks of it.
--
-- Loops. The drain of the inbox runs for the cap of the settings, as the code does; the timer
-- loops, which never end, run for any number of rounds; every other loop is over a list. The
-- clients that follow the pages have fuel, one page more than there are rows, and the decimal
-- digits of a number take one more than the number, which more fuel does not change.
--
-- Not modelled: the texts of page cursors, the decoding of JSONB columns, pools and start-up, and
-- the demo scripts. A request body starts as the fields that pydantic has read; the shape of a
-- 422 answer is not modelled.
pub mod Common
pub mod Model
pub mod Audit
pub mod Persistence
pub mod State
pub mod Scheduler
pub mod Provider
pub mod Api
pub mod System
pub mod Tests
