-- ===== src/Persistence/Inbox.antt =====
-- `WebhookInboxRepo` of app/persistence/repositories.py, over the `webhook_inbox` table.
pub mod Dedupe
use nurix_takehome.Common.{
  ℕ, String, Bool, true, false, ◌&&◌, Option, none, some, List, [], ◌∷◌, ◌++◌, leb, ◌==◌,
  if◌then◌else◌, str_eq, first, update_where,
}
use nurix_takehome.Model.Json.{Fields}
use nurix_takehome.Model.Rows.{InboxRow, Db}
use nurix_takehome.Model.Txn.{ok, Txn}

-- The key of the table's UNIQUE constraint.
abbrev pub has_key : String → String → InboxRow → Bool
has_key provider event r = str_eq r.provider provider && str_eq r.provider_event_id event

-- On a conflict the row that stands keeps all its fields but `provider`, which is equal.
abbrev pub insert_if : Option InboxRow → InboxRow → Db → ℕ × Db
insert_if none r d = (r.id, record d { inbox = d.inbox ++ r ∷ [] })
insert_if (some old) r d = (
  old.id,
  record d {
    inbox =
        update_where (has_key r.provider r.provider_event_id)
          (λ x. record x { provider = r.provider }) d.inbox;
  },
)

-- `id` is what `gen_random_uuid()` draws.
unfoldable pub insert : ℕ → String → String → Fields → Txn ℕ
insert id provider event payload now d = ok (
    insert_if (first (has_key provider event) d.inbox)
      (record {
        id = id;
        provider = provider;
        provider_event_id = event;
        payload = payload;
        received_at = now;
        processed_at = none;
      })
      d)

unfoldable pub is_unprocessed : InboxRow → Bool
is_unprocessed r = elim r.processed_at [ none ↦ true | some _ ↦ false ]

abbrev earlier : InboxRow → Option InboxRow → InboxRow
earlier r none = r
earlier r (some b) = if leb r.received_at b.received_at then r else b

-- `WHERE processed_at IS NULL ORDER BY received_at ASC LIMIT 1`
unfoldable pub oldest_unprocessed : List InboxRow → Option InboxRow
oldest_unprocessed [] = none
oldest_unprocessed (r ∷ rs) =
    let rest = oldest_unprocessed rs in if is_unprocessed r then some (earlier r rest) else rest

unfoldable pub claim_unprocessed_one : Txn (Option InboxRow)
claim_unprocessed_one now d = ok (oldest_unprocessed d.inbox, d)

abbrev pub row_id : ℕ → InboxRow → Bool
row_id i r = r.id == i

unfoldable pub mark_processed : ℕ → Txn (Unit {0})
mark_processed i now d = ok (
  tt,
  record d { inbox = update_where (row_id i) (λ r. record r { processed_at = some now }) d.inbox },
)
