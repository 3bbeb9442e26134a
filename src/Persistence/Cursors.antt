-- ===== src/Persistence/Cursors.antt =====
-- `SchedulerStateRepo` of app/persistence/repositories.py: the round-robin cursors.
use nurix_takehome.Common.{ℕ, Option, some, List, [], ◌∷◌, ◌==◌, if◌then◌else◌}
use nurix_takehome.Model.Rows.{Cursor, Db}
use nurix_takehome.Model.Txn.{ok, Txn}
use nurix_takehome.Persistence.Campaigns.{cursor_of}

unfoldable pub get_last_dispatch_at : ℕ → Db → Option ℕ
get_last_dispatch_at i d = cursor_of i d.cursors

-- INSERT ... ON CONFLICT (campaign_id) DO UPDATE
unfoldable pub upsert : ℕ → ℕ → List Cursor → List Cursor
upsert i ts [] = record { campaign_id = i; last_dispatch_at = some ts } ∷ []
upsert i ts (c ∷ cs) =
    if c.campaign_id == i then record c { last_dispatch_at = some ts } ∷ cs else c ∷ upsert i ts cs

unfoldable pub update_last_dispatch_at : ℕ → ℕ → Txn (Unit {0})
unfolding upsert
update_last_dispatch_at i ts now d = ok (tt, record d { cursors = upsert i ts d.cursors })
