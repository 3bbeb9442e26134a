-- ===== src/Persistence/Calls.antt =====
-- `CallRepo` of app/persistence/repositories.py, over the `calls` table of schema.sql.
pub mod Updates
pub mod Ids
pub mod Claim
pub mod InFlight
use mathlib.Core.Option
use nurix_takehome.Common.{
  ℕ, ◌+◌, ◌*◌, String, Bool, true, false, not, ◌&&◌, Option, none, some, List, [], ◌∷◌, ◌++◌, map,
  ltb, leb, ◌==◌, if◌then◌else◌, str_eq, first, rows_where, count_where, any_row, update_where,
}
use nurix_takehome.Model.Status.{CallStatus, queued, dialing, in_progress, retry_pending, status_eq}
use nurix_takehome.Model.Rows.{Call, Db}
use nurix_takehome.Model.Txn.{ok, err, unique_violation, Txn, pure, gets, ◌>>=◌}

-- The statuses of the partial unique index on `phone`.
unfoldable pub is_guarded : CallStatus → Bool
is_guarded queued = true
is_guarded dialing = true
is_guarded in_progress = true
is_guarded _ = false

-- `status IN ('DIALING', 'IN_PROGRESS')`
unfoldable pub is_in_flight : CallStatus → Bool
is_in_flight dialing = true
is_in_flight in_progress = true
is_in_flight _ = false

-- `status IN ('QUEUED', 'DIALING', 'IN_PROGRESS', 'RETRY_PENDING')`
unfoldable pub is_active : CallStatus → Bool
is_active queued = true
is_active dialing = true
is_active in_progress = true
is_active retry_pending = true
is_active _ = false

abbrev pub holds_phone : String → Call → Bool
holds_phone phone c = is_guarded c.status && str_eq c.phone phone

-- The index accepts the table: no two rows in its statuses share a phone.
unfoldable pub phones_unique : List Call → Bool
phones_unique [] = true
phones_unique (c ∷ cs) =
    not (is_guarded c.status && any_row (holds_phone c.phone) cs) && phones_unique cs

-- The new table is stored, if the index accepts it.
unfoldable pub store_calls : {A : Type 0} → A → List Call → Txn A
store_calls a calls now d =
    if phones_unique calls then ok (a, record d { calls = calls }) else err unique_violation

-- `UPDATE calls SET ... WHERE ... RETURNING *`, and the first row returned.
unfoldable pub update_calls : (Call → Bool) → (ℕ → Call → Call) → Txn (Option Call)
unfolding store_calls
update_calls p f now d =
    store_calls (Option.map (f now) (first p d.calls)) (update_where p (f now) d.calls) now d

-- `next_attempt_at IS NULL OR next_attempt_at <= NOW()`
abbrev pub is_due : ℕ → Option ℕ → Bool
is_due now none = true
is_due now (some t) = leb t now

-- `ORDER BY created_at ASC LIMIT 1` over the rows that the test accepts. Rows of one age come in
-- table order, which stands for the order that the database happens to choose.
abbrev older : Call → Option Call → Call
older c none = c
older c (some b) = if leb c.created_at b.created_at then c else b

unfoldable pub oldest : (Call → Bool) → List Call → Option Call
oldest p [] = none
oldest p (c ∷ cs) = let rest = oldest p cs in if p c then some (older c rest) else rest

unfoldable pub is_claimable : ℕ → ℕ → Call → Bool
is_claimable campaign now c =
    c.campaign_id == campaign && (status_eq c.status queued && is_due now c.next_attempt_at)

abbrev pub claim : ℕ → Call → Call
claim now c = record c {
  status = dialing;
  attempt_epoch = c.attempt_epoch + 1;
  provider_call_id = none;
  updated_at = now;
}

abbrev pub has_id : ℕ → Call → Bool
has_id i c = c.id == i

abbrev pub claim_candidate : Option Call → Txn (Option Call)
claim_candidate none = pure none
claim_candidate (some c) = update_calls (has_id c.id) claim

unfoldable pub claim_next_queued : ℕ → Txn (Option Call)
unfolding update_calls
claim_next_queued campaign = do
  candidate ← gets (λ now d. oldest (is_claimable campaign now) d.calls)
  claim_candidate candidate

unfoldable pub is_retry_due : ℕ → Call → Bool
is_retry_due now c = status_eq c.status retry_pending && is_due now c.next_attempt_at

-- `SELECT DISTINCT`: the last of equal values is kept.
unfoldable pub is_among : ℕ → List ℕ → Bool
is_among i = any_row (λ j. j == i)

distinct : List ℕ → List ℕ
distinct [] = []
distinct (x ∷ xs) = let rest = distinct xs in if is_among x xs then rest else x ∷ rest

unfoldable pub find_retry_due_campaign_ids : ℕ → Db → List ℕ
unfolding distinct
find_retry_due_campaign_ids now d =
    distinct (map (λ c. c.campaign_id) (rows_where (is_retry_due now) d.calls))

abbrev pub occupies : ℕ → Call → Bool
occupies campaign c = c.campaign_id == campaign && is_in_flight c.status

unfoldable pub in_flight_count : ℕ → Db → ℕ
in_flight_count campaign d = count_where (occupies campaign) d.calls

-- The dict starts at 0 for every campaign asked for, and the groups found overwrite it.
unfoldable pub in_flight_counts_by_campaign : List ℕ → Db → List (ℕ × ℕ)
in_flight_counts_by_campaign [] d = []
in_flight_counts_by_campaign (i ∷ is) d =
    (i, in_flight_count i d) ∷ in_flight_counts_by_campaign is d

-- `counts.get(id, 0)`
unfoldable pub count_of : ℕ → List (ℕ × ℕ) → ℕ
count_of i [] = 0
count_of i ((j, n) ∷ rest) = if j == i then n else count_of i rest

unfoldable pub count_active_by_campaign : ℕ → Db → ℕ
count_active_by_campaign campaign d =
    count_where (λ c. c.campaign_id == campaign && is_active c.status) d.calls

unfoldable pub count_retries_due_system : ℕ → Db → ℕ
count_retries_due_system now d = count_where (is_retry_due now) d.calls

-- `updated_at < NOW() - make_interval(secs => threshold)`
unfoldable pub is_stuck : ℕ → ℕ → Call → Bool
is_stuck threshold now c =
    status_eq c.status dialing && ltb (c.updated_at + threshold * 1000000) now

unfoldable pub find_stuck_dialing : ℕ → ℕ → Db → List Call
find_stuck_dialing threshold now d = rows_where (is_stuck threshold now) d.calls

-- `provider_call_id = $1`, which no NULL meets.
unfoldable pub has_provider_call_id : String → Call → Bool
has_provider_call_id p c = elim c.provider_call_id [ none ↦ false | some q ↦ str_eq q p ]

unfoldable pub get_by_provider_call_id : String → Db → Option Call
get_by_provider_call_id p d = first (has_provider_call_id p) d.calls

unfoldable pub get : ℕ → Db → Option Call
get i d = first (has_id i) d.calls

abbrev pub new_call : ℕ → ℕ → ℕ → (ℕ × String) → Call
new_call campaign retries now e = record {
  id = e.0;
  campaign_id = campaign;
  phone = e.1;
  status = queued;
  attempt_epoch = 0;
  retries_remaining = retries;
  next_attempt_at = none;
  provider_call_id = none;
  created_at = now;
  updated_at = now;
}

-- Each phone comes with the number that `gen_random_uuid()` draws for its row.
unfoldable pub create_batch : ℕ → List (ℕ × String) → ℕ → Txn (List ℕ)
unfolding store_calls
create_batch campaign [] retries now d = ok ([], d)
create_batch campaign (e ∷ es) retries now d =
    store_calls (map (λ x. x.0) (e ∷ es)) (d.calls ++ map (new_call campaign retries now) (e ∷ es))
      now d
