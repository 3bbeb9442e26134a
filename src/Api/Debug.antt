-- ===== src/Api/Debug.antt =====
-- `age_dialing` of app/api/routers/debug.py. The route is called with `1 <= by_seconds <= 86400`.
use mathlib.Core.Option
use nurix_takehome.Common.{ℕ, ◌-◌, ◌*◌, Bool, ◌&&◌, Option, none, some, [], ◌∷◌, if◌then◌else◌}
use nurix_takehome.Model.Status.{dialing, debug_age_dialing, status_eq}
use nurix_takehome.Model.Json.{num, end, field, txt, int}
use nurix_takehome.Model.Rows.{Call}
use nurix_takehome.Model.Txn.{Txn, pure, ◌>>=◌, ◌>>◌}
use nurix_takehome.Audit.{audit_event, emit_audit}
use nurix_takehome.Persistence.Calls.{update_calls, has_id}

pub data Reply : Type 0 where
  refused : ℕ → Reply
  aged : ℕ → Reply

abbrev pub is_dialing : ℕ → Call → Bool
is_dialing i c = has_id i c && status_eq c.status dialing

abbrev pub age : ℕ → ℕ → Call → Call
age by now c = record c { updated_at = now - by * 1000000 }

-- No row: the exception leaves the transaction, which has changed nothing.
abbrev pub reply_to : ℕ → ℕ → Option Call → Txn Reply
reply_to i by none = pure (refused 404)
reply_to i by (some c) = do
  emit_audit
      (record (audit_event debug_age_dialing
        (txt "aged updated_at by " ∷ int by ∷ txt "s for reclaim demo" ∷ [])) {
          campaign_id = some c.campaign_id;
          call_id = some i;
          phone = some c.phone;
          attempt_epoch = some c.attempt_epoch;
          extra = field "aged_by_seconds" (num by) end;
        })
  pure (aged c.updated_at)

-- `enabled` is the setting `debug_endpoints_enabled`.
unfoldable pub age_dialing : Bool → ℕ → ℕ → Txn Reply
unfolding update_calls
age_dialing enabled i by =
    if enabled
    then (do row ← update_calls (is_dialing i) (age by); reply_to i by row)
    else pure (refused 403)
