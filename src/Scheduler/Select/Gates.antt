-- ===== src/Scheduler/Select/Gates.antt =====
-- What the gates of `select` let through, and what they leave in the database.
use nurix_takehome.Common.{
  ℕ, ◌≡◌, refl, ◌∙◌, inl, inr, Bool, List, [], ◌∷◌, ltb, map, Bool-cases, rows_where,
}
use nurix_takehome.Model.Rows.{AuditEvent, CampaignWithCursor, Db}
use nurix_takehome.Model.Txn.{Result, ok, ◌>>=◌}
use nurix_takehome.Audit.{logged, emit_audit}
use nurix_takehome.Persistence.Calls.{
  in_flight_counts_by_campaign, count_of, find_retry_due_campaign_ids,
}
use nurix_takehome.Scheduler.Select.{
  skip_hours_event, skip_concurrency_event, skip_hours, keep, gate, id_of, pick, survivors,
}

-- The databases differ in the audit log alone.
pub record SameTables (d d' : Db) : Type 0 where
  pub campaigns : d'.campaigns ≡ d.campaigns
  pub calls : d'.calls ≡ d.calls
  pub cursors : d'.cursors ≡ d.cursors
  pub inbox : d'.inbox ≡ d.inbox

pub SameTables-refl : (d : Db) → SameTables d d
SameTables-refl d = record { campaigns = refl; calls = refl; cursors = refl; inbox = refl }

pub SameTables-trans : {a b c : Db} → SameTables a b → SameTables b c → SameTables a c
SameTables-trans h k = record {
  campaigns = k.campaigns ∙ h.campaigns;
  calls = k.calls ∙ h.calls;
  cursors = k.cursors ∙ h.cursors;
  inbox = k.inbox ∙ h.inbox;
}

SameTables-logged : (e : AuditEvent) (now : ℕ) (d : Db) → SameTables d (logged e now d)
SameTables-logged e now d = record { campaigns = refl; calls = refl; cursors = refl; inbox = refl }

-- The transaction returns the value, and changes the audit log alone.
abbrev pub Returns : {A : Type 0} → Result (A × Db) → A → Db → Type 0
Returns r a d = (d' : Db) × (r ≡ ok (a, d')) × SameTables d d'

pub skip_hours-Returns :
    (cs : List CampaignWithCursor) (now : ℕ) (d : Db) → Returns (skip_hours cs now d) tt d
unfolding skip_hours emit_audit
skip_hours-Returns [] now d = (d, refl, SameTables-refl d)
skip_hours-Returns (c ∷ cs) now d =
    let (d', e, s) = skip_hours-Returns cs now (logged (skip_hours_event c) now d) in
    (d', e, SameTables-trans (SameTables-logged (skip_hours_event c) now d) s)

-- Below its cap, by the counts that the gate is given.
abbrev pub below_cap : List (ℕ × ℕ) → CampaignWithCursor → Bool
below_cap counts c = ltb (count_of c.id counts) c.max_concurrent

keep_row :
    (counts : List (ℕ × ℕ)) (c : CampaignWithCursor) (cs : List CampaignWithCursor)
    → keep (below_cap counts c) c (rows_where (below_cap counts) cs)
      ≡ rows_where (below_cap counts) (c ∷ cs)
unfolding rows_where
keep_row counts c cs = elim (Bool-cases (below_cap counts c)) [ inl t ↦ rw t | inr f ↦ rw f ]

gate-Returns :
    (counts : List (ℕ × ℕ)) (cs : List CampaignWithCursor) (now : ℕ) (d : Db)
    → Returns (gate counts cs now d) (rows_where (below_cap counts) cs) d
unfolding gate emit_audit
gate-Returns counts [] now d = (d, unfold rows_where in refl, SameTables-refl d)
gate-Returns counts (c ∷ cs) now d = elim (Bool-cases (below_cap counts c)) [
  | inl t ↦
      let (d', e, s) = gate-Returns counts cs now d in
      (d', rw (← keep_row counts c cs) (rw t (rw (e, ◌>>=◌))), s)
  | inr f ↦
      let (d', e, s) =
        gate-Returns counts cs now
          (logged (skip_concurrency_event c (count_of c.id counts)) now d) in
      (
        d',
        rw (← keep_row counts c cs) (rw f (rw (e, ◌>>=◌))),
        SameTables-trans (SameTables-logged (skip_concurrency_event c (count_of c.id counts)) now d)
            s,
      )
]

-- The survivors of the gates.
abbrev pub capped : ℕ → Db → List CampaignWithCursor → List CampaignWithCursor
capped now d in_hours =
    rows_where (below_cap (in_flight_counts_by_campaign (map id_of in_hours) d)) in_hours

pub find_retry_due-same :
    (now : ℕ) {d d' : Db}
    → SameTables d d'
    → find_retry_due_campaign_ids now d' ≡ find_retry_due_campaign_ids now d
unfolding find_retry_due_campaign_ids
find_retry_due-same now s = rw (s.calls)

pub survivors-Returns :
    (cs : List CampaignWithCursor) (now : ℕ) (d : Db)
    → Returns (survivors cs now d) (pick (find_retry_due_campaign_ids now d) (capped now d cs)) d
survivors-Returns cs now d =
    let (d', e, s) = gate-Returns (in_flight_counts_by_campaign (map id_of cs) d) cs now d in
    (d', rw (e, ◌>>=◌) (rw (find_retry_due-same now s)), s)
