-- ===== src/System/Runs/Log.antt =====
-- The audit log over runs of the whole service.
use nurix_takehome.Common.{
  ℕ, ◌+◌, ◌≤◌, ◌<◌, ◌≡◌, sym, subst, String, Bool, true, false, Option, none, some, List, [], ◌∷◌,
  arith, inl, inr, ◌==◌, ==_iff, ◌↔◌, All, All-map, InList, first, length, update_where, Bool-cases,
}
use nurix_takehome.Model.Json.{Fields, get}
use nurix_takehome.Model.Rows.{AuditRow, InboxRow, Db}
use nurix_takehome.Model.Txn.{World, commit}
use nurix_takehome.Model.Keeps.{Keeps}
use nurix_takehome.Model.Deps.{Deps}
use nurix_takehome.Persistence.Calls.{phones_unique, update_calls}
use nurix_takehome.Persistence.Calls.Updates.{update_calls-eq-ok, update_calls-eq-err}
use nurix_takehome.Persistence.Inbox.{has_key, insert_if, insert}
use nurix_takehome.Persistence.Pages.Order.{Desc, Distinct}
use nurix_takehome.State.Rollup.Log.{Numbered, Numbered-append, AuditGrows, AuditGrows-refl}
use nurix_takehome.Audit.Reader.{Alphabet, AuditQuery, audit_key, limit_ok}
use nurix_takehome.Audit.Reader.Answers.{Wanted, follow, follow-Wanted}
use nurix_takehome.Api.Campaigns.{CampaignCreate, create_campaign, txn_cases}
use nurix_takehome.Api.Routes.{draw_ids}
use nurix_takehome.Api.Ingest.{handle_webhook_ingest, ingest_event, text_of}
use nurix_takehome.Api.Debug.{age, is_dialing}
use nurix_takehome.System.Log.{audit_grows}
use nurix_takehome.System.Runs.{AreFresh, Run, Handlers, run_keeps}
use nurix_takehome.System.Runs.Calls.{age_keeps, create-db}

insert_if-AuditGrows :
    (o : Option InboxRow) (r : InboxRow) (d : Db) → AuditGrows d (insert_if o r d).1
insert_if-AuditGrows none r d = AuditGrows-refl d
insert_if-AuditGrows (some old) r d = AuditGrows-refl d

ingest_grows :
    (verified : Bool) (id : ℕ) (provider : String) (payload : Fields) (v : World)
    → AuditGrows v.db (handle_webhook_ingest verified id provider payload v).1.db
unfolding handle_webhook_ingest commit insert
ingest_grows false id provider payload v = AuditGrows-refl v.db
ingest_grows true id provider payload v = event_grows (text_of (get "provider_event_id" payload))
  where
    event_grows : (e : Option String) → AuditGrows v.db (ingest_event id provider e payload v).1.db
    event_grows none = AuditGrows-refl v.db
    event_grows (some e) = insert_if-AuditGrows (first (has_key provider e) v.db.inbox) _ v.db

age_rows : (i by : ℕ) → Keeps AuditGrows (update_calls (is_dialing i) (age by))
age_rows i by = record {
  at = λ now d.
      elim (Bool-cases (phones_unique (update_where (is_dialing i) (age by now) d.calls))) [
        | inl t ↦ rw (update_calls-eq-ok (is_dialing i) (age by) now d t) (AuditGrows-refl d)
        | inr f ↦ rw (update_calls-eq-err (is_dialing i) (age by) now d f) (AuditGrows-refl d)
      ];
}

create_grows :
    (deps : Deps) (id : ℕ) (draw : ℕ → ℕ) (phones : List String) (body : CampaignCreate) (v : World)
    → AreFresh id draw v.db
    → AuditGrows v.db (create_campaign deps id (draw_ids draw 0 phones) body v).1.db
create_grows deps id draw phones body v f =
    subst (AuditGrows v.db) (sym (create-db deps id (draw_ids draw 0 phones) body v))
      (elim (txn_cases deps id (draw_ids draw 0 phones) body v.clock v.db f.campaign) [
        | inl e ↦ rw e (AuditGrows-refl v.db)
        | inr e ↦ rw e (AuditGrows-refl v.db)
      ])

log_handlers : Handlers AuditGrows
log_handlers = record {
  ingest = ingest_grows;
  create = create_grows;
  age = age_keeps audit_grows age_rows;
}

-- Any run of the service only appends to the audit log: ticks, drains, sweeps, deliveries, requests and
-- debug calls in any order, with runs of the same kind while a tick or a sweep waits. The new rows are
-- numbered one after the other by the sequence of the model, which rolls back with its transaction.
pub Run-AuditGrows : {w v : World} → Run w v → AuditGrows w.db v.db
Run-AuditGrows r = run_keeps audit_grows log_handlers r

Numbered-above :
    (n k m : ℕ) (rows : List AuditRow) → k ≤ n → Numbered n rows m → All (λ r. k ≤ r.id) rows
Numbered-above n k m [] h e = tt
Numbered-above n k m (r ∷ rows) h (e, g) =
    (omega arith, Numbered-above (n + 1) k m rows (omega arith) g)

differ : (i j : ℕ) → j < i → (i == j) ≡ false
differ i j h = elim (Bool-cases (i == j)) [
  | inl t ↦ absurd (omega (arith, (==_iff i j).0 t))
  | inr f ↦ f
]

-- Rows that are numbered have different ids.
pub Numbered-Distinct :
    (n m : ℕ) (rows : List AuditRow) → Numbered n rows m → Distinct audit_key rows
Numbered-Distinct n m [] e = tt
Numbered-Distinct n m (r ∷ rows) (e, g) = (
  All-map rows (λ y l. differ y.id r.id (omega arith))
      (Numbered-above (n + 1) (n + 1) m rows (omega arith) g),
  Numbered-Distinct (n + 1) m rows g,
)

-- From a log whose rows are numbered up to the sequence, such as an empty one, after any run of the
-- service: following the cursors of a query with a limit of 1 to 500 ends within one page more than
-- the log has rows, and shows exactly the rows that the query asks for, each once, the latest first.
pub Run-follow :
    {w v : World} (n : ℕ) (a : Alphabet) (q : AuditQuery) (fuel : ℕ)
    → Run w v
    → Numbered n w.db.audit w.db.audit_seq
    → limit_ok q.limit ≡ true
    → length v.db.audit < fuel
    → Desc audit_key (follow a q v.db fuel none)
      × ((r : AuditRow) → InList r (follow a q v.db fuel none) ↔ InList r v.db.audit × Wanted a q r)
Run-follow {w} {v} n a q fuel run h l f =
    follow-Wanted a q v.db fuel l (Numbered-Distinct n v.db.audit_seq v.db.audit (numbered h)) f
  where
    numbered : Numbered n w.db.audit w.db.audit_seq → Numbered n v.db.audit v.db.audit_seq
    numbered h =
        let (rows, e, g) = Run-AuditGrows run in
        subst (λ xs. Numbered n xs v.db.audit_seq) (sym e)
          (Numbered-append n w.db.audit_seq v.db.audit_seq w.db.audit rows h g)
