-- ===== src/System/Runs/Deliveries.antt =====
-- A delivery is there for good, over runs of the whole service.
use nurix_takehome.Common.{
  ℕ, String, ◌≡◌, refl, sym, ◌∙◌, subst, inl, inr, Bool, true, false, ◌||◌, Option, none, some,
  List, [], ◌∷◌, arith, first, any_row, update_where, Bool-cases, Option-cases,
}
use nurix_takehome.Model.Json.{Fields, get}
use nurix_takehome.Model.Rows.{InboxRow, Db}
use nurix_takehome.Model.Txn.{World, commit, after}
use nurix_takehome.Model.Keeps.{Keeps}
use nurix_takehome.Model.Deps.{Deps}
use nurix_takehome.Audit.{emit_audit}
use nurix_takehome.Persistence.Calls.{phones_unique, update_calls, claim_next_queued}
use nurix_takehome.Persistence.Calls.Updates.{update_calls-eq-ok, update_calls-eq-err}
use nurix_takehome.Persistence.Cursors.{update_last_dispatch_at}
use nurix_takehome.Persistence.Inbox.{has_key, row_id, insert, mark_processed}
use nurix_takehome.Persistence.Inbox.Dedupe.{insert-again, keyed}
use nurix_takehome.State.Rollup.Frame.{promote-eq-ok, inbox-promoted}
use nurix_takehome.Api.Campaigns.{CampaignCreate, create_campaign, txn_cases}
use nurix_takehome.Api.Campaigns.Fits.{any_row-append}
use nurix_takehome.Api.Routes.{draw_ids}
use nurix_takehome.Api.Ingest.{Reply, received, handle_webhook_ingest, ingest_event, text_of}
use nurix_takehome.Api.Debug.{age, is_dialing}
use nurix_takehome.System.Primitives.{Primitives}
use nurix_takehome.System.Backlog.{move_inbox}
use nurix_takehome.System.Runs.{AreFresh, Run, Handlers, run_keeps}
use nurix_takehome.System.Runs.Calls.{age_keeps, create-db}

-- Every event that is in the inbox stays there.
abbrev EventsKept : Db → Db → Type 0
EventsKept d d' =
    (provider event : String)
    → any_row (has_key provider event) d.inbox ≡ true
    → any_row (has_key provider event) d'.inbox ≡ true

same_events :
    (d : Db) (rows : List InboxRow)
    → rows ≡ d.inbox
    → (provider event : String) → any_row (has_key provider event) d.inbox ≡ true
    → any_row (has_key provider event) rows ≡ true
same_events d rows e provider event h =
    subst (λ xs. any_row (has_key provider event) xs ≡ true) (sym e) h

inbox-claim : (i now : ℕ) (d : Db) → (after (claim_next_queued i now d) d).inbox ≡ d.inbox
unfolding claim_next_queued
inbox-claim i now d = ground arith

marked-key :
    (i now : ℕ) (provider event : String) (rows : List InboxRow)
    → any_row
        (has_key provider event)
        (update_where (row_id i) (λ r. record r { processed_at = some now }) rows)
      ≡ any_row (has_key provider event) rows
unfolding any_row update_where
marked-key i now provider event [] = refl
marked-key i now provider event (r ∷ rows) = ground (arith, marked-key i now provider event rows)

events_kept : Primitives EventsKept
unfolding emit_audit update_last_dispatch_at mark_processed
events_kept = record {
  order = record {
    reflexive = λ d provider event h. h;
    transitive = λ a b c f g provider event h. g provider event (f provider event h);
  };
  audit = λ e. record { at = λ now d provider event h. h };
  move = λ m a. record { at = λ now d. same_events d _ ((move_inbox m).at now d) };
  claim = λ i. record { at = λ now d. same_events d _ (inbox-claim i now d) };
  promote = λ i. record {
    at = λ now d. rw (promote-eq-ok i now d) (same_events d _ (inbox-promoted i now d));
  };
  cursor = λ i ts. record { at = λ now d provider event h. h };
  mark = λ i. record { at = λ now d provider event h. marked-key i now provider event d.inbox ∙ h };
}

-- An event of the inbox has a first row.
first-any :
    {A : Type 0} (p : A → Bool) (xs : List A)
    → any_row p xs ≡ true
    → (x : A) × (first p xs ≡ some x)
unfolding any_row first
first-any p [] h = cc
first-any p (x ∷ xs) h = elim (Bool-cases (p x)) [
  | inl t ↦ (x, rw t refl)
  | inr f ↦ let (y, e) = first-any p xs (rw f at h) in (y, rw f e)
]

-- A delivery of an event that is in the inbox changes nothing, whatever its body.
known_event :
    (j : ℕ) (provider event : String) (body : Fields) (v : World)
    → any_row (has_key provider event) v.db.inbox ≡ true
    → ingest_event j provider (some event) body v ≡ (received, v)
unfolding commit
known_event j provider event body v h =
    let (old, e) = first-any (has_key provider event) v.db.inbox h in
    rw (insert-again j provider event body v.clock v.db e) refl

any_row-first :
    {A : Type 0} (p : A → Bool) (xs : List A) {x : A} → first p xs ≡ some x → any_row p xs ≡ true
unfolding any_row first
any_row-first p [] e = cc
any_row-first p (y ∷ xs) {x} e = elim (Bool-cases (p y)) [
  | inl t ↦ rw t refl
  | inr f ↦ rw f (any_row-first p xs (rw f at e))
]

or_left : (a b : Bool) → a ≡ true → (a || b) ≡ true
or_left a b h = ground arith

or_right : (a b : Bool) → b ≡ true → (a || b) ≡ true
or_right a b h = ground arith

any_row-one : {A : Type 0} (p : A → Bool) (x : A) → p x ≡ true → any_row p (x ∷ []) ≡ true
unfolding any_row
any_row-one p x h = rw h refl

known_delivered :
    (i : ℕ) (provider event : String) (body : Fields) (v : World)
    → any_row (has_key provider event) v.db.inbox ≡ true
    → EventsKept v.db (ingest_event i provider (some event) body v).1.db
      × (any_row (has_key provider event) (ingest_event i provider (some event) body v).1.db.inbox
          ≡ true)
known_delivered i provider event body v h =
    subst
      (λ (r : Reply × World).
        EventsKept v.db r.1.db × (any_row (has_key provider event) r.1.db.inbox ≡ true))
      (sym (known_event i provider event body v h)) ((λ p k g. g), h)

-- What a delivery does to the inbox: nothing, or its row stands behind the others.
delivered :
    (i : ℕ) (provider event : String) (body : Fields) (v : World)
    → EventsKept v.db (ingest_event i provider (some event) body v).1.db
      × (any_row (has_key provider event) (ingest_event i provider (some event) body v).1.db.inbox
          ≡ true)
unfolding commit insert
delivered i provider event body v =
    elim (Option-cases (first (has_key provider event) v.db.inbox)) [
      | inr (old, e) ↦
          known_delivered i provider event body v
            (any_row-first (has_key provider event) v.db.inbox e)
      | inl e ↦
          let row : InboxRow = record {
            id = i;
            provider = provider;
            provider_event_id = event;
            payload = body;
            received_at = v.clock;
            processed_at = none;
          } in
          rw e (
            (λ p k h. any_row-append (has_key p k) v.db.inbox (row ∷ []) ∙ or_left _ _ h),
            any_row-append (has_key provider event) v.db.inbox (row ∷ [])
                ∙ or_right _ _ (any_row-one (has_key provider event) row (keyed row)),
          )
    ]

ingest_events :
    (verified : Bool) (id : ℕ) (provider : String) (payload : Fields) (v : World)
    → EventsKept v.db (handle_webhook_ingest verified id provider payload v).1.db
unfolding handle_webhook_ingest
ingest_events false id provider payload v = λ p k h. h
ingest_events true id provider payload v = event_of (text_of (get "provider_event_id" payload))
  where
    event_of : (o : Option String) → EventsKept v.db (ingest_event id provider o payload v).1.db
    event_of none = λ p k h. h
    event_of (some event) = (delivered id provider event payload v).0

age_events : (i by : ℕ) → Keeps EventsKept (update_calls (is_dialing i) (age by))
age_events i by = record {
  at = λ now d.
      elim (Bool-cases (phones_unique (update_where (is_dialing i) (age by now) d.calls))) [
        | inl t ↦ rw (update_calls-eq-ok (is_dialing i) (age by) now d t) (λ p k h. h)
        | inr f ↦ rw (update_calls-eq-err (is_dialing i) (age by) now d f) (λ p k h. h)
      ];
}

create_events :
    (deps : Deps) (id : ℕ) (draw : ℕ → ℕ) (phones : List String) (body : CampaignCreate) (v : World)
    → AreFresh id draw v.db
    → EventsKept v.db (create_campaign deps id (draw_ids draw 0 phones) body v).1.db
create_events deps id draw phones body v f =
    subst (EventsKept v.db) (sym (create-db deps id (draw_ids draw 0 phones) body v))
      (elim (txn_cases deps id (draw_ids draw 0 phones) body v.clock v.db f.campaign) [
        | inl e ↦ rw e (λ p k h. h)
        | inr e ↦ rw e (λ p k h. h)
      ])

events_handlers : Handlers EventsKept
events_handlers = record {
  ingest = ingest_events;
  create = create_events;
  age = age_keeps events_kept age_events;
}

-- After a verified delivery of an event, and any run of the service from there, in which the event may
-- have been processed: every further verified delivery of the event, whatever else its body holds, is
-- answered as received and leaves the world as it was. No row is added, opened again or overwritten.
pub ingest-Run :
    (w : World) {v : World} (i j : ℕ) (provider event : String) (payload other : Fields)
    → text_of (get "provider_event_id" payload) ≡ some event
    → text_of (get "provider_event_id" other) ≡ some event
    → Run (handle_webhook_ingest true i provider payload w).1 v
    → handle_webhook_ingest true j provider other v ≡ (received, v)
unfolding handle_webhook_ingest
ingest-Run w {v} i j provider event payload other e f r =
    let first_stored = (delivered i provider event payload w).1 in
    let at_start : any_row (has_key provider event)
          (handle_webhook_ingest true i provider payload w).1.db.inbox
        ≡ true =
      rw e first_stored in
    rw f (
      known_event j provider event other v
        (run_keeps events_kept events_handlers r provider event at_start))
