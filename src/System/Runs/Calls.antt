-- ===== src/System/Runs/Calls.antt =====
-- The calls over runs of the whole service.
use nurix_takehome.Common.{
  ℕ, ◌≡◌, refl, sym, subst, ◌∙◌, String, Bool, true, false, Option, none, some, List, [], ◌∷◌, ◌++◌,
  map, arith, inl, inr, first, update_where, Bool-cases,
}
use nurix_takehome.Model.Json.{Fields, get}
use nurix_takehome.Model.Rows.{Campaign, Call, InboxRow, Db}
use nurix_takehome.Model.Txn.{Result, ok, err, World, commit, after}
use nurix_takehome.Model.Keeps.{Keeps, Keeps-bind, Keeps-pure, Keeps-gets, db-commit}
use nurix_takehome.Model.Deps.{Deps}
use nurix_takehome.Persistence.Calls.{
  phones_unique, new_call, update_calls, create_batch, store_calls,
}
use nurix_takehome.Persistence.Calls.Ids.{ids_unique-update}
use nurix_takehome.Persistence.Campaigns
use nurix_takehome.Scheduler.Reclaim.{notify}
use nurix_takehome.Persistence.Inbox.{has_key, insert_if, insert}
use nurix_takehome.State.Lifecycle.{Evolves, Evolved-refl, Evolved-update, All-always}
use nurix_takehome.Api.Campaigns.{CampaignCreate, create_campaign, answer, create_txn, new_campaign}
use nurix_takehome.Api.Routes.{draw_ids}
use nurix_takehome.Api.Ingest.{handle_webhook_ingest, ingest_event, text_of}
use nurix_takehome.Api.Debug.{age_dialing, age, is_dialing, reply_to, refused, aged}
use nurix_takehome.System.Primitives.{Primitives}
use nurix_takehome.Persistence.Calls.Updates.{update_calls-eq-ok, update_calls-eq-err}
use nurix_takehome.System.Phones.{PhonesKept, phones_kept}
use nurix_takehome.System.Lifecycle.{CallsEvolve}
use nurix_takehome.System.Runs.{Run, Handlers, run_keeps}

insert_if-calls :
    (o : Option InboxRow) (r : InboxRow) (d : Db) → (insert_if o r d).1.calls ≡ d.calls
insert_if-calls none r d = refl
insert_if-calls (some old) r d = refl

pub ingest-calls :
    (verified : Bool) (id : ℕ) (provider : String) (payload : Fields) (v : World)
    → (handle_webhook_ingest verified id provider payload v).1.db.calls ≡ v.db.calls
unfolding handle_webhook_ingest commit insert
ingest-calls false id provider payload v = refl
ingest-calls true id provider payload v = event-calls (text_of (get "provider_event_id" payload))
  where
    event-calls :
        (e : Option String) → (ingest_event id provider e payload v).1.db.calls ≡ v.db.calls
    event-calls none = refl
    event-calls (some e) = insert_if-calls (first (has_key provider e) v.db.inbox) _ v.db

module _ {R : Db → Db → Type 0} (p : Primitives R) where
  reply_keeps : (i by : ℕ) (o : Option Call) → Keeps R (reply_to i by o)
  reply_keeps i by none = Keeps-pure p.order (refused 404)
  reply_keeps i by (some c) =
      Keeps-bind p.order _ _ (p.audit _) (λ _. Keeps-pure p.order (aged c.updated_at))

  pub age_keeps :
      ((i by : ℕ) → Keeps R (update_calls (is_dialing i) (age by)))
      → (enabled : Bool) (i by : ℕ) (v : World) → R v.db (commit (age_dialing enabled i by) v).1.db
  unfolding age_dialing
  age_keeps k true i by v = subst (R v.db) (sym (db-commit (age_dialing true i by) v)) (
      (Keeps-bind p.order (update_calls (is_dialing i) (age by)) (reply_to i by) (k i by)
          (reply_keeps i by)).at
        v.clock v.db)
  age_keeps k false i by v =
      subst (R v.db) (sym (db-commit (age_dialing false i by) v)) (p.order.reflexive v.db)

age_phones : (i by : ℕ) → Keeps PhonesKept (update_calls (is_dialing i) (age by))
age_phones i by = record {
  at = λ now d u.
      elim (Bool-cases (phones_unique (update_where (is_dialing i) (age by now) d.calls))) [
        | inl t ↦ rw (update_calls-eq-ok (is_dialing i) (age by) now d t) t
        | inr f ↦ rw (update_calls-eq-err (is_dialing i) (age by) now d f) u
      ];
}

age-Evolves : (by now : ℕ) (c : Call) → Evolves c (age by now c)
age-Evolves by now c = record {
  id = refl;
  campaign = refl;
  phone = refl;
  epoch = omega arith;
  absorbed = inr refl;
}

pub age_calls : (i by : ℕ) → Keeps CallsEvolve (update_calls (is_dialing i) (age by))
age_calls i by = record {
  at = λ now d u.
      elim (Bool-cases (phones_unique (update_where (is_dialing i) (age by now) d.calls))) [
        | inl t ↦ rw (update_calls-eq-ok (is_dialing i) (age by) now d t) (
          rw (ids_unique-update (is_dialing i) (age by now) d.calls (λ c. refl)) u,
          Evolved-update (is_dialing i) (age by now) d.calls
              (All-always _ d.calls (λ c _. age-Evolves by now c)),
        )
        | inr f ↦ rw (update_calls-eq-err (is_dialing i) (age by) now d f) (u, Evolved-refl d.calls)
      ];
}

answer-db : (r : Result (Option Campaign)) (w : World) → (answer (r, w)).1.db ≡ w.db
unfolding notify
answer-db (ok (some c)) w = refl
answer-db (ok none) w = refl
answer-db (err e) w = refl

module _ (deps : Deps) (id : ℕ) (phones : List (ℕ × String)) (body : CampaignCreate) where
  pub create-db :
      (w : World)
      → (create_campaign deps id phones body w).1.db
        ≡ after (create_txn deps id phones body w.clock w.db) w.db
  unfolding create_campaign
  create-db w =
      answer-db (commit (create_txn deps id phones body) w).0
        (commit (create_txn deps id phones body) w).1
      ∙ db-commit (create_txn deps id phones body) w

  batch_phones : (i retries : ℕ) → Keeps PhonesKept (create_batch i phones retries)
  unfolding create_batch store_calls
  batch_phones i retries = record { at = λ now d. stored phones now d }
    where
      stored :
          (es : List (ℕ × String)) (now : ℕ) (d : Db)
          → PhonesKept d (after (create_batch i es retries now d) d)
      stored [] now d u = u
      stored (e ∷ es) now d u =
          elim (Bool-cases (phones_unique (d.calls ++ map (new_call i retries now) (e ∷ es)))) [
            | inl t ↦ rw t t
            | inr f ↦ rw f u
          ]

  create_phones : Keeps PhonesKept (create_txn deps id phones body)
  unfolding create_txn Campaigns.create
  create_phones =
      Keeps-bind phones_kept.order (Campaigns.create id (new_campaign deps body)) _
        (record { at = λ now d u. u })
        (λ c.
          Keeps-bind phones_kept.order (create_batch c phones body.max_attempts) _
            (batch_phones c body.max_attempts)
            (λ is. Keeps-gets phones_kept.order (λ now d. Campaigns.get c d)))

phones_handlers : Handlers PhonesKept
phones_handlers = record {
  ingest = λ verified id provider payload v u. rw (ingest-calls verified id provider payload v) u;
  create = λ deps id draw phones body v f.
      subst (PhonesKept v.db) (sym (create-db deps id (draw_ids draw 0 phones) body v))
        ((create_phones deps id (draw_ids draw 0 phones) body).at v.clock v.db);
  age = age_keeps phones_kept age_phones;
}

-- If no phone stands in two queued, dialing or connected calls, then that is so after any run of the
-- service: ticks, drains, sweeps, deliveries, requests and debug calls in any order, with runs of the
-- same kind while a tick or a sweep waits.
pub Run-phones_unique :
    {w v : World} → Run w v → phones_unique w.db.calls ≡ true → phones_unique v.db.calls ≡ true
Run-phones_unique r u = run_keeps phones_kept phones_handlers r u
