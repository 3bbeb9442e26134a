-- ===== src/System/Runs.antt =====
-- Runs of the whole service: ticks, drains of the inbox, sweeps, requests and deliveries, in any order.
-- What happens while a tick or a sweep waits is a run as well.
pub mod Calls
pub mod Evolve
pub mod Log
pub mod Daemons
pub mod Deliveries
use nurix_takehome.Common.{
  ℕ, ◌≡◌, refl, sym, subst, String, Bool, none, false, List, [], ◌∷◌, any_row,
}
use nurix_takehome.Model.Json.{Fields}
use nurix_takehome.Model.Rows.{Db}
use nurix_takehome.Model.Txn.{Result, ok, err, World, commit}
use nurix_takehome.Model.Deps.{Deps}
use nurix_takehome.Persistence.Calls.{has_id}
use nurix_takehome.Persistence.Campaigns
use nurix_takehome.Scheduler.Tick.{Others, tick}
use nurix_takehome.Scheduler.Webhook.{process_pending_inbox}
use nurix_takehome.Scheduler.Reclaim.{stuck_reclaim_sweep}
use nurix_takehome.Api.Schemas.Phones.{PhoneNumbers}
use nurix_takehome.Api.Schemas.Body.{Body, validate}
use nurix_takehome.Api.Responses.{Pydantic}
use nurix_takehome.Api.Campaigns.{CampaignCreate, create_campaign}
use nurix_takehome.Api.Routes.{draw_ids, request_of, post_campaign, create_from}
use nurix_takehome.Api.Ingest.{handle_webhook_ingest}
use nurix_takehome.Api.Debug.{age_dialing}
use nurix_takehome.System.Primitives.{Primitives}
use nurix_takehome.System.Tasks.{OthersKeep, tick_keeps, inbox_keeps, sweep_keeps}

-- The ids that `gen_random_uuid()` draws are new: no stored row has one, and none is drawn twice.
pub record AreFresh (id : ℕ) (draw : ℕ → ℕ) (d : Db) : Type 0 where
  pub campaign : Campaigns.get id d ≡ none
  pub calls : (i : ℕ) → any_row (has_id (draw i)) d.calls ≡ false
  pub distinct : (i j : ℕ) → draw i ≡ draw j → i ≡ j

-- Each step may have its own settings and provider answers.
pub data Run : World → World → Type 1 where
  stay : {w : World} → Run w w
  ticked :
      {w v : World} (deps : Deps) (others : Others)
      → Run w v
      → ((u : World) → Run u (others.after_pick u))
      → ((u : World) → Run u (others.after_requeue u))
      → ((u : World) → Run u (others.during_call u))
      → Run w (tick deps others v).1
  drained : {w v : World} (deps : Deps) → Run w v → Run w (process_pending_inbox deps v).1
  swept :
      {w v : World} (deps : Deps) (around : ℕ → World → World)
      → Run w v
      → ((j : ℕ) (u : World) → Run u (around j u))
      → Run w (stuck_reclaim_sweep deps around v).1
  ingested :
      {w v : World} (verified : Bool) (id : ℕ) (provider : String) (payload : Fields)
      → Run w v
      → Run w (handle_webhook_ingest verified id provider payload v).1
  posted :
      {w v : World} {N : Type 0} (lib : PhoneNumbers N) (known : String → Bool) (py : Pydantic)
      (deps : Deps) (id : ℕ) (draw : ℕ → ℕ) (body : Body)
      → Run w v
      → AreFresh id draw v.db
      → Run w (post_campaign lib known py deps id draw body v).1
  aged :
      {w v : World} (enabled : Bool) (i by : ℕ)
      → Run w v
      → Run w (commit (age_dialing enabled i by) v).1
  later : {w v : World} (t : ℕ) → Run w v → Run w (record v { clock = t })

-- The relation is kept by what the HTTP handlers do to the database.
pub record Handlers (R : Db → Db → Type 0) : Type 0 where
  pub ingest :
      (verified : Bool) (id : ℕ) (provider : String) (payload : Fields) (v : World)
      → R v.db (handle_webhook_ingest verified id provider payload v).1.db
  pub create :
      (deps : Deps) (id : ℕ) (draw : ℕ → ℕ) (phones : List String) (body : CampaignCreate)
      (v : World)
      → AreFresh id draw v.db
      → R v.db (create_campaign deps id (draw_ids draw 0 phones) body v).1.db
  pub age :
      (enabled : Bool) (i by : ℕ) (v : World) → R v.db (commit (age_dialing enabled i by) v).1.db

module _ {R : Db → Db → Type 0} (p : Primitives R) (h : Handlers R) where
  post_keeps :
      {N : Type 0} (lib : PhoneNumbers N) (known : String → Bool) (py : Pydantic) (deps : Deps)
      (id : ℕ) (draw : ℕ → ℕ) (r : Result Body) (v : World)
      → AreFresh id draw v.db
      → R v.db (create_from lib known py deps id draw r v).1.db
  post_keeps lib known py deps id draw (err e) v f = p.order.reflexive v.db
  post_keeps lib known py deps id draw (ok b) v f =
      h.create deps id draw b.phones (request_of py b) v f

  -- A relation that the primitive operations and the handlers keep is kept by a run.
  pub run_keeps : {w v : World} → Run w v → R w.db v.db
  unfolding post_campaign
  run_keeps {w} stay = p.order.reflexive w.db
  run_keeps {w} (ticked {v = v} deps others r a b c) =
      p.order.transitive w.db v.db (tick deps others v).1.db (run_keeps r) (
        (tick_keeps p deps others (record {
          after_pick = λ u. run_keeps (a u);
          after_requeue = λ u. run_keeps (b u);
          during_call = λ u. run_keeps (c u);
        })).at
          v)
  run_keeps {w} (drained {v = v} deps r) =
      p.order.transitive w.db v.db (process_pending_inbox deps v).1.db (run_keeps r)
        (inbox_keeps p deps v)
  run_keeps {w} (swept {v = v} deps around r a) =
      p.order.transitive w.db v.db (stuck_reclaim_sweep deps around v).1.db (run_keeps r)
        (sweep_keeps p deps around (λ j u. run_keeps (a j u)) v)
  run_keeps {w} (ingested {v = v} verified id provider payload r) =
      p.order.transitive w.db v.db (handle_webhook_ingest verified id provider payload v).1.db
        (run_keeps r) (h.ingest verified id provider payload v)
  run_keeps {w} (posted {v = v} lib known py deps id draw body r f) =
      p.order.transitive w.db v.db (post_campaign lib known py deps id draw body v).1.db
        (run_keeps r) (post_keeps lib known py deps id draw (validate lib known body) v f)
  run_keeps {w} (aged {v = v} enabled i by r) =
      p.order.transitive w.db v.db (commit (age_dialing enabled i by) v).1.db (run_keeps r)
        (h.age enabled i by v)
  run_keeps (later t r) = run_keeps r
