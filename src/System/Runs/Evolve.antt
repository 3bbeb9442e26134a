-- ===== src/System/Runs/Evolve.antt =====
-- How the calls evolve over runs of the whole service.
use nurix_takehome.Common.{
  ℕ, suc, ◌<◌, ◌≡◌, refl, sym, subst, String, true, false, some, List, [], ◌∷◌, ◌++◌, map, arith,
  inl, inr, ◌==◌, ==_iff, any_row, Bool-cases,
}
use nurix_takehome.Model.Rows.{Call}
use nurix_takehome.Model.Txn.{World}
use nurix_takehome.Model.Deps.{Deps}
use nurix_takehome.Persistence.Calls.{has_id, new_call, get}
use nurix_takehome.Persistence.Calls.Ids.{ids_unique}
use nurix_takehome.State.Lifecycle.{Evolves, Evolved-append, Evolved-get}
use nurix_takehome.Api.Campaigns.{CampaignCreate, create_campaign, txn_cases}
use nurix_takehome.Api.Campaigns.Fits.{any_row-append}
use nurix_takehome.Api.Routes.{draw_ids}
use nurix_takehome.Api.Ingest.{handle_webhook_ingest}
use nurix_takehome.System.Lifecycle.{CallsEvolve, calls_evolve, same_calls}
use nurix_takehome.System.Runs.{AreFresh, Run, Handlers, run_keeps}
use nurix_takehome.System.Runs.Calls.{ingest-calls, age_keeps, age_calls, create-db}

or_false :
    (c : Call) (cs : List Call) (i : ℕ)
    → any_row (has_id i) (c ∷ cs) ≡ false
    → ((i == c.id) ≡ false) × (any_row (has_id i) cs ≡ false)
unfolding any_row
or_false c cs i h = (ground arith, ground arith)

module _ (i retries now : ℕ) (draw : ℕ → ℕ) where
  abbrev rows : ℕ → List String → List Call
  rows n ps = map (new_call i retries now) (draw_ids draw n ps)

  -- A row whose id no draw has shares its id with no new row.
  apart :
      (id n : ℕ) (ps : List String)
      → ((j : ℕ) → (draw j == id) ≡ false)
      → any_row (has_id id) (rows n ps) ≡ false
  unfolding any_row draw_ids
  apart id n [] h = refl
  apart id n (p ∷ ps) h = rw (h n) (apart id (suc n) ps h)

  module _ (distinct : (j k : ℕ) → draw j ≡ draw k → j ≡ k) where
    other_draw : (n m : ℕ) → n < m → (draw m == draw n) ≡ false
    other_draw n m h = elim (Bool-cases (draw m == draw n)) [
      | inl t ↦ absurd (omega (arith, distinct m n ((==_iff (draw m) (draw n)).0 t)))
      | inr f ↦ f
    ]

    not_later : (n m : ℕ) (ps : List String) → n < m → any_row (has_id (draw n)) (rows m ps) ≡ false
    unfolding any_row draw_ids
    not_later n m [] h = refl
    not_later n m (p ∷ ps) h = rw (other_draw n m h) (not_later n (suc m) ps (omega arith))

    new_ids : (n : ℕ) (ps : List String) → ids_unique (rows n ps) ≡ true
    unfolding ids_unique draw_ids
    new_ids n [] = refl
    new_ids n (p ∷ ps) = rw (not_later n (suc n) ps (omega arith)) (new_ids (suc n) ps)

    ids_unique-append :
        (cs : List Call) (ps : List String)
        → ((j : ℕ) → any_row (has_id (draw j)) cs ≡ false)
        → ids_unique cs ≡ true
        → ids_unique (cs ++ rows 0 ps) ≡ true
    unfolding ids_unique
    ids_unique-append [] ps f u = new_ids 0 ps
    ids_unique-append (c ∷ cs) ps f u = ground (
      arith,
      any_row-append (has_id c.id) cs (rows 0 ps),
      apart c.id 0 ps (λ j. (head_and_rest j).0),
      ids_unique-append cs ps (λ j. (head_and_rest j).1),
    )
      where
        head_and_rest :
            (j : ℕ) → ((draw j == c.id) ≡ false) × (any_row (has_id (draw j)) cs ≡ false)
        head_and_rest j = or_false c cs (draw j) (f j)

create_evolves :
    (deps : Deps) (id : ℕ) (draw : ℕ → ℕ) (phones : List String) (body : CampaignCreate) (v : World)
    → AreFresh id draw v.db
    → CallsEvolve v.db (create_campaign deps id (draw_ids draw 0 phones) body v).1.db
create_evolves deps id draw phones body v f =
    subst (CallsEvolve v.db) (sym (create-db deps id (draw_ids draw 0 phones) body v))
      (elim (txn_cases deps id (draw_ids draw 0 phones) body v.clock v.db f.campaign) [
        | inl e ↦ rw e (same_calls v.db v.db refl)
        | inr e ↦ rw e (λ u. (
          ids_unique-append id body.max_attempts v.clock draw f.distinct v.db.calls phones f.calls
              u,
          Evolved-append v.db.calls _,
        ))
      ])

calls_handlers : Handlers CallsEvolve
calls_handlers = record {
  ingest = λ verified id provider payload v.
      same_calls v.db (handle_webhook_ingest verified id provider payload v).1.db
        (ingest-calls verified id provider payload v);
  create = create_evolves;
  age = age_keeps calls_evolve age_calls;
}

-- A call that is stored is there after any run of the service, with its identity, an epoch that has
-- not fallen, and its status if that was terminal: whatever the provider answers and the events say,
-- in any order of ticks, drains, sweeps, deliveries, requests and debug calls, with runs of the same
-- kind while a tick or a sweep waits.
pub Run-Evolves :
    {w v : World} (i : ℕ) {c : Call}
    → Run w v
    → ids_unique w.db.calls ≡ true
    → get i w.db ≡ some c
    → (c' : Call) × (get i v.db ≡ some c') × Evolves c c'
Run-Evolves {w} {v} i r u e =
    Evolved-get i w.db v.db (run_keeps calls_evolve calls_handlers r u).1 e
