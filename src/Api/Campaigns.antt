-- ===== src/Api/Campaigns.antt =====
-- `create_campaign` of app/api/routers/campaigns.py, from the validated body on.
pub mod Fits
pub mod NewCalls
pub mod Outcome
use nurix_takehome.Common.{
  ℕ, zero, suc, ◌+◌, String, ◌≡◌, refl, sym, ap, ◌∙◌, ◌⊎◌, inl, inr, Bool, true, ◌&&◌, Option, none,
  some, List, [], ◌∷◌, ◌++◌, map, append-nil, arith, ◌==◌, ==_iff, length, first, count_where,
  Bool-cases,
}
use nurix_takehome.Model.Status.{pending}
use nurix_takehome.Model.Json.{Fields}
use nurix_takehome.Model.Rows.{Campaign, Db}
use nurix_takehome.Model.Txn.{
  Error, Result, ok, err, unique_violation, Txn, gets, ◌>>=◌, World, commit, settle,
}
use nurix_takehome.Model.Commit.{bind-ok, bind-err}
use nurix_takehome.Model.Deps.{Deps}
use nurix_takehome.Persistence.Calls.{
  phones_unique, store_calls, is_active, new_call, create_batch, count_active_by_campaign,
}
use nurix_takehome.Persistence.Campaigns
use nurix_takehome.Persistence.Campaigns.{NewCampaign, has_id}
use nurix_takehome.Scheduler.Reclaim.{notify}

-- `CampaignCreate` after validation. The schedule and the retry settings are as `model_dump` gives
-- them, with `max_attempts` apart.
pub record CampaignCreate : Type 0 where
  pub name : String
  pub timezone : String
  pub schedule : Fields
  pub max_concurrent : Option ℕ
  pub retry_config : Fields
  pub max_attempts : ℕ

-- `body.max_concurrent or default`
abbrev pub or_default : Option ℕ → ℕ → ℕ
or_default none n = n
or_default (some zero) n = n
or_default (some (suc m)) n = suc m

abbrev pub new_campaign : Deps → CampaignCreate → NewCampaign
new_campaign deps body = record {
  name = body.name;
  timezone = body.timezone;
  schedule = body.schedule;
  max_concurrent = or_default body.max_concurrent deps.settings.max_concurrent_default;
  retry_config = body.retry_config;
}

-- Each phone comes with the id that the database draws for its call.
unfoldable pub create_txn : Deps → ℕ → List (ℕ × String) → CampaignCreate → Txn (Option Campaign)
create_txn deps id phones body = do
  campaign ← Campaigns.create id (new_campaign deps body)
  calls ← create_batch campaign phones body.max_attempts
  gets (λ now d. Campaigns.get campaign d)

-- `disappeared` is the answer 500, `crashed` an exception of the transaction.
pub data Reply : Type 0 where
  created : Campaign → Reply
  disappeared : Reply
  crashed : Error → Reply

abbrev pub answer : Result (Option Campaign) × World → Reply × World
answer (ok (some c), w) = (created c, notify true w)
answer (ok none, w) = (disappeared, notify true w)
answer (err e, w) = (crashed e, w)

unfoldable pub create_campaign :
    Deps → ℕ → List (ℕ × String) → CampaignCreate → World → Reply × World
unfolding commit create_txn notify
create_campaign deps id phones body w = answer (commit (create_txn deps id phones body) w)

first-append :
    {A : Type 0} (p : A → Bool) (xs : List A) (r : A)
    → first p xs ≡ none
    → p r ≡ true
    → first p (xs ++ r ∷ []) ≡ some r
unfolding first
first-append p [] r h k = rw k
first-append p (x ∷ xs) r h k = ground (arith, first-append p xs r)

active_new :
    (i retries now : ℕ) (es : List (ℕ × String))
    → count_where (λ c. c.campaign_id == i && is_active c.status) (map (new_call i retries now) es)
      ≡ length es
unfolding count_where is_active
active_new i retries now [] = refl
active_new i retries now (e ∷ es) =
    rw ((==_iff i i).1 refl) (ground (arith, active_new i retries now es))

count_where-append :
    {A : Type 0} (p : A → Bool) (xs ys : List A)
    → count_where p (xs ++ ys) ≡ count_where p xs + count_where p ys
unfolding count_where
count_where-append p [] ys = omega arith
count_where-append p (x ∷ xs) ys = ground (arith, count_where-append p xs ys)

batch_cases :
    (i retries now : ℕ) (es : List (ℕ × String)) (d : Db)
    → (create_batch i es retries now d ≡ err unique_violation)
      ⊎ (is : List ℕ) × (create_batch i es retries now d
          ≡ ok (is, record d { calls = d.calls ++ map (new_call i retries now) es }))
unfolding create_batch store_calls
batch_cases i retries now [] d =
    inr ([], ap (λ cs. ok ([], record d { calls = cs })) (sym (append-nil d.calls)))
batch_cases i retries now (e ∷ es) d =
    elim (Bool-cases (phones_unique (d.calls ++ map (new_call i retries now) (e ∷ es)))) [
      | inl t ↦ inr (map (λ x. x.0) (e ∷ es), rw t)
      | inr f ↦ inl (rw f)
    ]

module _ (deps : Deps) (id : ℕ) (phones : List (ℕ × String)) (body : CampaignCreate) where
  abbrev pub stored_row : ℕ → Campaign
  stored_row now = record {
    id = id;
    name = body.name;
    status = pending;
    timezone = body.timezone;
    schedule = body.schedule;
    max_concurrent = (new_campaign deps body).max_concurrent;
    retry_config = body.retry_config;
    created_at = now;
    updated_at = now;
  }

  abbrev pub with_campaign : ℕ → Db → Db
  with_campaign now d = record d { campaigns = d.campaigns ++ stored_row now ∷ [] }

  abbrev pub with_calls : ℕ → Db → Db
  with_calls now d = record (with_campaign now d) {
    calls = d.calls ++ map (new_call id body.max_attempts now) phones;
  }

  pub found_row :
      (now : ℕ) (d : Db)
      → Campaigns.get id d ≡ none
      → Campaigns.get id (with_calls now d) ≡ some (stored_row now)
  unfolding Campaigns.get
  found_row now d h =
      first-append (has_id id) d.campaigns (stored_row now) h ((==_iff id id).1 refl)

  pub txn_ok :
      (now : ℕ) (d : Db) (is : List ℕ)
      → Campaigns.get id d ≡ none
      → create_batch id phones body.max_attempts now (with_campaign now d)
        ≡ ok (is, with_calls now d)
      → create_txn deps id phones body now d ≡ ok (some (stored_row now), with_calls now d)
  unfolding create_txn Campaigns.create
  txn_ok now d is h e =
      bind-ok (create_batch id phones body.max_attempts) (λ is. gets (λ now d. Campaigns.get id d))
        now (with_campaign now d) e
      ∙ ap (λ o. ok (o, with_calls now d)) (found_row now d h)

  pub txn_cases :
      (now : ℕ) (d : Db)
      → Campaigns.get id d ≡ none
      → (create_txn deps id phones body now d ≡ err unique_violation)
        ⊎ (create_txn deps id phones body now d ≡ ok (some (stored_row now), with_calls now d))
  unfolding create_txn Campaigns.create
  txn_cases now d h = elim (batch_cases id body.max_attempts now phones (with_campaign now d)) [
    | inl e ↦ inl (
        bind-err (create_batch id phones body.max_attempts)
          (λ is. gets (λ now d. Campaigns.get id d)) now (with_campaign now d) e)
    | inr (is, e) ↦ inr (txn_ok now d is h e)
  ]

  pub active_after :
      (now : ℕ) (d : Db)
      → count_active_by_campaign id (with_calls now d)
        ≡ count_active_by_campaign id d + length phones
  unfolding count_active_by_campaign
  active_after now d =
      count_where-append _ d.calls (map (new_call id body.max_attempts now) phones)
      ∙ ap (λ n. count_active_by_campaign id d + n) (active_new id body.max_attempts now phones)
