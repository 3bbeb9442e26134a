-- ===== src/Api/Routes/Created.antt =====
-- From the request of a campaign to the answers about it.
use nurix_takehome.Common.{
  ℕ, zero, suc, ◌+◌, ◌++◌, Option, arith, String, Bool, ◌≡◌, refl, sym, ap, ◌∙◌, subst, true, none,
  some, List, [], ◌∷◌, map, All, length,
}
use nurix_takehome.Model.Json.{num}
use nurix_takehome.Model.Rows.{Campaign, Call, Db}
use nurix_takehome.Model.Txn.{ok, World}
use nurix_takehome.Model.Deps.{Deps}
use nurix_takehome.Persistence.Calls.{phones_unique, new_call, count_active_by_campaign}
use nurix_takehome.Persistence.Campaigns
use nurix_takehome.Scheduler.Reclaim.{notify}
use nurix_takehome.Api.Schemas.Zones.{canonical}
use nurix_takehome.Api.Schemas.Phones.{PhoneNumbers, accepted, normalize_phones}
use nurix_takehome.Api.Schemas.Body.{Body, validate, validate_retry}
use nurix_takehome.Api.Schemas.Body.Valid.{
  IsOrdered, AllWindows, MaxBounds, validate-Accepts, retry_iff,
}
use nurix_takehome.Api.Responses.{Pydantic, CampaignResponse, row_to_response, weekdays}
use nurix_takehome.Api.Responses.Roundtrip.{
  Loads, shown, load_days-dump_schedule, load_retry-dump_retry,
}
use nurix_takehome.Api.Campaigns.{
  created, create_campaign, stored_row, with_calls, found_row, or_default,
}
use nurix_takehome.Api.Campaigns.Fits.{IsFree, creation, active_rows}
use nurix_takehome.Api.Campaigns.NewCalls.{AreNewCalls, new_call-AreNewCalls}
use nurix_takehome.Api.Routes.{answered, draw_ids, request_of, post_campaign, get_campaign}

drawn : (draw : ℕ → ℕ) (i : ℕ) (ps : List String) → map (λ e. e.1) (draw_ids draw i ps) ≡ ps
unfolding draw_ids
drawn draw i [] = refl
drawn draw i (p ∷ ps) = ap (λ l. p ∷ l) (drawn draw (suc i) ps)

drawn-IsFree :
    (cs : List Call) (draw : ℕ → ℕ) (i : ℕ) (ps : List String)
    → All (IsFree cs) ps
    → All (λ e. IsFree cs e.1) (draw_ids draw i ps)
unfolding draw_ids
drawn-IsFree cs draw i [] h = tt
drawn-IsFree cs draw i (p ∷ ps) (a, h) = (a, drawn-IsFree cs draw (suc i) ps h)

-- The concurrency that the request asks for.
abbrev pub requested : Option ℕ → ℕ → ℕ
requested none default = default
requested (some n) default = n

bounded : (o : Option ℕ) (n : ℕ) → MaxBounds o → or_default o n ≡ requested o n
bounded none n h = refl
bounded (some zero) n h = absurd (omega (arith, h.0))
bounded (some (suc m)) n h = refl

-- pydantic reads the number that it wrote.
abbrev pub LoadsNumber : Pydantic → ℕ → Type 0
LoadsNumber py n = py.int_of (num n) ≡ some n

got :
    (py : Pydantic) (id : ℕ) (d : Db) {row : Campaign} {r : CampaignResponse}
    → Campaigns.get id d ≡ some row
    → row_to_response py row ≡ ok r
    → get_campaign py id d ≡ answered r
unfolding get_campaign
got py id d e f = rw (e, get_campaign) (rw f refl)

module _ (py : Pydantic) (deps : Deps) (id : ℕ) (phones : List (ℕ × String)) (c : Body)
    (now : ℕ) where
  abbrev response : CampaignResponse
  response = record {
    id = id;
    name = c.name;
    status = "pending";
    timezone = c.timezone;
    schedule = shown c.schedule weekdays;
    max_concurrent = or_default c.max_concurrent deps.settings.max_concurrent_default;
    retry_config = c.retry_config;
    created_at = now;
    updated_at = now;
  }

  response_of :
      AllWindows IsOrdered c.schedule
      → AllWindows (Loads py) c.schedule
      → LoadsNumber py c.retry_config.max_attempts
      → LoadsNumber py c.retry_config.backoff_base_seconds
      → validate_retry c.retry_config ≡ ok c.retry_config
      → row_to_response py (stored_row deps id phones (request_of py c) now) ≡ ok response
  unfolding row_to_response
  response_of o l m n v =
      rw (load_days-dump_schedule py c.schedule weekdays o l)
        (rw (load_retry-dump_retry py c.retry_config m n v) refl)

module _ {N : Type 0} (lib : PhoneNumbers N) (known : String → Bool) (py : Pydantic) (deps : Deps)
    (id : ℕ) (draw : ℕ → ℕ) (w : World) where
  -- The database and the flag after the creation.
  abbrev world_after : Body → World
  world_after c = notify true (record w {
    db = with_calls deps id (draw_ids draw 0 c.phones) (request_of py c) w.clock w.db;
  })

  new_rows :
      (ps : List String) {n m : ℕ}
      → n ≡ m
      → (rows : List Call) × (w.db.calls ++ map (new_call id n w.clock) (draw_ids draw 0 ps)
          ≡ w.db.calls ++ rows)
        × AreNewCalls id m rows ps
  new_rows ps {n} {m} e = (
    map (new_call id n w.clock) (draw_ids draw 0 ps),
    refl,
    subst (λ k. AreNewCalls id k (map (new_call id n w.clock) (draw_ids draw 0 ps)) ps) e
        (subst (AreNewCalls id n (map (new_call id n w.clock) (draw_ids draw 0 ps)))
          (drawn draw 0 ps) (new_call-AreNewCalls id n w.clock (draw_ids draw 0 ps))),
  )

  posted :
      (b c : Body)
      → validate lib known b ≡ ok c
      → create_campaign deps id (draw_ids draw 0 c.phones) (request_of py c) w ≡ (
        created (stored_row deps id (draw_ids draw 0 c.phones) (request_of py c) w.clock),
        world_after c,
      )
      → row_to_response py (stored_row deps id (draw_ids draw 0 c.phones) (request_of py c) w.clock)
        ≡ ok (response py deps id (draw_ids draw 0 c.phones) c w.clock)
      → post_campaign lib known py deps id draw b w
        ≡ (answered (response py deps id (draw_ids draw 0 c.phones) c w.clock), world_after c)
  unfolding post_campaign
  posted b c v k r = rw v (rw k (rw r refl))

  -- An accepted request for a campaign under a fresh id, with no number that a queued, dialing or
  -- connected call holds, is answered with the campaign: pending, with the request's name and retry
  -- settings, the zone by its canonical name, the requested concurrency, or the default if the request
  -- leaves it out, and the request's windows for each of the seven days. Asking for the campaign then
  -- gives the same answer. The calls have grown by one for each phone in E.164, in order: queued, due
  -- at once, never attempted and with all the retries; they count as active, and the scheduler is woken.
  -- It is assumed that pydantic reads the times and numbers that it writes.
  pub post_campaign-get_campaign :
      (b c : Body)
      → validate lib known b ≡ ok c
      → AllWindows (Loads py) b.schedule
      → LoadsNumber py b.retry_config.max_attempts
      → LoadsNumber py b.retry_config.backoff_base_seconds
      → phones_unique w.db.calls ≡ true
      → All (IsFree w.db.calls) c.phones
      → Campaigns.get id w.db ≡ none
      → (r : CampaignResponse) × (w' : World) × (post_campaign lib known py deps id draw b w
          ≡ (answered r, w'))
        × (get_campaign py id w'.db ≡ answered r)
        × (r.name ≡ b.name)
        × (r.status ≡ "pending")
        × (r.timezone ≡ canonical b.timezone)
        × (r.max_concurrent ≡ requested b.max_concurrent deps.settings.max_concurrent_default)
        × (r.schedule ≡ shown b.schedule weekdays)
        × (r.retry_config ≡ b.retry_config)
        × ((rows : List Call) × (w'.db.calls ≡ w.db.calls ++ rows)
            × AreNewCalls id b.retry_config.max_attempts rows c.phones)
        × (count_active_by_campaign id w'.db ≡ count_active_by_campaign id w.db + length b.phones)
        × (w'.wake ≡ true)
  unfolding notify
  post_campaign-get_campaign b c v l m n u f h =
      let a = (validate-Accepts lib known b c).0 v in
      let same = a.result in
      let phones = draw_ids draw 0 c.phones in
      let numbers : normalize_phones lib b.phones ≡ accepted (map (λ e. e.1) phones) =
        a.numbers ∙ ap accepted (sym (drawn draw 0 c.phones)) in
      let free = drawn-IsFree w.db.calls draw 0 c.phones f in
      let schedule : b.schedule ≡ c.schedule = sym (ap (λ x. x.schedule) same) in
      let retry : b.retry_config ≡ c.retry_config = sym (ap (λ x. x.retry_config) same) in
      let checked : validate_retry b.retry_config ≡ ok b.retry_config =
        (retry_iff b.retry_config b.retry_config).1 (refl, a.retry) in
      let shown_row =
        response_of py deps id phones c w.clock (subst (AllWindows IsOrdered) schedule a.windows)
          (subst (AllWindows (Loads py)) schedule l)
          (subst (λ x. LoadsNumber py x.max_attempts) retry m)
          (subst (λ x. LoadsNumber py x.backoff_base_seconds) retry n)
          (subst (λ x. validate_retry x ≡ ok x) retry checked) in
      let made = creation lib deps id b.phones phones (request_of py c) w numbers u free h in
      (
        response py deps id phones c w.clock,
        world_after c,
        posted b c v made shown_row,
        got py id _ (found_row deps id phones (request_of py c) w.clock w.db h) shown_row,
        ap (λ x. x.name) same,
        refl,
        ap (λ x. x.timezone) same,
        ap (λ x. or_default x.max_concurrent deps.settings.max_concurrent_default) same
            ∙ bounded b.max_concurrent deps.settings.max_concurrent_default a.max_concurrent,
        ap (λ x. shown x.schedule weekdays) same,
        sym retry,
        new_rows c.phones (sym (ap (λ x. x.max_attempts) retry)),
        active_rows lib deps id b.phones phones (request_of py c) w numbers u free h,
        refl,
      )
