-- ===== src/Tests/Requests.antt =====
-- The properties of the request bodies and of the routes, each at a concrete request.
use nurix_takehome.Common.{
  ◌+◌, String, ◌≡◌, ◌≢◌, ◌↔◌, refl, Bool, true, none, some, List, [], ◌∷◌, ◌++◌, any_row, first,
  str_eq, ◌==◌, if◌then◌else◌,
}
use nurix_takehome.Model.Json
use nurix_takehome.Model.Json.{num, str}
use nurix_takehome.Model.Status.{queued, active}
use nurix_takehome.Model.Rows.{Call}
use nurix_takehome.Model.Time.{naive, before}
use nurix_takehome.Model.Txn.{World, ok}
use nurix_takehome.Persistence.Calls.{phones_unique, is_guarded, count_active_by_campaign}
use nurix_takehome.Persistence.Campaigns
use nurix_takehome.Scheduler.Hours.{TimeWindow, parse_day_windows, day_or_empty}
use nurix_takehome.Api.Schemas.Text.{strip, is_space}
use nurix_takehome.Api.Schemas.Zones.{canonical, tz_valid}
use nurix_takehome.Api.Schemas.Phones.{PhoneNumbers, number, row_of, accepted, normalize_phones}
use nurix_takehome.Api.Schemas.Phones.Accepted.{NoRepeats}
use nurix_takehome.Api.Schemas.Body.{
  Body, mon, fri, validate, validate_schedule, validate_retry, validate_max, validate_phones,
}
use nurix_takehome.Api.Schemas.Body.Valid.{Accepts, validate-Accepts}
use nurix_takehome.Api.Responses.{Pydantic, CampaignResponse, dump_schedule, weekdays}
use nurix_takehome.Api.Responses.Roundtrip.{windows_of, shown, parse_day_windows-dump_schedule}
use nurix_takehome.Api.Routes.{answered, post_campaign, get_campaign}
use nurix_takehome.Api.Routes.Created.{post_campaign-get_campaign}
use nurix_takehome.Api.Routes.Figures.{shown_calls, shown_calls-stats}
use nurix_takehome.Api.Campaigns.NewCalls.{AreNewCalls}
use nurix_takehome.Api.Schemas.Phones.Numbers.{AreNumbers, normalize_phones-AreNumbers}
use nurix_takehome.Tests.Samples.{
  sample_call, sample_campaign, sample_db, sample_deps, sample_platform, world_of,
}

-- A library that takes every text for a number.
abbrev numbers : PhoneNumbers String
numbers = record { parse = number; is_valid_number = λ n. true; format_number = λ n. n }

normalize_phones-AreNumbers_example :
    (normalize_phones numbers ("+1" ∷ "+2" ∷ []) ≡ accepted ("+1" ∷ "+2" ∷ []))
    ↔ AreNumbers numbers ("+1" ∷ "+2" ∷ []) ("+1" ∷ "+2" ∷ [])
      × NoRepeats ("+1" ∷ "+2" ∷ [])
      × (◌≢◌ {A = List String} ("+1" ∷ "+2" ∷ []) [])
normalize_phones-AreNumbers_example =
    normalize_phones-AreNumbers numbers ("+1" ∷ "+2" ∷ []) ("+1" ∷ "+2" ∷ [])

abbrev nine_to_five : TimeWindow
nine_to_five = record { start = naive 9; end = naive 17 }

abbrev body : String → Body
body zone = record {
  name = "leads";
  timezone = zone;
  schedule = (fri, nine_to_five ∷ []) ∷ (mon, nine_to_five ∷ []) ∷ [];
  max_concurrent = none;
  retry_config = record { max_attempts = 2; backoff_base_seconds = 30 };
  phones = "+3" ∷ "+4" ∷ [];
}

abbrev known : String → Bool
known zone = true

validate-Accepts_example :
    (validate numbers known (body "Asia/Calcutta") ≡ ok (body "Asia/Kolkata"))
    ↔ Accepts numbers known (body "Asia/Calcutta") (body "Asia/Kolkata")
validate-Accepts_example =
    validate-Accepts numbers known (body "Asia/Calcutta") (body "Asia/Kolkata")

abbrev pydantic : Pydantic
pydantic = record {
  time_text = λ t. if t.wall == 9 then "09:00" else "17:00";
  time_of =
      λ j. elim j [ str s ↦ some (if str_eq s "09:00" then naive 9 else naive 17) | _ ↦ none ];
  int_of = λ j. elim j [ num n ↦ some n | _ ↦ none ];
}

parse_day_windows-dump_schedule_example :
    parse_day_windows sample_platform
      (day_or_empty (Json.get "mon" (dump_schedule pydantic (body "UTC").schedule)))
    ≡ ok (windows_of "mon" (body "UTC").schedule)
unfolding before
parse_day_windows-dump_schedule_example =
    parse_day_windows-dump_schedule sample_platform pydantic "mon" (body "UTC").schedule
      ((refl, tt), ((refl, tt), tt)) (((refl, refl), tt), (((refl, refl), tt), tt))

abbrev quiet : World
quiet = world_of (sample_db (sample_campaign 7 active ∷ []) (sample_call 1 7 "+1" queued ∷ []) [])

post_campaign-get_campaign_example :
    (r : CampaignResponse) × (w' : World) × (post_campaign numbers known pydantic sample_deps 8
        (λ i. i + 20)
        (body "Asia/Calcutta")
        quiet
      ≡ (answered r, w'))
    × (get_campaign pydantic 8 w'.db ≡ answered r)
    × (r.name ≡ "leads")
    × (r.status ≡ "pending")
    × (r.timezone ≡ canonical "Asia/Calcutta")
    × (r.max_concurrent ≡ 5)
    × (r.schedule ≡ shown (body "Asia/Calcutta").schedule weekdays)
    × (r.retry_config ≡ record { max_attempts = 2; backoff_base_seconds = 30 })
    × ((rows : List Call) × (w'.db.calls ≡ quiet.db.calls ++ rows)
        × AreNewCalls 8 2 rows ("+3" ∷ "+4" ∷ []))
    × (count_active_by_campaign 8 w'.db ≡ count_active_by_campaign 8 quiet.db + 2)
    × (w'.wake ≡ true)
unfolding validate tz_valid validate_schedule validate_retry validate_max validate_phones before
    phones_unique is_guarded any_row Campaigns.get first strip row_of is_space
post_campaign-get_campaign_example =
    post_campaign-get_campaign numbers known pydantic sample_deps 8 (λ i. i + 20) quiet
      (body "Asia/Calcutta") (body "Asia/Kolkata") refl
      (((refl, refl), tt), (((refl, refl), tt), tt)) refl refl refl (refl, (refl, tt)) refl

shown_calls-stats_example :
    (shown_calls 7 "completed" quiet.db ≡ (Campaigns.stats 7 quiet.db).completed)
    × (shown_calls 7 "failed" quiet.db ≡ (Campaigns.stats 7 quiet.db).failed)
    × (shown_calls 7 "in_progress" quiet.db ≡ (Campaigns.stats 7 quiet.db).in_progress)
shown_calls-stats_example = shown_calls-stats 7 quiet.db
