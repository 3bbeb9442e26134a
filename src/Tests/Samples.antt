-- ===== src/Tests/Samples.antt =====
-- Sample rows and a small database.
use nurix_takehome.Common.{ℕ, String, false, none, some, List, [], str_eq, if◌then◌else◌}
use nurix_takehome.Model.Status.{CallStatus, CampaignStatus}
use nurix_takehome.Model.Json.{Fields, end, str, num, field, arr, cons, nil, obj}
use nurix_takehome.Model.Rows.{Campaign, Call, InboxRow, Db}
use nurix_takehome.Model.Txn.{World}
use nurix_takehome.Model.Time.{Time, naive}
use nurix_takehome.Model.Deps.{Platform, Deps, accepted, raised}
use nurix_takehome.Provider.{parse_event}

abbrev pub sample_call : ℕ → ℕ → String → CallStatus → Call
sample_call i campaign phone s = record {
  id = i;
  campaign_id = campaign;
  phone = phone;
  status = s;
  attempt_epoch = 1;
  retries_remaining = 2;
  next_attempt_at = none;
  provider_call_id = some "p-1";
  created_at = 0;
  updated_at = 0;
}

-- Monday, nine to five.
abbrev pub weekdays : Fields
weekdays =
    field "mon" (arr (cons (obj (field "start" (str "09:00") (field "end" (str "17:00") end))) nil))
      end

abbrev pub sample_campaign : ℕ → CampaignStatus → Campaign
sample_campaign i s = record {
  id = i;
  name = "nyc-morning";
  status = s;
  timezone = "UTC";
  schedule = weekdays;
  max_concurrent = 1;
  retry_config = field "max_attempts" (num 2) (field "backoff_base_seconds" (num 30) end);
  created_at = 0;
  updated_at = 0;
}

abbrev pub payload : String → String → String → Fields
payload event handle s =
    field "provider_event_id" (str event)
      (field "provider_call_id" (str handle) (field "status" (str s) end))

abbrev pub inbox_row : ℕ → Fields → InboxRow
inbox_row i body = record {
  id = i;
  provider = "mock";
  provider_event_id = "e-1";
  payload = body;
  received_at = i;
  processed_at = none;
}

abbrev pub sample_db : List Campaign → List Call → List InboxRow → Db
sample_db campaigns calls inbox = record {
  campaigns = campaigns;
  calls = calls;
  cursors = [];
  inbox = inbox;
  audit = [];
  audit_seq = 1;
}

abbrev utc : ℕ → Time
utc t = record { wall = t; offset = some 86400000000 }

abbrev sample_time : String → Time
sample_time s =
    if str_eq s "09:00"
    then naive 9
    else (if str_eq s "09:00Z" then utc 9 else (if str_eq s "17:00Z" then utc 17 else naive 17))

-- The platform of the samples reads nine and five, with an offset and without, and knows one time zone, where it is always
-- Monday at ten.
abbrev pub sample_platform : Platform
sample_platform = record {
  time_of_iso = λ s. some (sample_time s);
  float_of = λ s. none;
  localize = λ zone now. some (0, 10);
}

abbrev pub sample_deps : Deps
sample_deps = record {
  settings = record {
    max_concurrent_default = 5;
    max_call_duration_seconds = 600;
    retry_backoff_base_seconds = 30;
    webhook_processor_batch_max = 50;
  };
  platform = sample_platform;
  place_call = λ key phone. accepted "p-9";
  get_status = λ handle. raised;
  parse_event_fn = parse_event;
  uniform = λ call epoch. 200000;
}

abbrev pub world_of : Db → World
world_of d = record { db = d; clock = 1000; wake = false }
