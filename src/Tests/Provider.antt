-- ===== src/Tests/Provider.antt =====
-- The properties of the mock provider and of the scheduler's loop, each at a concrete run.
use nurix_takehome.Common.{◌≡◌, refl, true, false, some, List, [], ◌∷◌, any_row}
use nurix_takehome.Model.Json.{str}
use nurix_takehome.Model.Txn.{ok}
use nurix_takehome.Model.Status.{dialing}
use nurix_takehome.Model.Deps.{ProviderEvent}
use nurix_takehome.Provider.{parse_event}
use nurix_takehome.Provider.Mock.{
  MockSettings, Mock, starting, fresh_mock, place_call, get_status, resume, payload_of,
}
use nurix_takehome.Provider.Mock.Port.{
  Action, place, play, close, answers, after_all, port_answers, port_of, answers-port_answers,
  place_call-place_call,
}
use nurix_takehome.Provider.Mock.Course.{resume-parse_event}
use nurix_takehome.Scheduler.Loop.{
  Loop, ticking, started, wait, Reach, here, next, notified, notify_wake,
}
use nurix_takehome.Scheduler.Loop.Wakeups.{notify-wait}

abbrev rates : MockSettings
rates = record { demo_mode = false; mock_failure_rate = 100000; mock_no_answer_rate = 100000 }

abbrev twice : List Action
twice = place "7:1" "+1" "a" 5 ∷ play 0 500000 true ∷ place "7:1" "+1" "b" 9 ∷ close ∷ []

answers-port_answers_example :
    answers rates twice fresh_mock ≡ port_answers twice (port_of fresh_mock)
answers-port_answers_example = answers-port_answers rates twice fresh_mock

place_call-place_call_example :
    place_call "7:1" "+1" "b" 9
      (after_all rates (play 0 500000 true ∷ []) (place_call "7:1" "+1" "a" 5 fresh_mock).1)
    ≡ (
      (place_call "7:1" "+1" "a" 5 fresh_mock).0,
      after_all rates (play 0 500000 true ∷ []) (place_call "7:1" "+1" "a" 5 fresh_mock).1,
    )
place_call-place_call_example =
    place_call-place_call rates "7:1" "+1" "a" "+1" "b" 5 9 (play 0 500000 true ∷ []) fresh_mock

abbrev ringing : Mock
ringing = (place_call "7:1" "+1" "a" 5 fresh_mock).1

resume-parse_event_example :
    (e : ProviderEvent) × (parse_event (payload_of "mock-a" 1 dialing) ≡ ok e)
    × (e.provider_call_id ≡ str "mock-a")
    × (get_status "mock-a" (resume rates 0 500000 true ringing).1 ≡ ok e.status_enum)
unfolding place_call resume any_row
resume-parse_event_example =
    resume-parse_event rates 0 500000 true ringing (resume rates 0 500000 true ringing).1
      (record { call_id = "mock-a"; phase = starting }) (payload_of "mock-a" 1 dialing) refl refl
      refl

abbrev asked : Loop
asked = record started { wake = notify_wake started.wake; asked = true }

notify-wait_example :
    (wait true false asked.wake ≡ some true)
    × (m : Loop) × Reach asked m
    × (m.phase ≡ ticking)
    × (m.asked ≡ false)
notify-wait_example = notify-wait (next here (notified started)) refl
