-- ===== src/Provider/Mock.antt =====
-- `MockProvider` of app/provider/mock.py: calls are placed once for a key, and each has a task that
-- plays its course. A task runs up to its next sleep in one step. Rates and rolls are in millionths.
-- The tokens are what `secrets` draws; a call state is found by its id, so the ids are taken to be
-- distinct.
pub mod Port
pub mod Course
use nurix_takehome.Common.{
  ℕ, zero, suc, ◌+◌, String, Bool, true, false, Option, none, some, List, [], ◌∷◌, ◌++◌, map, ltb,
  str_eq, first, any_row, update_where, if◌then◌else◌,
}
use nurix_takehome.Model.Status.{
  CallStatus, value, dialing, in_progress, completed, failed, no_answer, status_eq,
}
use nurix_takehome.Model.Json.{Fields, str, end, field}
use nurix_takehome.Model.Txn.{Result, ok, err, key_error}
use nurix_takehome.Audit.Like.{append}
use nurix_takehome.Audit.Render.{decimal}

-- The settings of the mock, of app/config.py.
pub record MockSettings : Type 0 where
  pub demo_mode : Bool
  pub mock_failure_rate : ℕ
  pub mock_no_answer_rate : ℕ

unfoldable pub mock_failure_rate_effective : MockSettings → ℕ
mock_failure_rate_effective s = if s.demo_mode then 350000 else s.mock_failure_rate

pub record CallHandle : Type 0 where
  pub provider_call_id : String
  pub accepted_at : ℕ

-- `_MockCallState`
pub record CallState : Type 0 where
  pub provider_call_id : String
  pub phone : String
  pub idempotency_key : String
  pub status : CallStatus

-- Where a task stands: at its start, after the first event, after the second, or done, failed or
-- cancelled.
pub data Phase : Type 0 where
  starting : Phase
  ringing : CallStatus → Phase
  connected : CallStatus → Phase
  ended : Phase

pub record Simulation : Type 0 where
  pub call_id : String
  pub phase : Phase

pub record Mock : Type 0 where
  pub by_idem : List (String × CallHandle)
  pub states : List CallState
  pub event_seq : ℕ
  pub tasks : List Simulation

abbrev pub fresh_mock : Mock
fresh_mock = record { by_idem = []; states = []; event_seq = 0; tasks = [] }

unfoldable pub handle_of : String → List (String × CallHandle) → Option CallHandle
handle_of key [] = none
handle_of key ((k, h) ∷ rest) = if str_eq k key then some h else handle_of key rest

abbrev pub call_id_of : String → String
call_id_of token = append "mock-" token

abbrev pub is_state_of : String → CallState → Bool
is_state_of id s = str_eq s.provider_call_id id

-- `states[call_id] = state`
abbrev put_state : CallState → List CallState → List CallState
put_state s states =
    if any_row (is_state_of s.provider_call_id) states
    then update_where (is_state_of s.provider_call_id) (λ _. s) states
    else states ++ s ∷ []

abbrev pub place_new : String → String → String → ℕ → Mock → CallHandle × Mock
place_new key phone token now m =
    let handle : CallHandle = record { provider_call_id = call_id_of token; accepted_at = now } in
    (
      handle,
      record m {
        by_idem = (key, handle) ∷ m.by_idem;
        states =
            put_state
              (record {
                provider_call_id = call_id_of token;
                phone = phone;
                idempotency_key = key;
                status = dialing;
              })
              m.states;
        tasks = m.tasks ++ record { call_id = call_id_of token; phase = starting } ∷ [];
      },
    )

abbrev pub placed_or_new : Option CallHandle → CallHandle × Mock → Mock → CallHandle × Mock
placed_or_new (some h) new m = (h, m)
placed_or_new none new m = new

unfoldable pub place_call : String → String → String → ℕ → Mock → CallHandle × Mock
unfolding handle_of
place_call key phone token now m =
    placed_or_new (handle_of key m.by_idem) (place_new key phone token now m) m

unfoldable pub get_status : String → Mock → Result CallStatus
get_status id m = elim (first (is_state_of id) m.states) [
  | none ↦ err key_error
  | some s ↦ ok s.status
]

unfoldable pub draw_terminal : MockSettings → ℕ → CallStatus
unfolding mock_failure_rate_effective
draw_terminal s roll =
    if ltb roll (mock_failure_rate_effective s)
    then failed
    else (if ltb roll (mock_failure_rate_effective s + s.mock_no_answer_rate)
        then no_answer
        else completed)

-- `_emit`: the payload, with the next number of the process in the event's id.
abbrev pub payload_of : String → ℕ → CallStatus → Fields
payload_of id n s =
    field "provider_event_id" (str (append id (append ":" (decimal n))))
      (field "provider_call_id" (str id) (field "status" (str (value s)) end))

-- `state.status = status`, and the event of it.
unfoldable pub emit : String → CallStatus → Mock → Fields × Mock
emit id s m = (
  payload_of id (suc m.event_seq) s,
  record m {
    states = update_where (is_state_of id) (λ c. record c { status = s }) m.states;
    event_seq = suc m.event_seq;
  },
)

-- What the task does next: the status it takes and the phase after that. A task that the sink fails
-- is logged and done.
abbrev pub next_move : MockSettings → ℕ → Phase → Option (CallStatus × Phase)
next_move s roll starting = some (dialing, ringing (draw_terminal s roll))
next_move s roll (ringing terminal) =
    if status_eq terminal completed
    then some (in_progress, connected terminal)
    else some (terminal, ended)
next_move s roll (connected terminal) = some (terminal, ended)
next_move s roll ended = none

abbrev pub phase_after : Bool → Phase → Phase
phase_after true p = p
phase_after false p = ended

-- The task at a place in the list.
unfoldable pub task_at : ℕ → List Simulation → Option Simulation
task_at i [] = none
task_at zero (t ∷ ts) = some t
task_at (suc i) (t ∷ ts) = task_at i ts

unfoldable pub set_phase : ℕ → Phase → List Simulation → List Simulation
set_phase i p [] = []
set_phase zero p (t ∷ ts) = record t { phase = p } ∷ ts
set_phase (suc i) p (t ∷ ts) = t ∷ set_phase i p ts

abbrev pub advance : ℕ → String → Bool → Option (CallStatus × Phase) → Mock → Option Fields × Mock
advance i id sink_ok none m = (none, m)
advance i id sink_ok (some (s, p)) m =
    let (payload, m') = emit id s m in
    (some payload, record m' { tasks = set_phase i (phase_after sink_ok p) m'.tasks })

-- `_simulate`, from one sleep to the next; `sink_ok` tells whether the event's delivery returns.
unfoldable pub resume : MockSettings → ℕ → ℕ → Bool → Mock → Option Fields × Mock
unfolding emit draw_terminal task_at set_phase
resume s i roll sink_ok m = elim (task_at i m.tasks) [
  | none ↦ (none, m)
  | some t ↦ advance i t.call_id sink_ok (next_move s roll t.phase) m
]

abbrev cancelled : Simulation → Simulation
cancelled t = record t { phase = ended }

-- `aclose`: every task is cancelled.
unfoldable pub aclose : Mock → Mock
aclose m = record m { tasks = map cancelled m.tasks }
