-- ===== src/Provider/Mock/Course.antt =====
-- The events of a simulated call.
use nurix_takehome.Common.{
  ℕ, suc, String, ◌≡◌, refl, sym, ap, subst, ◌∙◌, inl, inr, Bool, true, Option, none, some, List,
  [], ◌∷◌, str_eq, first, any_row, update_where, if◌then◌else◌, Bool-cases,
}
use nurix_takehome.Model.Status.{
  CallStatus, value, queued, dialing, in_progress, retry_pending, completed, failed, no_answer,
  busy, status_eq,
}
use nurix_takehome.Model.Json.{Fields, str, get}
use nurix_takehome.Model.Txn.{ok}
use nurix_takehome.Model.Deps.{ProviderEvent}
use nurix_takehome.Provider.{parse_event}
use nurix_takehome.Provider.Mock.{
  MockSettings, CallState, Simulation, Phase, Mock, is_state_of, get_status, payload_of, emit,
  next_move, task_at, set_phase, advance, phase_after, resume,
}

parse_payload :
    (id : String) (n : ℕ) (s : CallStatus)
    → (e : ProviderEvent) × (parse_event (payload_of id n s) ≡ ok e)
      × (e.provider_call_id ≡ str id)
      × (e.status_enum ≡ s)
unfolding parse_event get value
parse_payload id n queued = (_, refl, refl, refl)
parse_payload id n dialing = (_, refl, refl, refl)
parse_payload id n in_progress = (_, refl, refl, refl)
parse_payload id n retry_pending = (_, refl, refl, refl)
parse_payload id n completed = (_, refl, refl, refl)
parse_payload id n failed = (_, refl, refl, refl)
parse_payload id n no_answer = (_, refl, refl, refl)
parse_payload id n busy = (_, refl, refl, refl)

first_set :
    (id : String) (s : CallStatus) (cs : List CallState)
    → any_row (is_state_of id) cs ≡ true
    → (c : CallState) × (first
          (is_state_of id)
          (update_where (is_state_of id) (λ c. record c { status = s }) cs)
        ≡ some c)
      × (c.status ≡ s)
unfolding first update_where any_row
first_set id s [] h = cc
first_set id s (c ∷ cs) h = elim (Bool-cases (str_eq c.provider_call_id id)) [
  | inl t ↦ (record c { status = s }, rw t (rw t refl), refl)
  | inr f ↦ let (d, e, k) = first_set id s cs (rw f at h) in (d, rw f (rw f e), k)
]

status_after :
    (id : String) (s : CallStatus) (m : Mock)
    → any_row (is_state_of id) m.states ≡ true
    → get_status id (emit id s m).1 ≡ ok s
unfolding get_status emit
status_after id s m h = let (c, e, k) = first_set id s m.states h in rw (e, get_status) (ap ok k)

resume_at :
    (s : MockSettings) (i roll : ℕ) (sink_ok : Bool) (m : Mock) {t : Simulation}
    → task_at i m.tasks ≡ some t
    → resume s i roll sink_ok m ≡ advance i t.call_id sink_ok (next_move s roll t.phase) m
unfolding resume
resume_at s i roll sink_ok m e = rw (e, resume) refl

-- The provider after an event of a task.
abbrev moved_on : ℕ → String → CallStatus → Phase → Mock → Mock
moved_on i id c p m =
    let (payload, m') = emit id c m in record m' { tasks = set_phase i p m'.tasks }

status_moved :
    (i : ℕ) (id : String) (c : CallStatus) (p : Phase) (m : Mock)
    → any_row (is_state_of id) m.states ≡ true
    → get_status id (moved_on i id c p m) ≡ ok c
unfolding get_status
status_moved i id c p m h = status_after id c m h

split_event :
    (i : ℕ) (id : String) (sink_ok : Bool) (c : CallStatus) (p : Phase) (m m' : Mock)
    (payload : Fields)
    → advance i id sink_ok (some (c, p)) m ≡ (some payload, m')
    → (payload_of id (suc m.event_seq) c ≡ payload)
      × (moved_on i id c (phase_after sink_ok p) m ≡ m')
unfolding emit
split_event i id sink_ok c p m m' payload k = (some_injective (ap (λ x. x.0) k), ap (λ x. x.1) k)
  where
    some_injective : {a b : Fields} → some a ≡ some b → a ≡ b
    some_injective h = cc

-- When a task delivers an event, the payload is read back as an event of the task's call, with the
-- status that asking for the call's status then reports.
pub resume-parse_event :
    (s : MockSettings) (i roll : ℕ) (sink_ok : Bool) (m m' : Mock) (t : Simulation)
    (payload : Fields)
    → task_at i m.tasks ≡ some t
    → any_row (is_state_of t.call_id) m.states ≡ true
    → resume s i roll sink_ok m ≡ (some payload, m')
    → (e : ProviderEvent) × (parse_event payload ≡ ok e)
      × (e.provider_call_id ≡ str t.call_id)
      × (get_status t.call_id m' ≡ ok e.status_enum)
resume-parse_event s i roll sink_ok m m' t payload e h k =
    event (next_move s roll t.phase) (sym (resume_at s i roll sink_ok m e) ∙ k)
  where
    reads :
        (c : CallStatus) (p : Phase)
        → (e : ProviderEvent) × (parse_event (payload_of t.call_id (suc m.event_seq) c) ≡ ok e)
          × (e.provider_call_id ≡ str t.call_id)
          × (get_status t.call_id (moved_on i t.call_id c p m) ≡ ok e.status_enum)
    reads c p =
        let (e, a, b, same) = parse_payload t.call_id (suc m.event_seq) c in
        (e, a, b, status_moved i t.call_id c p m h ∙ ap ok (sym same))

    event :
        (o : Option (CallStatus × Phase))
        → advance i t.call_id sink_ok o m ≡ (some payload, m')
        → (e : ProviderEvent) × (parse_event payload ≡ ok e)
          × (e.provider_call_id ≡ str t.call_id)
          × (get_status t.call_id m' ≡ ok e.status_enum)
    event none k = cc
    event (some (c, p)) k =
        let (a, b) = split_event i t.call_id sink_ok c p m m' payload k in
        subst
          (λ x.
            (e : ProviderEvent) × (parse_event x ≡ ok e)
            × (e.provider_call_id ≡ str t.call_id)
            × (get_status t.call_id m' ≡ ok e.status_enum))
          a
          (subst
            (λ x.
              (e : ProviderEvent) × (parse_event (payload_of t.call_id (suc m.event_seq) c) ≡ ok e)
              × (e.provider_call_id ≡ str t.call_id)
              × (get_status t.call_id x ≡ ok e.status_enum))
            b (reads c (phase_after sink_ok p)))

-- The events of a task that is resumed once for each roll, with every delivery returning.
abbrev add_event : Option Fields → List Fields → List Fields
add_event none ps = ps
add_event (some p) ps = p ∷ ps

unfoldable pub events : MockSettings → ℕ → List ℕ → Mock → List Fields
events s i [] m = []
events s i (r ∷ rolls) m = let (p, m') = resume s i r true m in add_event p (events s i rolls m')

-- The course of a call, from the number of the last event of the process on.
abbrev pub course : String → ℕ → CallStatus → List Fields
course id n terminal =
    payload_of id (suc n) dialing
    ∷ (if status_eq terminal completed
        then payload_of id (suc (suc n)) in_progress
          ∷ payload_of id (suc (suc (suc n))) completed
          ∷ []
        else payload_of id (suc (suc n)) terminal ∷ [])

abbrev in_phase : String → Phase → Simulation
in_phase id p = record { call_id = id; phase = p }
