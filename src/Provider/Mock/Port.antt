-- ===== src/Provider/Mock/Port.antt =====
-- The promise of the port of app/provider/base.py: a key has one call, however often it is placed and
-- whatever else the provider does.
use mathlib.Core.Path.{fun_ext}
use nurix_takehome.Common.{
  ℕ, String, ◌≡◌, refl, sym, ap, ap₂, ◌∙◌, inl, inr, Bool, true, Option, none, some, List, [], ◌∷◌,
  str_eq, eq_refl, eq_iff, if◌then◌else◌, Option-cases, Bool-cases,
}
use nurix_takehome.Model.Status.{CallStatus}
use nurix_takehome.Provider.Mock.{
  MockSettings, CallHandle, Phase, Mock, next_move, advance, emit, place_new, handle_of, call_id_of,
  place_call, resume, aclose, task_at,
}

-- What happens to the provider: a call is placed, a task goes on, or the provider is closed.
pub data Action : Type 0 where
  place : String → String → String → ℕ → Action
  play : ℕ → ℕ → Bool → Action
  close : Action

-- The answer to a placed call, and the provider after the action.
abbrev pub step : MockSettings → Action → Mock → Option CallHandle × Mock
step s (place key phone token now) m =
    let (h, m') = place_call key phone token now m in (some h, m')
step s (play i roll sink_ok) m = (none, (resume s i roll sink_ok m).1)
step s close m = (none, aclose m)

abbrev add_answer : Option CallHandle → List CallHandle → List CallHandle
add_answer none hs = hs
add_answer (some h) hs = h ∷ hs

-- The handles that the callers got, in order, and the provider at the end.
unfoldable pub answers : MockSettings → List Action → Mock → List CallHandle
answers s [] m = []
answers s (a ∷ rest) m = let (h, m') = step s a m in add_answer h (answers s rest m')

unfoldable pub after_all : MockSettings → List Action → Mock → Mock
after_all s [] m = m
after_all s (a ∷ rest) m = after_all s rest (step s a m).1

-- The abstract provider: which handle a key has.
abbrev pub Port : Type 0
Port = String → Option CallHandle

abbrev kept_or_new : Option CallHandle → CallHandle → CallHandle
kept_or_new none h = h
kept_or_new (some old) h = old

abbrev new_handle : String → ℕ → CallHandle
new_handle token now = record { provider_call_id = call_id_of token; accepted_at = now }

abbrev bound : String → CallHandle → Port → Port
bound key h p k = if str_eq key k then some (kept_or_new (p k) h) else p k

-- A key keeps the handle that it has, and takes the new one if it has none. Nothing else matters.
abbrev pub port_step : Action → Port → Option CallHandle × Port
port_step (place key phone token now) p =
    (some (kept_or_new (p key) (new_handle token now)), bound key (new_handle token now) p)
port_step (play i roll sink_ok) p = (none, p)
port_step close p = (none, p)

unfoldable pub port_answers : List Action → Port → List CallHandle
port_answers [] p = []
port_answers (a ∷ rest) p = let (h, p') = port_step a p in add_answer h (port_answers rest p')

abbrev pub port_of : Mock → Port
port_of m k = handle_of k m.by_idem

advance_keys :
    (i : ℕ) (id : String) (ok : Bool) (o : Option (CallStatus × Phase)) (m : Mock)
    → (advance i id ok o m).1.by_idem ≡ m.by_idem
unfolding emit
advance_keys i id ok none m = refl
advance_keys i id ok (some (c, p)) m = refl

play_keys :
    (s : MockSettings) (i roll : ℕ) (ok : Bool) (m : Mock)
    → (resume s i roll ok m).1.by_idem ≡ m.by_idem
unfolding resume
play_keys s i roll ok m = elim (Option-cases (task_at i m.tasks)) [
  | inl e ↦ rw (e, resume) refl
  | inr (t, e) ↦ rw (e, resume) (advance_keys i t.call_id ok (next_move s roll t.phase) m)
]

step-refines :
    (s : MockSettings) (a : Action) (m : Mock)
    → ((step s a m).0 ≡ (port_step a (port_of m)).0)
      × (port_of (step s a m).1 ≡ (port_step a (port_of m)).1)
unfolding place_call handle_of aclose
step-refines s (place key phone token now) m = elim (Option-cases (handle_of key m.by_idem)) [
  | inl e ↦ (rw (e, place_call) refl, fun_ext (λ k. rw (e, place_call) (new_key k e)))
  | inr (h, e) ↦ (rw (e, place_call) refl, fun_ext (λ k. rw (e, place_call) (old_key k h e)))
]
  where
    same_key : (k : String) → str_eq key k ≡ true → handle_of k m.by_idem ≡ handle_of key m.by_idem
    same_key k t = ap (λ x. handle_of x m.by_idem) (sym ((eq_iff key k).0 t))

    new_key :
        (k : String)
        → handle_of key m.by_idem ≡ none
        → port_of (place_new key phone token now m).1 k
          ≡ bound key (new_handle token now) (port_of m) k
    new_key k e = elim (Bool-cases (str_eq key k)) [
      | inl t ↦ rw t (rw (same_key k t ∙ e) refl)
      | inr f ↦ rw f refl
    ]

    old_key :
        (k : String) (h : CallHandle)
        → handle_of key m.by_idem ≡ some h
        → port_of m k ≡ bound key (new_handle token now) (port_of m) k
    old_key k h e = elim (Bool-cases (str_eq key k)) [
      | inl t ↦ rw t (rw (same_key k t ∙ e) refl)
      | inr f ↦ rw f refl
    ]
step-refines s (play i roll ok) m = (refl, ap (λ l k. handle_of k l) (play_keys s i roll ok m))
step-refines s close m = (refl, refl)

-- The mock implements the port: in any sequence of placed calls, steps of its tasks and shutdowns,
-- the callers get the handles that a provider would give which only knows, for each key, the handle
-- given first.
pub answers-port_answers :
    (s : MockSettings) (actions : List Action) (m : Mock)
    → answers s actions m ≡ port_answers actions (port_of m)
unfolding answers port_answers
answers-port_answers s [] m = refl
answers-port_answers s (a ∷ rest) m =
    let (e, f) = step-refines s a m in
    ap₂ add_answer e (answers-port_answers s rest (step s a m).1 ∙ ap (port_answers rest) f)

keeps_key :
    (s : MockSettings) (actions : List Action) (m : Mock) (key : String) {h : CallHandle}
    → handle_of key m.by_idem ≡ some h
    → handle_of key (after_all s actions m).by_idem ≡ some h
unfolding after_all
keeps_key s [] m key e = e
keeps_key s (a ∷ rest) m key {h} e =
    keeps_key s rest (step s a m).1 key
      (ap (λ (p : Port). p key) (step-refines s a m).1 ∙ port_keeps a (port_of m) e)
  where
    port_keeps : (b : Action) (p : Port) → p key ≡ some h → (port_step b p).1 key ≡ some h
    port_keeps (place k phone token now) p e = elim (Bool-cases (str_eq k key)) [
      | inl t ↦ rw t (rw e refl)
      | inr f ↦ rw f e
    ]
    port_keeps (play i roll ok) p e = e
    port_keeps close p e = e

placed :
    (key phone token : String) (now : ℕ) (m : Mock)
    → handle_of key (place_call key phone token now m).1.by_idem
      ≡ some (place_call key phone token now m).0
unfolding place_call handle_of
placed key phone token now m = elim (Option-cases (handle_of key m.by_idem)) [
  | inl e ↦ rw (e, place_call) (rw (eq_refl key) refl)
  | inr (h, e) ↦ rw (e, place_call) e
]

placed_again :
    (key phone token : String) (now : ℕ) (m : Mock) {h : CallHandle}
    → handle_of key m.by_idem ≡ some h
    → place_call key phone token now m ≡ (h, m)
unfolding place_call
placed_again key phone token now m e = rw (e, place_call) refl

-- Placing a call again under its key, with any phone and at any time, after anything else that
-- happened to the provider, returns the handle of the first time and changes nothing, so no second
-- task is started.
pub place_call-place_call :
    (s : MockSettings) (key phone token phone' token' : String) (now later : ℕ)
    (between : List Action) (m : Mock)
    → place_call key phone' token' later (after_all s between (place_call key phone token now m).1)
      ≡ (
        (place_call key phone token now m).0,
        after_all s between (place_call key phone token now m).1,
      )
place_call-place_call s key phone token phone' token' now later between m =
    placed_again key phone' token' later _
      (keeps_key s between (place_call key phone token now m).1 key (placed key phone token now m))
