-- ===== src/Scheduler/Hours/Windows.antt =====
-- When a campaign is in its hours.
use nurix_takehome.Common.{
  ℕ, String, ◌≤◌, ◌<◌, ◌≡◌, ◌↔◌, refl, sym, ◌∙◌, subst, ◌⊎◌, true, false, none, some, List, [], ◌∷◌,
  arith, ltb, leb, All, InList, Bool-cases, inl, inr,
}
use nurix_takehome.Model.Json.{Fields, get}
use nurix_takehome.Model.Txn.{ok, err, type_error}
use nurix_takehome.Model.Time.{before, at_most, naive}
use nurix_takehome.Model.Deps.{Platform}
use nurix_takehome.Scheduler.Hours.{
  TimeWindow, day_key, covers, any_open, parse_day_windows, is_in_window, day_or_empty, open_at,
}

-- The times of the window carry no offset.
abbrev pub IsNaive : TimeWindow → Type 0
IsNaive w = (w.start.offset ≡ none) × (w.end.offset ≡ none)

-- The time is in the window: its start counts, its end does not.
abbrev pub Covers : ℕ → TimeWindow → Type 0
Covers t w = (w.start.wall ≤ t) × (t < w.end.wall)

-- Some window of the list covers the time.
abbrev pub Covered : ℕ → List TimeWindow → Type 0
Covered t ws = (w : TimeWindow) × InList w ws × Covers t w

covers-IsNaive :
    (t : ℕ) (w : TimeWindow)
    → IsNaive w
    → (covers (naive t) w ≡ ok true) × Covers t w ⊎ (covers (naive t) w ≡ ok false) × ¬ Covers t w
unfolding covers at_most before
covers-IsNaive t w (a, b) = rw a (
    rw b (elim (Bool-cases (leb w.start.wall t)) [
      | inr f ↦ rw f (inr (refl, λ (c, _). absurd (ground arith)))
      | inl e ↦ rw e (elim (Bool-cases (ltb t w.end.wall)) [
        | inl g ↦ rw g (inl (refl, (ground arith, ground arith)))
        | inr g ↦ rw g (inr (refl, λ (_, c). absurd (ground arith)))
      ])
    ]))

not_head :
    (t : ℕ) (w : TimeWindow) (ws : List TimeWindow)
    → ¬ Covers t w
    → Covered t (w ∷ ws) ↔ Covered t ws
not_head t w ws n = (
  λ (v, k, c). elim k [ inl e ↦ absurd (n (subst (Covers t) e c)) | inr j ↦ (v, j, c) ],
  λ (v, k, c). (v, inr k, c),
)

open_iff :
    (t : ℕ) (ws : List TimeWindow) → All IsNaive ws → (open_at t (ok ws) ≡ ok true) ↔ Covered t ws
unfolding any_open
open_iff t [] h = (λ e. cc, λ (v, k, c). absurd k)
open_iff t (w ∷ ws) (n, h) = elim (covers-IsNaive t w n) [
  | inl (e, c) ↦ rw e (λ _. (w, inl refl, c), λ _. refl)
  | inr (e, c) ↦ rw e (
    λ k. (not_head t w ws c).1 ((open_iff t ws h).0 k),
    λ k. (open_iff t ws h).1 ((not_head t w ws c).0 k),
  )
]

window_result :
    (p : Platform) (schedule : Fields) (zone : String) (now : ℕ) {day t : ℕ} {ws : List TimeWindow}
    → p.localize zone now ≡ some (day, t)
    → parse_day_windows p (day_or_empty (get (day_key day) schedule)) ≡ ok ws
    → is_in_window p schedule zone now ≡ open_at t (ok ws)
unfolding is_in_window
window_result p schedule zone now e h = rw (is_in_window, e, h)

-- Where the zone is known and the day's windows parse to times without an offset, a campaign is in its hours exactly when one
-- of the windows of the local weekday covers the local time, its start included and its end not.
pub is_in_window-Covered :
    (p : Platform) (schedule : Fields) (zone : String) (now : ℕ) {day t : ℕ} {ws : List TimeWindow}
    → p.localize zone now ≡ some (day, t)
    → parse_day_windows p (day_or_empty (get (day_key day) schedule)) ≡ ok ws
    → All IsNaive ws
    → (is_in_window p schedule zone now ≡ ok true) ↔ Covered t ws
is_in_window-Covered p schedule zone now {day} {t} {ws} e h k =
    subst (λ r. (r ≡ ok true) ↔ Covered t ws) (sym (window_result p schedule zone now e h))
      (open_iff t ws k)

-- If the day's first window starts at a time with an offset, comparing it with the local time
-- raises, and the exception is not the one that counts as closed.
pub aware_window :
    (p : Platform) (schedule : Fields) (zone : String) (now : ℕ) {day t offset : ℕ} {w : TimeWindow}
    {ws : List TimeWindow}
    → p.localize zone now ≡ some (day, t)
    → parse_day_windows p (day_or_empty (get (day_key day) schedule)) ≡ ok (w ∷ ws)
    → w.start.offset ≡ some offset
    → is_in_window p schedule zone now ≡ err type_error
unfolding any_open covers at_most
aware_window p schedule zone now {day} {t} {offset} {w} {ws} e h k =
    window_result p schedule zone now e h ∙ rw k refl
