-- ===== src/Api/Campaigns/NewCalls.antt =====
-- The rows of calls that a new campaign starts with, field by field.
use nurix_takehome.Common.{ℕ, String, ◌≡◌, refl, none, List, [], ◌∷◌, map}
use nurix_takehome.Model.Status.{queued}
use nurix_takehome.Model.Rows.{Call}
use nurix_takehome.Persistence.Calls.{new_call}

-- The campaign's first call of a phone: queued, due at once, never attempted, with all its retries.
pub record IsNewCall (i n : ℕ) (c : Call) (p : String) : Type 0 where
  pub campaign_id : c.campaign_id ≡ i
  pub phone : c.phone ≡ p
  pub status : c.status ≡ queued
  pub epoch : c.attempt_epoch ≡ 0
  pub retries : c.retries_remaining ≡ n
  pub due : c.next_attempt_at ≡ none
  pub handle : c.provider_call_id ≡ none

-- A call for each phone, in order.
abbrev pub AreNewCalls : ℕ → ℕ → List Call → List String → Type 0
AreNewCalls i n [] [] = Unit
AreNewCalls i n [] (p ∷ ps) = ⊥
AreNewCalls i n (c ∷ cs) [] = ⊥
AreNewCalls i n (c ∷ cs) (p ∷ ps) = IsNewCall i n c p × AreNewCalls i n cs ps

pub new_call-AreNewCalls :
    (i n now : ℕ) (es : List (ℕ × String))
    → AreNewCalls i n (map (new_call i n now) es) (map (λ e. e.1) es)
new_call-AreNewCalls i n now [] = tt
new_call-AreNewCalls i n now (e ∷ es) = (
  record {
    campaign_id = refl;
    phone = refl;
    status = refl;
    epoch = refl;
    retries = refl;
    due = refl;
    handle = refl;
  },
  new_call-AreNewCalls i n now es,
)
