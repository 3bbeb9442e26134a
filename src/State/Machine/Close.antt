-- ===== src/State/Machine/Close.antt =====
-- A transition to a terminal status rolls its campaign up.
use nurix_takehome.Common.{ℕ, ◌<◌, ◌≡◌, sym, subst, true, some, InList}
use nurix_takehome.Model.Status.{active, is_terminal}
use nurix_takehome.Model.Rows.{Campaign, Call, Db}
use nurix_takehome.Model.Txn.{Result, ok, err}
use nurix_takehome.Persistence.Calls.{count_active_by_campaign}
use nurix_takehome.Persistence.Campaigns.{is_in}
use nurix_takehome.State.Machine.{Move, TransitionResult, assign, transition}
use nurix_takehome.State.Machine.Effects.{audited, settled, table_after}
use nurix_takehome.State.Machine.View.{View, raised, kept, moved, transition-View}
use nurix_takehome.State.Rollup.Close.{rolled-NotStranded}

module _ (m : Move) (now : ℕ) (d : Db) (t : is_terminal m.new_status ≡ true) where
  -- No campaign of the row that moved is active without an active call.
  abbrev NotStranded : Result (TransitionResult × Db) → Type 0
  NotStranded (err e) = Unit {0}
  NotStranded (ok (r, d')) =
      r.applied ≡ true
      → (row : Call) → r.row ≡ some row
      → (c : Campaign) → InList c d'.campaigns
      → is_in row.campaign_id active c ≡ true
      → 0 < count_active_by_campaign row.campaign_id d'

  settled-NotStranded :
      (row : Call) (b : Db) (c : Campaign)
      → InList c (settled m now row b).campaigns
      → is_in row.campaign_id active c ≡ true
      → 0 < count_active_by_campaign row.campaign_id (settled m now row b)
  unfolding settled
  settled-NotStranded row b c k h =
      rw t (rolled-NotStranded row.campaign_id now (audited m now row b) c (rw t at k) h)

  stranded-View : (x : Result (TransitionResult × Db)) → View m now d x → NotStranded x
  stranded-View _ (raised e) = tt
  stranded-View _ (kept r h) = λ a. cc
  stranded-View _ (moved b h) = λ a row e c k i.
      let same : assign m now b ≡ row = cc in
      subst
        (λ z.
          0
          < count_active_by_campaign z.campaign_id
              (settled m now (assign m now b) (record d { calls = table_after m now d })))
        same
        (settled-NotStranded (assign m now b) (record d { calls = table_after m now d }) c k
          (subst (λ z. is_in z.campaign_id active c ≡ true) (sym same) i))

-- When a transition to a terminal status has moved a row, a campaign of the row that is active still
-- has an active call.
pub transition-NotStranded :
    (m : Move) (now : ℕ) (d : Db) {r : TransitionResult} {d' : Db} {row : Call} (c : Campaign)
    → is_terminal m.new_status ≡ true
    → transition m now d ≡ ok (r, d')
    → r.applied ≡ true
    → r.row ≡ some row
    → InList c d'.campaigns
    → is_in row.campaign_id active c ≡ true
    → 0 < count_active_by_campaign row.campaign_id d'
transition-NotStranded m now d {row = row} c t e a f k i =
    subst (NotStranded m now d t) e
      (stranded-View m now d t (transition m now d) (transition-View m now d)) a row f c k i
