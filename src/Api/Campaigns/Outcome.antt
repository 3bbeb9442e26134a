-- ===== src/Api/Campaigns/Outcome.antt =====
-- The two ways in which the creation of a campaign ends.
use nurix_takehome.Common.{
  ℕ, ◌+◌, String, ◌≡◌, refl, ap, ◌⊎◌, inl, inr, true, none, some, List, ◌++◌, map, length, All,
}
use nurix_takehome.Model.Status.{pending}
use nurix_takehome.Model.Rows.{Campaign, Call, Db}
use nurix_takehome.Model.Txn.{unique_violation, World, commit, settle}
use nurix_takehome.Model.Deps.{Deps}
use nurix_takehome.Persistence.Calls.{phones_unique, new_call, count_active_by_campaign}
use nurix_takehome.Persistence.Campaigns
use nurix_takehome.Scheduler.Reclaim.{notify}
use nurix_takehome.Api.Schemas.Phones.Accepted.{NoRepeats}
use nurix_takehome.Api.Campaigns.{
  CampaignCreate, Reply, created, crashed, create_campaign, answer, stored_row, with_calls,
  found_row, txn_cases, active_after,
}
use nurix_takehome.Api.Campaigns.Fits.{IsFree, free-created}
use nurix_takehome.Api.Campaigns.NewCalls.{AreNewCalls, new_call-AreNewCalls}

not_both :
    (c : Campaign) (x : Reply × World) (w v : World)
    → x ≡ (crashed unique_violation, w)
    → x ≡ (created c, v)
    → ⊥
not_both c x w v e f = cc

module _ (deps : Deps) (id : ℕ) (phones : List (ℕ × String)) (body : CampaignCreate) where
  -- Creating a campaign under a fresh id is all or nothing. Either it crashes and nothing has changed:
  -- this only happens if two of the phones are equal, or a queued, dialing or connected call holds one,
  -- or two such calls share a phone before. Or the campaign is stored as pending, the calls have grown
  -- by one for each phone, in order: queued, due at once, never attempted and with all its retries; all
  -- of them count as active, and the scheduler is woken.
  pub create_campaign-AreNewCalls :
      (w : World)
      → Campaigns.get id w.db ≡ none
      → (create_campaign deps id phones body w ≡ (crashed unique_violation, w))
          × (phones_unique w.db.calls ≡ true
              → All (λ e. IsFree w.db.calls e.1) phones
              → NoRepeats (map (λ e. e.1) phones)
              → ⊥)
        ⊎ (c : Campaign) × (d' : Db) × (rows : List Call) × (create_campaign deps id phones body w
            ≡ (created c, notify true (record w { db = d' })))
          × (c.status ≡ pending)
          × (Campaigns.get id d' ≡ some c)
          × (d'.calls ≡ w.db.calls ++ rows)
          × AreNewCalls id body.max_attempts rows (map (λ e. e.1) phones)
          × (count_active_by_campaign id d' ≡ count_active_by_campaign id w.db + length phones)
  unfolding create_campaign commit
  create_campaign-AreNewCalls w h = elim (txn_cases deps id phones body w.clock w.db h) [
    | inl e ↦
        let failed : create_campaign deps id phones body w ≡ (crashed unique_violation, w) =
          ap (λ r. answer (settle r w)) e in
        inl (failed, λ u f n. not_both _ _ w _ failed (free-created deps id phones body w u f n h))
    | inr e ↦ inr (
      stored_row deps id phones body w.clock,
      with_calls deps id phones body w.clock w.db,
      map (new_call id body.max_attempts w.clock) phones,
      ap (λ r. answer (settle r w)) e,
      refl,
      found_row deps id phones body w.clock w.db h,
      refl,
      new_call-AreNewCalls id body.max_attempts w.clock phones,
      active_after deps id phones body w.clock w.db,
    )
  ]
