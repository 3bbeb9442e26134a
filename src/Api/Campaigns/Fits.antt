-- ===== src/Api/Campaigns/Fits.antt =====
-- A validated request against the phone index.
use nurix_takehome.Common.{
  ℕ, suc, ◌+◌, String, ◌≡◌, refl, sym, ap, ◌∙◌, inr, Bool, true, false, ◌||◌, none, some, List, [],
  ◌∷◌, ◌++◌, map, append-nil, arith, eq_iff, length, All, InList, any_row,
}
use nurix_takehome.Model.Rows.{Campaign, Call, Db}
use nurix_takehome.Model.Txn.{ok, World, commit, settle}
use nurix_takehome.Model.Deps.{Deps}
use nurix_takehome.Persistence.Calls.{
  is_guarded, holds_phone, phones_unique, store_calls, new_call, create_batch,
  count_active_by_campaign,
}
use nurix_takehome.Persistence.Campaigns
use nurix_takehome.Scheduler.Reclaim.{notify}
use nurix_takehome.Api.Schemas.Phones.{PhoneNumbers, row_of, good, accepted, normalize_phones}
use nurix_takehome.Api.Schemas.Phones.Accepted.{NoRepeats, normalize_phones-NoRepeats}
use nurix_takehome.Api.Campaigns.{
  CampaignCreate, created, create_campaign, txn_ok, found_row, active_after, with_calls,
  with_campaign, stored_row, answer,
}

-- No queued, dialing or connected call of the table has the phone.
abbrev pub IsFree : List Call → String → Type 0
IsFree calls phone = any_row (holds_phone phone) calls ≡ false

pub any_row-append :
    {A : Type 0} (p : A → Bool) (xs ys : List A)
    → any_row p (xs ++ ys) ≡ any_row p xs || any_row p ys
unfolding any_row
any_row-append p [] ys = refl
any_row-append p (x ∷ xs) ys = ground (arith, any_row-append p xs ys)

fewer :
    (c : Call) (cs : List Call) (es : List (ℕ × String))
    → All (λ e. IsFree (c ∷ cs) e.1) es
    → All (λ e. IsFree cs e.1) es
unfolding any_row
fewer c cs [] h = tt
fewer c cs (e ∷ es) (a, h) = (ground arith, fewer c cs es h)

module _ (i retries now : ℕ) where
  absent :
      (phone : String) (es : List (ℕ × String))
      → ¬ InList phone (map (λ e. e.1) es)
      → any_row (holds_phone phone) (map (new_call i retries now) es) ≡ false
  unfolding any_row
  absent phone [] h = refl
  absent phone (e ∷ es) h = ground (arith, absent phone es (λ k. h (inr k)), eq_iff e.1 phone, h)

  new_unique :
      (es : List (ℕ × String))
      → NoRepeats (map (λ e. e.1) es)
      → phones_unique (map (new_call i retries now) es) ≡ true
  unfolding phones_unique is_guarded
  new_unique [] h = refl
  new_unique (e ∷ es) (n, h) = rw (absent e.1 es n) (new_unique es h)

  -- A row that the index guards shares no phone with a batch of free phones.
  clear :
      (c : Call) (cs : List Call) (es : List (ℕ × String))
      → is_guarded c.status ≡ true
      → All (λ e. IsFree (c ∷ cs) e.1) es
      → any_row (holds_phone c.phone) (map (new_call i retries now) es) ≡ false
  unfolding any_row
  clear c cs [] g h = refl
  clear c cs (e ∷ es) g (a, h) =
      ground (arith, clear c cs es g h, eq_iff e.1 c.phone, eq_iff c.phone e.1)

  batch_unique :
      (cs : List Call) (es : List (ℕ × String))
      → phones_unique cs ≡ true
      → All (λ e. IsFree cs e.1) es
      → NoRepeats (map (λ e. e.1) es)
      → phones_unique (cs ++ map (new_call i retries now) es) ≡ true
  unfolding phones_unique
  batch_unique [] es u f n = new_unique es n
  batch_unique (c ∷ cs) es u f n = ground (
    arith,
    clear c cs es,
    any_row-append (holds_phone c.phone) cs (map (new_call i retries now) es),
    batch_unique cs es,
    fewer c cs es f,
  )

create_batch-ok :
    (i retries now : ℕ) (es : List (ℕ × String)) (d : Db)
    → phones_unique (d.calls ++ map (new_call i retries now) es) ≡ true
    → (is : List ℕ) × (create_batch i es retries now d
        ≡ ok (is, record d { calls = d.calls ++ map (new_call i retries now) es }))
unfolding create_batch store_calls
create_batch-ok i retries now [] d u =
    ([], ap (λ cs. ok ([], record d { calls = cs })) (sym (append-nil d.calls)))
create_batch-ok i retries now (e ∷ es) d u = (map (λ x. x.0) (e ∷ es), rw u)

rows_length :
    {N : Type 0} (lib : PhoneNumbers N) (raws : List String) (es : List (ℕ × String))
    → map (row_of lib) raws ≡ map good (map (λ e. e.1) es)
    → length es ≡ length raws
rows_length lib [] [] h = refl
rows_length lib [] (e ∷ es) h = cc
rows_length lib (raw ∷ raws) [] h = cc
rows_length lib (raw ∷ raws) (e ∷ es) h = ap suc (rows_length lib raws es (cc))

-- Phones without repeats that no guarded call holds are stored.
pub free-created :
    (deps : Deps) (id : ℕ) (phones : List (ℕ × String)) (body : CampaignCreate) (w : World)
    → phones_unique w.db.calls ≡ true
    → All (λ e. IsFree w.db.calls e.1) phones
    → NoRepeats (map (λ e. e.1) phones)
    → Campaigns.get id w.db ≡ none
    → create_campaign deps id phones body w ≡ (
      created (stored_row deps id phones body w.clock),
      notify true (record w { db = with_calls deps id phones body w.clock w.db }),
    )
unfolding create_campaign commit
free-created deps id phones body w u f r h =
    let fits = batch_unique id body.max_attempts w.clock w.db.calls phones u f r in
    let (is, e) =
      create_batch-ok id body.max_attempts w.clock phones
        (with_campaign deps id phones body w.clock w.db) fits in
    ap (λ r. answer (settle r w)) (txn_ok deps id phones body w.clock w.db is h e)

module _ {N : Type 0} (lib : PhoneNumbers N) (deps : Deps) (id : ℕ) (raws : List String)
    (phones : List (ℕ × String)) (body : CampaignCreate) (w : World)
    (a : normalize_phones lib raws ≡ accepted (map (λ e. e.1) phones))
    (u : phones_unique w.db.calls ≡ true) (f : All (λ e. IsFree w.db.calls e.1) phones)
    (h : Campaigns.get id w.db ≡ none) where
  pub creation : create_campaign deps id phones body w ≡ (
    created (stored_row deps id phones body w.clock),
    notify true (record w { db = with_calls deps id phones body w.clock w.db }),
  )
  creation =
      let (k, r, n) = (normalize_phones-NoRepeats lib raws _).0 a in
      free-created deps id phones body w u f r h

  pub active_rows :
      count_active_by_campaign id (with_calls deps id phones body w.clock w.db)
      ≡ count_active_by_campaign id w.db + length raws
  active_rows =
      let (k, r, n) = (normalize_phones-NoRepeats lib raws _).0 a in
      active_after deps id phones body w.clock w.db
      ∙ ap (λ n. count_active_by_campaign id w.db + n) (rows_length lib raws phones k)

  -- If the phones of a request are accepted, none of their numbers is held by a queued, dialing or
  -- connected call, and the new campaign's id is fresh, then the campaign is created without an
  -- exception, and it has as many active calls more as the request has rows.
  pub normalize_phones-create_campaign :
      (c : Campaign) × (d' : Db) × (create_campaign deps id phones body w
        ≡ (created c, notify true (record w { db = d' })))
      × (Campaigns.get id d' ≡ some c)
      × (count_active_by_campaign id d' ≡ count_active_by_campaign id w.db + length raws)
  normalize_phones-create_campaign = (
    stored_row deps id phones body w.clock,
    with_calls deps id phones body w.clock w.db,
    creation,
    found_row deps id phones body w.clock w.db h,
    active_rows,
  )
