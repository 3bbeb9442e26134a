-- ===== src/Persistence/Pages.antt =====
-- The keyset pages of `CampaignRepo.list_page` and `CallRepo.list_for_campaign` of
-- app/persistence/repositories.py. A cursor is the pair that its text encodes.
pub mod Order
pub mod Walk
use nurix_takehome.Common.{
  ℕ, zero, suc, Bool, true, false, ◌&&◌, ◌||◌, Option, none, some, List, [], ◌∷◌, ltb, ◌==◌, length,
  rows_where, if◌then◌else◌,
}
use nurix_takehome.Model.Rows.{Campaign, Call, Db}
use nurix_takehome.Model.Txn.{Result, ok, err, value_error}

abbrev pub Key : Type 0
Key = ℕ × ℕ

-- `(a, b) < (c, d)` of SQL rows.
unfoldable pub key_below : Key → Key → Bool
key_below a b = ltb a.0 b.0 || (a.0 == b.0 && ltb a.1 b.1)

abbrev pub take : {A : Type 0} → ℕ → List A → List A
take zero xs = []
take (suc n) [] = []
take (suc n) (x ∷ xs) = x ∷ take n xs

module _ {A : Type 0} (key : A → Key) where
  -- `ORDER BY ... DESC, id DESC`
  unfoldable pub insert_desc : A → List A → List A
  insert_desc x [] = x ∷ []
  insert_desc x (y ∷ ys) = if key_below (key x) (key y) then y ∷ insert_desc x ys else x ∷ y ∷ ys

  unfoldable pub sort_desc : List A → List A
  unfolding insert_desc
  sort_desc [] = []
  sort_desc (x ∷ xs) = insert_desc x (sort_desc xs)

  -- The WHERE clause of the cursor; without a cursor there is none.
  abbrev pub is_after : Option Key → A → Bool
  is_after none x = true
  is_after (some k) x = key_below (key x) k

  abbrev pub last_key : List A → Option Key
  last_key [] = none
  last_key (x ∷ xs) = elim (last_key xs) [ none ↦ some (key x) | some k ↦ some k ]

  -- `last` of a full page.
  abbrev pub next_cursor : ℕ → List A → Option Key
  next_cursor limit rows = if length rows == limit then last_key rows else none

  unfoldable pub page : List A → Option Key → ℕ → List A × Option Key
  unfolding sort_desc
  page rows cursor limit =
      let result = take limit (rows_where (is_after cursor) (sort_desc rows)) in
      (result, next_cursor limit result)

abbrev pub checked : {A : Type 0} → ℕ → A → Result A
checked zero a = err value_error
checked (suc _) a = ok a

abbrev pub campaign_key : Campaign → Key
campaign_key c = (c.created_at, c.id)

abbrev pub call_key : Call → Key
call_key c = (c.updated_at, c.id)

unfoldable pub list_page : Option Key → ℕ → Db → Result (List Campaign × Option Key)
unfolding page
list_page cursor limit d = checked limit (page campaign_key d.campaigns cursor limit)

abbrev pub of_campaign : ℕ → Call → Bool
of_campaign i c = c.campaign_id == i

unfoldable pub list_for_campaign : ℕ → Option Key → ℕ → Db → Result (List Call × Option Key)
unfolding page
list_for_campaign i cursor limit d =
    checked limit (page call_key (rows_where (of_campaign i) d.calls) cursor limit)
