-- ===== src/Persistence/Inbox/Dedupe.antt =====
-- The inbox holds one row for each event of a provider, and the first delivery wins.
use nurix_takehome.Common.{
  ℕ, String, ◌≡◌, refl, ap, ap₂, Bool, true, none, some, List, [], ◌∷◌, ◌++◌, arith, eq_refl,
  eq_iff, first, update_where, Option-cases, Bool-cases, inl, inr,
}
use nurix_takehome.Model.Json.{Fields}
use nurix_takehome.Model.Rows.{InboxRow, Db}
use nurix_takehome.Model.Txn.{Result, ok, err}
use nurix_takehome.Persistence.Inbox.{has_key, insert}

abbrev pub id_or : Result (ℕ × Db) → ℕ
id_or (ok (i, d)) = i
id_or (err e) = 0

pub keyed : (r : InboxRow) → has_key r.provider r.provider_event_id r ≡ true
keyed r = ground (arith, eq_refl r.provider, eq_refl r.provider_event_id)

-- A delivery is there afterwards.
first-append :
    (p : InboxRow → Bool) (xs : List InboxRow) (r : InboxRow)
    → first p xs ≡ none
    → p r ≡ true
    → first p (xs ++ r ∷ []) ≡ some r
unfolding first
first-append p [] r h k = ground arith
first-append p (x ∷ xs) r h k = ground (arith, first-append p xs r)

same_provider :
    (provider event : String) (x : InboxRow)
    → has_key provider event x ≡ true
    → record x { provider = provider } ≡ x
same_provider provider event x h = ground (arith, eq_iff x.provider provider)

update-same :
    (provider event : String) (xs : List InboxRow)
    → update_where (has_key provider event) (λ x. record x { provider = provider }) xs ≡ xs
unfolding update_where
update-same provider event [] = refl
update-same provider event (x ∷ xs) = elim (Bool-cases (has_key provider event x)) [
  | inl t ↦ rw t (ap₂ ◌∷◌ (same_provider provider event x t) (update-same provider event xs))
  | inr f ↦ rw f (ap (λ r. x ∷ r) (update-same provider event xs))
]

pub insert-again :
    (i : ℕ) (provider event : String) (body : Fields) (now : ℕ) (d : Db) {old : InboxRow}
    → first (has_key provider event) d.inbox ≡ some old
    → insert i provider event body now d ≡ ok (old.id, d)
unfolding insert
insert-again i provider event body now d {old} e = rw (e, update-same provider event d.inbox)

-- A second delivery of a provider's event, whatever its body, returns the id of the first and leaves
-- the database as the first left it.
pub insert-insert :
    (i j : ℕ) (provider event : String) (body other : Fields) (now later : ℕ) (d : Db)
    → (k : ℕ) × (d' : Db) × (insert i provider event body now d ≡ ok (k, d'))
      × (insert j provider event other later d' ≡ ok (k, d'))
unfolding insert
insert-insert i j provider event body other now later d =
    elim (Option-cases (first (has_key provider event) d.inbox)) [
      | inl e ↦
          let r : InboxRow = record {
            id = i;
            provider = provider;
            provider_event_id = event;
            payload = body;
            received_at = now;
            processed_at = none;
          } in
          let d' = record d { inbox = d.inbox ++ r ∷ [] } in
          (
            i,
            d',
            rw e,
            insert-again j provider event other later d'
                (first-append (has_key provider event) d.inbox r e (keyed r)),
          )
      | inr (old, e) ↦ (
        old.id,
        d,
        insert-again i provider event body now d e,
        insert-again j provider event other later d e,
      )
    ]
