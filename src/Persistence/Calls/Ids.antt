-- ===== src/Persistence/Calls/Ids.antt =====
-- The primary key of the calls table: a row that a query returns stands in the table, and no other
-- row has its id.
use nurix_takehome.Common.{
  ℕ, ◌≡◌, refl, sym, subst, ◌⊎◌, inl, inr, Bool, true, false, not, ◌&&◌, Option, none, some, List,
  [], ◌∷◌, arith, ◌==◌, ==_iff, All, InList, first, any_row, update_where, Bool-cases,
}
use nurix_takehome.Model.Rows.{Call}
use nurix_takehome.Persistence.Calls.{has_id, older, oldest}

unfoldable pub ids_unique : List Call → Bool
ids_unique [] = true
ids_unique (c ∷ cs) = not (any_row (has_id c.id) cs) && ids_unique cs

any_row-update :
    (i : ℕ) (p : Call → Bool) (f : Call → Call) (xs : List Call)
    → ((c : Call) → (f c).id ≡ c.id)
    → any_row (has_id i) (update_where p f xs) ≡ any_row (has_id i) xs
unfolding any_row update_where
any_row-update i p f [] h = refl
any_row-update i p f (x ∷ xs) h = ground (arith, h x, any_row-update i p f xs h)

-- An update that keeps the ids keeps them unique.
pub ids_unique-update :
    (p : Call → Bool) (f : Call → Call) (xs : List Call)
    → ((c : Call) → (f c).id ≡ c.id)
    → ids_unique (update_where p f xs) ≡ ids_unique xs
unfolding ids_unique update_where
ids_unique-update p f [] h = refl
ids_unique-update p f (x ∷ xs) h =
    ground (arith, h x, any_row-update x.id p f xs h, ids_unique-update p f xs h)

pub first-InTable :
    (p : Call → Bool) (xs : List Call) {c : Call} → first p xs ≡ some c → InList c xs × (p c ≡ true)
unfolding first
first-InTable p [] h = cc
first-InTable p (x ∷ xs) {c} h = elim (Bool-cases (p x)) [
  | inl t ↦ let e : x ≡ c = ground arith in (inl (sym e), subst (λ z. p z ≡ true) e t)
  | inr f ↦ let (a, b) = first-InTable p xs {c = c} (ground arith) in (inr a, b)
]

older-cases : (c : Call) (o : Option Call) → (older c o ≡ c) ⊎ (some (older c o) ≡ o)
older-cases c none = inl refl
older-cases c (some b) = ground arith

pub oldest-InTable :
    (p : Call → Bool) (xs : List Call) {c : Call}
    → oldest p xs ≡ some c
    → InList c xs × (p c ≡ true)
unfolding oldest
oldest-InTable p [] h = cc
oldest-InTable p (x ∷ xs) {c} h = elim (Bool-cases (p x)) [
  | inr f ↦ let (a, b) = oldest-InTable p xs {c = c} (ground arith) in (inr a, b)
  | inl t ↦ elim (older-cases x (oldest p xs)) [
    | inl e ↦ let k : x ≡ c = ground arith in (inl (sym k), subst (λ z. p z ≡ true) k t)
    | inr e ↦ let (a, b) = oldest-InTable p xs {c = c} (ground arith) in (inr a, b)
  ]
]

pub not_any :
    (i : ℕ) (xs : List Call) → any_row (has_id i) xs ≡ false → All (λ x. (x.id == i) ≡ false) xs
unfolding any_row
not_any i [] h = tt
not_any i (x ∷ xs) h = (ground arith, not_any i xs (ground arith))

pub in_any : (c : Call) (xs : List Call) → InList c xs → any_row (has_id c.id) xs ≡ true
unfolding any_row
in_any c [] h = absurd h
in_any c (x ∷ xs) (inl e) = ground arith
in_any c (x ∷ xs) (inr h) = ground (arith, in_any c xs h)

others_differ :
    (c : Call) (xs : List Call)
    → All (λ x. (x.id == c.id) ≡ false) xs
    → All (λ x. (x.id == c.id) ≡ true → x ≡ c) xs
others_differ c [] h = tt
others_differ c (x ∷ xs) h = (λ e. ground (arith, h.0), others_differ c xs h.1)

-- Under a unique key, a row with the id of a row of the table is that row.
pub only_row :
    (c : Call) (xs : List Call)
    → ids_unique xs ≡ true
    → InList c xs
    → All (λ x. (x.id == c.id) ≡ true → x ≡ c) xs
unfolding ids_unique
only_row c [] u h = tt
only_row c (x ∷ xs) u (inl e) = ((λ _. sym e), others_differ c xs (not_any c.id xs (ground arith)))
only_row c (x ∷ xs) u (inr h) =
    ((λ e. ground (arith, in_any c xs h, ==_iff x.id c.id)), only_row c xs (ground arith) h)
