-- ===== src/Scheduler/Select/Order.antt =====
-- The order of the picks: a due retry comes before any new call, and within either kind the campaign
-- with the oldest cursor.
use nurix_takehome.Common.{
  ◌≡◌, refl, sym, subst, inl, inr, true, false, Option, none, some, List, [], ◌∷◌, arith, All,
  InList, Bool-cases, Option-cases,
}
use nurix_takehome.Model.Rows.{CampaignWithCursor}
use nurix_takehome.Scheduler.Select.{rr_before, rr_insert, rr_sorted, rr_least, rr_min}

abbrev pub head_of : List CampaignWithCursor → Option CampaignWithCursor
head_of [] = none
head_of (c ∷ _) = some c

head_of-insert :
    (c : CampaignWithCursor) (xs : List CampaignWithCursor)
    → head_of (rr_insert c xs) ≡ some (rr_least c (head_of xs))
unfolding rr_insert
head_of-insert c [] = refl
head_of-insert c (x ∷ xs) = elim (Bool-cases (rr_before x c)) [ inl t ↦ rw t | inr f ↦ rw f ]

-- `sorted(...)[0]` is `min(...)`.
pub head_of-sorted : (xs : List CampaignWithCursor) → head_of (rr_sorted xs) ≡ rr_min xs
unfolding rr_sorted rr_min
head_of-sorted [] = refl
head_of-sorted (c ∷ cs) = rw (head_of-insert c (rr_sorted cs), head_of-sorted cs)

abbrev pub IsLeast : CampaignWithCursor → List CampaignWithCursor → Type 0
IsLeast m = All (λ x. rr_before x m ≡ false)

before_trans :
    (a b c : CampaignWithCursor)
    → rr_before a b ≡ false
    → rr_before b c ≡ false
    → rr_before a c ≡ false
unfolding rr_before
before_trans a b c h k = ground arith

before_asym : (a b : CampaignWithCursor) → rr_before a b ≡ true → rr_before b a ≡ false
unfolding rr_before
before_asym a b h = ground arith

before_irrefl : (a : CampaignWithCursor) → rr_before a a ≡ false
unfolding rr_before
before_irrefl a = ground arith

IsLeast-mono :
    (m c : CampaignWithCursor) (xs : List CampaignWithCursor)
    → rr_before m c ≡ false
    → IsLeast m xs
    → IsLeast c xs
IsLeast-mono m c [] h k = tt
IsLeast-mono m c (x ∷ xs) h k = (before_trans x m c k.0 h, IsLeast-mono m c xs h k.1)

pub rr_min-none : (xs : List CampaignWithCursor) → rr_min xs ≡ none → xs ≡ []
unfolding rr_min
rr_min-none [] h = refl
rr_min-none (c ∷ cs) h = cc

pub rr_min-IsLeast :
    (xs : List CampaignWithCursor) {m : CampaignWithCursor}
    → rr_min xs ≡ some m
    → InList m xs × IsLeast m xs
unfolding rr_min
rr_min-IsLeast [] h = cc
rr_min-IsLeast (c ∷ cs) {m} h = elim (Option-cases (rr_min cs)) [
  | inl e ↦
      let k : c ≡ m = ground arith in
      (inl (sym k), rw k (before_irrefl m, rw (rr_min-none cs e) tt))
  | inr (n, e) ↦
      let (stands, least) = rr_min-IsLeast cs e in
      elim (Bool-cases (rr_before n c)) [
        | inl t ↦
            let k : n ≡ m = ground arith in
            (
              inr (subst (λ z. InList z cs) k stands),
              subst (λ z. IsLeast z (c ∷ cs)) k (before_asym n c t, least),
            )
        | inr f ↦
            let k : c ≡ m = ground arith in
            (
              inl (sym k),
              subst (λ z. IsLeast z (c ∷ cs)) k (before_irrefl c, IsLeast-mono n c cs f least),
            )
      ]
]
