-- ===== src/Persistence/Pages/Order.antt =====
-- The order of the pages, and its filters.
use nurix_takehome.Common.{
  suc, ◌≡◌, ◌↔◌, refl, ap, ◌∙◌, Bool, true, false, List, [], ◌∷◌, arith, ◌==◌, length, rows_where,
  InList, inl, inr, All, All-map, Bool-cases,
}
use nurix_takehome.Persistence.Pages.{Key, key_below, insert_desc, sort_desc}

pub key_below_trans :
    (a b c : Key) → key_below a b ≡ true → key_below b c ≡ true → key_below a c ≡ true
unfolding key_below
key_below_trans a b c h k = ground arith

key_below_total : (a b : Key) → (b.1 == a.1) ≡ false → key_below a b ≡ false → key_below b a ≡ true
unfolding key_below
key_below_total a b h k = ground arith

pub key_below_asym : (a b : Key) → key_below a b ≡ true → key_below b a ≡ false
unfolding key_below
key_below_asym a b h = ground arith

pub All-rows_where :
    {A : Type 0} (p : A → Bool) (P : A → Type 0) (xs : List A) → All P xs → All P (rows_where p xs)
unfolding rows_where
All-rows_where p P [] h = tt
All-rows_where p P (x ∷ xs) (a, h) = elim (Bool-cases (p x)) [
  | inl t ↦ rw t (a, All-rows_where p P xs h)
  | inr f ↦ rw f (All-rows_where p P xs h)
]

pub rows_where-rows_where :
    {A : Type 0} (p q : A → Bool) (xs : List A)
    → ((a : A) → q a ≡ true → p a ≡ true)
    → rows_where q (rows_where p xs) ≡ rows_where q xs
unfolding rows_where
rows_where-rows_where p q [] h = refl
rows_where-rows_where p q (x ∷ xs) h = ground (arith, h x, rows_where-rows_where p q xs h)

module _ {A : Type 0} (key : A → Key) where
  -- Strictly descending.
  abbrev pub Desc : List A → Type 0
  Desc [] = Unit {0}
  Desc (x ∷ xs) = All (λ y. key_below (key y) (key x) ≡ true) xs × Desc xs

  -- No two rows with one id.
  abbrev pub Distinct : List A → Type 0
  Distinct [] = Unit {0}
  Distinct (x ∷ xs) = All (λ y. ((key y).1 == (key x).1) ≡ false) xs × Distinct xs

  All-insert_desc :
      (P : A → Type 0) (x : A) (ys : List A) → P x → All P ys → All P (insert_desc key x ys)
  unfolding insert_desc
  All-insert_desc P x [] p h = (p, tt)
  All-insert_desc P x (y ∷ ys) p (q, h) = elim (Bool-cases (key_below (key x) (key y))) [
    | inl t ↦ rw t (q, All-insert_desc P x ys p h)
    | inr f ↦ rw f (p, (q, h))
  ]

  All-sort_desc : (P : A → Type 0) (xs : List A) → All P xs → All P (sort_desc key xs)
  unfolding sort_desc
  All-sort_desc P [] h = tt
  All-sort_desc P (x ∷ xs) (p, h) = All-insert_desc P x (sort_desc key xs) p (All-sort_desc P xs h)

  insert_desc-Desc :
      (x : A) (ys : List A)
      → All (λ y. ((key y).1 == (key x).1) ≡ false) ys
      → Desc ys
      → Desc (insert_desc key x ys)
  unfolding insert_desc
  insert_desc-Desc x [] h k = (tt, tt)
  insert_desc-Desc x (y ∷ ys) (a, h) (b, k) = elim (Bool-cases (key_below (key x) (key y))) [
    | inl t ↦ rw t (
      All-insert_desc (λ z. key_below (key z) (key y) ≡ true) x ys t b,
      insert_desc-Desc x ys h k,
    )
    | inr f ↦
        let below = key_below_total (key x) (key y) a f in
        rw f
          ((below, All-map ys (λ z l. key_below_trans (key z) (key y) (key x) l below) b), (b, k))
  ]

  pub sort_desc-Desc : (xs : List A) → Distinct xs → Desc (sort_desc key xs)
  unfolding sort_desc
  sort_desc-Desc [] h = tt
  sort_desc-Desc (x ∷ xs) (a, h) =
      insert_desc-Desc x (sort_desc key xs) (All-sort_desc _ xs a) (sort_desc-Desc xs h)

  pub rows_where-Desc : (p : A → Bool) (xs : List A) → Desc xs → Desc (rows_where p xs)
  unfolding rows_where
  rows_where-Desc p [] h = tt
  rows_where-Desc p (x ∷ xs) (a, h) = elim (Bool-cases (p x)) [
    | inl t ↦
        rw t (All-rows_where p (λ y. key_below (key y) (key x) ≡ true) xs a, rows_where-Desc p xs h)
    | inr f ↦ rw f (rows_where-Desc p xs h)
  ]

  length-insert_desc : (x : A) (ys : List A) → length (insert_desc key x ys) ≡ suc (length ys)
  unfolding insert_desc
  length-insert_desc x [] = refl
  length-insert_desc x (y ∷ ys) = ground (arith, length-insert_desc x ys)

  pub length-sort_desc : (xs : List A) → length (sort_desc key xs) ≡ length xs
  unfolding sort_desc
  length-sort_desc [] = refl
  length-sort_desc (x ∷ xs) = length-insert_desc x (sort_desc key xs) ∙ ap suc (length-sort_desc xs)

  through :
      {c x : A} (us vs : List A) (y : A)
      → (InList c us → InList c (x ∷ vs))
      → InList c (y ∷ us)
      → InList c (x ∷ y ∷ vs)
  through us vs y f (inl e) = inr (inl e)
  through us vs y f (inr h) = elim (f h) [ inl e ↦ inl e | inr k ↦ inr (inr k) ]

  back_through :
      {c x : A} (us vs : List A) (y : A)
      → (InList c (x ∷ vs) → InList c us)
      → InList c (x ∷ y ∷ vs)
      → InList c (y ∷ us)
  back_through us vs y f (inl e) = inr (f (inl e))
  back_through us vs y f (inr (inl e)) = inl e
  back_through us vs y f (inr (inr k)) = inr (f (inr k))

  InList-insert_desc : (c x : A) (ys : List A) → InList c (insert_desc key x ys) ↔ InList c (x ∷ ys)
  unfolding insert_desc
  InList-insert_desc c x [] = (λ h. h, λ h. h)
  InList-insert_desc c x (y ∷ ys) = elim (Bool-cases (key_below (key x) (key y))) [
    | inl t ↦
        let (there, back) = InList-insert_desc c x ys in
        rw t
          (through (insert_desc key x ys) ys y there, back_through (insert_desc key x ys) ys y back)
    | inr f ↦ rw f (λ h. h, λ h. h)
  ]

  pub InList-sort_desc : (c : A) (xs : List A) → InList c (sort_desc key xs) ↔ InList c xs
  unfolding sort_desc
  InList-sort_desc c [] = (λ h. h, λ h. h)
  InList-sort_desc c (x ∷ xs) =
      let (a, b) = InList-insert_desc c x (sort_desc key xs) in
      let (p, q) = InList-sort_desc c xs in
      (
        (λ h. elim (a h) [ inl e ↦ inl e | inr k ↦ inr (p k) ]),
        (λ h. b (elim h [ inl e ↦ inl e | inr k ↦ inr (q k) ])),
      )
