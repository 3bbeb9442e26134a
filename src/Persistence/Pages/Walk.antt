-- ===== src/Persistence/Pages/Walk.antt =====
-- Following the cursors from the first page on.
use nurix_takehome.Common.{
  ℕ, zero, suc, ◌<◌, ◌≡◌, ◌↔◌, refl, sym, ap, subst, ◌∙◌, true, false, Option, none, some, List, [],
  ◌∷◌, ◌++◌, append-nil, arith, ◌==◌, length, rows_where, if◌then◌else◌, InList, inl, inr, All,
  Bool-cases, Option-cases,
}
use nurix_takehome.Persistence.Pages.{Key, key_below, take, sort_desc, is_after, last_key, page}
use nurix_takehome.Persistence.Pages.Order.{
  Desc, Distinct, key_below_asym, key_below_trans, rows_where-rows_where, rows_where-Desc,
  sort_desc-Desc, length-sort_desc, InList-sort_desc,
}

abbrev drop : {A : Type 0} → ℕ → List A → List A
drop zero xs = xs
drop (suc n) [] = []
drop (suc n) (x ∷ xs) = drop n xs

take-drop : {A : Type 0} (n : ℕ) (xs : List A) → take n xs ++ drop n xs ≡ xs
take-drop zero xs = refl
take-drop (suc n) [] = refl
take-drop (suc n) (x ∷ xs) = ap (λ r. x ∷ r) (take-drop n xs)

short_page : {A : Type 0} (n : ℕ) (xs : List A) → (length (take n xs) == n) ≡ false → take n xs ≡ xs
short_page zero xs h = cc
short_page (suc n) [] h = refl
short_page (suc n) (x ∷ xs) h = ap (λ r. x ∷ r) (short_page n xs (ground arith))

no_rows : false ≡ true → ⊥
no_rows h = cc

length-drop :
    {A : Type 0} (n : ℕ) (xs : List A)
    → (length (take (suc n) xs) == suc n) ≡ true
    → length (drop (suc n) xs) < length xs
length-drop n [] h = absurd (no_rows (ground arith))
length-drop zero (x ∷ xs) h = omega arith
length-drop (suc n) (x ∷ xs) h = let k = length-drop n xs (ground arith) in omega arith

module _ {A : Type 0} (key : A → Key) where
  -- The client of the pages: it asks for `fuel` pages at most.
  unfoldable pub walk : ℕ → List A → ℕ → Option Key → List A
  walk zero rows limit cursor = []
  walk (suc fuel) rows limit cursor =
      let (result, next) = page key rows cursor limit in
      result ++ (elim next [ none ↦ [] | some k ↦ walk fuel rows limit (some k) ])

  none_after :
      (k : Key) (xs : List A)
      → All (λ y. key_below (key y) k ≡ true) xs
      → rows_where (is_after key (some k)) xs ≡ xs
  unfolding rows_where
  none_after k [] h = refl
  none_after k (x ∷ xs) (a, h) = rw a (ap (λ r. x ∷ r) (none_after k xs h))

  irreflexive : (k : Key) → key_below k k ≡ false
  unfolding key_below
  irreflexive k = ground arith

  last_key-some : (x : A) (xs : List A) → (k : Key) × (last_key key (x ∷ xs) ≡ some k)
  last_key-some x xs = elim (Option-cases (last_key key xs)) [
    | inl e ↦ (key x, rw e)
    | inr (k, e) ↦ (k, rw e)
  ]

  -- What holds of every key of the rows holds of the last one.
  last_key-All :
      (P : Key → Type 0) (n : ℕ) (xs : List A) {k : Key}
      → All (λ y. P (key y)) xs
      → last_key key (take n xs) ≡ some k
      → P k
  last_key-All P zero xs h e = cc
  last_key-All P (suc n) [] h e = cc
  last_key-All P (suc n) (x ∷ xs) {k} (p, h) e = elim (Option-cases (last_key key (take n xs))) [
    | inl f ↦ let same : key x ≡ k = cc (rw f at e) in subst P same p
    | inr (j, f) ↦ let same : j ≡ k = cc (rw f at e) in subst P same (last_key-All P n xs h f)
  ]

  after_last :
      (n : ℕ) (xs : List A) {k : Key}
      → Desc key xs
      → (length (take (suc n) xs) == suc n) ≡ true
      → last_key key (take (suc n) xs) ≡ some k
      → rows_where (is_after key (some k)) xs ≡ drop (suc n) xs
  unfolding rows_where
  after_last n [] d h e = cc
  after_last zero (x ∷ xs) {k} (a, d) h e =
      let same : key x ≡ k = cc in
      subst
        (λ j.
          (if key_below (key x) j
            then x ∷ rows_where (is_after key (some j)) xs
            else rows_where (is_after key (some j)) xs)
          ≡ xs)
        same (rw (irreflexive (key x)) (none_after (key x) xs a))
  after_last (suc n) (x ∷ []) d h e = absurd (no_rows (ground arith))
  after_last (suc n) (x ∷ y ∷ ys) {k} (a, d) h e =
      let (j, f) = last_key-some y (take n ys) in
      let same : j ≡ k = cc (rw f at e) in
      let below =
        last_key-All (λ i. key_below i (key x) ≡ true) (suc n) (y ∷ ys) a (f ∙ ap some same) in
      rw (key_below_asym k (key x) below)
        (after_last n (y ∷ ys) d (ground arith) (f ∙ ap some same))

  All-is_after :
      (c : Option Key) (xs : List A)
      → All (λ y. is_after key c y ≡ true) (rows_where (is_after key c) xs)
  unfolding rows_where
  All-is_after c [] = tt
  All-is_after c (x ∷ xs) = elim (Bool-cases (is_after key c x)) [
    | inl t ↦ rw t (t, All-is_after c xs)
    | inr f ↦ rw f (All-is_after c xs)
  ]

  -- A cursor taken from the rows behind a cursor lies behind it.
  behind :
      (c : Option Key) (k : Key) (ks : List A) (n : ℕ)
      → last_key key (take n (rows_where (is_after key c) ks)) ≡ some k
      → (a : A) → is_after key (some k) a ≡ true
      → is_after key c a ≡ true
  behind none k ks n e a h = refl
  behind (some j) k ks n e a h = key_below_trans (key a) k j h (
      last_key-All (λ i. key_below i j ≡ true) n (rows_where (is_after key (some j)) ks)
        (All-is_after (some j) ks) e)

  module _ (rows : List A) (n : ℕ) (d : Desc key (sort_desc key rows)) where
    abbrev remaining : Option Key → List A
    remaining c = rows_where (is_after key c) (sort_desc key rows)

    full_page :
        (c : Option Key)
        → (length (take (suc n) (remaining c)) == suc n) ≡ true
        → (k : Key) × (last_key key (take (suc n) (remaining c)) ≡ some k)
          × (remaining (some k) ≡ drop (suc n) (remaining c))
    full_page c h = elim (Option-cases (last_key key (take (suc n) (remaining c)))) [
      | inl e ↦ absurd (never_empty (remaining c) h e)
      | inr (k, e) ↦ (
        k,
        e,
        sym (
              rows_where-rows_where (is_after key c) (is_after key (some k)) (sort_desc key rows)
                (behind c k (sort_desc key rows) (suc n) e))
            ∙ after_last n (remaining c)
                (rows_where-Desc key (is_after key c) (sort_desc key rows) d) h e,
      )
    ]
      where
        never_empty :
            (xs : List A)
            → (length (take (suc n) xs) == suc n) ≡ true
            → last_key key (take (suc n) xs) ≡ none
            → ⊥
        never_empty [] h e = no_rows (ground arith)
        never_empty (x ∷ xs) h e = let (k, f) = last_key-some x (take n xs) in cc

    walk_from :
        (fuel : ℕ) (c : Option Key)
        → length (remaining c) < fuel
        → walk fuel rows (suc n) c ≡ remaining c
    unfolding walk page
    walk_from zero c l = absurd (omega arith)
    walk_from (suc fuel) c l = elim (Bool-cases (length (take (suc n) (remaining c)) == suc n)) [
      | inr f ↦ rw f (append-nil _ ∙ short_page (suc n) (remaining c) f)
      | inl t ↦
          let (k, e, rest) = full_page c t in
          let shorter = length-drop n (remaining c) t in
          let fits : length (remaining (some k)) < fuel = rw rest (omega arith) in
          rw t (
            rw e (
              ap (λ r. take (suc n) (remaining c) ++ r) (walk_from fuel (some k) fits ∙ rest)
              ∙ take-drop (suc n) (remaining c)))
    ]

rows_where-all : {A : Type 0} (xs : List A) → rows_where (λ _. true) xs ≡ xs
unfolding rows_where
rows_where-all [] = refl
rows_where-all (x ∷ xs) = ap (λ r. x ∷ r) (rows_where-all xs)

-- Following the cursors from the first page on, with a limit of one row or more, ends within one
-- page more than there are rows, and the pages together hold every row of a table with distinct ids,
-- and no other, in strictly descending order of the keys, so each row once.
pub walk-Desc :
    {A : Type 0} (key : A → Key) (rows : List A) (n fuel : ℕ)
    → Distinct key rows
    → length rows < fuel
    → Desc key (walk key fuel rows (suc n) none)
      × ((c : A) → InList c (walk key fuel rows (suc n) none) ↔ InList c rows)
walk-Desc key rows n fuel h l =
    let d = sort_desc-Desc key rows h in
    let all = rows_where-all (sort_desc key rows) in
    let fits : length (rows_where (λ _. true) (sort_desc key rows)) < fuel =
      rw (all, length-sort_desc key rows) l in
    let e = walk_from key rows n d fuel none fits ∙ all in
    subst (λ xs. Desc key xs × ((c : _) → InList c xs ↔ InList c rows)) (sym e)
      (d, λ c. InList-sort_desc key c rows)
