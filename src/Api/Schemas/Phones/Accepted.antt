-- ===== src/Api/Schemas/Phones/Accepted.antt =====
-- When the phones of a request are accepted.
use nurix_takehome.Common.{
  ℕ, suc, ◌≤◌, String, ◌≡◌, ◌≢◌, ◌↔◌, refl, sym, ap, ◌∙◌, subst, ◌⊎◌, inl, inr, none, List, [], ◌∷◌,
  ◌++◌, map, append-nil, append_assoc, arith, eq_iff, length, InList, All, Option-cases,
}
use nurix_takehome.Api.Schemas.Phones.{
  PhoneNumbers, PhoneError, Scan, seen, duplicate, Reason, Row, bad, good, row_of, add_row, scan,
  accepted, outcome_of, empty_scan, normalize_phones,
}

-- No phone stands twice in the list.
abbrev pub NoRepeats : List String → Type 0
NoRepeats [] = Unit
NoRepeats (p ∷ ps) = ¬ InList p ps × NoRepeats ps

abbrev Unseen : List (String × ℕ) → List String → Type 0
Unseen l ps = All (λ p. seen p l ≡ none) ps

seen_cases :
    (p q : String) (i : ℕ) (l : List (String × ℕ))
    → (seen q ((p, i) ∷ l) ≡ none) ↔ (p ≢ q) × (seen q l ≡ none)
unfolding seen
seen_cases p q i l = ground (arith, eq_iff p q)

Unseen-cons :
    (p : String) (i : ℕ) (l : List (String × ℕ)) (ps : List String)
    → Unseen ((p, i) ∷ l) ps ↔ (¬ InList p ps) × Unseen l ps
Unseen-cons p i l [] = (λ h. (λ k. k, tt), λ h. tt)
Unseen-cons p i l (q ∷ qs) = (
  λ (a, b).
      let (n, u) = (seen_cases p q i l).0 a in
      let (m, v) = (Unseen-cons p i l qs).0 b in
      (λ k. elim k [ inl e ↦ n e | inr j ↦ m j ], (u, v)),
  λ (m, (u, v)).
      ((seen_cases p q i l).1 (λ e. m (inl e), u), (Unseen-cons p i l qs).1 (λ k. m (inr k), v)),
)

abbrev Rows : {N : Type 0} → PhoneNumbers N → List String → List String → Type 0
Rows lib raws ps = map (row_of lib) raws ≡ map good ps

length-error : (xs : List PhoneError) (e : PhoneError) → length (xs ++ e ∷ []) ≡ suc (length xs)
length-error [] e = refl
length-error (x ∷ xs) e = ap suc (length-error xs e)

row_errors :
    (i : ℕ) (raw : String) (r : Row) (s : Scan)
    → length s.errors ≤ length (add_row i raw r s).errors
row_errors i raw (bad r) s = omega (arith, length-error s.errors)
row_errors i raw (good p) s = elim (Option-cases (seen p s.seen_e164)) [
  | inl e ↦ rw e (omega arith)
  | inr (j, e) ↦ rw e (omega (arith, length-error s.errors))
]

module _ {N : Type 0} (lib : PhoneNumbers N) where
  errors_grow :
      (i : ℕ) (raws : List String) (s : Scan) → length s.errors ≤ length (scan lib i raws s).errors
  unfolding scan
  errors_grow i [] s = omega arith
  errors_grow i (raw ∷ raws) s = omega (
    arith,
    row_errors i raw (row_of lib raw) s,
    errors_grow (suc i) raws (add_row i raw (row_of lib raw) s),
  )

  scan_good :
      (i : ℕ) (raws ps : List String) (s : Scan)
      → Rows lib raws ps
      → NoRepeats ps
      → Unseen s.seen_e164 ps
      → ((scan lib i raws s).errors ≡ s.errors)
        × ((scan lib i raws s).normalized ≡ s.normalized ++ ps)
  unfolding scan
  scan_good i [] [] s h r u = (refl, sym (append-nil s.normalized))
  scan_good i [] (p ∷ ps) s h r u = cc
  scan_good i (raw ∷ raws) [] s h r u = cc
  scan_good i (raw ∷ raws) (p ∷ ps) s h (n, r) (a, u) =
      let e : row_of lib raw ≡ good p = cc in
      let s' : Scan = record s {
        normalized = s.normalized ++ p ∷ [];
        seen_e164 = (p, i) ∷ s.seen_e164;
      } in
      let (x, y) =
        scan_good (suc i) raws ps s' (cc) r ((Unseen-cons p i s.seen_e164 ps).1 (n, u)) in
      rw (e, scan) (rw a (x, y ∙ append_assoc s.normalized (p ∷ []) ps))

  no_error :
      (xs : List PhoneError) (e : PhoneError) (i : ℕ) (raws : List String) (s : Scan)
      → (scan lib i raws (record s { errors = xs ++ e ∷ [] })).errors ≢ []
  no_error xs e i raws s h =
      let k = errors_grow i raws (record s { errors = xs ++ e ∷ [] }) in
      absurd (omega (arith, k, ap length h, length-error xs e))

  scan_accepts :
      (i : ℕ) (raws : List String) (s : Scan)
      → (scan lib i raws s).errors ≡ []
      → (ps : List String) × Rows lib raws ps
        × NoRepeats ps
        × Unseen s.seen_e164 ps
        × ((scan lib i raws s).normalized ≡ s.normalized ++ ps)
  unfolding scan
  scan_accepts i [] s h = ([], refl, tt, tt, sym (append-nil s.normalized))
  scan_accepts i (raw ∷ raws) s h = elim (row_cases (row_of lib raw)) [
    | inl (r, e) ↦ absurd (
        no_error s.errors (record { index = i; input = raw; reason = r }) (suc i) raws s
          (rw (e, scan) at h))
    | inr (p, e) ↦ elim (Option-cases (seen p s.seen_e164)) [
      | inr (j, f) ↦ absurd (
          no_error s.errors (record { index = i; input = raw; reason = duplicate j p }) (suc i) raws
            s (rw f at (rw (e, scan) at h)))
      | inl f ↦
          let s' : Scan = record s {
            normalized = s.normalized ++ p ∷ [];
            seen_e164 = (p, i) ∷ s.seen_e164;
          } in
          let (ps, k, r, u, m) = scan_accepts (suc i) raws s' (rw f at (rw (e, scan) at h)) in
          let (n, v) = (Unseen-cons p i s.seen_e164 ps).0 u in
          (
            p ∷ ps,
            (cc),
            (n, r),
            (f, v),
            rw (e, scan) (rw f (m ∙ append_assoc s.normalized (p ∷ []) ps)),
          )
    ]
  ]
    where
      row_cases : (r : Row) → ((x : Reason) × (r ≡ bad x)) ⊎ ((p : String) × (r ≡ good p))
      row_cases (bad x) = inl (x, refl)
      row_cases (good p) = inr (p, refl)

Unseen-empty : (ps : List String) → Unseen [] ps
unfolding seen
Unseen-empty [] = tt
Unseen-empty (p ∷ ps) = (refl, Unseen-empty ps)

outcome_accepted :
    (es : List PhoneError) (ns ps : List String)
    → (outcome_of es ns ≡ accepted ps) ↔ (es ≡ []) × (ns ≡ ps) × (ps ≢ [])
outcome_accepted (e ∷ es) ns ps = ground arith
outcome_accepted [] [] ps = ground arith
outcome_accepted [] (n ∷ ns) ps = ground arith

-- The same with the rows as `row_of` reads them.
pub normalize_phones-NoRepeats :
    {N : Type 0} (lib : PhoneNumbers N) (raws ps : List String)
    → (normalize_phones lib raws ≡ accepted ps)
      ↔ (map (row_of lib) raws ≡ map good ps) × NoRepeats ps × (ps ≢ [])
unfolding normalize_phones
normalize_phones-NoRepeats lib raws ps = (
  λ h.
      let (e, m, n) = (outcome_accepted _ _ ps).0 h in
      let (qs, k, r, u, q) = scan_accepts lib 0 raws empty_scan e in
      let same : qs ≡ ps = sym q ∙ m in
      subst (λ xs. Rows lib raws xs × NoRepeats xs × (xs ≢ [])) same (k, r, rw same n),
  λ (k, r, n).
      let (e, m) = scan_good lib 0 raws ps empty_scan k r (Unseen-empty ps) in
      (outcome_accepted _ _ ps).1 (e, m, n),
)
