-- ===== src/State/Lifecycle.antt =====
-- What no operation may do to a call: the row keeps its identity, its epoch never falls, and a
-- terminal status stays.
use nurix_takehome.Common.{
  ℕ, ◌≤◌, ◌≡◌, ◌⊎◌, refl, Bool, true, false, some, List, [], ◌∷◌, ◌++◌, All, arith, ◌==◌, ◌∙◌,
  subst, first, update_where, Bool-cases, inl, inr,
}
use nurix_takehome.Model.Status.{CallStatus, is_terminal}
use nurix_takehome.Model.Rows.{Call, Db}
use nurix_takehome.Persistence.Calls.{has_id, get}

pub record Evolves (c c' : Call) : Type 0 where
  pub id : c'.id ≡ c.id
  pub campaign : c'.campaign_id ≡ c.campaign_id
  pub phone : c'.phone ≡ c.phone
  pub epoch : c.attempt_epoch ≤ c'.attempt_epoch
  pub absorbed : (is_terminal c.status ≡ false) ⊎ (c'.status ≡ c.status)

pub Evolves-refl : (c : Call) → Evolves c c
Evolves-refl c = record {
  id = refl;
  campaign = refl;
  phone = refl;
  epoch = omega arith;
  absorbed = inr refl;
}

absorbed_trans :
    (a b c : CallStatus)
    → (is_terminal a ≡ false) ⊎ (b ≡ a)
    → (is_terminal b ≡ false) ⊎ (c ≡ b)
    → (is_terminal a ≡ false) ⊎ (c ≡ a)
absorbed_trans a b c (inl e) k = inl e
absorbed_trans a b c (inr e) (inl f) = inl (rw e at f)
absorbed_trans a b c (inr e) (inr f) = inr (f ∙ e)

pub Evolves-trans : {a b c : Call} → Evolves a b → Evolves b c → Evolves a c
Evolves-trans {a} {b} {c} h k = record {
  id = k.id ∙ h.id;
  campaign = k.campaign ∙ h.campaign;
  phone = k.phone ∙ h.phone;
  epoch = omega arith;
  absorbed = absorbed_trans a.status b.status c.status h.absorbed k.absorbed;
}

-- Row by row; the later table may have new rows at its end.
abbrev pub Evolved : List Call → List Call → Type 0
Evolved [] ys = Unit {0}
Evolved (x ∷ xs) [] = ⊥
Evolved (x ∷ xs) (y ∷ ys) = Evolves x y × Evolved xs ys

pub Evolved-refl : (xs : List Call) → Evolved xs xs
Evolved-refl [] = tt
Evolved-refl (x ∷ xs) = (Evolves-refl x, Evolved-refl xs)

pub Evolved-trans : (xs ys zs : List Call) → Evolved xs ys → Evolved ys zs → Evolved xs zs
Evolved-trans [] ys zs h k = tt
Evolved-trans (x ∷ xs) [] zs h k = absurd h
Evolved-trans (x ∷ xs) (y ∷ ys) [] h k = absurd k
Evolved-trans (x ∷ xs) (y ∷ ys) (z ∷ zs) h k =
    (Evolves-trans h.0 k.0, Evolved-trans xs ys zs h.1 k.1)

pub Evolved-update :
    (p : Call → Bool) (f : Call → Call) (xs : List Call)
    → All (λ c. p c ≡ true → Evolves c (f c)) xs
    → Evolved xs (update_where p f xs)
unfolding update_where
Evolved-update p f [] h = tt
Evolved-update p f (x ∷ xs) h = (
  elim (Bool-cases (p x)) [ inl e ↦ rw e (h.0 e) | inr e ↦ rw e (Evolves-refl x) ],
  Evolved-update p f xs h.1,
)

pub All-always {ℓ} : {A : Type ℓ} (P : A → Type 0) (xs : List A) → ((a : A) → P a) → All P xs
All-always P [] h = tt
All-always P (x ∷ xs) h = (h x, All-always P xs h)

pub Evolved-append : (xs ys : List Call) → Evolved xs (xs ++ ys)
Evolved-append [] ys = tt
Evolved-append (x ∷ xs) ys = (Evolves-refl x, Evolved-append xs ys)

found_again :
    (i : ℕ) (xs ys : List Call) {c : Call}
    → Evolved xs ys
    → first (has_id i) xs ≡ some c
    → (c' : Call) × (first (has_id i) ys ≡ some c') × Evolves c c'
unfolding first
found_again i [] ys h e = cc
found_again i (x ∷ xs) [] h e = absurd h
found_again i (x ∷ xs) (y ∷ ys) {c} h e = elim (Bool-cases (x.id == i)) [
  | inl t ↦ (y, ground (arith, h.0.id), subst (λ z. Evolves z y) (ground arith) h.0)
  | inr f ↦
      let (c', g, k) = found_again i xs ys h.1 (ground arith) in (c', ground (arith, h.0.id), k)
]

-- A row that is found is found again, evolved.
pub Evolved-get :
    (i : ℕ) (d d' : Db) {c : Call}
    → Evolved d.calls d'.calls
    → get i d ≡ some c
    → (c' : Call) × (get i d' ≡ some c') × Evolves c c'
unfolding get
Evolved-get i d d' h e = found_again i d.calls d'.calls h e
