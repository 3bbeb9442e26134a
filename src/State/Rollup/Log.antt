-- ===== src/State/Rollup/Log.antt =====
-- The rollup and the promotion only append to the audit log.
use nurix_takehome.Common.{
  ℕ, ◌+◌, ◌≡◌, refl, sym, subst, List, [], ◌∷◌, ◌++◌, append-nil, ltb, any_row, Bool-cases, inl,
  inr,
}
use nurix_takehome.Model.Status.{pending, active}
use nurix_takehome.Model.Rows.{AuditRow, Db}
use nurix_takehome.Audit.{emit_audit}
use nurix_takehome.Persistence.Calls.{count_active_by_campaign}
use nurix_takehome.Persistence.Campaigns.{is_in, transition_if}
use nurix_takehome.State.Rollup.Frame.{rolled, promoted}

-- The ids of the rows count up from the first number to below the second.
abbrev pub Numbered : ℕ → List AuditRow → ℕ → Type 0
Numbered n [] m = m ≡ n
Numbered n (r ∷ rows) m = (r.id ≡ n) × Numbered (n + 1) rows m

pub Numbered-append :
    (n m k : ℕ) (xs ys : List AuditRow)
    → Numbered n xs m
    → Numbered m ys k
    → Numbered n (xs ++ ys) k
Numbered-append n m k [] ys e h = subst (λ i. Numbered i ys k) e h
Numbered-append n m k (x ∷ xs) ys (e, g) h = (e, Numbered-append (n + 1) m k xs ys g h)

-- The later log is the earlier one with rows at its end, numbered by the sequence.
abbrev pub AuditGrows : Db → Db → Type 0
AuditGrows d d' =
    (rows : List AuditRow) × (d'.audit ≡ d.audit ++ rows) × Numbered d.audit_seq rows d'.audit_seq

pub AuditGrows-refl : (d : Db) → AuditGrows d d
AuditGrows-refl d = ([], sym (append-nil d.audit), refl)

module _ (i now : ℕ) (d : Db) where
  pub rolled-AuditGrows : AuditGrows d (rolled i now d)
  unfolding rolled transition_if emit_audit
  rolled-AuditGrows = elim (Bool-cases (ltb 0 (count_active_by_campaign i d))) [
    | inl busy ↦ rw busy (AuditGrows-refl d)
    | inr done ↦ rw done (elim (Bool-cases (any_row (is_in i active) d.campaigns)) [
      | inl t ↦ rw t (_, refl, (refl, refl))
      | inr f ↦ rw f (AuditGrows-refl d)
    ])
  ]

  pub promoted-AuditGrows : AuditGrows d (promoted i now d)
  unfolding promoted transition_if emit_audit
  promoted-AuditGrows = elim (Bool-cases (any_row (is_in i pending) d.campaigns)) [
    | inl t ↦ rw t (_, refl, (refl, refl))
    | inr f ↦ rw f (AuditGrows-refl d)
  ]
