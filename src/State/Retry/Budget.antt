-- ===== src/State/Retry/Budget.antt =====
-- What a retryable outcome comes to.
use nurix_takehome.Common.{
  ℕ, ◌+◌, ◌-◌, ◌*◌, ◌^◌, ◌≡◌, Bool, true, false, [], ◌∷◌, arith, ltb, if◌then◌else◌, sym, refl,
  ◌&&◌, some, any_row, inl, inr, Bool-cases, ◌⊎◌,
}
use nurix_takehome.Model.Status.{CallStatus, retry_pending, failed, no_answer, busy, is_terminal}
use nurix_takehome.Model.Json.{txt, Text}
use nurix_takehome.Model.Rows.{Call, Db}
use nurix_takehome.Model.Txn.{err, non_terminal_outcome}
use nurix_takehome.State.Machine
use nurix_takehome.State.Machine.{is_unauthorized, assign, set_columns}
use nurix_takehome.State.Retry.Backoff.{backoff_of}
use nurix_takehome.State.Retry.{
  Outcome, outcome_move, retry_move, jitter_of, apply_retryable_outcome,
}

-- A status that the classifier sends to a retry.
abbrev pub is_retryable : CallStatus → Bool
is_retryable no_answer = true
is_retryable busy = true
is_retryable _ = false

-- What the policy asks of the move for a terminal outcome: to the reported status where there is
-- nothing to retry; to RETRY_PENDING while the budget lasts, with one retry less and the next attempt
-- after the backoff; and to FAILED when the budget is spent.
abbrev pub target : Outcome → CallStatus
target o =
    if is_retryable o.outcome
    then (if ltb 0 o.retries_remaining then retry_pending else failed)
    else o.outcome

abbrev pub is_retry : Outcome → Bool
is_retry o = is_retryable o.outcome && ltb 0 o.retries_remaining

-- The move is a compare-and-swap on the outcome's call, and this is what it makes of a row.
pub record IsPolicy (o : Outcome) (now : ℕ) (m : Machine.Move) : Type 0 where
  pub call : m.call_id ≡ o.call_id
  pub expected : m.expected_status ≡ o.expected_status
  pub epoch : m.expected_epoch ≡ o.expected_epoch
  pub allowed : any_row is_unauthorized m.column_updates ≡ false
  pub row :
      (t : ℕ) (c : Call)
      → assign m t c ≡ record c {
        status = target o;
        updated_at = t;
        retries_remaining = if is_retry o then o.retries_remaining - 1 else c.retries_remaining;
        next_attempt_at =
            if is_retry o
            then some
                (now + o.backoff_base_seconds * 2 ^ (o.expected_epoch - 1) * jitter_of o.uniform)
            else c.next_attempt_at;
      }

retry_row :
    (o : Outcome) (now t : ℕ) (c : Call)
    → assign (retry_move o now) t c ≡ record c {
      status = retry_pending;
      updated_at = t;
      retries_remaining = o.retries_remaining - 1;
      next_attempt_at =
          some (now + o.backoff_base_seconds * 2 ^ (o.expected_epoch - 1) * jitter_of o.uniform);
    }
unfolding assign set_columns
retry_row o now t c = rw (sym (backoff_of o.expected_epoch o.backoff_base_seconds o.uniform)) refl

plain_row :
    (o : Outcome) (s : CallStatus) (reason : Text) (t : ℕ) (c : Call)
    → assign (outcome_move o s reason) t c ≡ record c { status = s; updated_at = t }
unfolding assign set_columns
plain_row o s reason t c = refl

-- The move that the code makes for a terminal outcome.
abbrev policy_move : Outcome → ℕ → Machine.Move
policy_move o now =
    if is_retryable o.outcome
    then (if ltb 0 o.retries_remaining
        then retry_move o now
        else outcome_move o failed (txt "; retries exhausted" ∷ []))
    else outcome_move o o.outcome []

policy_move-IsPolicy : (o : Outcome) (now : ℕ) → IsPolicy o now (policy_move o now)
unfolding any_row is_unauthorized
policy_move-IsPolicy o now = elim (Bool-cases (is_retryable o.outcome)) [
  | inr f ↦ rw f (record {
    call = refl;
    expected = refl;
    epoch = refl;
    allowed = refl;
    row = λ t c. rw f (plain_row o o.outcome [] t c);
  })
  | inl k ↦ elim (Bool-cases (ltb 0 o.retries_remaining)) [
    | inl t ↦
        rw (k, t)
          (record {
            call = refl;
            expected = refl;
            epoch = refl;
            allowed = refl;
            row = λ u c. rw (k, t) (retry_row o now u c);
          })
    | inr f ↦
        rw (k, f)
          (record {
            call = refl;
            expected = refl;
            epoch = refl;
            allowed = refl;
            row = λ u c. rw (k, f) (plain_row o failed (txt "; retries exhausted" ∷ []) u c);
          })
  ]
]

apply_retryable_outcome-policy :
    (o : Outcome) (now : ℕ) (d : Db)
    → apply_retryable_outcome o now d ≡ (
        if is_terminal o.outcome
        then Machine.transition (policy_move o now) now d
        else err non_terminal_outcome)
unfolding apply_retryable_outcome is_terminal
apply_retryable_outcome-policy o now d = ground arith

-- An outcome that is not terminal raises and touches nothing. A terminal one is a single transition: a
-- compare-and-swap on the outcome's call, status and epoch, which leaves the epoch. It takes the call to
-- the reported status for COMPLETED and FAILED; for NO_ANSWER and BUSY, to RETRY_PENDING with one retry
-- less and the next attempt after the backoff of the attempt if a retry is left, and to FAILED if not.
pub apply_retryable_outcome-IsPolicy :
    (o : Outcome) (now : ℕ) (d : Db)
    → ((is_terminal o.outcome ≡ false)
        × (apply_retryable_outcome o now d ≡ err non_terminal_outcome))
      ⊎ ((is_terminal o.outcome ≡ true)
          × ((m : Machine.Move) × IsPolicy o now m
              × (apply_retryable_outcome o now d ≡ Machine.transition m now d)))
apply_retryable_outcome-IsPolicy o now d = elim (Bool-cases (is_terminal o.outcome)) [
  | inl t ↦ inr (
    t,
    (
      policy_move o now,
      policy_move-IsPolicy o now,
      rw t at (apply_retryable_outcome-policy o now d),
    ),
  )
  | inr f ↦ inl (f, rw f at (apply_retryable_outcome-policy o now d))
]
