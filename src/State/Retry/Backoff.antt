-- ===== src/State/Retry/Backoff.antt =====
-- How the backoff of app/state/retry_apply.py grows with the attempts.
use nurix_takehome.Common.{
  ℕ, zero, suc, ◌+◌, ◌-◌, ◌*◌, ◌^◌, ◌%◌, ◌≤◌, ◌<◌, ◌≡◌, refl, ap, ◌∙◌, arith, ltb, inl, inr,
  Bool-cases,
}
use native.Mathlib.Omega
use native.Mathlib.Nat.{mul-le-mul_left, mod-lt, zero-lt-suc}
use nurix_takehome.State.Retry.{jitter_of, compute_backoff}

pub backoff_of :
    (epoch base uniform : ℕ)
    → compute_backoff epoch base uniform ≡ base * 2 ^ (epoch - 1) * jitter_of uniform
unfolding compute_backoff
backoff_of epoch base uniform = elim (Bool-cases (ltb epoch 1)) [
  | inl t ↦ let e : epoch - 1 ≡ 0 = ground arith in rw (t, e) refl
  | inr f ↦ rw f refl
]

minus_one : (n : ℕ) → n ≡ suc n - 1
minus_one n = omega arith

plus_minus : (n : ℕ) → n + 1 - 1 ≡ n
plus_minus n = omega arith

pow_step : (epoch : ℕ) → 1 ≤ epoch → 2 ^ epoch ≡ 2 * 2 ^ (epoch - 1)
pow_step zero h = omega arith
pow_step (suc n) h = Omega.pow_step 2 n ∙ ap (λ k. 2 * 2 ^ k) (minus_one n)

twice : (a p j : ℕ) → a * (2 * p) * j ≡ 2 * (a * p * j)
twice a p j = grind arith

jitter_bounds : (uniform : ℕ) → (800000 ≤ jitter_of uniform) × (jitter_of uniform ≤ 1200000)
unfolding jitter_of
jitter_bounds uniform =
    let below : uniform % 400001 < 400001 = mod-lt uniform (zero-lt-suc 400000) in
    (omega arith, omega (arith, below))

later_wait :
    (p j k : ℕ)
    → 800000 ≤ j
    → j ≤ 1200000
    → 800000 ≤ k
    → k ≤ 1200000
    → (4 * (p * j) ≤ 3 * (2 * (p * k))) × (2 * (p * k) ≤ 3 * (p * j))
later_wait p j k a b c d =
    let x = mul-le-mul_left p a in
    let y = mul-le-mul_left p b in
    let z = mul-le-mul_left p c in
    let w = mul-le-mul_left p d in (omega (arith, x, y, z, w), omega (arith, x, y, z, w))

next_backoff :
    (epoch base uniform : ℕ)
    → 1 ≤ epoch
    → compute_backoff (epoch + 1) base uniform ≡ 2 * (base * 2 ^ (epoch - 1) * jitter_of uniform)
next_backoff epoch base uniform h =
    backoff_of (epoch + 1) base uniform
    ∙ ap (λ k. base * 2 ^ k * jitter_of uniform) (plus_minus epoch)
    ∙ ap (λ p. base * p * jitter_of uniform) (pow_step epoch h)
    ∙ twice base (2 ^ (epoch - 1)) (jitter_of uniform)

-- Whatever the jitter draws for each of them, from the first attempt on: an attempt waits within a
-- fifth of base * 2^(epoch - 1) seconds, and the next attempt waits at least a third longer than it,
-- and at most three times as long.
pub compute_backoff-grows :
    (epoch base uniform other : ℕ)
    → 1 ≤ epoch
    → (base * 2 ^ (epoch - 1) * 800000 ≤ compute_backoff epoch base uniform)
      × (compute_backoff epoch base uniform ≤ base * 2 ^ (epoch - 1) * 1200000)
      × (4 * compute_backoff epoch base uniform ≤ 3 * compute_backoff (epoch + 1) base other)
      × (compute_backoff (epoch + 1) base other ≤ 3 * compute_backoff epoch base uniform)
compute_backoff-grows epoch base uniform other h =
    let p = base * 2 ^ (epoch - 1) in
    let (a, b) = jitter_bounds uniform in
    let (c, d) = jitter_bounds other in
    rw (backoff_of epoch base uniform, next_backoff epoch base other h)
      (
        mul-le-mul_left p a,
        mul-le-mul_left p b,
        (later_wait p (jitter_of uniform) (jitter_of other) a b c d).0,
        (later_wait p (jitter_of uniform) (jitter_of other) a b c d).1,
      )
