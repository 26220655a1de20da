-- ===== src/Jobs/Backoff.antt =====
-- bridge/jobs.ts: the delay before a job is tried again.
use clean_node_server.Common.{
  inr, sym, subst, inl, ◌⊎◌, ℕ, suc, ◌-◌, ◌*◌, ◌^◌, ◌≤◌, ◌≡◌, arith, min,
}
use clean_node_server.Jobs.{exponential, compute_backoff_delay, max_backoff_ms, exp_shift_cap}

exponent_step :
    (a c : ℕ) → (min (suc a - 1) c ≡ min (a - 1) c) ⊎ (min (suc a - 1) c ≡ suc (min (a - 1) c))
exponent_step a c = ground arith

double : (b n m : ℕ) → (m ≡ n) ⊎ (m ≡ suc n) → b * 2 ^ n ≤ b * 2 ^ m
double b n m (inl e) = subst (λ k. b * 2 ^ n ≤ b * 2 ^ k) (sym e) (omega arith)
double b n m (inr e) = subst (λ k. b * 2 ^ n ≤ b * 2 ^ k) (sym e) (grind arith)

-- The exponential back-off never exceeds a day, and does not shrink from one attempt to the next.
pub exponential-grows :
    (base_ms attempt : ℕ)
    → (compute_backoff_delay exponential base_ms attempt ≤ max_backoff_ms)
      × (compute_backoff_delay exponential base_ms attempt
          ≤ compute_backoff_delay exponential base_ms (suc attempt))
unfolding compute_backoff_delay
exponential-grows base_ms attempt = (
  omega arith,
  omega (
    arith,
    double base_ms (min (attempt - 1) exp_shift_cap) (min (suc attempt - 1) exp_shift_cap)
        (exponent_step attempt exp_shift_cap),
  ),
)
