-- ===== src/Audit/Polling.antt =====
-- `loadActionLog` of core/services/audit.ts: the wait for the turn that submitted the work.
use xevos.Base.{
  ℕ, zero, suc, ◌≡◌, ◌≤◌, ◌<◌, ◌+◌, Bool-cases, true, false, inl, inr, List, [], arith, ℕ_discrete,
}
use xevos.Schema.Memory.{ModelMessage}
use xevos.Audit.Report.{has_submission_turn}
use xevos.Audit.Service.{poll, action_log_poll_attempts}

-- What the loop from attempt `k` on, with `left` attempts, comes to.
pub record Polled (reads : ℕ → List ModelMessage) (k left : ℕ) (out : List ModelMessage × ℕ)
    : Type 0 where
  pub bounded : out.1 ≤ k + left
  -- a turn that is there at some attempt is in what is returned
  pub found :
      (j : ℕ)
      → k ≤ j
      → j < k + left
      → has_submission_turn (reads j) ≡ true
      → has_submission_turn out.0 ≡ true
  -- no attempt is made after one that found it
  pub prompt : (j : ℕ) → k ≤ j → suc j < out.1 → has_submission_turn (reads j) ≡ false
  -- without it, every attempt was made
  pub patient : has_submission_turn out.0 ≡ false → out.1 ≡ k + left

poll-Polled :
    (reads : ℕ → List ModelMessage) (left k : ℕ) (last : List ModelMessage)
    → Polled reads k left (poll reads left k last)
unfolding poll
poll-Polled reads zero k last = record {
  bounded = omega arith;
  found = λ j h i. absurd (omega (arith, h, i));
  prompt = λ j h i. absurd (omega (arith, h, i));
  patient = λ h. omega arith;
}
poll-Polled reads (suc left) k last =
    let p = poll-Polled reads left (suc k) (reads k) in
    elim (Bool-cases (has_submission_turn (reads k))) [
      | inl e ↦
          rw (e, poll)
            (record {
              bounded = omega arith;
              found = λ j h i g. e;
              prompt = λ j h i. absurd (omega (arith, h, i));
              patient = λ h. absurd (cc (h, e));
            })
      | inr e ↦
          rw (e, poll)
            (record {
              bounded = omega (arith, p.bounded);
              found = λ j h i g. ground (arith, h, i, g, e, ℕ_discrete k j, p.found j);
              prompt = λ j h i. ground (arith, h, i, e, ℕ_discrete k j, p.prompt j);
              patient = λ h. omega (arith, p.patient h);
            })
    ]

-- The loop of `loadActionLog` ends after at most six reads. If the submission is in the memory at one of
-- the six attempts, the messages it returns have it, and no read is made after the first that has it;
-- otherwise all six are made.
pub load_action_log_lem :
    (reads : ℕ → List ModelMessage)
    → Polled reads 0 action_log_poll_attempts (poll reads action_log_poll_attempts 0 [])
load_action_log_lem reads = poll-Polled reads action_log_poll_attempts 0 []
