-- ===== src/Smoke.antt =====
-- src/claim_triage/smoke.py: one claim carried through a running stack. A call answers by its number,
-- and the clock is read after the attempt of that number, in milliseconds.
pub mod Waiting
mod Tests
use claim_triage_agent.Common.{
  ℕ, zero, suc, ◌+◌, ◌*◌, ◌≤◌, ◌<◌, Bool, true, false, ◌≡◌, ◌≢◌, refl, ◌⊎◌, inl, inr, ◌↔◌, leb,
  arith, Bool-cases, if◌then◌else◌,
}
use claim_triage_agent.Boundary.{unavailable, refused, defect}
use claim_triage_agent.Contract.{Claim, ClaimStatus, Readiness, ErrorCode}
use claim_triage_agent.Contract.Client.{Called, answered, refusal, unreachable, unexpected}
use claim_triage_agent.Triage.Pipeline.{Outcome, returned, raised}
use claim_triage_agent.Triage.Run.{RunResult}

-- What `_waited` sees of one call: its value, an exception that is waited out, or one that is not.
pub data Attempt (A : Type 0) : Type 0 where
  came : A → Attempt A
  not_ready : Attempt A
  ended : Attempt A

-- `RunClient` is waited out where it raises Unavailable.
unfoldable pub of_run : {A : Type 0} → Outcome A → Attempt A
of_run (returned a) = came a
of_run (raised (unavailable detail)) = not_ready
of_run (raised (refused status error)) = ended
of_run (raised defect) = ended

-- `CoreSimClient` where it raises CoreSimUnreachable or ServiceUnavailableError.
unfoldable pub of_systems : {A : Type 0} → Called A → Attempt A
of_systems (answered a) = came a
of_systems (refusal status error) = elim error.code [
  | ErrorCode.service_unavailable ↦ not_ready
  | _ ↦ ended
]
of_systems (unreachable detail) = not_ready
of_systems unexpected = ended

-- How a wait ends: with the value, SmokeFailed at the deadline, or the call's own exception; `polling`
-- is the loop where its fuel ends.
pub data Wait (A : Type 0) : Type 0 where
  got : A → Wait A
  out_of_time : Wait A
  failed_call : Wait A
  polling : Wait A

-- `POLL_SECONDS`
abbrev pub poll : ℕ
poll = 250

module _ {A : Type 0} (call : ℕ → Attempt A) (clock : ℕ → ℕ) (deadline : ℕ) where
  -- The loop of `_waited`, from an attempt on.
  unfoldable pub waited : ℕ → ℕ → Wait A
  waited zero n = polling
  waited (suc fuel) n = elim (call n) [
    | came a ↦ got a
    | ended ↦ failed_call
    | not_ready ↦ elim (leb deadline (clock n)) [ true ↦ out_of_time | false ↦ waited fuel (suc n) ]
  ]

-- One run of the smoke test: what each call answers, and the clock of each wait.
pub record Stack : Type 0 where
  pub readiness : ℕ → Outcome Readiness
  pub intake : Outcome RunResult
  pub read_back : ℕ → Called Claim
  pub first_clock : ℕ → ℕ
  pub second_clock : ℕ → ℕ
  pub deadline : ℕ

abbrev pub is_triaged : ClaimStatus → Bool
is_triaged ClaimStatus.triaged = true
is_triaged ClaimStatus.received = false

-- `_expect_stored`, and the exit status.
unfoldable pub stored : Wait Claim → ℕ
stored (got claim) = if is_triaged claim.status then 0 else 1
stored _ = 1

-- What `main` makes of readiness, the run and the read-back: each is looked at only where what comes
-- before it came through. Every failure is one that `main` catches.
unfoldable pub exit_status : Wait Readiness → Outcome RunResult → Wait Claim → ℕ
unfolding stored
exit_status (got reply) (returned run) claim = if is_triaged run.status then stored claim else 1
exit_status _ _ _ = 1

-- `main`, where each wait is given `fuel`.
unfoldable pub main : ℕ → Stack → ℕ
unfolding waited of_run of_systems exit_status
main fuel stack =
    exit_status (waited (λ n. of_run (stack.readiness n)) stack.first_clock stack.deadline fuel 0)
      stack.intake
      (waited (λ n. of_systems (stack.read_back n)) stack.second_clock stack.deadline fuel 0)
