-- ===== src/Smoke/Waiting.antt =====
-- The waits of the smoke test end, and the claim that it carries is one that the stack carried.
use claim_triage_agent.Common.{
  ℕ, zero, suc, ◌+◌, ◌*◌, ◌≤◌, ◌<◌, true, ◌≡◌, ◌≢◌, refl, sym, ap, ◌⊎◌, inl, inr, ◌↔◌, leb, arith,
  Bool-cases,
}
use claim_triage_agent.Contract.{Claim, ClaimStatus, Readiness}
use claim_triage_agent.Triage.Pipeline.{Outcome, returned, raised}
use claim_triage_agent.Triage.Run.{RunResult}
use claim_triage_agent.Smoke.{
  Attempt, came, not_ready, ended, Wait, got, polling, poll, waited, Stack, is_triaged, stored,
  exit_status, main, of_run, of_systems,
}

-- Each wait between two attempts takes the poll interval.
unfoldable pub IsPolled : (ℕ → ℕ) → Type 0
IsPolled clock = (n : ℕ) → clock n + poll ≤ clock (suc n)

first_or_past : (n j : ℕ) → n ≤ j → (n ≡ j) ⊎ (suc n ≤ j)
first_or_past n j low = ground (arith, low)

Attempt-cases :
    {A : Type 0} (t : Attempt A) → ((a : A) × (t ≡ came a)) ⊎ (t ≡ not_ready) ⊎ (t ≡ ended)
Attempt-cases (came a) = inl (a, refl)
Attempt-cases not_ready = inr (inl refl)
Attempt-cases ended = inr (inr refl)

module _ {A : Type 0} (call : ℕ → Attempt A) (clock : ℕ → ℕ) (deadline : ℕ) where
  waited-ends :
      (fuel n : ℕ)
      → IsPolled clock
      → deadline < clock n + poll * fuel
      → waited call clock deadline (suc fuel) n ≢ polling
  unfolding waited IsPolled
  waited-ends zero n polled enough =
      ground (arith, Attempt-cases (call n), Bool-cases (leb deadline (clock n)))
  waited-ends (suc fuel) n polled enough = ground (
    arith,
    Attempt-cases (call n),
    Bool-cases (leb deadline (clock n)),
    waited-ends fuel (suc n) polled (omega (arith, polled n)),
  )

  -- An attempt from the n-th on brings the value, and the waits before it are within the deadline.
  unfoldable pub Arrives : ℕ → A → Type 0
  Arrives n a =
      (k : ℕ) × (n ≤ k)
      × (call k ≡ came a)
      × ((j : ℕ) → n ≤ j → j < k → (call j ≡ not_ready) × (clock j < deadline))

  got-Arrives : (fuel n : ℕ) (a : A) → waited call clock deadline fuel n ≡ got a → Arrives n a
  unfolding waited Arrives
  got-Arrives zero n a h = absurd (ground (arith, h))
  got-Arrives (suc fuel) n a h = elim (Attempt-cases (call n)) [
    | inl (b, now) ↦
        (n, omega arith, ground (arith, h, now), λ j low high. absurd (omega (arith, low, high)))
    | inr (inr end) ↦ absurd (ground (arith, h, end))
    | inr (inl later) ↦ elim (Bool-cases (leb deadline (clock n))) [
      | inl late ↦ absurd (ground (arith, h, later, late))
      | inr early ↦
          let (k, after, brings, before) =
            got-Arrives fuel (suc n) a (ground (arith, h, later, early)) in
          (
            k,
            omega (arith, after),
            brings,
            λ j low high. elim (first_or_past n j low) [
              | inl same ↦ rw (sym same) (later, ground (arith, early))
              | inr past ↦ before j past high
            ],
          )
    ]
  ]

  Arrives-got :
      (fuel n : ℕ) (a : A)
      → waited call clock deadline fuel n ≢ polling
      → Arrives n a
      → waited call clock deadline fuel n ≡ got a
  unfolding waited Arrives
  Arrives-got zero n a h arrives = absurd (h refl)
  Arrives-got (suc fuel) n a h (k, after, brings, before) = elim (first_or_past n k after) [
    | inl same ↦ ground (arith, rw (sym same) at brings)
    | inr past ↦
        let (later, early) = before n (omega arith) past in
        let again =
          Arrives-got fuel (suc n) a (λ e. h (ground (arith, later, early, e)))
            (k, past, brings, λ j low high. before j (omega (arith, low)) high) in
        ground (arith, later, early, again)
  ]

triaged_iff : (status : ClaimStatus) → (is_triaged status ≡ true) ↔ (status ≡ ClaimStatus.triaged)
triaged_iff ClaimStatus.triaged = ground arith
triaged_iff ClaimStatus.received = ground arith

same_triaged :
    (a b : RunResult) → a ≡ b → b.status ≡ ClaimStatus.triaged → is_triaged a.status ≡ true
same_triaged a b e h = rw (ap (λ (x : RunResult). x.status) e, h) refl

same_claim : (a b : Claim) → a ≡ b → b.status ≡ ClaimStatus.triaged → is_triaged a.status ≡ true
same_claim a b e h = rw (ap (λ (x : Claim). x.status) e, h) refl

exit_iff :
    (w : Wait Readiness) (outcome : Outcome RunResult) (v : Wait Claim)
    → (exit_status w outcome v ≡ 0) ↔ (
        ((reply : Readiness) × (w ≡ got reply))
        × ((run : RunResult) × (outcome ≡ returned run) × (run.status ≡ ClaimStatus.triaged))
        × ((claim : Claim) × (v ≡ got claim) × (claim.status ≡ ClaimStatus.triaged)))
unfolding exit_status stored
exit_iff (got reply) (returned run) (got claim) = (
  (λ h. (
    (reply, refl),
    (run, refl, ground (arith, h, triaged_iff run.status)),
    (claim, refl, ground (arith, h, triaged_iff run.status, triaged_iff claim.status)),
  )),
  λ (_, (run', same, a), (claim', same', b)). ground (
    arith,
    same_triaged run run' (ground (arith, same)) a,
    same_claim claim claim' (ground (arith, same')) b,
  ),
)
exit_iff (got reply) (returned run) _ = (
  λ h. absurd (ground (arith, h, Bool-cases (is_triaged run.status))),
  λ k. absurd (ground (arith, k.2.1)),
)
exit_iff (got reply) (raised failure) v =
    (λ h. absurd (ground (arith, h)), λ k. absurd (ground (arith, k.1.1)))
exit_iff _ outcome v = (λ h. absurd (ground (arith, h)), λ k. absurd (ground (arith, k.0.1)))

-- Readiness, the run and the claim, as they have to come for the smoke test to pass.
unfoldable pub Carries : Stack → Type 0
Carries stack =
    ((reply : Readiness) × Arrives (λ n. of_run (stack.readiness n)) stack.first_clock
        stack.deadline 0 reply)
    × ((run : RunResult) × (stack.intake ≡ returned run) × (run.status ≡ ClaimStatus.triaged))
    × ((claim : Claim) × Arrives (λ n. of_systems (stack.read_back n)) stack.second_clock
          stack.deadline 0 claim
        × (claim.status ≡ ClaimStatus.triaged))

-- Given the fuel that the deadline bounds, the smoke test exits with 0 exactly if readiness is
-- answered, the submission comes back as a triaged run, and the claim is read back as triaged, where
-- every attempt before an answer is one that is waited out and within the deadline.
pub smoke_iff :
    (stack : Stack) (fuel : ℕ)
    → IsPolled stack.first_clock
    → IsPolled stack.second_clock
    → stack.deadline < stack.first_clock 0 + poll * fuel
    → stack.deadline < stack.second_clock 0 + poll * fuel
    → (main (suc fuel) stack ≡ 0) ↔ Carries stack
unfolding main Carries
smoke_iff stack fuel first second enough enough' =
    let calls = λ (n : ℕ). of_run (stack.readiness n) in
    let reads = λ (n : ℕ). of_systems (stack.read_back n) in
    let (split, join) =
      exit_iff (waited calls stack.first_clock stack.deadline (suc fuel) 0) stack.intake
        (waited reads stack.second_clock stack.deadline (suc fuel) 0) in
    (
      (λ h.
          let ((reply, came_first), ran, (claim, came_last, triaged_last)) = split h in
          (
            (
              reply,
              got-Arrives calls stack.first_clock stack.deadline (suc fuel) 0 reply came_first,
            ),
            ran,
            (
              claim,
              got-Arrives reads stack.second_clock stack.deadline (suc fuel) 0 claim came_last,
              triaged_last,
            ),
          )),
      λ ((reply, first_arrives), ran, (claim, last_arrives, triaged_last)). join (
        (
          reply,
          Arrives-got calls stack.first_clock stack.deadline (suc fuel) 0 reply
              (waited-ends calls stack.first_clock stack.deadline fuel 0 first enough)
              first_arrives,
        ),
        ran,
        (
          claim,
          Arrives-got reads stack.second_clock stack.deadline (suc fuel) 0 claim
              (waited-ends reads stack.second_clock stack.deadline fuel 0 second enough')
              last_arrives,
          triaged_last,
        ),
      ),
    )
