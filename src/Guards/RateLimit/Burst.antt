-- ===== src/Guards/RateLimit/Burst.antt =====
-- src/claim_triage/guards/rate_limit.py: what one bucket admits. What is asked of the arithmetic holds
-- of doubles at a clock reading and a rate that are finite: they count exactly up to 2^53.
use claim_triage_agent.Common.{
  ◌≡◌, refl, ◌≤◌, ℕ, zero, suc, Bool, true, false, List, [], ◌∷◌, leb, ltb, arith,
}
use claim_triage_agent.Floats.{Floats}
use claim_triage_agent.Guards.RateLimit.{
  RateLimit, Bucket, new_bucket, refilled, admitted, held_back, take,
}

-- The arithmetic is exact on the whole numbers up to this one, and a refill of this rate over no time,
-- by a clock that stands at `now`, is none.
abbrev pub CountsTo : {F : Type 0} → Floats F → ℕ → F → F → Type 0
CountsTo floats most rate now =
    ((m n : ℕ) → m ≤ most → n ≤ most → floats.lt (floats.of m) (floats.of n) ≡ ltb m n)
    × ((m n : ℕ) → m ≤ most → n ≤ most → floats.le (floats.of m) (floats.of n) ≡ leb m n)
    × ((n : ℕ) → suc n ≤ most → floats.sub (floats.of (suc n)) (floats.of 1) ≡ floats.of n)
    × (floats.sub now now ≡ floats.of 0)
    × ((n : ℕ) → n ≤ most → floats.add (floats.of n) (floats.mul (floats.of 0) rate) ≡ floats.of n)

-- What so many tokens answer to so many calls: an admission for each token.
abbrev pub spent : ℕ → ℕ → List Bool
spent zero tokens = []
spent (suc calls) zero = false ∷ spent calls zero
spent (suc calls) (suc tokens) = true ∷ spent calls tokens

module _ {F : Type 0} (floats : Floats F) (limit : RateLimit F) where
  -- The answers to so many calls at one instant.
  unfoldable pub answers : ℕ → F → Bucket F → List Bool
  answers zero now bucket = []
  answers (suc calls) now bucket =
      let (answer, bucket') = take floats limit now bucket in
      answer.verdict.passed ∷ answers calls now bucket'

  module _ (most : ℕ) (now : F) (counts : CountsTo floats most limit.refill_per_second now)
      (small : limit.burst ≤ most) (one : 1 ≤ most) where
    refilled_still :
        (n : ℕ)
        → n ≤ limit.burst
        → refilled floats limit now (record { tokens = floats.of n; filled_at = now }) ≡ floats.of n
    unfolding refilled
    refilled_still n within =
        let (lt_of, le_of, sub_one, sub_self, refill_none) = counts in
        ground (
          arith,
          sub_self,
          lt_of 0 0 (omega arith) (omega arith),
          refill_none n (omega (arith, within, small)),
          lt_of n limit.burst (omega (arith, within, small)) small,
        )

    take_none :
        take floats limit now (record { tokens = floats.of 0; filled_at = now })
        ≡ (held_back floats limit (floats.of 0), record { tokens = floats.of 0; filled_at = now })
    unfolding take
    take_none =
        let (lt_of, le_of, sub_one, sub_self, refill_none) = counts in
        ground (arith, refilled_still 0 (omega arith), le_of 1 0 one (omega arith))

    take_one :
        (n : ℕ)
        → suc n ≤ limit.burst
        → take floats limit now (record { tokens = floats.of (suc n); filled_at = now })
          ≡ (admitted floats limit (floats.of n), record { tokens = floats.of n; filled_at = now })
    unfolding take
    take_one n within =
        let (lt_of, le_of, sub_one, sub_self, refill_none) = counts in
        ground (
          arith,
          refilled_still (suc n) within,
          le_of 1 (suc n) one (omega (arith, within, small)),
          sub_one n (omega (arith, within, small)),
        )

    answers_still :
        (calls : ℕ) (n : ℕ)
        → n ≤ limit.burst
        → answers calls now (record { tokens = floats.of n; filled_at = now }) ≡ spent calls n
    unfolding answers held_back admitted
    answers_still zero n within = refl
    answers_still (suc calls) zero within = ground (arith, take_none, answers_still calls 0 within)
    answers_still (suc calls) (suc n) within =
        ground (arith, take_one n within, answers_still calls n (omega (arith, within)))

    -- While its clock stands still, a new bucket admits its burst and then nothing, where the
    -- arithmetic is exact up to a number that is at least one and at least the burst, and where a
    -- refill over no time, at this limit's rate and this reading of the clock, adds nothing.
    pub burst_exact :
        (calls : ℕ) → answers calls now (new_bucket floats limit now) ≡ spent calls limit.burst
    unfolding new_bucket
    burst_exact calls = answers_still calls limit.burst (omega arith)
