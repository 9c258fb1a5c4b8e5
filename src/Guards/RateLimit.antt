-- ===== src/Guards/RateLimit.antt =====
-- src/claim_triage/guards/rate_limit.py: the token buckets and their table. A reading of the clock is
-- an argument of the call that makes it.
pub mod Burst
pub mod Table
pub mod Callers
pub mod Private
use claim_triage_agent.Common.{
  ℕ, suc, Bool, true, false, String, Option, none, some, List, [], ◌∷◌, ◌++◌, length, ltb, ◌==◌,
  string_equality, if◌then◌else◌,
}
use claim_triage_agent.Floats.{Floats, smaller, larger}
use claim_triage_agent.Guards.Verdict.{Check, Verdict, burst_left, burst_spent}

pub record RateLimit (F : Type 0) : Type 0 where
  pub burst : ℕ
  pub refill_per_second : F

pub record Admission (F : Type 0) : Type 0 where
  pub verdict : Verdict
  pub wait_seconds : F

pub record Bucket (F : Type 0) : Type 0 where
  pub tokens : F
  pub filled_at : F

-- The buckets of `Limiters`, the caller seen least recently first.
pub record Limiters (F : Type 0) : Type 0 where
  pub keys : ℕ
  pub buckets : List (String × Bucket F)

-- What a call of `Limiters.take` reads of the clock: for a bucket that it makes, and to take.
pub record Readings (F : Type 0) : Type 0 where
  pub made_at : F
  pub now : F

abbrev pub default_keys : ℕ
default_keys = 1024

-- `self._buckets.get(caller)`
unfoldable pub find_bucket : {F : Type 0} → String → List (String × Bucket F) → Option (Bucket F)
find_bucket caller [] = none
find_bucket caller (entry ∷ entries) =
    let rest = find_bucket caller entries in if entry.0 == caller then some entry.1 else rest

-- The entries other than this caller's.
unfoldable pub without : {F : Type 0} → String → List (String × Bucket F) → List (String × Bucket F)
without caller [] = []
without caller (entry ∷ entries) =
    let rest = without caller entries in if entry.0 == caller then rest else entry ∷ rest

-- The same table after the bucket that it shares with its caller has changed.
unfoldable pub changed :
    {F : Type 0} → String → Bucket F → List (String × Bucket F) → List (String × Bucket F)
changed caller bucket [] = []
changed caller bucket (entry ∷ entries) =
    let rest = changed caller bucket entries in
    if entry.0 == caller then (caller, bucket) ∷ rest else entry ∷ rest

-- `while len(self._buckets) > self._keys: self._buckets.popitem(last=False)`
unfoldable pub drop_oldest : {F : Type 0} → ℕ → List (String × Bucket F) → List (String × Bucket F)
drop_oldest keys [] = []
drop_oldest keys (entry ∷ entries) =
    let rest = drop_oldest keys entries in
    if ltb keys (suc (length entries)) then rest else entry ∷ entries

module _ {F : Type 0} (floats : Floats F) (limit : RateLimit F) where
  open floats use {of, le, add, sub, mul, quotient, whole, hundredths}

  abbrev pub one_token : F
  one_token = of 1

  -- `Bucket(limit)`
  unfoldable pub new_bucket : F → Bucket F
  new_bucket made_at = record { tokens = of limit.burst; filled_at = made_at }

  -- The tokens once the time since the last look is refilled.
  unfoldable pub refilled : F → Bucket F → F
  refilled now bucket =
      let elapsed = larger floats (sub now bucket.filled_at) (of 0) in
      smaller floats (of limit.burst) (add bucket.tokens (mul elapsed limit.refill_per_second))

  unfoldable pub admitted : F → Admission F
  admitted left = record {
    verdict = record {
      check = Check.rate_limit;
      passed = true;
      detail = burst_left (whole left) limit.burst;
    };
    wait_seconds = of 0;
  }

  unfoldable pub held_back : F → Admission F
  held_back tokens =
      let wait = quotient (sub one_token tokens) limit.refill_per_second in
      record {
        verdict = record {
          check = Check.rate_limit;
          passed = false;
          detail = burst_spent limit.burst (hundredths wait);
        };
        wait_seconds = wait;
      }

  -- `Bucket.take`
  unfoldable pub take : F → Bucket F → Admission F × Bucket F
  unfolding refilled admitted held_back
  take now bucket =
      let tokens = refilled now bucket in
      if le one_token tokens
      then (
        admitted (sub tokens one_token),
        record { tokens = sub tokens one_token; filled_at = now },
      )
      else (held_back tokens, record { tokens = tokens; filled_at = now })

  -- The table once this caller has its bucket in it, and the bucket.
  unfoldable pub seated : String → F → Limiters F → Bucket F × List (String × Bucket F)
  unfolding find_bucket without drop_oldest new_bucket
  seated caller made_at l = elim (find_bucket caller l.buckets) [
    | none ↦
        (new_bucket made_at, drop_oldest l.keys (l.buckets ++ (caller, new_bucket made_at) ∷ []))
    | some bucket ↦ (bucket, without caller l.buckets ++ (caller, bucket) ∷ [])
  ]

  -- `Limiters.take`
  unfoldable pub take_for : String → Readings F → Limiters F → Admission F × Limiters F
  unfolding seated take changed
  take_for caller at l =
      let (bucket, entries) = seated caller at.made_at l in
      let (answer, bucket') = take at.now bucket in
      (answer, record { keys = l.keys; buckets = changed caller bucket' entries })
