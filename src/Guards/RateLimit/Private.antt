-- ===== src/Guards/RateLimit/Private.antt =====
-- src/claim_triage/guards/rate_limit.py: to each caller the table is a bucket of its own.
use claim_triage_agent.Common.{
  ◌≡◌, ◌≢◌, refl, inl, inr, ◌≤◌, Bool, true, false, String, Option, some, List, [], ◌∷◌, ◌||◌, ltb,
  length, arith, eq_iff, Bool-cases, Option-cases, if◌then◌else◌, ◌==◌, string_equality,
}
use claim_triage_agent.Floats.{Floats}
use claim_triage_agent.Guards.RateLimit.Callers.{
  bucket_of, take_for_own, take_for_other, take_for_within,
}
use claim_triage_agent.Guards.RateLimit.Table.{after_eviction, is_known}
use claim_triage_agent.Guards.RateLimit.{
  RateLimit, Admission, Bucket, Limiters, Readings, take, find_bucket, take_for,
}

module _ {F : Type 0} (floats : Floats F) (limit : RateLimit F) where
  -- What the table answers this caller, over the calls of everybody.
  unfoldable pub answers_to : String → List (String × Readings F) → Limiters F → List (Admission F)
  answers_to caller [] l = []
  answers_to caller (call ∷ calls) l =
      let (answer, l') = take_for floats limit call.0 call.1 l in
      let rest = answers_to caller calls l' in if call.0 == caller then answer ∷ rest else rest

  -- What a bucket that only this caller uses answers to the same calls.
  unfoldable pub alone :
      String → List (String × Readings F) → Option (Bucket F) → List (Admission F)
  alone caller [] held = []
  alone caller (call ∷ calls) held =
      let (answer, bucket) =
        take floats limit call.1.now (bucket_of floats limit call.1.made_at held) in
      let used = alone caller calls (some bucket) in
      let unused = alone caller calls held in if call.0 == caller then answer ∷ used else unused

  -- No call meets a full table without a bucket in it.
  unfoldable pub always_room : List (String × Readings F) → Limiters F → Bool
  always_room [] l = true
  always_room (call ∷ calls) l =
      let later = always_room calls (take_for floats limit call.0 call.1 l).1 in
      if is_known (find_bucket call.0 l.buckets) || ltb (length l.buckets) l.keys
      then later
      else false

  nothing_evicted :
      (caller : String) (l : Limiters F)
      → (is_known (find_bucket caller l.buckets) || ltb (length l.buckets) l.keys) ≡ true
      → after_eviction caller l ≡ l.buckets
  nothing_evicted caller l room = elim (Option-cases (find_bucket caller l.buckets)) [
    | inl new ↦ ground (arith, new, room)
    | inr (b, known) ↦ ground (arith, known)
  ]

  -- A table of at least one key that is within its keys answers every caller as a bucket of the
  -- caller's own would, whatever the other callers do, as long as it has room for each new caller.
  pub private_buckets :
      (caller : String) (calls : List (String × Readings F)) (l : Limiters F)
      → length l.buckets ≤ l.keys
      → 1 ≤ l.keys
      → always_room calls l ≡ true
      → answers_to caller calls l ≡ alone caller calls (find_bucket caller l.buckets)
  unfolding answers_to alone always_room
  private_buckets caller [] l within some_keys room = refl
  private_buckets caller (call ∷ calls) l within some_keys room =
      let l' = (take_for floats limit call.0 call.1 l).1 in
      let kept = take_for_within floats limit call.0 call.1 l within in
      let rest =
        private_buckets caller calls l' (ground (arith, kept)) (ground (arith, kept, some_keys))
          (ground (arith, room)) in
      elim (Bool-cases (call.0 == caller)) [
        | inl own ↦ ground (
          arith,
          own,
          rest,
          eq_iff call.0 caller,
          take_for_own floats limit call.0 call.1 l within some_keys,
        )
        | inr other ↦ ground (
          arith,
          other,
          rest,
          take_for_other floats limit caller call.0 call.1 l
              (λ same. absurd (ground (arith, other, same, eq_iff call.0 caller))) within some_keys,
          nothing_evicted call.0 l (ground (arith, room)),
        )
      ]

  -- Of a table of at least one key that is within its keys, one call leaves every other caller's
  -- bucket as it was, unless the table was full and the call a new caller's: then the bucket seen
  -- least recently is lost, and no other. The table stays within its keys, and the caller is answered
  -- from its own bucket, or from a full one.
  pub take_for_isolated :
      (other caller : String) (at : Readings F) (l : Limiters F)
      → other ≢ caller
      → length l.buckets ≤ l.keys
      → 1 ≤ l.keys
      → (length (take_for floats limit caller at l).1.buckets ≤ l.keys)
        × (find_bucket other (take_for floats limit caller at l).1.buckets
            ≡ find_bucket other (after_eviction caller l))
        × ((take_for floats limit caller at l).0
            ≡ (take floats limit at.now
                (bucket_of floats limit at.made_at (find_bucket caller l.buckets))).0)
  take_for_isolated other caller at l apart within some_keys = (
    (take_for_within floats limit caller at l within).0,
    take_for_other floats limit other caller at l apart within some_keys,
    (take_for_own floats limit caller at l within some_keys).0,
  )
