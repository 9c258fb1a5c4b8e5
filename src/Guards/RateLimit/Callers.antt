-- ===== src/Guards/RateLimit/Callers.antt =====
-- src/claim_triage/guards/rate_limit.py: the table of buckets, over many callers.
use claim_triage_agent.Common.{
  ◌≡◌, ◌≢◌, inl, inr, ◌≤◌, String, Option, none, some, [], ◌∷◌, ◌++◌, length, length-append, arith,
  Option-cases,
}
use claim_triage_agent.Floats.{Floats}
use claim_triage_agent.Guards.RateLimit.Table.{
  after_eviction, length-changed, length-drop_oldest, without_found, find-changed_other,
  find-without_other, find-append_other, find-changed_own, drop-append,
}
use claim_triage_agent.Guards.RateLimit.{
  RateLimit, Bucket, Limiters, Readings, new_bucket, take, find_bucket, without, drop_oldest,
  seated, take_for,
}

module _ {F : Type 0} (floats : Floats F) (limit : RateLimit F) where
  -- The table after a caller was given its place: its bucket is the last.
  seated_new :
      (caller : String) (made_at : F) (l : Limiters F)
      → find_bucket caller l.buckets ≡ none
      → length l.buckets ≤ l.keys
      → 1 ≤ l.keys
      → seated floats limit caller made_at l ≡ (
        new_bucket floats limit made_at,
        after_eviction caller l ++ (caller, new_bucket floats limit made_at) ∷ [],
      )
  unfolding seated
  seated_new caller made_at l new within some_keys = ground (
    arith,
    new,
    drop-append l.keys (caller, new_bucket floats limit made_at) l.buckets within some_keys,
  )

  seated_known :
      (caller : String) (made_at : F) (l : Limiters F) (b : Bucket F)
      → find_bucket caller l.buckets ≡ some b
      → seated floats limit caller made_at l ≡ (b, without caller l.buckets ++ (caller, b) ∷ [])
  unfolding seated
  seated_known caller made_at l b known = ground (arith, known)

  -- The bucket that answers a caller: the one that it has, or a new one.
  abbrev pub bucket_of : F → Option (Bucket F) → Bucket F
  bucket_of made_at none = new_bucket floats limit made_at
  bucket_of made_at (some b) = b

  pub take_for_own :
      (caller : String) (at : Readings F) (l : Limiters F)
      → length l.buckets ≤ l.keys
      → 1 ≤ l.keys
      → ((take_for floats limit caller at l).0
          ≡ (take floats limit at.now (bucket_of at.made_at (find_bucket caller l.buckets))).0)
        × (find_bucket caller (take_for floats limit caller at l).1.buckets
            ≡ some
                (take floats limit at.now (bucket_of at.made_at (find_bucket caller l.buckets))).1)
  unfolding take_for
  take_for_own caller at l within some_keys = elim (Option-cases (find_bucket caller l.buckets)) [
    | inl new ↦
        let b = new_bucket floats limit at.made_at in
        ground (
          arith,
          new,
          seated_new caller at.made_at l new within some_keys,
          find-changed_own caller b (take floats limit at.now b).1 (after_eviction caller l),
        )
    | inr (b, known) ↦ ground (
      arith,
      known,
      seated_known caller at.made_at l b known,
      find-changed_own caller b (take floats limit at.now b).1 (without caller l.buckets),
    )
  ]

  pub take_for_other :
      (other caller : String) (at : Readings F) (l : Limiters F)
      → other ≢ caller
      → length l.buckets ≤ l.keys
      → 1 ≤ l.keys
      → find_bucket other (take_for floats limit caller at l).1.buckets
        ≡ find_bucket other (after_eviction caller l)
  unfolding take_for
  take_for_other other caller at l apart within some_keys =
      elim (Option-cases (find_bucket caller l.buckets)) [
        | inl new ↦
            let b = new_bucket floats limit at.made_at in
            let left = after_eviction caller l in
            ground (
              arith,
              new,
              seated_new caller at.made_at l new within some_keys,
              find-changed_other other caller (take floats limit at.now b).1
                  (left ++ (caller, b) ∷ []) apart,
              find-append_other other caller b left apart,
            )
        | inr (b, known) ↦
            let left = without caller l.buckets in
            ground (
              arith,
              known,
              seated_known caller at.made_at l b known,
              find-changed_other other caller (take floats limit at.now b).1
                  (left ++ (caller, b) ∷ []) apart,
              find-append_other other caller b left apart,
              find-without_other other caller l.buckets apart,
            )
      ]

  -- The table never grows past its keys.
  pub take_for_within :
      (caller : String) (at : Readings F) (l : Limiters F)
      → length l.buckets ≤ l.keys
      → (length (take_for floats limit caller at l).1.buckets ≤ l.keys)
        × ((take_for floats limit caller at l).1.keys ≡ l.keys)
  unfolding take_for seated
  take_for_within caller at l within = elim (Option-cases (find_bucket caller l.buckets)) [
    | inl new ↦
        let b = new_bucket floats limit at.made_at in
        let es = drop_oldest l.keys (l.buckets ++ (caller, b) ∷ []) in
        ground (
          arith,
          new,
          length-drop_oldest l.keys (l.buckets ++ (caller, b) ∷ []),
          length-changed caller (take floats limit at.now b).1 es,
        )
    | inr (b, known) ↦
        let es = without caller l.buckets ++ (caller, b) ∷ [] in
        ground (
          arith,
          known,
          without_found caller b l.buckets known,
          length-append (without caller l.buckets) ((caller, b) ∷ []),
          length-changed caller (take floats limit at.now b).1 es,
        )
  ]
