-- ===== src/Guards/RateLimit/Table.antt =====
-- src/claim_triage/guards/rate_limit.py: lookups and lengths of the table of buckets.
use claim_triage_agent.Common.{
  ◌≡◌, ◌≢◌, refl, inl, inr, ◌≤◌, ℕ, suc, Bool, true, false, String, Option, none, some, List, [],
  ◌∷◌, ◌++◌, ltb, length, length-append, arith, eq_iff, Bool-cases, if◌then◌else◌,
}
use claim_triage_agent.Guards.RateLimit.{
  Bucket, Limiters, find_bucket, without, changed, drop_oldest,
}

module _ {F : Type 0} where
  pub length-changed :
      (caller : String) (bucket : Bucket F) (es : List (String × Bucket F))
      → length (changed caller bucket es) ≡ length es
  unfolding changed
  length-changed caller bucket [] = refl
  length-changed caller bucket (e ∷ es) = ground (arith, length-changed caller bucket es)

  pub length-drop_oldest :
      (keys : ℕ) (es : List (String × Bucket F)) → length (drop_oldest keys es) ≤ keys
  unfolding drop_oldest
  length-drop_oldest keys [] = omega arith
  length-drop_oldest keys (e ∷ es) = ground (arith, length-drop_oldest keys es)

  length-without :
      (caller : String) (es : List (String × Bucket F)) → length (without caller es) ≤ length es
  unfolding without
  length-without caller [] = omega arith
  length-without caller (e ∷ es) = ground (arith, length-without caller es)

  pub without_found :
      (caller : String) (b : Bucket F) (es : List (String × Bucket F))
      → find_bucket caller es ≡ some b
      → suc (length (without caller es)) ≤ length es
  unfolding without find_bucket
  without_found caller b [] found = absurd (ground (arith, found))
  without_found caller b (e ∷ es) found =
      ground (arith, length-without caller es, without_found caller b es)

  drop_within :
      (keys : ℕ) (es : List (String × Bucket F)) → length es ≤ keys → drop_oldest keys es ≡ es
  unfolding drop_oldest
  drop_within keys [] within = refl
  drop_within keys (e ∷ es) within = ground arith

  pub find-changed_other :
      (other caller : String) (b : Bucket F) (es : List (String × Bucket F))
      → other ≢ caller
      → find_bucket other (changed caller b es) ≡ find_bucket other es
  unfolding changed find_bucket
  find-changed_other other caller b [] apart = refl
  find-changed_other other caller b (e ∷ es) apart = ground (
    arith,
    apart,
    eq_iff e.0 caller,
    eq_iff e.0 other,
    eq_iff caller other,
    find-changed_other other caller b es apart,
  )

  pub find-without_other :
      (other caller : String) (es : List (String × Bucket F))
      → other ≢ caller
      → find_bucket other (without caller es) ≡ find_bucket other es
  unfolding without find_bucket
  find-without_other other caller [] apart = refl
  find-without_other other caller (e ∷ es) apart =
      ground (
        arith,
        apart,
        eq_iff e.0 caller,
        eq_iff e.0 other,
        find-without_other other caller es apart,
      )

  pub find-append_other :
      (other caller : String) (b : Bucket F) (es : List (String × Bucket F))
      → other ≢ caller
      → find_bucket other (es ++ (caller, b) ∷ []) ≡ find_bucket other es
  unfolding find_bucket
  find-append_other other caller b [] apart = ground (arith, apart, eq_iff caller other)
  find-append_other other caller b (e ∷ es) apart =
      ground (arith, eq_iff e.0 other, find-append_other other caller b es apart)

  pub find-changed_own :
      (caller : String) (b b' : Bucket F) (es : List (String × Bucket F))
      → find_bucket caller (changed caller b' (es ++ (caller, b) ∷ [])) ≡ some b'
  unfolding changed find_bucket
  find-changed_own caller b b' [] = ground (arith, eq_iff caller caller)
  find-changed_own caller b b' (e ∷ es) =
      ground (arith, eq_iff caller caller, eq_iff e.0 caller, find-changed_own caller b b' es)

  abbrev pub tail : List (String × Bucket F) → List (String × Bucket F)
  tail [] = []
  tail (_ ∷ entries) = entries

  -- What is left of a table once a caller needs a place in it: all, unless it is full and the caller
  -- is new, which costs the entry that was seen least recently.
  abbrev pub after_eviction : String → Limiters F → List (String × Bucket F)
  after_eviction caller l = elim (find_bucket caller l.buckets) [
    | some _ ↦ l.buckets
    | none ↦ if ltb (length l.buckets) l.keys then l.buckets else tail l.buckets
  ]

  abbrev pub is_known : Option (Bucket F) → Bool
  is_known none = false
  is_known (some _) = true

  drop_one :
      (keys : ℕ) (es : List (String × Bucket F)) (e : String × Bucket F)
      → length es ≡ keys
      → drop_oldest keys (e ∷ es) ≡ es
  unfolding drop_oldest
  drop_one keys es e full = ground (arith, drop_within keys es (omega (arith, full)))

  drop_full :
      (keys : ℕ) (x : String × Bucket F) (es : List (String × Bucket F))
      → length es ≤ keys
      → 1 ≤ keys
      → ltb (length es) keys ≡ false
      → drop_oldest keys (es ++ x ∷ []) ≡ (if ltb (length es) keys then es else tail es) ++ x ∷ []
  drop_full keys x [] within some_keys full = absurd (ground (arith, full))
  drop_full keys x (e ∷ es) within some_keys full = ground (
    arith,
    full,
    drop_one keys (es ++ x ∷ []) e (ground (arith, full, within, length-append es (x ∷ []))),
  )

  pub drop-append :
      (keys : ℕ) (x : String × Bucket F) (es : List (String × Bucket F))
      → length es ≤ keys
      → 1 ≤ keys
      → drop_oldest keys (es ++ x ∷ []) ≡ (if ltb (length es) keys then es else tail es) ++ x ∷ []
  drop-append keys x es within some_keys = elim (Bool-cases (ltb (length es) keys)) [
    | inl room ↦ ground (
      arith,
      room,
      drop_within keys (es ++ x ∷ []) (ground (arith, room, length-append es (x ∷ []))),
    )
    | inr full ↦ drop_full keys x es within some_keys full
  ]
