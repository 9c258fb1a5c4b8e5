-- ===== src/Api/Middleware.antt =====
-- src/claim_triage/api/surface.py: what the middleware lets pass, and the statuses of a refusal.
use claim_triage_agent.Common.{
  ◌≡◌, refl, ◌⊎◌, inl, inr, ℕ, max, Bool, true, false, String, Option, none, some, arith,
  Bool-cases, Option-cases, ◌||◌, ◌&&◌, ◌==◌, nat_equality, string_equality,
}
use claim_triage_agent.Floats.{Floats}
use claim_triage_agent.Guards.Ingress.{IngressLimits, Decoded, decoded, unreadable, declared_size}
use claim_triage_agent.Guards.RateLimit.{RateLimit, Limiters, Readings, take_for}
use claim_triage_agent.Guards.Verdict.{Check, Detail, Verdict}
use claim_triage_agent.Api.{
  Digits, Request, Reply, answered, failed, refusals, caller_of, refused_by, declared_length,
  middleware, claims_path,
}

abbrev pub is_submission : Request → Bool
is_submission request = request.method == "POST" && request.path == claims_path

-- The statuses of a refusal at the entry point.
abbrev pub is_refusal : Reply → Bool
is_refusal (answered response _) =
    response.status_code == 413
    || response.status_code == 415
    || response.status_code == 422
    || response.status_code == 429
is_refusal _ = false

pub Decoded-cases :
    {A : Type 0} (d : Decoded A)
    → ((a : A) × (d ≡ decoded a)) ⊎ ((why : String) × (d ≡ unreadable why))
Decoded-cases (decoded a) = inl (a, refl)
Decoded-cases (unreadable why) = inr (why, refl)

pub refused_by-is_refusal :
    (worded : Detail → String) (filename : Option String) (verdict : Verdict) (wait : Option ℕ)
    → is_refusal (answered (refused_by worded filename verdict) wait) ≡ true
unfolding refused_by refusals
refused_by-is_refusal worded filename verdict wait =
    elim verdict.check
      as (λ c.
        is_refusal (answered (refused_by worded filename (record verdict { check = c })) wait)
        ≡ true) [
          | Check.size ↦ refl
          | Check.media_type ↦ refl
          | Check.structure ↦ refl
          | Check.encryption ↦ refl
          | Check.archive ↦ refl
          | Check.page_count ↦ refl
          | Check.rate_limit ↦ refl
        ]

module _ {F : Type 0} (floats : Floats F) (limit : RateLimit F) (limits : IngressLimits F)
    (digits : String → Digits) (worded : Detail → String) where
  -- The declared length is one, and within the ceiling.
  abbrev pub is_within : Option (Option ℕ) → Bool
  is_within none = false
  is_within (some length) = (declared_size floats length limits).passed

  -- The caller has a token, and the declared length is within the ceiling.
  abbrev pub LetsPass : Request → Readings F → Limiters F → Type 0
  LetsPass request at submitters =
      ((take_for floats limit (caller_of request.client) at submitters).0.verdict.passed ≡ true)
      × (is_within (declared_length digits request.content_length) ≡ true)

  pub middleware_cases :
      (request : Request) (at : Readings F) (submitters : Limiters F)
      → is_submission request ≡ true
      → ((middleware floats limit limits digits worded request at submitters).0 ≡ none)
          × LetsPass request at submitters
        ⊎ (((middleware floats limit limits digits worded request at submitters).0 ≡ some failed)
            × (declared_length digits request.content_length ≡ none))
        ⊎ (reply : Reply) × ((middleware floats limit limits digits worded request at submitters).0
            ≡ some reply)
          × (is_refusal reply ≡ true)
  unfolding middleware
  middleware_cases request at submitters here =
      let admission = (take_for floats limit (caller_of request.client) at submitters).0 in
      elim (Bool-cases admission.verdict.passed) [
        | inr spent ↦ inr (
            inr (
              answered (refused_by worded none admission.verdict)
                  (some (max (floats.ceiling admission.wait_seconds) 1)),
              ground (arith, here, spent),
              refused_by-is_refusal worded none admission.verdict
                  (some (max (floats.ceiling admission.wait_seconds) 1)),
            ))
        | inl held ↦ elim (Option-cases (declared_length digits request.content_length)) [
          | inl raises ↦ inr (inl (ground (arith, here, held, raises), raises))
          | inr (length, reads) ↦ elim (Bool-cases (declared_size floats length limits).passed) [
            | inr past ↦ inr (
                inr (
                  answered (refused_by worded none (declared_size floats length limits)) none,
                  ground (arith, here, held, reads, past),
                  refused_by-is_refusal worded none (declared_size floats length limits) none,
                ))
            | inl within ↦
                inl
                  (ground (arith, here, held, reads, within), (held, ground (arith, reads, within)))
          ]
        ]
      ]
