-- ===== src/Guards/Ingress/Bounded.antt =====
-- src/claim_triage/guards/ingress.py: what a hostile upload costs: how much of it is read, and which
-- documents no decoder sees.
use claim_triage_agent.Common.{
  ℕ, zero, suc, ◌+◌, ◌<◌, ◌≤◌, ◌≡◌, refl, ap, ◌⊎◌, ◌↔◌, inl, inr, false, List, [], ◌∷◌, arith,
  length, Bool-cases, ◌==◌, string_equality, min,
}
use claim_triage_agent.Floats.{Floats}
use claim_triage_agent.Guards.Ingress.{
  Upload, IngressLimits, Decoders, Step, size_step, media_type_step, pdf_step, archive_step,
  steps_for, run_steps, screened, contains, or_no_checks, pdf_type, zip_type, read_bounded,
  read_at_most,
}

length-read_at_most :
    (n : ℕ) (stream : List ℕ) → length (read_at_most n stream) ≡ min n (length stream)
unfolding read_at_most
length-read_at_most zero stream = omega arith
length-read_at_most (suc n) [] = omega arith
length-read_at_most (suc n) (b ∷ stream) = omega (arith, length-read_at_most n stream)

read_at_most_whole : (n : ℕ) (stream : List ℕ) → length stream ≤ n → read_at_most n stream ≡ stream
unfolding read_at_most
read_at_most_whole zero [] h = refl
read_at_most_whole zero (b ∷ stream) h = absurd (omega arith)
read_at_most_whole (suc n) [] h = refl
read_at_most_whole (suc n) (b ∷ stream) h =
    ap (λ r. b ∷ r) (read_at_most_whole n stream (omega arith))

-- At most one byte past the ceiling is read; it is read exactly if the upload is past the ceiling,
-- and an upload within the ceiling is read whole.
pub read_bounded_exact :
    (stream : List ℕ) (max_bytes : ℕ)
    → (length (read_bounded stream max_bytes) ≤ max_bytes + 1)
      × ((max_bytes < length (read_bounded stream max_bytes)) ↔ (max_bytes < length stream))
      × (length stream ≤ max_bytes → read_bounded stream max_bytes ≡ stream)
unfolding read_bounded
read_bounded_exact stream max_bytes = (
  omega (arith, length-read_at_most (suc max_bytes) stream),
  (
    (λ h. omega (arith, length-read_at_most (suc max_bytes) stream)),
    λ h. omega (arith, length-read_at_most (suc max_bytes) stream),
  ),
  λ h. read_at_most_whole (suc max_bytes) stream (omega arith),
)

module _ {F : Type 0} (floats : Floats F) where
  -- Two lists of checks that differ in the last, on a document that an earlier one refuses.
  same_run :
      (d e : Decoders) (last : Step floats d) (last' : Step floats e) (u : Upload)
      (limits : IngressLimits F)
      → (limits.max_bytes < length u.content) ⊎ (contains limits.media_types u.media_type ≡ false)
      → run_steps floats d (size_step floats ∷ media_type_step floats ∷ last ∷ []) u limits
        ≡ run_steps floats e (size_step floats ∷ media_type_step floats ∷ last' ∷ []) u limits
  unfolding run_steps size_step media_type_step
  same_run d e last last' u limits early = ground arith

  same_steps :
      (d e : Decoders) (u : Upload) (limits : IngressLimits F)
      → (limits.max_bytes < length u.content) ⊎ (contains limits.media_types u.media_type ≡ false)
      → run_steps floats d (steps_for floats d u.media_type) u limits
        ≡ run_steps floats e (steps_for floats e u.media_type) u limits
  unfolding steps_for
  same_steps d e u limits early = elim (Bool-cases (u.media_type == pdf_type)) [
    | inl pdf ↦ rw pdf (same_run d e (pdf_step floats d) (pdf_step floats e) u limits early)
    | inr other ↦ elim (Bool-cases (u.media_type == zip_type)) [
      | inl zip ↦
          rw (other, zip)
            (same_run d e (archive_step floats d) (archive_step floats e) u limits early)
      | inr unknown ↦ rw (other, unknown) (unfold run_steps in refl)
    ]
  ]

  -- A document that is over the ceiling, or of a type that is not allowed here, gets the same verdicts
  -- whatever the decoders would make of it.
  pub undecoded :
      (d e : Decoders) (u : Upload) (limits : IngressLimits F)
      → (limits.max_bytes < length u.content) ⊎ (contains limits.media_types u.media_type ≡ false)
      → screened floats d u limits ≡ screened floats e u limits
  unfolding screened
  undecoded d e u limits early =
      ap
        (λ found. record {
          filename = u.filename;
          media_type = u.media_type;
          verdicts = or_no_checks floats u limits found;
        })
        (same_steps d e u limits early)
