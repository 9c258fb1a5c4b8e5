-- ===== src/Guards/Ingress/Order.antt =====
-- src/claim_triage/guards/ingress.py: the order in which a document is asked, and where it stops.
use claim_triage_agent.Common.{
  ℕ, ◌≡◌, refl, ◌⊎◌, inl, inr, true, String, List, [], ◌∷◌, ◌++◌, arith, all, Bool-cases,
  append-nil, ◌==◌, string_equality,
}
use claim_triage_agent.Floats.{Floats}
use claim_triage_agent.Guards.Verdict.{
  Check, Verdict, readable_pdf, readable_archive, holds_encrypted,
}
use claim_triage_agent.Guards.Ingress.{
  Upload, IngressLimits, Pdf, ZipEntry, passed, refused, expansion_step, Decoders, Decoded, decoded,
  unreadable, size_step, media_type_step, pages_step, opened_pdf_step, opened_zip_step, pdf_step,
  archive_step, Step, run_steps, screened, or_no_checks, encrypted_entries, pdf_type, zip_type,
}

-- There is a verdict, and every one before the last passed.
abbrev pub EndsAtRefusal : List Verdict → Type 0
EndsAtRefusal [] = ⊥
EndsAtRefusal (v ∷ []) = Unit
EndsAtRefusal (v ∷ w ∷ vs) = (v.passed ≡ true) × EndsAtRefusal (w ∷ vs)

EndsAtRefusal-append :
    (vs ws : List Verdict)
    → all (λ v. v.passed) vs ≡ true
    → EndsAtRefusal ws
    → EndsAtRefusal (vs ++ ws)
EndsAtRefusal-append [] ws h e = e
EndsAtRefusal-append (v ∷ []) [] h e = absurd e
EndsAtRefusal-append (v ∷ []) (w ∷ ws) h e = (ground arith, e)
EndsAtRefusal-append (v ∷ u ∷ vs) ws h e =
    (ground arith, EndsAtRefusal-append (u ∷ vs) ws (ground arith) e)

module _ {F : Type 0} (floats : Floats F) where
  size_step-ends :
      (u : Upload) (limits : IngressLimits F) → EndsAtRefusal (size_step floats u limits)
  unfolding size_step
  size_step-ends u limits = ground arith

  media_type_step-ends :
      (u : Upload) (limits : IngressLimits F) → EndsAtRefusal (media_type_step floats u limits)
  unfolding media_type_step
  media_type_step-ends u limits = ground arith

  pages_step-ends :
      (pages : Decoded ℕ) (limits : IngressLimits F)
      → EndsAtRefusal (pages_step floats pages limits)
  unfolding pages_step
  pages_step-ends (unreadable why) limits = tt
  pages_step-ends (decoded n) limits = ground arith

  opened_pdf_step-ends :
      (pdf : Decoded Pdf) (limits : IngressLimits F)
      → EndsAtRefusal (opened_pdf_step floats pdf limits)
  opened_pdf_step-ends (unreadable why) limits = unfold opened_pdf_step in tt
  opened_pdf_step-ends (decoded pdf) limits =
      unfold opened_pdf_step in
      EndsAtRefusal-append (passed Check.structure readable_pdf ∷ []) _ refl
        (elim (Bool-cases pdf.is_encrypted) [
          | inl encrypted ↦ rw encrypted tt
          | inr plain ↦ rw plain (pages_step-ends pdf.pages limits)
        ])

  opened_zip_step-ends :
      (zip : Decoded (List ZipEntry)) (u : Upload) (limits : IngressLimits F)
      → EndsAtRefusal (opened_zip_step floats zip u limits)
  unfolding opened_zip_step
  opened_zip_step-ends (unreadable why) u limits = tt
  opened_zip_step-ends (decoded entries) u limits =
      EndsAtRefusal-append (passed Check.structure readable_archive ∷ []) _ refl
        (holds (encrypted_entries entries))
    where
      holds :
          (names : List String)
          → EndsAtRefusal (elim names [
            | first ∷ _ ↦ refused Check.encryption (holds_encrypted first) ∷ []
            | [] ↦ expansion_step floats u entries limits
          ])
      holds (first ∷ _) = tt
      holds [] = (refl, tt)

  module _ (decoders : Decoders) where
    -- Every step of a list ends at its refusal.
    abbrev AllEnd : List (Step floats decoders) → Type 0
    AllEnd [] = Unit
    AllEnd (step ∷ steps) =
        ((u : Upload) (limits : IngressLimits F) → EndsAtRefusal (step u limits)) × AllEnd steps

    run_steps-ends :
        (step : Step floats decoders) (steps : List (Step floats decoders))
        → AllEnd (step ∷ steps)
        → (u : Upload) (limits : IngressLimits F)
        → EndsAtRefusal (run_steps floats decoders (step ∷ steps) u limits)
    unfolding run_steps
    run_steps-ends step [] h u limits = elim (Bool-cases (all (λ v. v.passed) (step u limits))) [
      | inl every ↦ rw (every, append-nil) (h.0 u limits)
      | inr stops ↦ rw stops (h.0 u limits)
    ]
    run_steps-ends step (next ∷ steps) h u limits =
        elim (Bool-cases (all (λ v. v.passed) (step u limits))) [
          | inl every ↦
              rw every (EndsAtRefusal-append _ _ every (run_steps-ends next steps h.1 u limits))
          | inr stops ↦ rw stops (h.0 u limits)
        ]

    or_no_checks-ends :
        (u : Upload) (limits : IngressLimits F) (vs : List Verdict)
        → (vs ≡ []) ⊎ EndsAtRefusal vs
        → EndsAtRefusal (or_no_checks floats u limits vs)
    unfolding or_no_checks
    or_no_checks-ends u limits [] h = tt
    or_no_checks-ends u limits (v ∷ vs) (inl empty) = absurd (ground arith)
    or_no_checks-ends u limits (v ∷ vs) (inr h) = h

    pub pdf_step-ends :
        (u : Upload) (limits : IngressLimits F) → EndsAtRefusal (pdf_step floats decoders u limits)
    unfolding pdf_step
    pdf_step-ends u limits = opened_pdf_step-ends (decoders.open_pdf u.content) limits

    pub archive_step-ends :
        (u : Upload) (limits : IngressLimits F)
        → EndsAtRefusal (archive_step floats decoders u limits)
    unfolding archive_step
    archive_step-ends u limits = opened_zip_step-ends (decoders.open_zip u.content) u limits

    pub size_media_ends :
        (last : Step floats decoders)
        → ((u : Upload) (limits : IngressLimits F) → EndsAtRefusal (last u limits))
        → (u : Upload) (limits : IngressLimits F)
        → EndsAtRefusal (
            run_steps floats decoders
              (size_step floats ∷ media_type_step floats ∷ last ∷ [])
              u
              limits)
    size_media_ends last h u limits =
        run_steps-ends (size_step floats) (media_type_step floats ∷ last ∷ [])
          (size_step-ends, (media_type_step-ends, (h, tt))) u limits

    -- Every document is answered by at least one verdict, and a refusal is the last of them.
    pub screened-EndsAtRefusal :
        (u : Upload) (limits : IngressLimits F)
        → EndsAtRefusal (screened floats decoders u limits).verdicts
    unfolding screened
    screened-EndsAtRefusal u limits =
        or_no_checks-ends u limits _ (elim (Bool-cases (u.media_type == pdf_type)) [
          | inl pdf ↦
              rw pdf (inr (size_media_ends (pdf_step floats decoders) pdf_step-ends u limits))
          | inr other ↦ elim (Bool-cases (u.media_type == zip_type)) [
            | inl zip ↦
                rw (other, zip)
                  (inr (size_media_ends (archive_step floats decoders) archive_step-ends u limits))
            | inr unknown ↦ rw (other, unknown) (inl refl)
          ]
        ])
