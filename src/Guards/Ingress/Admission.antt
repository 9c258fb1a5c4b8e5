-- ===== src/Guards/Ingress/Admission.antt =====
-- src/claim_triage/guards/ingress.py: exactly which documents are let in, and which are never decoded.
use claim_triage_agent.Common.{
  ℕ, ◌≤◌, ◌≡◌, refl, ◌⊎◌, ◌↔◌, inl, inr, true, false, none, List, [], ◌∷◌, ◌++◌, arith, all, length,
  Bool-cases, All, ◌==◌, string_equality, eq_iff, eq_sound, eq_of_ne, ◌≢◌, sym, ◌∙◌, max,
}
use claim_triage_agent.Floats.{Floats}
use claim_triage_agent.Guards.Verdict.{Verdict, DocumentVerdicts}
use claim_triage_agent.Guards.Ingress.Order.{
  EndsAtRefusal, size_media_ends, pdf_step-ends, archive_step-ends,
}
use claim_triage_agent.Guards.Ingress.{
  Upload, IngressLimits, Decoders, Decoded, decoded, unreadable, Pdf, ZipEntry, encrypted_name,
  expanded_size, size_step, media_type_step, pages_step, opened_pdf_step, opened_zip_step, pdf_step,
  archive_step, Step, steps_for, run_steps, screened, screen, first_failed, first_refusal, contains,
  or_no_checks, encrypted_entries, pdf_type, zip_type,
}

-- A page tree that can be counted, holds a page and is within the ceiling.
abbrev pub PagesFit : ℕ → Decoded ℕ → Type 0
PagesFit max_pages (unreadable why) = ⊥
PagesFit max_pages (decoded pages) = (1 ≤ pages) × (pages ≤ max_pages)

abbrev pub PdfFits : ℕ → Decoded Pdf → Type 0
PdfFits max_pages (unreadable why) = ⊥
PdfFits max_pages (decoded pdf) = (pdf.is_encrypted ≡ false) × PagesFit max_pages pdf.pages

pdf_ne_zip : pdf_type ≢ zip_type
pdf_ne_zip e = ground (arith, eq_iff pdf_type zip_type)

first_failed-all : (vs : List Verdict) → (first_failed vs ≡ none) ↔ (all (λ v. v.passed) vs ≡ true)
unfolding first_failed
first_failed-all [] = (λ _. refl, λ _. refl)
first_failed-all (v ∷ vs) = ground (arith, first_failed-all vs)

first_failed-append :
    (vs ws : List Verdict)
    → all (λ v. v.passed) vs ≡ true
    → first_failed (vs ++ ws) ≡ first_failed ws
unfolding first_failed
first_failed-append [] ws h = refl
first_failed-append (v ∷ vs) ws h = ground (arith, first_failed-append vs ws)

first_refusal-cons :
    (d : DocumentVerdicts) (ds : List DocumentVerdicts)
    → (first_refusal (d ∷ ds) ≡ none)
      ↔ ((first_failed d.verdicts ≡ none) × (first_refusal ds ≡ none))
unfolding first_refusal
first_refusal-cons d ds = ground arith

module _ {F : Type 0} (floats : Floats F) where
  abbrev pub ArchiveFits : IngressLimits F → Upload → Decoded (List ZipEntry) → Type 0
  ArchiveFits limits u (unreadable why) = ⊥
  ArchiveFits limits u (decoded entries) =
      All (λ e. encrypted_name e ≡ false) entries
      × (floats.lt limits.max_expansion_ratio
            (floats.div (expanded_size entries) (max (length u.content) 1))
          ≡ false)

  -- What a document has to be, said without the order in which it is asked.
  abbrev pub IsAdmissible : Decoders → IngressLimits F → Upload → Type 0
  IsAdmissible decoders limits u =
      (length u.content ≤ limits.max_bytes)
      × (contains limits.media_types u.media_type ≡ true)
      × ((u.media_type ≡ pdf_type) × PdfFits limits.max_pages (decoders.open_pdf u.content)
          ⊎ (u.media_type ≡ zip_type) × ArchiveFits limits u (decoders.open_zip u.content))

  pages_step_iff :
      (pages : Decoded ℕ) (limits : IngressLimits F)
      → (first_failed (pages_step floats pages limits) ≡ none) ↔ PagesFit limits.max_pages pages
  unfolding pages_step first_failed
  pages_step_iff (unreadable why) limits = ground arith
  pages_step_iff (decoded n) limits = ground arith

  opened_pdf_step_iff :
      (pdf : Decoded Pdf) (limits : IngressLimits F)
      → (first_failed (opened_pdf_step floats pdf limits) ≡ none) ↔ PdfFits limits.max_pages pdf
  unfolding opened_pdf_step first_failed
  opened_pdf_step_iff (unreadable why) limits = ground arith
  opened_pdf_step_iff (decoded pdf) limits = ground (arith, pages_step_iff pdf.pages limits)

  encrypted_entries_iff :
      (entries : List ZipEntry)
      → (encrypted_entries entries ≡ []) ↔ All (λ e. encrypted_name e ≡ false) entries
  unfolding encrypted_entries
  encrypted_entries_iff [] = (λ _. tt, λ _. refl)
  encrypted_entries_iff (e ∷ es) = ground (arith, encrypted_entries_iff es)

  opened_zip_step_iff :
      (zip : Decoded (List ZipEntry)) (u : Upload) (limits : IngressLimits F)
      → (first_failed (opened_zip_step floats zip u limits) ≡ none) ↔ ArchiveFits limits u zip
  unfolding opened_zip_step first_failed
  opened_zip_step_iff (unreadable why) u limits = ground arith
  opened_zip_step_iff (decoded entries) u limits = ground (arith, encrypted_entries_iff entries)

  size_step_iff :
      (u : Upload) (limits : IngressLimits F)
      → (first_failed (size_step floats u limits) ≡ none) ↔ (length u.content ≤ limits.max_bytes)
  unfolding size_step first_failed
  size_step_iff u limits = ground arith

  media_type_step_iff :
      (u : Upload) (limits : IngressLimits F)
      → (first_failed (media_type_step floats u limits) ≡ none)
        ↔ (contains limits.media_types u.media_type ≡ true)
  unfolding media_type_step first_failed
  media_type_step_iff u limits = ground arith

  module _ (decoders : Decoders) where
    run_steps_cons :
        (step : Step floats decoders) (steps : List (Step floats decoders)) (u : Upload)
        (limits : IngressLimits F)
        → (first_failed (run_steps floats decoders (step ∷ steps) u limits) ≡ none) ↔ (
            (first_failed (step u limits) ≡ none)
            × (first_failed (run_steps floats decoders steps u limits) ≡ none))
    unfolding run_steps
    run_steps_cons step steps u limits = elim (Bool-cases (all (λ v. v.passed) (step u limits))) [
      | inl every ↦ ground (
        arith,
        first_failed-all (step u limits),
        first_failed-append (step u limits) (run_steps floats decoders steps u limits) every,
      )
      | inr stops ↦ ground (arith, first_failed-all (step u limits))
    ]

    -- The first two checks are every document's, and the last reads it.
    three_steps_iff :
        (last : Step floats decoders) (u : Upload) (limits : IngressLimits F)
        → (first_failed (
              run_steps floats decoders
                (size_step floats ∷ media_type_step floats ∷ last ∷ [])
                u
                limits)
            ≡ none)
          ↔ ((length u.content ≤ limits.max_bytes)
              × (contains limits.media_types u.media_type ≡ true)
              × (first_failed (last u limits) ≡ none))
    three_steps_iff last u limits =
        let a = run_steps_cons (size_step floats) (media_type_step floats ∷ last ∷ []) u limits in
        let b = run_steps_cons (media_type_step floats) (last ∷ []) u limits in
        let c = run_steps_cons last [] u limits in
        let none_left : first_failed (run_steps floats decoders [] u limits) ≡ none =
          unfold run_steps first_failed in refl in
        ground (arith, a, b, c, none_left, size_step_iff u limits, media_type_step_iff u limits)

    or_no_checks_iff :
        (u : Upload) (limits : IngressLimits F) (vs : List Verdict)
        → EndsAtRefusal vs
        → (first_failed (or_no_checks floats u limits vs) ≡ none) ↔ (first_failed vs ≡ none)
    unfolding or_no_checks
    or_no_checks_iff u limits [] h = absurd h
    or_no_checks_iff u limits (v ∷ vs) h = (λ e. e, λ e. e)

    -- The verdicts of a document whose checks these are.
    abbrev verdicts_of : List (Step floats decoders) → Upload → IngressLimits F → List Verdict
    verdicts_of steps u limits =
        or_no_checks floats u limits (run_steps floats decoders steps u limits)

    screened-verdicts :
        (u : Upload) (limits : IngressLimits F)
        → (screened floats decoders u limits).verdicts
          ≡ verdicts_of (steps_for floats decoders u.media_type) u limits
    unfolding screened
    screened-verdicts u limits = refl

    read_iff :
        (last : Step floats decoders) (u : Upload) (limits : IngressLimits F)
        → ((u : Upload) (limits : IngressLimits F) → EndsAtRefusal (last u limits))
        → (first_failed
              (verdicts_of (size_step floats ∷ media_type_step floats ∷ last ∷ []) u limits)
            ≡ none)
          ↔ ((length u.content ≤ limits.max_bytes)
              × (contains limits.media_types u.media_type ≡ true)
              × (first_failed (last u limits) ≡ none))
    read_iff last u limits ends =
        let asked =
          or_no_checks_iff u limits _ (size_media_ends floats decoders last ends u limits) in
        let three = three_steps_iff last u limits in
        (λ h. three.0 (asked.0 h), λ h. asked.1 (three.1 h))

    pdf_iff :
        (u : Upload) (limits : IngressLimits F)
        → (u.media_type == pdf_type) ≡ true
        → (first_failed (screened floats decoders u limits).verdicts ≡ none)
          ↔ IsAdmissible decoders limits u
    unfolding steps_for pdf_step
    pdf_iff u limits pdf =
        let read = read_iff (pdf_step floats decoders) u limits (pdf_step-ends floats decoders) in
        let fits = opened_pdf_step_iff (decoders.open_pdf u.content) limits in
        let named = eq_sound u.media_type pdf_type pdf in
        rw (screened-verdicts u limits, pdf)
          (
            (λ h. let (size, taken, left) = read.0 h in (size, taken, inl (named, fits.0 left))),
            λ h. read.1 (
              h.0,
              h.1,
              elim h.2 [
                | inl (_, left) ↦ fits.1 left
                | inr (other, _) ↦ absurd (pdf_ne_zip (sym named ∙ other))
              ],
            ),
          )

    zip_not_pdf :
        (u : Upload) → (u.media_type == zip_type) ≡ true → (u.media_type == pdf_type) ≡ false
    zip_not_pdf u zip =
        eq_of_ne u.media_type pdf_type
          (λ pdf. pdf_ne_zip (sym pdf ∙ eq_sound u.media_type zip_type zip))

    zip_iff :
        (u : Upload) (limits : IngressLimits F)
        → (u.media_type == zip_type) ≡ true
        → (first_failed (screened floats decoders u limits).verdicts ≡ none)
          ↔ IsAdmissible decoders limits u
    unfolding steps_for archive_step
    zip_iff u limits zip =
        let read =
          read_iff (archive_step floats decoders) u limits (archive_step-ends floats decoders) in
        let fits = opened_zip_step_iff (decoders.open_zip u.content) u limits in
        let named = eq_sound u.media_type zip_type zip in
        rw (screened-verdicts u limits, zip_not_pdf u zip, zip)
          (
            (λ h. let (size, taken, left) = read.0 h in (size, taken, inr (named, fits.0 left))),
            λ h. read.1 (
              h.0,
              h.1,
              elim h.2 [
                | inr (_, left) ↦ fits.1 left
                | inl (other, _) ↦ absurd (pdf_ne_zip (sym other ∙ named))
              ],
            ),
          )

    unknown_iff :
        (u : Upload) (limits : IngressLimits F)
        → (u.media_type == pdf_type) ≡ false
        → (u.media_type == zip_type) ≡ false
        → (first_failed (screened floats decoders u limits).verdicts ≡ none)
          ↔ IsAdmissible decoders limits u
    unfolding steps_for run_steps or_no_checks first_failed
    unknown_iff u limits pdf zip =
        rw (screened-verdicts u limits, pdf, zip)
          (
            (λ h. absurd (ground arith)),
            λ h. elim h.2 [
              | inl (named, _) ↦ absurd (ground (arith, eq_iff u.media_type pdf_type))
              | inr (named, _) ↦ absurd (ground (arith, eq_iff u.media_type zip_type))
            ],
          )

    -- A document passes every check asked of it exactly if it is within the ceiling, of a type that is
    -- both allowed here and one that the checks can read, and decodes to what that type's checks ask.
    pub screened_iff :
        (u : Upload) (limits : IngressLimits F)
        → (first_failed (screened floats decoders u limits).verdicts ≡ none)
          ↔ IsAdmissible decoders limits u
    screened_iff u limits = elim (Bool-cases (u.media_type == pdf_type)) [
      | inl pdf ↦ pdf_iff u limits pdf
      | inr other ↦ elim (Bool-cases (u.media_type == zip_type)) [
        | inl zip ↦ zip_iff u limits zip
        | inr unknown ↦ unknown_iff u limits other unknown
      ]
    ]

    screen-cons :
        (u : Upload) (us : List Upload) (limits : IngressLimits F)
        → screen floats decoders (u ∷ us) limits
          ≡ screened floats decoders u limits ∷ screen floats decoders us limits
    unfolding screen
    screen-cons u us limits = refl

    -- A submission is let in exactly if each of its documents is admissible.
    pub admitted_iff :
        (us : List Upload) (limits : IngressLimits F)
        → (first_refusal (screen floats decoders us limits) ≡ none)
          ↔ All (IsAdmissible decoders limits) us
    admitted_iff [] limits = (λ _. tt, λ _. unfold screen first_refusal in refl)
    admitted_iff (u ∷ us) limits =
        let document = screened floats decoders u limits in
        let others = screen floats decoders us limits in
        let both = first_refusal-cons document others in
        let here = screened_iff u limits in
        let there = admitted_iff us limits in
        rw (screen-cons u us limits) (
          (λ h. let (passes, rest) = both.0 h in (here.0 passes, there.0 rest)),
          λ h. both.1 (here.1 h.0, there.1 h.1),
        )
