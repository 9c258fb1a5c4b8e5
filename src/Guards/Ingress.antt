-- ===== src/Guards/Ingress.antt =====
-- src/claim_triage/guards/ingress.py: the checks on a document. Opening a PDF or a zip archive is
-- the libraries', a parameter; so is floating point arithmetic.
pub mod Order
pub mod Admission
pub mod Bounded
use Prim.Native.Nat.{bit_and}
use claim_triage_agent.Common.{
  ℕ, zero, suc, ◌+◌, Bool, true, false, String, Option, none, some, List, [], ◌∷◌, ◌++◌, all,
  length, ltb, not, max, ◌||◌, ◌==◌, nat_equality, string_equality, if◌then◌else◌,
}
use claim_triage_agent.Floats.{Floats}
use claim_triage_agent.Guards.Verdict.{
  Check, Detail, Verdict, DocumentVerdicts, no_length, declares_within, declares_past, size_within,
  size_exceeds, type_taken, type_not_taken, no_checks_for, readable_pdf, pdf_encrypted,
  not_encrypted, no_pages, unreadable_pdf, unreadable_pages, unreadable_archive, pages_within,
  pages_exceed, readable_archive, no_entry_encrypted, holds_encrypted, expansion_within,
  expansion_past,
}

abbrev pub pdf_type : String
pdf_type = "application/pdf"

abbrev pub zip_type : String
zip_type = "application/zip"

abbrev pub encrypted_flag : ℕ
encrypted_flag = 0x1

pub record Upload : Type 0 where
  pub filename : String
  pub media_type : String
  pub content : List ℕ

pub record IngressLimits (F : Type 0) : Type 0 where
  pub media_types : List String
  pub max_submission_bytes : ℕ
  pub max_bytes : ℕ
  pub max_pages : ℕ
  pub max_expansion_ratio : F

-- What a decoder comes to: a value, or the exception that it raised.
pub data Decoded (A : Type 0) : Type 0 where
  decoded : A → Decoded A
  unreadable : String → Decoded A

-- `PdfReader`: whether the document is encrypted, and the length of its page tree.
pub record Pdf : Type 0 where
  pub is_encrypted : Bool
  pub pages : Decoded ℕ

-- One `ZipInfo` of `infolist()`.
pub record ZipEntry : Type 0 where
  pub filename : String
  pub flag_bits : ℕ
  pub file_size : ℕ

pub record Decoders : Type 0 where
  pub open_pdf : List ℕ → Decoded Pdf
  pub open_zip : List ℕ → Decoded (List ZipEntry)

-- `stream.read(max_bytes + 1)` of a stream that holds these bytes.
unfoldable pub read_at_most : ℕ → List ℕ → List ℕ
read_at_most zero stream = []
read_at_most (suc n) [] = []
read_at_most (suc n) (b ∷ stream) = b ∷ read_at_most n stream

unfoldable pub read_bounded : List ℕ → ℕ → List ℕ
unfolding read_at_most
read_bounded stream max_bytes = read_at_most (suc max_bytes) stream

abbrev pub passed : Check → Detail → Verdict
passed check detail = record { check = check; passed = true; detail = detail }

abbrev pub refused : Check → Detail → Verdict
refused check detail = record { check = check; passed = false; detail = detail }

unfoldable pub first_failed : List Verdict → Option Verdict
first_failed [] = none
first_failed (v ∷ vs) = if not v.passed then some v else first_failed vs

unfoldable pub first_refusal : List DocumentVerdicts → Option (String × Verdict)
unfolding first_failed
first_refusal [] = none
first_refusal (d ∷ ds) =
    let rest = first_refusal ds in
    elim (first_failed d.verdicts) [ some v ↦ some (d.filename, v) | none ↦ rest ]

unfoldable pub contains : List String → String → Bool
contains [] s = false
contains (t ∷ ts) s = t == s || contains ts s

abbrev pub encrypted_name : ZipEntry → Bool
encrypted_name entry = not (bit_and entry.flag_bits encrypted_flag == 0)

-- [entry.filename for entry in entries if ...]
unfoldable pub encrypted_entries : List ZipEntry → List String
encrypted_entries [] = []
encrypted_entries (e ∷ es) =
    let rest = encrypted_entries es in if encrypted_name e then e.filename ∷ rest else rest

unfoldable pub expanded_size : List ZipEntry → ℕ
expanded_size [] = 0
expanded_size (e ∷ es) = e.file_size + expanded_size es

module _ {F : Type 0} (floats : Floats F) where
  unfoldable pub declared_size : Option ℕ → IngressLimits F → Verdict
  declared_size none limits = passed Check.size no_length
  declared_size (some declared) limits =
      if ltb limits.max_submission_bytes declared
      then refused Check.size (declares_past declared limits.max_submission_bytes)
      else passed Check.size (declares_within declared limits.max_submission_bytes)

  unfoldable pub size_step : Upload → IngressLimits F → List Verdict
  size_step upload limits =
      let size = length upload.content in
      if ltb limits.max_bytes size
      then refused Check.size (size_exceeds size limits.max_bytes) ∷ []
      else passed Check.size (size_within size limits.max_bytes) ∷ []

  unfoldable pub media_type_step : Upload → IngressLimits F → List Verdict
  unfolding contains
  media_type_step upload limits =
      if contains limits.media_types upload.media_type
      then passed Check.media_type (type_taken upload.media_type) ∷ []
      else refused Check.media_type (type_not_taken upload.media_type limits.media_types) ∷ []

  -- The page count of a document that is not encrypted.
  unfoldable pub pages_step : Decoded ℕ → IngressLimits F → List Verdict
  pages_step (unreadable why) limits = refused Check.structure (unreadable_pages why) ∷ []
  pages_step (decoded pages) limits =
      if ltb pages 1
      then passed Check.encryption not_encrypted ∷ refused Check.structure no_pages ∷ []
      else if ltb limits.max_pages pages
      then passed Check.encryption not_encrypted
        ∷ refused Check.page_count (pages_exceed pages limits.max_pages)
        ∷ []
      else passed Check.encryption not_encrypted
        ∷ passed Check.page_count (pages_within pages limits.max_pages)
        ∷ []

  unfoldable pub opened_pdf_step : Decoded Pdf → IngressLimits F → List Verdict
  unfolding pages_step
  opened_pdf_step (unreadable why) limits = refused Check.structure (unreadable_pdf why) ∷ []
  opened_pdf_step (decoded reader) limits =
      passed Check.structure readable_pdf
      ∷ (if reader.is_encrypted
          then refused Check.encryption pdf_encrypted ∷ []
          else pages_step reader.pages limits)

  -- The expansion of an archive without encrypted entries.
  unfoldable pub expansion_step : Upload → List ZipEntry → IngressLimits F → List Verdict
  unfolding expanded_size
  expansion_step upload entries limits =
      let expanded = expanded_size entries in
      let size = length upload.content in
      passed Check.encryption no_entry_encrypted
      ∷ (if floats.lt limits.max_expansion_ratio (floats.div expanded (max size 1))
          then refused Check.archive (expansion_past expanded size)
          else passed Check.archive (expansion_within expanded size))
      ∷ []

  unfoldable pub opened_zip_step : Decoded (List ZipEntry) → Upload → IngressLimits F → List Verdict
  unfolding expansion_step encrypted_entries
  opened_zip_step (unreadable why) upload limits =
      refused Check.structure (unreadable_archive why) ∷ []
  opened_zip_step (decoded entries) upload limits =
      passed Check.structure readable_archive ∷ elim (encrypted_entries entries) [
        | first ∷ _ ↦ refused Check.encryption (holds_encrypted first) ∷ []
        | [] ↦ expansion_step upload entries limits
      ]

  unfoldable pub or_no_checks : Upload → IngressLimits F → List Verdict → List Verdict
  or_no_checks upload limits [] =
      refused Check.media_type (no_checks_for upload.media_type limits.media_types) ∷ []
  or_no_checks upload limits (v ∷ vs) = v ∷ vs

  module _ (decoders : Decoders) where
    unfoldable pub pdf_step : Upload → IngressLimits F → List Verdict
    unfolding opened_pdf_step
    pdf_step upload limits = opened_pdf_step (decoders.open_pdf upload.content) limits

    unfoldable pub archive_step : Upload → IngressLimits F → List Verdict
    unfolding opened_zip_step
    archive_step upload limits = opened_zip_step (decoders.open_zip upload.content) upload limits

    -- `_STEPS.get(media_type, ())`
    abbrev pub Step : Type 0
    Step = Upload → IngressLimits F → List Verdict

    unfoldable pub steps_for : String → List Step
    steps_for media_type =
        if media_type == pdf_type
        then size_step ∷ media_type_step ∷ pdf_step ∷ []
        else if media_type == zip_type
        then size_step ∷ media_type_step ∷ archive_step ∷ []
        else []

    -- The loop of `_screened`: what each step found, up to the first that refuses.
    unfoldable pub run_steps : List Step → Upload → IngressLimits F → List Verdict
    run_steps [] upload limits = []
    run_steps (step ∷ steps) upload limits =
        let rest = run_steps steps upload limits in
        let found = step upload limits in
        if not (all (λ v. v.passed) found) then found else found ++ rest

    unfoldable pub screened : Upload → IngressLimits F → DocumentVerdicts
    unfolding steps_for run_steps or_no_checks
    screened upload limits = record {
      filename = upload.filename;
      media_type = upload.media_type;
      verdicts = or_no_checks upload limits (run_steps (steps_for upload.media_type) upload limits);
    }

    unfoldable pub screen : List Upload → IngressLimits F → List DocumentVerdicts
    unfolding screened
    screen [] limits = []
    screen (u ∷ us) limits = screened u limits ∷ screen us limits
