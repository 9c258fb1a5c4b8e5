-- ===== src/Guards/Verdict.antt =====
-- src/claim_triage/guards/verdict.py: what every guard answers with.
use claim_triage_agent.Common.{ℕ, Bool, String, List}

pub data Check : Type 0 where
  rate_limit size media_type structure encryption archive page_count : Check

-- What a verdict's text says, one constructor for each message with the values that it shows. The
-- wording is the source's; a decoder's own message is the text of the last field.
pub data Detail : Type 0 where
  -- {tokens} of {burst} submissions left in this burst; the burst is spent, wait
  burst_left : ℕ → ℕ → Detail
  burst_spent : ℕ → ℕ → Detail
  -- a submission's declared length against its ceiling
  no_length : Detail
  declares_within declares_past : ℕ → ℕ → Detail
  -- a document's size against its ceiling
  size_within size_exceeds : ℕ → ℕ → Detail
  -- the declared content type, and the types taken here
  type_taken : String → Detail
  type_not_taken no_checks_for : String → List String → Detail
  readable_pdf pdf_encrypted not_encrypted no_pages : Detail
  unreadable_pdf unreadable_pages unreadable_archive : String → Detail
  pages_within pages_exceed : ℕ → ℕ → Detail
  readable_archive no_entry_encrypted : Detail
  holds_encrypted : String → Detail
  expansion_within expansion_past : ℕ → ℕ → Detail

pub record Verdict : Type 0 where
  pub check : Check
  pub passed : Bool
  pub detail : Detail

pub record DocumentVerdicts : Type 0 where
  pub filename : String
  pub media_type : String
  pub verdicts : List Verdict
