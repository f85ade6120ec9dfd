-- ===== src/Evidence.antt =====
-- backend/services/evidence_analysis.py: the loop over a claim's documents. Confidences are in
-- ten-thousandths.
mod Validate
pub mod Laws
unfoldable pub use Validate.*
use insurance_claim_approval.Prelude.{
  ℕ, ◌+◌, ◌-◌, ◌*◌, min, Bool, true, false, ◌&&◌, ◌||◌, not, Option, none, some, List, [], ◌∷◌,
  ◌++◌, map, ◌==◌, if◌then◌else◌, is_empty, any_of, length, find_first,
}
use insurance_claim_approval.Prelude.Rounding.{round_half_even}
use insurance_claim_approval.Prelude.Text.{Text, codes, text_eq, contains}
use insurance_claim_approval.Schema.Claim.{
  Claim, ClaimDocument, EvidenceIssue, IssueCode, evidence_type_mismatch, extraction_failed_issue,
}
use insurance_claim_approval.Schema.Outcome.{DocumentResult}
use insurance_claim_approval.Schema.Db.{Db, documents_of}

pub record EvidenceAnalysisResult : Type 0 where
  pub evidence_confidence_score : ℕ
  pub evidence_missing : Bool
  pub document_results : List DocumentResult
  pub duplicate_uploads : List Text
  pub evidence_mismatch : Bool
  pub evidence_issues : List EvidenceIssue

-- The file names of documents whose checksum an earlier document has.
duplicates_from : List Text → List ClaimDocument → List Text
duplicates_from seen [] = []
duplicates_from seen (d ∷ ds) =
    let rest = duplicates_from (d.checksum ∷ seen) ds in
    if any_of (text_eq d.checksum) seen then d.original_filename ∷ rest else rest

-- `next((i for i in issues if "Could not extract" in i), …)`
extraction_message : List Text → Text
extraction_message issues = elim (find_first (contains (codes "Could not extract")) issues) [
  | none ↦ unreadable
  | some i ↦ i
]

abbrev pub issue_of : ClaimDocument → Text → IssueCode → EvidenceIssue
issue_of d reason code = record {
  doc_type = d.doc_type;
  document_id = d.id;
  filename = d.original_filename;
  reason = reason;
  issue_code = code;
  acknowledged = false;
}

-- The issue of one document, if it raises one.
unfoldable pub issues_of : ClaimDocument → DocumentResult → List EvidenceIssue
unfolding extraction_message
issues_of d r =
    if r.type_mismatch && not d.acknowledged
    then issue_of d r.mismatch_reason evidence_type_mismatch ∷ []
    else if any_of is_extraction_code r.issue_codes && not d.acknowledged
    then issue_of d (extraction_message r.issues) extraction_failed_issue ∷ []
    else []

-- The validated documents, each with its result.
unfoldable pub validated :
    Readers → Text → List ClaimDocument → List (ClaimDocument × DocumentResult)
validated v incident =
    map (λ (d : ClaimDocument). (d, validate_document v d (text_of v d) incident))

unfoldable pub all_issues : List (ClaimDocument × DocumentResult) → List EvidenceIssue
all_issues [] = []
all_issues ((d, r) ∷ xs) = issues_of d r ++ all_issues xs

-- A document is found by its id, which is the row's key: `r` is the result of `d`.
unfoldable pub any_mismatch : List (ClaimDocument × DocumentResult) → Bool
any_mismatch [] = false
any_mismatch ((d, r) ∷ xs) = (r.type_mismatch && not d.acknowledged) || any_mismatch xs

unfoldable pub confidences : List (ClaimDocument × DocumentResult) → ℕ
confidences [] = 0
confidences ((d, r) ∷ xs) = r.confidence + confidences xs

-- The mean of the confidences, less 0.15 for each duplicate, rounded to four digits.
unfoldable pub mean_confidence : ℕ → ℕ → ℕ → ℕ
mean_confidence sum n duplicates =
    round_half_even (min (sum - 1500 * duplicates * n) (10_000 * n)) n

unfoldable pub analyze_documents : Readers → Text → List ClaimDocument → EvidenceAnalysisResult
unfolding duplicates_from
analyze_documents v incident [] = record {
  evidence_confidence_score = 0;
  evidence_missing = true;
  document_results = [];
  duplicate_uploads = [];
  evidence_mismatch = false;
  evidence_issues = [];
}
analyze_documents v incident (d ∷ ds) =
    let xs = validated v incident (d ∷ ds) in
    let duplicates = duplicates_from [] (d ∷ ds) in
    record {
      evidence_confidence_score = mean_confidence (confidences xs) (length xs) (length duplicates);
      evidence_missing = false;
      document_results = map (λ (x : ClaimDocument × DocumentResult). x.1) xs;
      duplicate_uploads = duplicates;
      evidence_mismatch = any_mismatch xs;
      evidence_issues = all_issues xs;
    }

keep_text : Readers → ℕ → ClaimDocument → ClaimDocument
keep_text v k d =
    if d.claim_id == k && not (is_empty (text_of v d))
    then record d { ocr_text = some (text_of v d) }
    else d

-- `EvidenceAnalysisService.analyze`, with the texts that it stores.
unfoldable pub analyze_evidence : Readers → Db → Claim → EvidenceAnalysisResult × Db
unfolding keep_text
analyze_evidence v db c = (
  analyze_documents v c.incident_description (documents_of c.id db),
  record db { documents = map (keep_text v c.id) db.documents },
)
