-- ===== src/Tests/Papers.antt =====
-- The evidence of a claim with two documents.
use insurance_claim_approval.Prelude.{ℕ, ◌≡◌, refl, Bool, true, false, none, List, [], ◌∷◌}
use insurance_claim_approval.Prelude.Text.{Text, codes}
use insurance_claim_approval.Schema.Status.{DocumentType}
use insurance_claim_approval.Schema.Claim.{ClaimDocument}
use insurance_claim_approval.Evidence.{Readers, mismatching, analyze_documents}
use insurance_claim_approval.Evidence.Laws.{acknowledged_silences}
use insurance_claim_approval.Tests.Data.{on_day}

-- OCR reads a long text, no pattern is found, and the model takes every document for another.
abbrev readers : Readers
readers = record {
  is_text_code = λ c. true;
  extract_text = λ d. codes "a text about something else altogether, of some length";
  pattern_hits = λ t s. 0;
  check_type = λ t s incident. mismatching none;
}

abbrev scan : ℕ → DocumentType → Bool → ClaimDocument
scan k t seen = record {
  id = k;
  claim_id = 7;
  doc_type = t;
  original_filename = codes "scan.pdf";
  checksum = codes "x";
  ocr_text = none;
  acknowledged = seen;
  created_at = on_day 2026 3 2;
}

abbrev papers : Bool → List ClaimDocument
papers seen = scan 1 DocumentType.police_report seen ∷ scan 2 DocumentType.towing_invoice seen ∷ []

abbrev incident : Text
incident = codes "rear-end collision"

acknowledged_silences_example :
    ((analyze_documents readers incident (papers true)).evidence_issues ≡ [])
    × ((analyze_documents readers incident (papers true)).evidence_mismatch ≡ false)
acknowledged_silences_example = acknowledged_silences readers incident (papers true) refl
