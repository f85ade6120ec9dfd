-- ===== src/Evidence/Laws.antt =====
-- What the analysis of the documents promises.
use mathlib.Core.Path.{sym, ap, ◌∙◌}
use insurance_claim_approval.Prelude.{
  ℕ, ◌≤◌, ◌<◌, ◌≡◌, refl, Bool, true, false, ◌&&◌, ◌||◌, not, List, [], ◌∷◌, ◌++◌, arith, is_empty,
  any_of, all_of,
}
use insurance_claim_approval.Prelude.Rounding.{round_half_even-le}
use insurance_claim_approval.Prelude.Text.{Text}
use insurance_claim_approval.Schema.Claim.{ClaimDocument, EvidenceIssue}
use insurance_claim_approval.Schema.Outcome.{DocumentResult}
use insurance_claim_approval.Evidence.{
  Readers, issues_of, all_issues, any_mismatch, validated, mean_confidence, analyze_documents,
  is_extraction_code,
}

-- An issue with the code `evidence_type_mismatch`.
abbrev pub is_mismatch_issue : EvidenceIssue → Bool
is_mismatch_issue i = not (is_extraction_code i.issue_code)

any_of-append :
    {A : Type 0} (p : A → Bool) (xs ys : List A)
    → any_of p (xs ++ ys) ≡ (any_of p xs || any_of p ys)
any_of-append p [] ys = refl
any_of-append p (x ∷ xs) ys = ground (arith, any_of-append p xs ys)

issues_of-mismatch :
    (d : ClaimDocument) (r : DocumentResult)
    → any_of is_mismatch_issue (issues_of d r) ≡ (r.type_mismatch && not d.acknowledged)
unfolding issues_of
issues_of-mismatch d r = ground arith

all_issues-mismatch :
    (xs : List (ClaimDocument × DocumentResult))
    → any_of is_mismatch_issue (all_issues xs) ≡ any_mismatch xs
unfolding all_issues any_mismatch
all_issues-mismatch [] = refl
all_issues-mismatch ((d, r) ∷ xs) =
    rw (any_of-append, issues_of-mismatch d r, all_issues-mismatch xs)

-- The evidence mismatches exactly when an issue says that a document is not of its type.
mismatch_has_issue :
    (v : Readers) (incident : Text) (ds : List ClaimDocument)
    → (analyze_documents v incident ds).evidence_mismatch
      ≡ any_of is_mismatch_issue (analyze_documents v incident ds).evidence_issues
unfolding analyze_documents
mismatch_has_issue v incident [] = refl
mismatch_has_issue v incident (d ∷ ds) = sym (all_issues-mismatch (validated v incident (d ∷ ds)))

acknowledged_issues :
    (v : Readers) (incident : Text) (ds : List ClaimDocument)
    → all_of (λ d. d.acknowledged) ds ≡ true
    → all_issues (validated v incident ds) ≡ []
unfolding all_issues validated issues_of
acknowledged_issues v incident [] h = refl
acknowledged_issues v incident (d ∷ ds) h = ground (arith, acknowledged_issues v incident ds)

-- A customer who has acknowledged all documents is shown no issue and no mismatch.
pub acknowledged_silences :
    (v : Readers) (incident : Text) (ds : List ClaimDocument)
    → all_of (λ d. d.acknowledged) ds ≡ true
    → ((analyze_documents v incident ds).evidence_issues ≡ [])
      × ((analyze_documents v incident ds).evidence_mismatch ≡ false)
unfolding analyze_documents
acknowledged_silences v incident [] h = (refl, refl)
acknowledged_silences v incident (d ∷ ds) h =
    let xs = validated v incident (d ∷ ds) in
    let silent = acknowledged_issues v incident (d ∷ ds) h in
    (silent, sym (all_issues-mismatch xs) ∙ ap (any_of is_mismatch_issue) silent)

mean_confidence-le : (sum n k : ℕ) → 0 < n → mean_confidence sum n k ≤ 10_000
unfolding mean_confidence
mean_confidence-le sum n k some_n = round_half_even-le _ n 10_000 some_n (omega arith)

-- Without a document the evidence is missing and its confidence is 0; with one it is not missing,
-- and the confidence is at most 1.
analyze_documents_bounds :
    (v : Readers) (incident : Text) (ds : List ClaimDocument)
    → ((analyze_documents v incident ds).evidence_missing ≡ is_empty ds)
      × ((analyze_documents v incident ds).evidence_confidence_score ≤ 10_000)
unfolding analyze_documents validated
analyze_documents_bounds v incident [] = (refl, omega arith)
analyze_documents_bounds v incident (d ∷ ds) = (refl, mean_confidence-le _ _ _ (omega arith))
