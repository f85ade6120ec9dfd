-- ===== src/Documents/Laws.antt =====
-- That no document is asked for twice, and that every entry is answered.
use insurance_claim_approval.Prelude.{
  ◌≡◌, refl, inl, inr, ◌↔◌, true, false, List, [], ◌∷◌, arith, is_empty, all_of, Bool-cases,
}
use insurance_claim_approval.Prelude.Text.{Text, strip}
use insurance_claim_approval.Documents.{
  RequestedDocument, item_of, is_seen, normalize_from, normalize_requested_documents,
}

-- The ids are all different, and none is in `seen`.
abbrev pub AllNew : List Text → List RequestedDocument → Type 0
AllNew seen [] = Unit
AllNew seen (d ∷ ds) = (is_seen d.id seen ≡ false) × AllNew (d.id ∷ seen) ds

normalize_from-AllNew : (seen raws : List Text) → AllNew seen (normalize_from seen raws)
unfolding normalize_from
normalize_from-AllNew seen [] = tt
normalize_from-AllNew seen (r ∷ rs) = elim (Bool-cases (is_empty (strip r))) [
  | inl e ↦ rw (e, normalize_from) (normalize_from-AllNew seen rs)
  | inr e ↦ elim (Bool-cases (is_seen (item_of (strip r)).id seen)) [
    | inl f ↦ rw (e, f, normalize_from) (normalize_from-AllNew seen rs)
    | inr f ↦
        rw (e, f, normalize_from) (f, normalize_from-AllNew ((item_of (strip r)).id ∷ seen) rs)
  ]
]

-- No document is asked for twice.
normalize-AllNew : (raws : List Text) → AllNew [] (normalize_requested_documents raws)
unfolding normalize_requested_documents
normalize-AllNew raws = normalize_from-AllNew [] raws

normalize_from-empty :
    (raws : List Text) → is_empty (normalize_from [] raws) ≡ all_of (λ r. is_empty (strip r)) raws
unfolding normalize_from
normalize_from-empty [] = refl
normalize_from-empty (r ∷ rs) = ground (arith, normalize_from-empty rs)

-- Nothing is asked for exactly when every entry is blank.
normalize-empty_iff :
    (raws : List Text)
    → (is_empty (normalize_requested_documents raws) ≡ true)
      ↔ (all_of (λ r. is_empty (strip r)) raws ≡ true)
unfolding normalize_requested_documents
normalize-empty_iff raws =
    (λ h. rw (normalize_from-empty raws) at h, λ h. rw (normalize_from-empty raws) h)
