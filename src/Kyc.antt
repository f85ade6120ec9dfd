-- ===== src/Kyc.antt =====
-- backend/services/kyc_service.py: the effective verification status of a customer profile.
use insurance_claim_approval.Prelude.{
  ◌≡◌, ◌↔◌, Bool, true, false, ◌||◌, ◌&&◌, not, Option, none, some, arith, if◌then◌else◌,
}
use insurance_claim_approval.Schema.Customer.{CustomerProfile}

-- `KYCStatus` of models/platform.py.
pub data KycStatus : Type 0 where
  kyc_pending kyc_in_progress kyc_verified : KycStatus

gov_id_file_exists : CustomerProfile → Bool
gov_id_file_exists p = p.gov_id_path_set && p.gov_id_on_file

effective_status_of : CustomerProfile → KycStatus
unfolding gov_id_file_exists
effective_status_of p =
    if not (gov_id_file_exists p)
    then kyc_pending
    else if p.kyc_face_verified && p.kyc_mobile_verified
    then kyc_verified
    else if p.gov_id_path_set || p.kyc_face_verified || p.kyc_mobile_verified
    then kyc_in_progress
    else kyc_pending

unfoldable pub effective_kyc_status : Option CustomerProfile → KycStatus
unfolding effective_status_of
effective_kyc_status none = kyc_pending
effective_kyc_status (some p) = effective_status_of p

unfoldable pub is_kyc_verified : Option CustomerProfile → Bool
unfolding effective_kyc_status
is_kyc_verified p = elim (effective_kyc_status p) [ kyc_verified ↦ true | _ ↦ false ]

-- A profile is verified exactly when its ID document is on file and both face and mobile are
-- confirmed, and pending exactly when the document is not on file, whatever else was confirmed.
effective_kyc_status_lem :
    (p : CustomerProfile)
    → let s = effective_kyc_status (some p) in
      let on_file = p.gov_id_path_set && p.gov_id_on_file in
      ((s ≡ kyc_verified) ↔ ((on_file && p.kyc_face_verified && p.kyc_mobile_verified) ≡ true))
      × ((s ≡ kyc_pending) ↔ (on_file ≡ false))
unfolding effective_kyc_status
effective_kyc_status_lem p =
    ((λ h. ground arith, λ h. ground arith), (λ h. ground arith, λ h. ground arith))
