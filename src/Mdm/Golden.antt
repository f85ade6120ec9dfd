-- ===== src/Mdm/Golden.antt =====
-- The surviving values of a cluster: `survive` of cde/jobs/build_mdm.py. A moment counts from
-- `datetime.min`, a date from the first day.
pub mod Laws
pub mod Kept
use insurance_claim_approval.Prelude.{
  ℕ, ◌+◌, min, Bool, true, false, not, ◌&&◌, ◌||◌, Option, none, some, List, [], ◌∷◌, ltb, ◌==◌,
  if◌then◌else◌, length, or_else, any_of,
}
use insurance_claim_approval.Prelude.Text.{Text, text_eq, text_lt, truthy}
use insurance_claim_approval.Mdm.Names.{is_initial_form}

-- A row of the policy administration, by what a customer's record is made of.
pub record HolderPolicy : Type 0 where
  pub policy_number : Text
  pub holder_name : Option Text
  pub holder_name_norm : Option Text
  pub holder_dob : Option ℕ
  pub holder_mobile_norm : Option Text
  pub holder_email : Option Text
  pub address_city : Option Text
  pub customer_since : Option ℕ
  pub last_change_ts : Option ℕ

pub record Survivor : Type 0 where
  pub full_name : Option Text
  pub dob : Option ℕ
  pub mobile : Option Text
  pub email : Option Text
  pub city : Option Text
  pub customer_since : Option ℕ
  pub policies_held : ℕ

-- `max` with a key: the first of the highest.
unfoldable pub max_by {ℓ} : {A : Type ℓ} → (A → A → Bool) → A → List A → A
max_by higher a [] = a
max_by higher a (b ∷ bs) = max_by higher (if higher b a then b else a) bs

unfoldable pub changed_at : HolderPolicy → ℕ
changed_at p = or_else p.last_change_ts 0

-- `(p["last_change_ts"] or datetime.min, p["policy_number"])`, compared
unfoldable pub is_later : HolderPolicy → HolderPolicy → Bool
unfolding changed_at
is_later p q =
    ltb (changed_at q) (changed_at p)
    || (changed_at p == changed_at q && text_lt q.policy_number p.policy_number)

-- A name that counts: present, and not an initial.
unfoldable pub is_full : HolderPolicy → Bool
is_full p = truthy p.holder_name && not (is_initial_form p.holder_name_norm)

unfoldable pub full_names : List HolderPolicy → List Text
unfolding is_full
full_names [] = []
full_names (p ∷ ps) = if is_full p then or_else p.holder_name [] ∷ full_names ps else full_names ps

-- `names[n]` of the counter
unfoldable pub count : Text → List Text → ℕ
count n [] = 0
count n (m ∷ ms) = (if text_eq m n then 1 else 0) + count n ms

-- `(kv[1], len(kv[0]))`, compared
unfoldable pub is_commoner : List Text → Text → Text → Bool
unfolding count
is_commoner ns m n =
    ltb (count n ns) (count m ns) || (count m ns == count n ns && ltb (length n) (length m))

unfoldable pub common_name : Option Text → List Text → Option Text
unfolding max_by is_commoner
common_name own [] = own
common_name own (n ∷ ns) = some (max_by (is_commoner (n ∷ ns)) n ns)

unfoldable pub first_email : List HolderPolicy → Option Text
first_email [] = none
first_email (p ∷ ps) = if truthy p.holder_email then p.holder_email else first_email ps

unfoldable pub least_date : Option ℕ → Option ℕ → Option ℕ
least_date none e = e
least_date (some d) none = some d
least_date (some d) (some e) = some (min d e)

unfoldable pub earliest : List HolderPolicy → Option ℕ
unfolding least_date
earliest [] = none
earliest (p ∷ ps) = least_date p.customer_since (earliest ps)

-- The number of different policies.
unfoldable pub held : List HolderPolicy → ℕ
held [] = 0
held (p ∷ ps) =
    (if any_of (λ q. text_eq q.policy_number p.policy_number) ps then 0 else 1) + held ps

-- `survive`; without a policy, `cluster_policies[0]` raises.
unfoldable pub survive : List HolderPolicy → Option Survivor
unfolding max_by is_later full_names common_name first_email earliest held
survive [] = none
survive (p ∷ ps) =
    let latest = max_by is_later p ps in
    some record {
      full_name = common_name p.holder_name (full_names (p ∷ ps));
      dob = latest.holder_dob;
      mobile = latest.holder_mobile_norm;
      email = first_email (p ∷ ps);
      city = latest.address_city;
      customer_since = earliest (p ∷ ps);
      policies_held = held (p ∷ ps);
    }
