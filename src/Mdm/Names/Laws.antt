-- ===== src/Mdm/Names/Laws.antt =====
-- The laws of `edit_distance` and of `names_match`.
use insurance_claim_approval.Prelude.{
  ℕ, ◌+◌, ◌≤◌, ◌≡◌, refl, true, false, Option, [], ◌∷◌, arith, ltb, if◌then◌else◌, length, is_empty,
}
use insurance_claim_approval.Prelude.Text.{Text, text_eq}
use insurance_claim_approval.Prelude.Order.{text_eq_refl, text_eq_comm}
use insurance_claim_approval.Mdm.Distance.{gap, edit_distance}
use insurance_claim_approval.Mdm.Distance.Scripts.{
  Script, edits, least_edits, least_edits-le, least_edits_attained, least_edits_comm,
}
use insurance_claim_approval.Mdm.Distance.Rows.{rows-least_edits}
use insurance_claim_approval.Mdm.Names.{
  same_initial, first_names_match, ends_match, split, names_match,
}

pub edit_distance-eq :
    (a b : Text) (limit : ℕ)
    → edit_distance a b limit
      ≡ (if ltb limit (gap (length a) (length b)) then limit + 1 else least_edits a b)
unfolding edit_distance
edit_distance-eq a b limit = rw (rows-least_edits a b)

pub edit_distance_comm :
    (a b : Text) (limit : ℕ) → edit_distance a b limit ≡ edit_distance b a limit
edit_distance_comm a b limit =
    rw (edit_distance-eq a b limit, edit_distance-eq b a limit, least_edits_comm a b) (ground arith)

-- An edit script changes the length by at most its edits.
Script-gap : {s t : Text} (p : Script s t) → gap (length s) (length t) ≤ edits p
unfolding edits
Script-gap Script.done = omega arith
Script-gap (Script.delete x p) = omega (arith, Script-gap p)
Script-gap (Script.insert y p) = omega (arith, Script-gap p)
Script-gap (Script.replace x y p) = omega (arith, Script-gap p)

-- `edit_distance` with a limit answers at most the limit for two texts exactly when some edit
-- script of at most that many edits turns the one into the other; and then it answers the number of
-- edits of a shortest such script.
pub edit_distance-IsLeast :
    (a b : Text) (limit : ℕ)
    → ((p : Script a b) → edits p ≤ limit → edit_distance a b limit ≤ edits p)
      × (edit_distance a b limit ≤ limit → (p : Script a b) × (edits p ≡ edit_distance a b limit))
edit_distance-IsLeast a b limit = rw (edit_distance-eq a b limit) (
  (λ p h. let shortest = least_edits-le p in let near = Script-gap p in ground arith),
  λ h. let (p, e) = least_edits_attained a b in (p, ground arith),
)

same_initial_comm : (s t : Text) → same_initial s t ≡ same_initial t s
unfolding same_initial
same_initial_comm [] [] = refl
same_initial_comm [] (y ∷ t) = refl
same_initial_comm (x ∷ s) [] = refl
same_initial_comm (x ∷ s) (y ∷ t) = ground arith

first_names_match_comm : (s t : Text) → first_names_match s t ≡ first_names_match t s
unfolding first_names_match
first_names_match_comm s t =
    rw (text_eq_comm s t, same_initial_comm s t, edit_distance_comm s t 2) (ground arith)

text_eq_nil : (x : ℕ) (s : Text) → text_eq (x ∷ s) [] ≡ false
unfolding text_eq
text_eq_nil x s = refl

ends_match_comm : (p q : Text × Text) → ends_match p q ≡ ends_match q p
unfolding ends_match
ends_match_comm (fa, []) (fb, []) = refl
ends_match_comm (fa, []) (fb, y ∷ lb) = rw (text_eq_nil y lb)
ends_match_comm (fa, x ∷ la) (fb, []) = rw (text_eq_nil x la)
ends_match_comm (fa, x ∷ la) (fb, y ∷ lb) =
    rw (text_eq_comm (x ∷ la) (y ∷ lb), first_names_match_comm fa fb) (ground arith)

-- `names_match` does not depend on the order of the two names.
pub names_match_comm : (a b : Option Text) → names_match a b ≡ names_match b a
unfolding names_match
names_match_comm a b = ends_match_comm (split a) (split b)

-- A name with a first and a last word matches itself.
pub names_match_refl :
    (a : Option Text)
    → is_empty (split a).0 ≡ false
    → is_empty (split a).1 ≡ false
    → names_match a a ≡ true
unfolding names_match ends_match first_names_match
names_match_refl a h k = rw (h, k, text_eq_refl (split a).0, text_eq_refl (split a).1)
