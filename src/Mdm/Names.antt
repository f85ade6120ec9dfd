-- ===== src/Mdm/Names.antt =====
-- The comparison of names of cde/jobs/build_mdm.py.
pub mod Laws
use insurance_claim_approval.Prelude.{
  ℕ, Bool, true, false, not, ◌&&◌, ◌||◌, Option, none, some, List, [], ◌∷◌, leb, ◌==◌,
  if◌then◌else◌, length, is_empty, or_else,
}
use insurance_claim_approval.Prelude.Text.{Text, text_eq, words}
use insurance_claim_approval.Mdm.Distance.{edit_distance}

-- `parts[-1]` after a first part
unfoldable pub last_word : Text → List Text → Text
last_word w [] = w
last_word w (v ∷ vs) = last_word v vs

-- `_split` of the words of a name
unfoldable pub ends_of : List Text → Text × Text
unfolding last_word
ends_of [] = ([], [])
ends_of (w ∷ []) = (w, [])
ends_of (w ∷ v ∷ vs) = (w, last_word v vs)

unfoldable pub split : Option Text → Text × Text
unfolding ends_of
split name = ends_of (words (or_else name []))

unfoldable pub is_initial_form : Option Text → Bool
unfolding split
is_initial_form name = leb (length (split name).0) 1

-- `fa[0] == fb[0]`
unfoldable pub same_initial : Text → Text → Bool
same_initial (x ∷ s) (y ∷ t) = x == y
same_initial _ _ = false

-- The first names of two people of one surname.
unfoldable pub first_names_match : Text → Text → Bool
unfolding same_initial
first_names_match fa fb =
    if text_eq fa fb
    then true
    else if length fa == 1 || length fb == 1
    then same_initial fa fb
    else leb (edit_distance fa fb 2) 2

unfoldable pub ends_match : Text × Text → Text × Text → Bool
unfolding first_names_match
ends_match (fa, la) (fb, lb) =
    if is_empty la || not (text_eq la lb) || is_empty fa || is_empty fb
    then false
    else first_names_match fa fb

unfoldable pub names_match : Option Text → Option Text → Bool
unfolding split ends_match
names_match a b = ends_match (split a) (split b)
