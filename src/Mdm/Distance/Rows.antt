-- ===== src/Mdm/Distance/Rows.antt =====
-- The rows of `edit_distance` hold the least numbers of edits between the prefixes.
use mathlib.Core.List.{append-nil}
use insurance_claim_approval.Prelude.{
  ℕ, suc, ◌+◌, ◌≤◌, ◌≡◌, refl, ap, ◌∙◌, List, [], ◌∷◌, ◌++◌, arith, length,
}
use insurance_claim_approval.Prelude.Text.{Text}
use insurance_claim_approval.Mdm.Distance.{fill_row, fill_rows, range_from, last_of}
use insurance_claim_approval.Mdm.Distance.Scripts.{
  Script, done, delete, insert, replace, edits, least_edits, least_edits-le, least_edits_attained,
}

-- The first text in reverse, before the second.
abbrev onto : Text → Text → Text
onto [] r = r
onto (x ∷ s) r = onto s (x ∷ r)

onto-onto : (s r u : Text) → onto (onto s r) u ≡ onto r (s ++ u)
onto-onto [] r u = refl
onto-onto (x ∷ s) r u = onto-onto s (x ∷ r) u

onto-involution : (s : Text) → onto (onto s []) [] ≡ s
onto-involution s = onto-onto s [] [] ∙ append-nil s

-- After the distance from `p` to `q`, those to the prefixes of a text that extend `q` by the
-- characters of `b`. Prefixes stand reversed.
cells : Text → Text → Text → List ℕ
cells p q [] = []
cells p q (y ∷ b) = least_edits p (y ∷ q) ∷ cells p (y ∷ q) b

fill_row-cells :
    (ca : ℕ) (p q b : Text)
    → fill_row ca b (least_edits p q ∷ cells p q b) (least_edits (ca ∷ p) q) ≡ cells (ca ∷ p) q b
unfolding fill_row cells least_edits
fill_row-cells ca p q [] = refl
fill_row-cells ca p q (y ∷ b) =
    ap (λ r. least_edits (ca ∷ p) (y ∷ q) ∷ r) (fill_row-cells ca p (y ∷ q) b)

fill_rows-cells :
    (p a b : Text)
    → fill_rows (suc (length p)) a b (least_edits p [] ∷ cells p [] b)
      ≡ least_edits (onto a p) [] ∷ cells (onto a p) [] b
unfolding fill_rows least_edits
fill_rows-cells p [] b = refl
fill_rows-cells p (ca ∷ a) b = rw (fill_row-cells ca p [] b) (fill_rows-cells (ca ∷ p) a b)

range_from-cells : (q b : Text) → range_from (length q) (suc (length b)) ≡ length q ∷ cells [] q b
unfolding range_from cells least_edits
range_from-cells q [] = refl
range_from-cells q (y ∷ b) = ap (λ r. length q ∷ r) (range_from-cells (y ∷ q) b)

last_of-cells : (p q b : Text) → last_of (least_edits p q ∷ cells p q b) ≡ least_edits p (onto b q)
unfolding last_of cells
last_of-cells p q [] = refl
last_of-cells p q (y ∷ b) = last_of-cells p (y ∷ q) b

Script-onto :
    {s t u v : Text}
    → (p : Script s t) (q : Script u v)
    → (r : Script (onto s u) (onto t v)) × (edits r ≡ edits p + edits q)
unfolding edits
Script-onto done q = (q, omega arith)
Script-onto (delete x p) q = let (r, e) = Script-onto p (delete x q) in (r, omega arith)
Script-onto (insert y p) q = let (r, e) = Script-onto p (insert y q) in (r, omega arith)
Script-onto (replace x y p) q = let (r, e) = Script-onto p (replace x y q) in (r, omega arith)

least_edits-onto-le : (s t : Text) → least_edits (onto s []) (onto t []) ≤ least_edits s t
unfolding edits
least_edits-onto-le s t =
    let (p, e) = least_edits_attained s t in
    let (r, f) = Script-onto p done in omega (arith, least_edits-le r)

least_edits-onto : (s t : Text) → least_edits (onto s []) (onto t []) ≡ least_edits s t
least_edits-onto s t =
    let back = least_edits-onto-le (onto s []) (onto t []) in
    let forth = least_edits-onto-le s t in
    let whole = rw (onto-involution s, onto-involution t) at back in omega arith

-- The rows end in the least number of edits.
pub rows-least_edits :
    (a b : Text) → last_of (fill_rows 1 a b (range_from 0 (suc (length b)))) ≡ least_edits a b
unfolding least_edits
rows-least_edits a b =
    rw (range_from-cells [] b, fill_rows-cells [] a b)
      (last_of-cells (onto a []) [] b ∙ least_edits-onto a b)
