-- ===== src/Mdm/Distance/Scripts.antt =====
-- Edit scripts between two texts, and the least number of edits. This is the reference that
-- `edit_distance` is compared with.
use native.Mathlib.Decide.{dec_le}
use native.Mathlib.Numerals.{bound}
use insurance_claim_approval.Prelude.{ℕ, suc, ◌+◌, ◌≤◌, min, ◌≡◌, refl, [], ◌∷◌, arith, length}
use insurance_claim_approval.Prelude.Text.{Text}
use insurance_claim_approval.Mdm.Distance.{differ}

differ-le_one : (x y : ℕ) → differ x y ≤ 1
unfolding differ
differ-le_one x y = ground arith

differ_self : (x : ℕ) → differ x x ≡ 0
unfolding differ
differ_self x = ground arith

differ_comm : (x y : ℕ) → differ x y ≡ differ y x
unfolding differ
differ_comm x y = ground arith

-- A way to turn the first text into the second.
pub data Script : Text → Text → Type 0 where
  done : Script [] []
  delete : {s t : Text} (x : ℕ) → Script s t → Script (x ∷ s) t
  insert : {s t : Text} (y : ℕ) → Script s t → Script s (y ∷ t)
  replace : {s t : Text} (x y : ℕ) → Script s t → Script (x ∷ s) (y ∷ t)

-- Its edits: putting a character in place of itself is none.
unfoldable pub edits : {s t : Text} → Script s t → ℕ
edits done = 0
edits (delete x p) = edits p + 1
edits (insert y p) = edits p + 1
edits (replace x y p) = edits p + differ x y

unfoldable pub least_edits : Text → Text → ℕ
least_edits [] t = length t
least_edits (x ∷ s) [] = suc (length s)
least_edits (x ∷ s) (y ∷ t) =
    min (min (least_edits s (y ∷ t) + 1) (least_edits (x ∷ s) t + 1)) (least_edits s t + differ x y)

pub least_edits_nil : (s : Text) → least_edits s [] ≡ length s
unfolding least_edits
least_edits_nil [] = refl
least_edits_nil (x ∷ s) = refl

pub least_edits-le : {s t : Text} (p : Script s t) → least_edits s t ≤ edits p
unfolding least_edits edits
least_edits-le done = omega arith
least_edits-le (delete {s} {t = []} x p) = omega (arith, least_edits-le p, least_edits_nil s)
least_edits-le (delete {t = y ∷ t} x p) = grw (bound, ← least_edits-le p) (omega arith)
least_edits-le (insert {s = []} y p) = omega (arith, least_edits-le p)
least_edits-le (insert {s = x ∷ s} y p) = grw (bound, ← least_edits-le p) (omega arith)
least_edits-le (replace x y p) = grw (bound, ← least_edits-le p) (omega arith)

abbrev HasEdits : Text → Text → ℕ → Type 0
HasEdits s t n = (p : Script s t) × (edits p ≡ n)

HasEdits-min : {s t : Text} {m n : ℕ} → HasEdits s t m → HasEdits s t n → HasEdits s t (min m n)
HasEdits-min {m} {n} p q = elim (dec_le m n) [
  | yes h ↦ (p.0, omega arith)
  | no h ↦ (q.0, omega arith)
]

pub least_edits_attained : (s t : Text) → (p : Script s t) × (edits p ≡ least_edits s t)
unfolding least_edits edits
least_edits_attained [] [] = (done, refl)
least_edits_attained [] (y ∷ t) =
    let (p, e) = least_edits_attained [] t in (insert y p, omega arith)
least_edits_attained (x ∷ s) [] =
    let (p, e) = least_edits_attained s [] in (delete x p, omega (arith, least_edits_nil s))
least_edits_attained (x ∷ s) (y ∷ t) =
    let (p, ep) = least_edits_attained s (y ∷ t) in
    let (q, eq) = least_edits_attained (x ∷ s) t in
    let (r, er) = least_edits_attained s t in
    HasEdits-min (HasEdits-min (delete x p, rw ep) (insert y q, rw eq)) (replace x y r, rw er)

pub least_edits_comm : (s t : Text) → least_edits s t ≡ least_edits t s
unfolding least_edits
least_edits_comm [] [] = refl
least_edits_comm [] (y ∷ t) = refl
least_edits_comm (x ∷ s) [] = refl
least_edits_comm (x ∷ s) (y ∷ t) =
    rw (differ_comm x y)
      (omega (arith, least_edits_comm s (y ∷ t), least_edits_comm (x ∷ s) t, least_edits_comm s t))

pub least_edits_self : (s : Text) → least_edits s s ≡ 0
unfolding least_edits
least_edits_self [] = refl
least_edits_self (x ∷ s) = rw (least_edits_self s, differ_self x) (omega arith)
