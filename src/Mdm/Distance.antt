-- ===== src/Mdm/Distance.antt =====
-- `edit_distance` of cde/jobs/build_mdm.py. `prev` and `cur` are lists read from their left end:
-- the cells `prev[j - 1]`, `prev[j]` and `cur[j - 1]` are passed along.
pub mod Scripts
pub mod Rows
use insurance_claim_approval.Prelude.{
  ℕ, zero, suc, ◌+◌, ◌-◌, min, List, [], ◌∷◌, ltb, ◌==◌, if◌then◌else◌, length,
}
use insurance_claim_approval.Prelude.Text.{Text}

-- `ca != cb`, as a number
unfoldable pub differ : ℕ → ℕ → ℕ
differ x y = if x == y then 0 else 1

-- The inner loop: the cells after `left`.
unfoldable pub fill_row : ℕ → Text → List ℕ → ℕ → List ℕ
fill_row ca [] prev left = []
fill_row ca (cb ∷ b) [] left = []
fill_row ca (cb ∷ b) (diagonal ∷ []) left = []
fill_row ca (cb ∷ b) (diagonal ∷ above ∷ prev) left =
    let cell : ℕ = min (min (above + 1) (left + 1)) (diagonal + differ ca cb) in
    cell ∷ fill_row ca b (above ∷ prev) cell

-- The outer loop, from row `i` on.
unfoldable pub fill_rows : ℕ → Text → Text → List ℕ → List ℕ
fill_rows i [] b prev = prev
fill_rows i (ca ∷ a) b prev = fill_rows (suc i) a b (i ∷ fill_row ca b prev i)

-- `list(range(start, start + n))`
unfoldable pub range_from : ℕ → ℕ → List ℕ
range_from start zero = []
range_from start (suc n) = start ∷ range_from (suc start) n

unfoldable pub last_of : List ℕ → ℕ
last_of [] = 0
last_of (x ∷ []) = x
last_of (x ∷ y ∷ xs) = last_of (y ∷ xs)

-- `abs(m - n)`
abbrev pub gap : ℕ → ℕ → ℕ
gap m n = (m - n) + (n - m)

unfoldable pub edit_distance : Text → Text → ℕ → ℕ
edit_distance a b limit =
    if ltb limit (gap (length a) (length b))
    then limit + 1
    else last_of (fill_rows 1 a b (range_from 0 (suc (length b))))
