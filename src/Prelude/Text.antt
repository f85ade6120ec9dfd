-- ===== src/Prelude/Text.antt =====
-- Text as its code points, and the string methods that the source calls. `upper`, `lower` and
-- `strip` are those of ASCII text.
use Prim.Native.Nat.{ℕ, zero, suc, ◌+◌, ◌-◌}
use Prim.Native.Char.{code}
use Prim.Native.String.{String}
use mathlib.Core.Bool.{Bool, true, false, ◌&&◌, ◌||◌}
use mathlib.Core.Option.{Option, none, some}
use mathlib.Core.List.{List, [], ◌∷◌, map, reverse}
use insurance_claim_approval.Prelude.Tests.{leb, ltb, ◌==◌, if◌then◌else◌}
use insurance_claim_approval.Prelude.Lists.{is_empty}

abbrev pub Text : Type 0
Text = List ℕ

abbrev pub codes : String → Text
codes String.[] = []
codes (String.◌∷◌ c s) = code c ∷ codes s

unfoldable pub text_eq : Text → Text → Bool
text_eq [] [] = true
text_eq (x ∷ s) (y ∷ t) = x == y && text_eq s t
text_eq _ _ = false

lower_code : ℕ → ℕ
lower_code c = if leb b'A' c && leb c b'Z' then c + 32 else c

upper_code : ℕ → ℕ
upper_code c = if leb b'a' c && leb c b'z' then c - 32 else c

unfoldable pub lower : Text → Text
unfolding lower_code
lower = map lower_code

unfoldable pub upper : Text → Text
unfolding upper_code
upper = map upper_code

is_space : ℕ → Bool
is_space c = c == 32 || (leb 9 c && leb c 13)

lstrip : Text → Text
lstrip [] = []
lstrip (c ∷ s) = if is_space c then lstrip s else c ∷ s

unfoldable pub strip : Text → Text
unfolding lstrip is_space
strip s = reverse (lstrip (reverse (lstrip s)))

starts_with : Text → Text → Bool
starts_with [] s = true
starts_with (x ∷ p) [] = false
starts_with (x ∷ p) (y ∷ s) = x == y && starts_with p s

-- `needle in haystack`
unfoldable pub contains : Text → Text → Bool
unfolding starts_with
contains p [] = is_empty p
contains p (y ∷ s) = starts_with p (y ∷ s) || contains p s

-- Python's truth of an optional text: neither missing nor empty.
abbrev pub truthy : Option Text → Bool
truthy none = false
truthy (some []) = false
truthy (some (c ∷ s)) = true

-- `s[:n]`
unfoldable pub first_codes : ℕ → Text → Text
first_codes zero s = []
first_codes (suc n) [] = []
first_codes (suc n) (c ∷ s) = c ∷ first_codes n s

put_word : Text → List Text → List Text
put_word [] ws = ws
put_word (c ∷ w) ws = reverse (c ∷ w) ∷ ws

words_from : Text → Text → List Text
words_from w [] = put_word w []
words_from w (c ∷ s) =
    let rest = words_from [] s in
    let more = words_from (c ∷ w) s in if is_space c then put_word w rest else more

-- `s.split()`
unfoldable pub words : Text → List Text
unfolding words_from put_word is_space
words = words_from []

-- Python's order of texts: by the first code point that differs.
unfoldable pub text_lt : Text → Text → Bool
text_lt s [] = false
text_lt [] (y ∷ t) = true
text_lt (x ∷ s) (y ∷ t) = ltb x y || (x == y && text_lt s t)
