-- ===== src/Prelude/Text/Fields.antt =====
-- `strings.Fields`, `strings.HasPrefix` and `strconv.Atoi` on byte strings.
use Prim.Native.Nat.{ℕ, zero, suc, ◌+◌, ◌-◌, ◌*◌}
use mathlib.Core.Path.{◌≡◌, refl}
use mathlib.Core.Bool.{Bool, true, false, ◌&&◌}
use mathlib.Core.List.{List, [], ◌∷◌, reverse}
use mathlib.Core.Option.{Option, none, some}
use mesh_alot.Prelude.Int.{ℤ, pos, negsuc}
use mesh_alot.Prelude.Tests.{leb, ltb, ◌==◌, if◌then◌else◌}
use mesh_alot.Prelude.Text.{Text, codes, leading, byte_at, is_space1, is_space2, is_space3}

abbrev pub flush : Text → List Text → List Text
flush [] rest = rest
flush (x ∷ xs) rest = reverse (x ∷ xs) ∷ rest

-- The fields of what follows, after the bytes of a field, in reverse, and with the bytes of a space
-- to skip. No byte inside a UTF-8 sequence begins a space.
pub fields_after : ℕ → Text → Text → List Text
fields_after skip field [] = flush field []
fields_after (suc k) field (x ∷ xs) = fields_after k field xs
fields_after zero field (x ∷ xs) = elim (leading x (byte_at xs 0) (byte_at xs 1)) [
  | zero ↦ fields_after zero (x ∷ field) xs
  | suc k ↦ flush field (fields_after k [] xs)
]

-- `strings.Fields`
unfoldable pub fields : Text → List Text
unfolding fields_after leading byte_at is_space1 is_space2 is_space3
fields s = fields_after 0 [] s

unfoldable pub has_prefix : Text → Text → Bool
has_prefix s [] = true
has_prefix [] (y ∷ ys) = false
has_prefix (x ∷ xs) (y ∷ ys) = x == y && has_prefix xs ys

-- The value of decimal digits, at least one of them.
pub digits_value : ℕ → Text → Option ℕ
digits_value acc [] = some acc
digits_value acc (x ∷ xs) =
    let rest = digits_value (acc * 10 + (x - b'0')) xs in
    if leb b'0' x && leb x b'9' then rest else none

unfoldable pub magnitude : Text → Option ℕ
unfolding digits_value
magnitude [] = none
magnitude (x ∷ xs) = digits_value 0 (x ∷ xs)

-- Within `int64`, or out of range.
abbrev pub positive : Option ℕ → Option ℤ
positive none = none
positive (some n) = if ltb n 9_223_372_036_854_775_808 then some (pos n) else none

abbrev pub negative : Option ℕ → Option ℤ
negative none = none
negative (some zero) = some (pos 0)
negative (some (suc n)) = if ltb n 9_223_372_036_854_775_808 then some (negsuc n) else none

-- `strconv.Atoi`, without the value that goes with an error
unfoldable pub atoi : Text → Option ℤ
unfolding magnitude
atoi [] = none
atoi (x ∷ xs) =
    if x == b'-'
    then negative (magnitude xs)
    else if x == b'+'
    then positive (magnitude xs)
    else positive (magnitude (x ∷ xs))

-- The value that `strconv.Atoi` returns, error or not, where it is positive: the greatest `int` for
-- digits out of range, and 0 for a text that is no number.
abbrev clamped : Option ℕ → ℕ
clamped none = 0
clamped (some n) = if ltb n 9_223_372_036_854_775_808 then n else 9_223_372_036_854_775_807

unfoldable pub atoi_count : Text → ℕ
unfolding magnitude
atoi_count [] = 0
atoi_count (x ∷ xs) =
    if x == b'-' then 0 else clamped (if x == b'+' then magnitude xs else magnitude (x ∷ xs))

fields_two : fields (codes " 200  12.5\n") ≡ codes "200" ∷ codes "12.5" ∷ []
unfolding fields
fields_two = refl

atoi_small : atoi (codes "-20") ≡ some (negsuc 19)
unfolding atoi
atoi_small = refl

atoi_range : atoi (codes "9223372036854775808") ≡ none
unfolding atoi
atoi_range = refl
