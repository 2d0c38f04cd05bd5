-- ===== src/Prelude/Text/Split.antt =====
-- `strings.Split` and `strings.Cut` at a byte, `strings.Contains`, `strings.TrimPrefix`,
-- `strings.Trim` and `strconv.ParseUint`.
use Prim.Native.Nat.{ℕ, zero, suc}
use mathlib.Core.Path.{◌≡◌, refl}
use mathlib.Core.Bool.{Bool, true, ◌||◌}
use mathlib.Core.List.{List, [], ◌∷◌, reverse}
use mathlib.Core.Option.{Option, none, some}
use native.Mathlib.Omega.{arith}
use mesh_alot.Prelude.Lists.{length}
use mesh_alot.Prelude.Tests.{ltb, ◌==◌, if◌then◌else◌}
use mesh_alot.Prelude.Text.{Text}
use mesh_alot.Prelude.Text.Fields.{has_prefix, magnitude}

abbrev pub prepend : ℕ → List Text → List Text
prepend x [] = (x ∷ []) ∷ []
prepend x (line ∷ lines) = (x ∷ line) ∷ lines

-- The lines of a text, or its parts at another byte: always one more than there are such bytes.
unfoldable pub split : ℕ → Text → List Text
split b [] = [] ∷ []
split b (x ∷ xs) = let rest = split b xs in if x == b then [] ∷ rest else prepend x rest

abbrev pub lines : Text → List Text
lines raw = split 10 raw

abbrev before : ℕ → Option (Text × Text) → Option (Text × Text)
before x none = none
before x (some (key, value)) = some (x ∷ key, value)

unfoldable pub cut : ℕ → Text → Option (Text × Text)
cut b [] = none
cut b (x ∷ xs) = let rest = cut b xs in if x == b then some ([], xs) else before x rest

unfoldable pub contains_text : Text → Text → Bool
contains_text [] t = has_prefix [] t
contains_text (x ∷ xs) t = has_prefix (x ∷ xs) t || contains_text xs t

abbrev pub drop : ℕ → Text → Text
drop zero xs = xs
drop (suc n) [] = []
drop (suc n) (x ∷ xs) = drop n xs

unfoldable pub trim_prefix : Text → Text → Text
trim_prefix s t = if has_prefix s t then drop (length t) s else s

-- `strings.TrimSuffix`
unfoldable pub trim_suffix : Text → Text → Text
unfolding trim_prefix
trim_suffix s t = reverse (trim_prefix (reverse s) (reverse t))

drop_quotes : Text → Text
drop_quotes [] = []
drop_quotes (x ∷ xs) = let rest = drop_quotes xs in if x == 34 || x == 39 then rest else x ∷ xs

-- `strings.Trim` of double and single quotes
unfoldable pub trim_quotes : Text → Text
unfolding drop_quotes
trim_quotes s = reverse (drop_quotes (reverse (drop_quotes s)))

abbrev within_uint64 : Option ℕ → Option ℕ
within_uint64 none = none
within_uint64 (some n) = if ltb n 18_446_744_073_709_551_616 then some n else none

-- `strconv.ParseUint` in base 10
unfoldable pub parse_uint : Text → Option ℕ
unfolding magnitude
parse_uint s = within_uint64 (magnitude s)

has_prefix_refl : (t : Text) → has_prefix t t ≡ true
unfolding has_prefix
has_prefix_refl [] = refl
has_prefix_refl (x ∷ xs) = ground (arith, has_prefix_refl xs)

pub contains_refl : (t : Text) → contains_text t t ≡ true
unfolding contains_text
contains_refl [] = has_prefix_refl []
contains_refl (x ∷ xs) = ground (arith, has_prefix_refl (x ∷ xs))
