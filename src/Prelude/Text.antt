-- ===== src/Prelude/Text.antt =====
-- Go strings: lists of bytes, with equality, `strings.TrimSpace` on UTF-8, `%d` and `filepath.Base`.
pub mod Trim
pub mod Fields
pub mod Split
use Prim.Native.Char.{code}
use Prim.Native.String.{String}
use Prim.Native.Nat.{ℕ, zero, suc, ◌+◌, ◌/◌, ◌%◌}
use mathlib.Core.Path.{◌≡◌, refl}
use mathlib.Core.Logic.{◌↔◌}
use mathlib.Core.Bool.{Bool, true, false, ◌&&◌, ◌||◌}
use mathlib.Core.List.{List, [], ◌∷◌, reverse}
use native.Mathlib.Omega.{arith}
use mesh_alot.Prelude.Lists.{is_empty}
use mesh_alot.Prelude.Int.{ℤ, pos, negsuc}
use mesh_alot.Prelude.Tests.{leb, ◌==◌, if◌then◌else◌}

abbrev pub Text : Type 0
Text = List ℕ

-- The bytes of an ASCII literal.
abbrev pub codes : String → Text
codes String.[] = []
codes (String.◌∷◌ c s) = code c ∷ codes s

unfoldable pub text_eq : Text → Text → Bool
text_eq [] [] = true
text_eq [] (y ∷ ys) = false
text_eq (x ∷ xs) [] = false
text_eq (x ∷ xs) (y ∷ ys) = x == y && text_eq xs ys

pub text_eq_iff : (s t : Text) → (text_eq s t ≡ true) ↔ (s ≡ t)
unfolding text_eq
text_eq_iff [] [] = ground arith
text_eq_iff [] (y ∷ ys) = ground arith
text_eq_iff (x ∷ xs) [] = ground arith
text_eq_iff (x ∷ xs) (y ∷ ys) = ground (arith, text_eq_iff xs ys)

-- The encoded white space of `unicode.IsSpace`, by its length: ASCII, U+0085 and U+00A0, and
-- U+1680, U+2000 to U+200A, U+2028, U+2029, U+202F, U+205F and U+3000.
pub is_space1 : ℕ → Bool
is_space1 a = (leb 9 a && leb a 13) || a == 32

pub is_space2 : ℕ → ℕ → Bool
is_space2 a b = a == 0xC2 && (b == 0x85 || b == 0xA0)

pub is_space3 : ℕ → ℕ → ℕ → Bool
is_space3 a b c =
    (a == 0xE1 && b == 0x9A && c == 0x80)
    || (a == 0xE2
        && ((b == 0x80 && ((leb 0x80 c && leb c 0x8A) || c == 0xA8 || c == 0xA9 || c == 0xAF))
            || (b == 0x81 && c == 0x9F)))
    || (a == 0xE3 && b == 0x80 && c == 0x80)

-- How many bytes of white space a text begins with, by its first three bytes; 0 for a byte that
-- is not there, since no white space holds a zero byte.
pub leading : ℕ → ℕ → ℕ → ℕ
unfolding is_space1 is_space2 is_space3
leading a b c =
    if is_space1 a then 1 else if is_space2 a b then 2 else if is_space3 a b c then 3 else 0

-- The same for the end of a text, whose bytes come in reverse.
pub trailing : ℕ → ℕ → ℕ → ℕ
unfolding is_space1 is_space2 is_space3
trailing a b c =
    if is_space1 a then 1 else if is_space2 b a then 2 else if is_space3 c b a then 3 else 0

pub byte_at : Text → ℕ → ℕ
byte_at [] i = 0
byte_at (x ∷ xs) zero = x
byte_at (x ∷ xs) (suc i) = byte_at xs i

pub drop_spaces : (ℕ → ℕ → ℕ → ℕ) → ℕ → Text → Text
unfolding byte_at
drop_spaces width skip [] = []
drop_spaces width (suc k) (x ∷ xs) = drop_spaces width k xs
drop_spaces width zero (x ∷ xs) = elim (width x (byte_at xs 0) (byte_at xs 1)) [
  | zero ↦ x ∷ xs
  | suc k ↦ drop_spaces width k xs
]

-- `strings.TrimSpace`
unfoldable pub trim_space : Text → Text
unfolding drop_spaces leading trailing
trim_space s = reverse (drop_spaces trailing 0 (reverse (drop_spaces leading 0 s)))

trim_space_ascii : trim_space (codes "\t key 7 \n") ≡ codes "key 7"
unfolding trim_space
trim_space_ascii = refl

trim_space_unicode : trim_space (0xC2 ∷ 0xA0 ∷ 97 ∷ 0xE3 ∷ 0x80 ∷ 0x80 ∷ []) ≡ 97 ∷ []
unfolding trim_space
trim_space_unicode = refl

-- `fmt.Sprintf("%d", n)` of an `int`, or of a `uint64`, which has at most twenty digits.
digits : ℕ → ℕ → Text → Text
digits zero n rest = rest
digits (suc k) n rest =
    let more = digits k (n / 10) ((b'0' + n % 10) ∷ rest) in
    if leb n 9 then (b'0' + n) ∷ rest else more

unfoldable pub decimal : ℤ → Text
unfolding digits
decimal (pos n) = digits 20 n []
decimal (negsuc n) = b'-' ∷ digits 20 (suc n) []

drop_slashes : Text → Text
drop_slashes [] = []
drop_slashes (x ∷ xs) = let rest = drop_slashes xs in if x == b'/' then rest else x ∷ xs

until_slash : Text → Text
until_slash [] = []
until_slash (x ∷ xs) = let rest = until_slash xs in if x == b'/' then [] else x ∷ rest

-- `filepath.Base`, where the separator is a slash.
unfoldable pub base_name : Text → Text
unfolding drop_slashes until_slash
base_name path =
    let body = drop_slashes (reverse path) in
    if is_empty path
    then codes "."
    else if is_empty body
    then codes "/"
    else reverse (until_slash body)

decimal_small : decimal (pos 4096) ≡ codes "4096"
unfolding decimal
decimal_small = refl

base_name_file : base_name (codes "/models/m.gguf/") ≡ codes "m.gguf"
unfolding base_name
base_name_file = refl

base_name_root : base_name (codes "//") ≡ codes "/"
unfolding base_name
base_name_root = refl
