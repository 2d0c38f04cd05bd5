-- ===== src/Server/Uuid.antt =====
-- Version 4 UUIDs: `newUUIDv4` of agent/identity.go makes one of 16 random bytes, and `validUUIDv4`
-- of server/enrollment.go (and, the same text, of agent/identity.go) checks one.
pub mod Roundtrip
mod Examples
use mesh_alot.Prelude.{
  ℕ, zero, suc, ◌+◌, ◌-◌, ◌*◌, ◌/◌, ◌%◌, Bool, true, false, ◌&&◌, ◌||◌, Option, none, some, List,
  [], ◌∷◌, ◌++◌, length, ltb, leb, ◌==◌, if◌then◌else◌,
}
use mesh_alot.Prelude.Text.{Text}

abbrev pub dash : ℕ
dash = b'-'

-- `encoding/hex`: two lower-case digits for a byte; digits of either case are read.
unfoldable pub hex_digit : ℕ → ℕ
hex_digit n = if ltb n 10 then 48 + n else 87 + n

unfoldable pub hex_encode : List ℕ → Text
hex_encode [] = []
hex_encode (b ∷ bs) = hex_digit (b / 16) ∷ hex_digit (b % 16) ∷ hex_encode bs

unfoldable pub hex_value : ℕ → Option ℕ
hex_value c =
    if leb b'0' c && leb c b'9'
    then some (c - 48)
    else if leb b'a' c && leb c b'f'
    then some (c - 87)
    else if leb b'A' c && leb c b'F'
    then some (c - 55)
    else none

abbrev byte_of : Option ℕ → Option ℕ → Option (List ℕ) → Option (List ℕ)
byte_of (some h) (some l) (some bs) = some ((h * 16 + l) ∷ bs)
byte_of _ _ _ = none

unfoldable pub hex_decode : Text → Option (List ℕ)
hex_decode [] = some []
hex_decode (x ∷ []) = none
hex_decode (x ∷ y ∷ s) = byte_of (hex_value x) (hex_value y) (hex_decode s)

-- `strings.ReplaceAll(value, "-", "")`
unfoldable pub remove_dashes : Text → Text
remove_dashes [] = []
remove_dashes (c ∷ s) = let rest = remove_dashes s in if c == dash then rest else c ∷ rest

unfoldable pub byte_at : List ℕ → ℕ → ℕ
byte_at [] i = 0
byte_at (x ∷ xs) zero = x
byte_at (x ∷ xs) (suc i) = byte_at xs i

-- The last line of the source: `raw[6]>>4 == 4 && raw[8]&0xc0 == 0x80`.
abbrev has_version : Option (List ℕ) → Bool
has_version none = false
has_version (some raw) =
    (length raw == 16) && (byte_at raw 6 / 16 == 4) && (byte_at raw 8 / 64 == 2)

unfoldable pub valid_uuid_v4 : Text → Bool
valid_uuid_v4 value =
    (length value == 36)
    && (byte_at value 8 == dash)
    && (byte_at value 13 == dash)
    && (byte_at value 18 == dash)
    && (byte_at value 23 == dash)
    && has_version (hex_decode (remove_dashes value))

-- `(b & 0x0f) | 0x40` and `(b & 0x3f) | 0x80`, whose halves share no bit.
abbrev version_bits : ℕ → ℕ
version_bits b = b % 16 + 64

abbrev variant_bits : ℕ → ℕ
variant_bits b = b % 64 + 128

stamp : List ℕ → List ℕ
stamp (b0 ∷ b1 ∷ b2 ∷ b3 ∷ b4 ∷ b5 ∷ b6 ∷ b7 ∷ b8 ∷ rest) =
    b0 ∷ b1 ∷ b2 ∷ b3 ∷ b4 ∷ b5 ∷ version_bits b6 ∷ b7 ∷ variant_bits b8 ∷ rest
stamp other = other

take : ℕ → Text → Text
take zero s = []
take (suc n) [] = []
take (suc n) (c ∷ s) = c ∷ take n s

drop : ℕ → Text → Text
drop zero s = s
drop (suc n) [] = []
drop (suc n) (c ∷ s) = drop n s

-- `s[i:j]`
abbrev slice : Text → ℕ → ℕ → Text
slice s i j = take (j - i) (drop i s)

-- The argument is the random bytes of the source's `[16]byte`.
unfoldable pub new_uuid_v4 : List ℕ → Text
unfolding hex_encode stamp take drop
new_uuid_v4 raw =
    let hex = hex_encode (stamp raw) in
    slice hex 0 8
    ++ (dash ∷ slice hex 8 12)
    ++ (dash ∷ slice hex 12 16)
    ++ (dash ∷ slice hex 16 20)
    ++ (dash ∷ slice hex 20 32)
