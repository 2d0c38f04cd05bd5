-- ===== src/Server/Uuid/Examples.antt =====
-- UUIDs made and checked.
use mesh_alot.Prelude.{ℕ, ◌≡◌, refl, true, false, List, [], ◌∷◌, arith}
use mesh_alot.Prelude.Text.{codes}
use mesh_alot.Server.Uuid.{
  hex_digit, hex_value, hex_decode, remove_dashes, byte_at, valid_uuid_v4, new_uuid_v4,
}
use mesh_alot.Server.Uuid.Roundtrip.{valid-new}

abbrev raw : List ℕ
raw = 0 ∷ 1 ∷ 2 ∷ 3 ∷ 4 ∷ 5 ∷ 255 ∷ 7 ∷ 255 ∷ 9 ∷ 10 ∷ 11 ∷ 12 ∷ 13 ∷ 14 ∷ 15 ∷ []

made : new_uuid_v4 raw ≡ codes "00010203-0405-4f07-bf09-0a0b0c0d0e0f"
unfolding new_uuid_v4 hex_digit
made = refl

version_1_refused : valid_uuid_v4 (codes "00010203-0405-1f07-bf09-0a0b0c0d0e0f") ≡ false
unfolding valid_uuid_v4 hex_value hex_decode remove_dashes byte_at
version_1_refused = refl

valid-new_example : valid_uuid_v4 (new_uuid_v4 raw) ≡ true
valid-new_example = valid-new raw refl (omega arith)
