-- ===== src/Agent/Inventory/Models/Bounds.antt =====
-- How many models agent/inventory_linux.go reports, beside the limit that server/inventory_auth.go has.
use mesh_alot.Prelude.{
  suc, ◌+◌, ◌≤◌, ◌<◌, ◌≡◌, ◌≢◌, ◌⊎◌, refl, Option, none, List, [], ◌∷◌, length, leb, arith,
  Bool-cases, inl, inr, ◌++◌,
}
use mesh_alot.Prelude.Text.{Text, text_eq, codes}
use mesh_alot.Prelude.Time.{Instant}
use mesh_alot.Prelude.Float.{Float64}
use mesh_alot.Protocol.{Submission, HardwareInventory}
use mesh_alot.Server.Validation.{validate_inventory_submission}
use mesh_alot.Agent.Network.{Runner}
use mesh_alot.Agent.Inventory.{Matching}
use mesh_alot.Agent.Inventory.Models.{
  ModelInventory, WalkEntry, Keyed, put, get, values, insert_model, sort_models, gguf_key,
  put_discovered, put_roots, put_ollama, discover_gguf_models, ollama_models, detect_linux_models,
  ollama_list,
}

length-put-le {ℓ} :
    {A : Type ℓ} (key : Text) (a : A) (m : Keyed A) → length (put key a m) ≤ length m + 1
unfolding put
length-put-le key a [] = omega arith
length-put-le key a ((k, b) ∷ rest) = ground (arith, length-put-le key a rest)

put-new {ℓ} :
    {A : Type ℓ} (key : Text) (a : A) (m : Keyed A)
    → get key m ≡ none
    → length (put key a m) ≡ length m + 1
unfolding put
put-new key a [] h = omega arith
put-new key a ((k, b) ∷ rest) h = elim (Bool-cases (text_eq k key)) [
  | inl same ↦ absurd (ground (arith, h, same))
  | inr other ↦ ground (arith, other, put-new key a rest (ground (arith, h, other)))
]

length-values {ℓ} : {A : Type ℓ} (m : Keyed A) → length (values m) ≡ length m
length-values [] = refl
length-values ((k, a) ∷ rest) = omega (arith, length-values rest)

length-insert :
    (x : ModelInventory) (xs : List ModelInventory) → length (insert_model x xs) ≡ suc (length xs)
length-insert x [] = refl
length-insert x (y ∷ ys) = ground (arith, length-insert x ys)

length-sort : (xs : List ModelInventory) → length (sort_models xs) ≡ length xs
length-sort [] = refl
length-sort (x ∷ xs) = ground (arith, length-sort xs, length-insert x (sort_models xs))

module _ (m : Matching) where
  discovered-le :
      (xs : List ModelInventory) (models : Keyed ModelInventory)
      → (length (put_discovered m xs models) ≤ 200)
        ⊎ (length (put_discovered m xs models) ≤ length models + 1)
  unfolding put_discovered
  discovered-le [] models = inr (omega arith)
  discovered-le (x ∷ xs) models =
      let next = put (gguf_key m x) x models in
      let step = length-put-le (gguf_key m x) x models in
      elim (Bool-cases (leb 200 (length next))) [
        | inl full ↦ inr (ground (arith, full, step))
        | inr room ↦ inl (ground (arith, room, discovered-le xs next))
      ]

  ollama-le :
      (xs : List ModelInventory) (models : Keyed ModelInventory)
      → length (put_ollama m xs models) ≤ length xs + length models
  unfolding put_ollama
  ollama-le [] models = omega arith
  ollama-le (x ∷ xs) models =
      let next = put (codes "ollama" ++ (0 ∷ x.name)) x models in
      ground (arith, ollama-le xs next, length-put-le (codes "ollama" ++ (0 ∷ x.name)) x models)

  roots-le :
      (a b c : List WalkEntry) (models : Keyed ModelInventory)
      → (length (put_roots m (a ∷ b ∷ c ∷ []) models) ≤ 202)
        ⊎ (length (put_roots m (a ∷ b ∷ c ∷ []) models) ≤ length models + 3)
  unfolding put_roots
  roots-le a b c models =
      let one = put_discovered m (discover_gguf_models m a) models in
      let two = put_discovered m (discover_gguf_models m b) one in
      let first = discovered-le (discover_gguf_models m a) models in
      let second = discovered-le (discover_gguf_models m b) one in
      let third = discovered-le (discover_gguf_models m c) two in
      ground (arith, first, second, third)

  -- An inventory names at most 202 models or, if that is more, three more than Ollama lists:
  -- the limit of 200 is tested only after a model is added.
  pub detected_models-length-le {ℓ} :
      {F : Type ℓ} ⦃f : Float64 F⦄ (upper : Text → Text) (parse_float : Text → Option F)
      (run : Runner) (hub cache models : List WalkEntry)
      → (length (detect_linux_models m upper parse_float run hub cache models) ≤ 202)
        ⊎ (length (detect_linux_models m upper parse_float run hub cache models)
            ≤ length (ollama_models upper parse_float (run 6 ollama_list)) + 3)
  unfolding detect_linux_models
  detected_models-length-le upper parse_float run hub cache models =
      let listed = ollama_models upper parse_float (run 6 ollama_list) in
      let first = put_ollama m listed [] in
      let all = put_roots m (hub ∷ cache ∷ models ∷ []) first in
      ground (
        arith,
        length-sort (values all),
        length-values all,
        roots-le hub cache models first,
        ollama-le listed [],
      )

  -- When 200 models are found, a directory whose first model is new adds exactly this one; and a
  -- submission with so many models is one that the server refuses, whatever else it holds.
  pub full_models-refused :
      (x : ModelInventory) (xs : List ModelInventory) (models : Keyed ModelInventory)
      (s : Submission HardwareInventory) (now : Instant)
      → 200 ≤ length models
      → get (gguf_key m x) models ≡ none
      → length s.benchmark.models ≡ length (put_discovered m (x ∷ xs) models)
      → (length (put_discovered m (x ∷ xs) models) ≡ length models + 1)
        × (validate_inventory_submission s now ≢ none)
  unfolding put_discovered validate_inventory_submission
  full_models-refused x xs models s now full new same =
      let grown = put-new (gguf_key m x) x models new in
      let more : length (put_discovered m (x ∷ xs) models) ≡ length models + 1 =
        ground (arith, grown, full) in
      let many : 200 < length s.benchmark.models = omega (arith, same, more, full) in
      (more, λ h. ground (arith, many, h))
