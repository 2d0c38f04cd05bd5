-- ===== src/Prelude/Outcome.antt =====
-- A value or an error, for Go's `(T, error)`; a `do` block stops at the first error.
use mathlib.Core.Path.{◌≡◌, refl, ap}
use mathlib.Core.Bool.{Bool, true, false}

pub data Outcome {ℓ} (E : Type 0) (T : Type ℓ) : Type ℓ where
  err : E → Outcome E T
  ok : T → Outcome E T

infixl 6 ◌>>=◌
infixl 6 ◌>>◌
abbrev pub ◌>>=◌ {κ ℓ} :
    {E : Type 0} {S : Type κ} {T : Type ℓ} → Outcome E S → (S → Outcome E T) → Outcome E T
err reason >>= next = err reason
ok value >>= next = next value

abbrev pub ◌>>◌ {ℓ} : {E : Type 0} {T : Type ℓ} → Outcome E (Unit {0}) → Outcome E T → Outcome E T
first >> next = first >>= λ _. next

-- `if !test { return reason }`
abbrev pub guard : {E : Type 0} → Bool → E → Outcome E (Unit {0})
guard test reason = elim test [ false ↦ err reason | true ↦ ok tt ]

-- What a chain of two steps has done when it succeeds.
pub >>=-eq-ok {κ ℓ} :
    {E : Type 0} {S : Type κ} {T : Type ℓ} (first : Outcome E S) (next : S → Outcome E T)
    {result : T}
    → (first >>= next) ≡ ok result
    → (s : S) × (first ≡ ok s) × (next s ≡ ok result)
>>=-eq-ok (err reason) next h = cc
>>=-eq-ok (ok s) next h = (s, refl, h)

pub ok_inj {ℓ} : {E : Type 0} {T : Type ℓ} {s t : T} → (◌≡◌ {A = Outcome E T} (ok s) (ok t)) → s ≡ t
ok_inj {s = s} h = ap (λ o. elim o [ err reason ↦ s | ok value ↦ value ]) h

-- A chain of two tests passes if both do.
pub >>-eq-ok {ℓ} :
    {E : Type 0} {T : Type ℓ} (first : Outcome E (Unit {0})) (next : Outcome E T) {result : T}
    → (first >> next) ≡ ok result
    → (first ≡ ok tt) × (next ≡ ok result)
>>-eq-ok (err reason) next h = cc
>>-eq-ok (ok tt) next h = (refl, h)
