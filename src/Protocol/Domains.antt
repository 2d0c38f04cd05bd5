-- ===== src/Protocol/Domains.antt =====
-- The signing domains of protocol/v1/*_auth.go are apart.
use mesh_alot.Prelude.{ℕ, ◌≡◌, refl, ◌≢◌, ap, none, some, get_elem?, arith}
use mesh_alot.Prelude.Text.{Text}
use mesh_alot.Protocol.{inventory_signing_message, network_signing_message, compute_signing_message}

-- The eleventh byte, which tells the kinds of message apart.
tag : Text → ℕ
tag m = elim (get_elem? m 10) [ none ↦ 0 | some c ↦ c ]

module _ (digest : Text → Text) where
  tags :
      (b : Text)
      → (tag (inventory_signing_message digest b) ≡ b'7')
        × (tag (network_signing_message digest b) ≡ b'8')
        × (tag (compute_signing_message digest b) ≡ b'9')
  unfolding inventory_signing_message network_signing_message compute_signing_message tag
  tags b = (refl, refl, refl)

  -- Whatever the digest of a body is, no message to be signed for one kind of submission is that of
  -- another kind, for the same body or for two bodies.
  pub domains_apart :
      (b c : Text)
      → (inventory_signing_message digest b ≢ network_signing_message digest c)
        × (inventory_signing_message digest b ≢ compute_signing_message digest c)
        × (network_signing_message digest b ≢ compute_signing_message digest c)
  domains_apart b c = (
    λ e. absurd (omega (arith, tags b, tags c, ap tag e)),
    λ e. absurd (omega (arith, tags b, tags c, ap tag e)),
    λ e. absurd (omega (arith, tags b, tags c, ap tag e)),
  )
