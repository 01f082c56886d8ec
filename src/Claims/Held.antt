-- ===== src/Claims/Held.antt =====
-- What a claim holds after a pass.
use netbox_operator.Common.{◌≡◌, ◌⊎◌, Bool, false, some}
use package.netbox_operator.Claims.Inputs.{
  Claim, ClaimDescriptor, ClaimEndpoint, Allocator, World, ClaimPass,
}
use package.netbox_operator.Claims.Commits.{Committed}
use package.netbox_operator.Claims.Kept.{Keeps}
use package.netbox_operator.Claims.Once.{IsDurable}

-- The claim had nothing and was not deleted, its finalizer was on, and it now holds an object that
-- NetBox has shown to be its own.
abbrev pub Gained : World → Claim → Claim → Type 0
Gained w c c' =
    (c.allocated ≡ "")
    × (c.deleting ≡ false)
    × IsDurable w c
    × ((d : ClaimDescriptor) × (e : ClaimEndpoint) × (a : Allocator) × (w.desc ≡ some d)
        × (w.endpoints c.namespace c.endpoint_ref ≡ some e)
        × (e.allocator ≡ some a)
        × Committed w d e a c c')

module _ (w : World) (c : Claim) where
  abbrev Settles : ClaimPass → Type 0
  Settles p = Keeps c p ⊎ Gained w c p.claim

  abbrev held : Bool → Claim
  held now = record c { finalizer = now }
