-- ===== src/Claims.antt =====
-- internal/reconciler/claim.go: the allocation of an address or a prefix for a claim. `Inputs` has
-- what a pass reads, `Pool` the identity and the pool, `Allocate` the allocation, `Settle` the check
-- of an allocation, `Release` the deletion, and `Ends` how a pass ends.
pub mod Inputs
pub mod Ends
pub mod Pool
pub mod Allocate
pub mod Settle
pub mod Release
pub mod Harmless
pub mod Payload
pub mod Allowed
pub mod Writes
pub mod Once
pub mod Runs
pub mod Kept
pub mod Commits
pub mod Held
pub mod GivesUp
pub mod Tries
pub mod Verdict
mod Tests
use netbox_operator.Common.{
  String, Bool, true, false, not, Option, none, some, [], ◌∷◌, str_eq, if◌then◌else◌,
}
use netbox_operator.Errors.{endpoint_not_ready}
use Inputs.{
  Claim, ClaimDescriptor, ClaimEndpoint, Allocator, World, engine, finalizers_written,
  no_descriptor, not_configured, no_allocator, finalizers_refused, ClaimError, failed, ClaimPass,
}
use Ends.{after, stop}
use Allocate.{allocate_once}
use Settle.{settled}
use Release.{releasing}

abbrev pub returned : Claim → ClaimError → ClaimPass
returned c e = record { claim = c; effects = []; saved = false; answer = failed e }

module _ (w : World) (before : Claim) (d : ClaimDescriptor) where
  abbrev pub with_allocator : ClaimEndpoint → Claim → Option Allocator → ClaimPass
  with_allocator e c none = returned c no_allocator
  with_allocator e c (some a) = allocate_once w before d e a c

  abbrev pub with_endpoint : Claim → Option ClaimEndpoint → ClaimPass
  with_endpoint c none = stop w before none c (engine endpoint_not_ready)
  with_endpoint c (some e) = with_allocator e c e.allocator

  -- Reconcile past the finalizer.
  unfoldable pub proceed : Claim → ClaimPass
  proceed c =
      if not (str_eq c.allocated "")
      then settled w before d c c.allocated
      else with_endpoint c (w.endpoints c.namespace c.endpoint_ref)

  abbrev pub on : Claim → Claim
  on c = record c { finalizer = true }

  -- takeFinalizer and what follows it.
  abbrev pub take_finalizer : Claim → Option (Claim → Bool) → ClaimPass
  take_finalizer c none = returned c not_configured
  take_finalizer c (some update) =
      if update (on c)
      then after (finalizers_written true ∷ []) (proceed (on c))
      else returned c finalizers_refused

  abbrev pub guarded : Claim → ClaimPass
  guarded c = if c.finalizer then proceed c else take_finalizer c w.finalizers

abbrev pub described : World → Claim → Option ClaimDescriptor → ClaimPass
described w c none = returned c no_descriptor
described w c (some d) = if c.deleting then releasing w c c else guarded w c d c

unfoldable pub reconcile : World → Claim → ClaimPass
reconcile w c = described w c w.desc
