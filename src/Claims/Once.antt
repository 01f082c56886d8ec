-- ===== src/Claims/Once.antt =====
-- A pass over a claim writes to NetBox at most once, and only where it may.
use netbox_operator.Common.{
  ℕ, ◌≡◌, ◌≢◌, ◌⊎◌, inl, inr, refl, String, Bool, true, false, not, Option, none, some, List, [],
  ◌∷◌, Bool-cases, if-cases, str_eq, eq_iff, arith,
}
use netbox_operator.Errors.{endpoint_not_ready}
use netbox_operator.Deletion.{deletion_policy_of}
use netbox_operator.Deletion.Backoff.{deletion_hold}
use netbox_operator.Deletion.Setting.{get_annotation}
use package.netbox_operator.Claims.{
  with_allocator, with_endpoint, proceed, on, take_finalizer, guarded, described, reconcile,
}
use package.netbox_operator.Claims.Inputs.{
  Claim, ClaimDescriptor, ClaimEndpoint, Allocator, World, ClaimEffect, posted, deleted,
  finalizers_written, normal, warning, ClaimPass, engine,
}
use package.netbox_operator.Claims.Ends.{stop, finish}
use package.netbox_operator.Claims.Allocate.{allocate_once}
use package.netbox_operator.Claims.Settle.{settled}
use package.netbox_operator.Claims.Release.{
  ClaimRelease, release_without_deleting, free, at_endpoint, unless_held, unless_released,
  releasing, release, delete_blocked,
}
use package.netbox_operator.Claims.Harmless.{
  IsQuiet, stop-IsQuiet, settled-IsQuiet, finish-IsQuiet, release-IsQuiet, delete_blocked-IsQuiet,
  delete_answered-IsQuiet,
}
use package.netbox_operator.Claims.Payload.{IsApart}
use package.netbox_operator.Claims.Allowed.{OneWrite, quiet-OneWrite, Allocatable, Posts}
use package.netbox_operator.Claims.Writes.{allocate_once-One}

-- The API server has the claim with the finalizer on.
abbrev pub IsDurable : World → Claim → Type 0
IsDurable w c =
    (c.finalizer ≡ true)
    ⊎ ((update : Claim → Bool) × (w.finalizers ≡ some update)
        × (update (record c { finalizer = true }) ≡ true))

-- A POST is for a claim that is not deleted, holds nothing and has the finalizer, and a delete is of
-- the recorded object of a deleted claim that neither skips nor retains.
abbrev pub MayWrite : World → Claim → ClaimEffect → Type 0
MayWrite w c (posted endpoint id sub payload) =
    (c.deleting ≡ false)
    × (c.allocated ≡ "")
    × IsDurable w c
    × ((d : ClaimDescriptor) × (e : ClaimEndpoint) × (w.desc ≡ some d)
        × (w.endpoints c.namespace c.endpoint_ref ≡ some e)
        × Allocatable w d e c endpoint id payload)
MayWrite w c (deleted id) =
    (c.deleting ≡ true)
    × (c.finalizer ≡ true)
    × (get_annotation c.annotations "netbox.kubeforge.org/skip-finalizer" ≢ "true")
    × (c.deletion_policy ≢ "Retain")
    × (id ≡ c.status.netbox_id)
    × (id ≢ 0)
MayWrite w c _ = ⊥

OneWrite-map :
    (P Q : ClaimEffect → Type 0)
    → ((x : ClaimEffect) → P x → Q x)
    → (xs : List ClaimEffect) → OneWrite P xs
    → OneWrite Q xs
OneWrite-map P Q f [] h = tt
OneWrite-map P Q f (x ∷ xs) (inl (plain, h)) = inl (plain, OneWrite-map P Q f xs h)
OneWrite-map P Q f (x ∷ xs) (inr (p, plain)) = inr (f x p, plain)

module _ (w : World) (before : Claim) (d : ClaimDescriptor) (described : w.desc ≡ some d)
    (apart : IsApart d.request_fields) where
  abbrev Few : Claim → ClaimPass → Type 0
  Few c p = OneWrite (MayWrite w c) p.effects

  few : (c : Claim) (p : ClaimPass) → IsQuiet p → Few c p
  few c p h = quiet-OneWrite (MayWrite w c) p.effects h

  -- The claim with the finalizer as it is `now`.
  abbrev held : Claim → Bool → Claim
  held c now = record c { finalizer = now }

  Posts-MayWrite :
      (c : Claim) (now : Bool) (e : ClaimEndpoint)
      → c.deleting ≡ false
      → c.allocated ≡ ""
      → IsDurable w c
      → w.endpoints c.namespace c.endpoint_ref ≡ some e
      → (x : ClaimEffect) → Posts w d e (held c now) x
      → MayWrite w c x
  Posts-MayWrite c now e alive empty durable found (posted endpoint id sub payload) p =
      (alive, empty, durable, (d, e, described, found, p))
  Posts-MayWrite c now e alive empty durable found (deleted id) p = absurd p
  Posts-MayWrite c now e alive empty durable found (finalizers_written b) p = absurd p
  Posts-MayWrite c now e alive empty durable found (normal event) p = absurd p
  Posts-MayWrite c now e alive empty durable found (warning event) p = absurd p

  with_allocator-Few :
      (c : Claim) (now : Bool)
      → c.deleting ≡ false
      → c.allocated ≡ ""
      → IsDurable w c
      → (e : ClaimEndpoint) → w.endpoints c.namespace c.endpoint_ref ≡ some e
      → (a : Option Allocator) → e.allocator ≡ a
      → Few c (with_allocator w before d e (held c now) a)
  with_allocator-Few c now alive empty durable e found none wired = tt
  with_allocator-Few c now alive empty durable e found (some a) wired =
      OneWrite-map (Posts w d e (held c now)) (MayWrite w c)
        (Posts-MayWrite c now e alive empty durable found)
        (allocate_once w before d e a (held c now)).effects
        (allocate_once-One w before d e a wired apart (held c now))

  with_endpoint-Few :
      (c : Claim) (now : Bool)
      → c.deleting ≡ false
      → c.allocated ≡ ""
      → IsDurable w c
      → (e : Option ClaimEndpoint) → w.endpoints c.namespace c.endpoint_ref ≡ e
      → Few c (with_endpoint w before d (held c now) e)
  with_endpoint-Few c now alive empty durable none found =
      few c (stop w before none (held c now) (engine endpoint_not_ready))
        (stop-IsQuiet w before none (held c now) (engine endpoint_not_ready))
  with_endpoint-Few c now alive empty durable (some e) found =
      with_allocator-Few c now alive empty durable e found e.allocator refl

  proceed-Few :
      (c : Claim) (now : Bool)
      → c.deleting ≡ false
      → IsDurable w c
      → Few c (proceed w before d (held c now))
  unfolding proceed
  proceed-Few c now alive durable = elim (Bool-cases (str_eq c.allocated "")) [
    | inr f ↦ rw f (
        few c (settled w before d (held c now) c.allocated)
          (settled-IsQuiet w before d (held c now) c.allocated))
    | inl t ↦ rw t (
        with_endpoint-Few c now alive ((eq_iff c.allocated "").0 t) durable
          (w.endpoints c.namespace c.endpoint_ref) refl)
  ]

  take_finalizer-Few :
      (c : Claim)
      → c.deleting ≡ false
      → (u : Option (Claim → Bool)) → w.finalizers ≡ u
      → Few c (take_finalizer w before d c u)
  take_finalizer-Few c alive none wired = tt
  take_finalizer-Few c alive (some update) wired = elim (Bool-cases (update (held c true))) [
    | inl t ↦ rw t (inl (tt, proceed-Few c true alive (inr (update, wired, t))))
    | inr f ↦ rw f tt
  ]

  guarded-Few : (c : Claim) → c.deleting ≡ false → Few c (guarded w before d c)
  guarded-Few c alive =
      if-cases (Few c) c.finalizer _ _ (λ on. proceed-Few c c.finalizer alive (inl on))
        (λ off. take_finalizer-Few c alive w.finalizers refl)

retains_when :
    (policy : String) → policy ≡ "Retain" → str_eq (deletion_policy_of policy) "Retain" ≡ true
retains_when policy e = rw e refl

module _ (w : World) (c : Claim) where
  abbrev Freed : ClaimPass → Type 0
  Freed p = OneWrite (MayWrite w c) p.effects

  freed : (p : ClaimPass) → IsQuiet p → Freed p
  freed p h = quiet-OneWrite (MayWrite w c) p.effects h

  abbrev Entitled : Type 0
  Entitled =
      (get_annotation c.annotations "netbox.kubeforge.org/skip-finalizer" ≢ "true")
      × (c.deletion_policy ≢ "Retain")
      × (c.status.netbox_id ≢ 0)

  -- Past the guards nothing says that the object stays.
  release_without_deleting-Entitled : release_without_deleting c ≡ none → Entitled
  unfolding release_without_deleting
  release_without_deleting-Entitled h = (
    (λ e. ground (
      arith,
      h,
      (eq_iff (get_annotation c.annotations "netbox.kubeforge.org/skip-finalizer") "true").1 e,
    )),
    (λ e. let kept = retains_when c.deletion_policy e in ground (arith, h, kept)),
    (λ e. ground (arith, h, e)),
  )

  at_endpoint-Freed :
      c.deleting ≡ true
      → c.finalizer ≡ true
      → Entitled
      → (e : Option ClaimEndpoint) → Freed (at_endpoint w c c e)
  unfolding free
  at_endpoint-Freed gone on (skip, retain, set) none =
      freed (delete_blocked w c c "WaitingForEndpoint")
        (delete_blocked-IsQuiet w c c "WaitingForEndpoint")
  at_endpoint-Freed gone on (skip, retain, set) (some e) = inr (
    (gone, on, skip, retain, refl, set),
    delete_answered-IsQuiet w c e c (e.client.delete c.status.netbox_id),
  )

  unless_held-Freed :
      c.deleting ≡ true
      → c.finalizer ≡ true
      → Entitled
      → (hold : Option ℕ) → Freed (unless_held w c c hold)
  unless_held-Freed gone on entitled (some wait) =
      freed (finish w c c wait) (finish-IsQuiet w c c wait)
  unless_held-Freed gone on entitled none =
      at_endpoint-Freed gone on entitled (w.endpoints c.namespace c.endpoint_ref)

  unless_released-Freed :
      c.deleting ≡ true
      → c.finalizer ≡ true
      → (out : Option ClaimRelease) → release_without_deleting c ≡ out
      → Freed (unless_released w c c out)
  unless_released-Freed gone on (some out) h = freed (release w c c out) (release-IsQuiet w c c out)
  unless_released-Freed gone on none h =
      unless_held-Freed gone on (release_without_deleting-Entitled h)
        (deletion_hold c.status.deletion_attempts c.status.last_deletion_attempt w.now)

  releasing-Freed : c.deleting ≡ true → Freed (releasing w c c)
  unfolding releasing
  releasing-Freed gone =
      if-cases Freed (not c.finalizer) _ _ (λ off. tt)
        (λ on. unless_released-Freed gone (ground (arith, on)) (release_without_deleting c) refl)

  described-OneWrite :
      ((d : ClaimDescriptor) → w.desc ≡ some d → IsApart d.request_fields)
      → (d : Option ClaimDescriptor) → w.desc ≡ d
      → Freed (described w c d)
  described-OneWrite apart none known = tt
  described-OneWrite apart (some d) known =
      if-cases Freed c.deleting _ _ (λ gone. releasing-Freed gone)
        (λ alive. guarded-Few w c d known (apart d known) c alive)

-- A pass over a claim writes to NetBox at most once: a POST only for a claim that is not deleted,
-- holds nothing and has its finalizer on, for its own identity, carried by the payload and found on
-- no object, out of a pool that allows it, and a delete only of the recorded object of a deleted
-- claim that neither skips nor retains, if no field that the kind requests is the custom fields.
pub reconcile-OneWrite :
    (w : World) (c : Claim)
    → ((d : ClaimDescriptor) → w.desc ≡ some d → IsApart d.request_fields)
    → OneWrite (MayWrite w c) (reconcile w c).effects
unfolding reconcile
reconcile-OneWrite w c apart = described-OneWrite w c apart w.desc refl
