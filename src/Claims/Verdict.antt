-- ===== src/Claims/Verdict.antt =====
-- What the check of an allocation says of it.
use mathlib.Core.Path.{subst}
use netbox_operator.Common.{
  sym, ℕ, ◌≡◌, ◌≢◌, ◌⊎◌, inl, inr, refl, String, Bool, true, false, Option, none, some, List, ◌∷◌,
  [], if-cases, str_eq, eq_iff, lookup, lookup-put_same, arith,
}
use netbox_operator.Json.{Object}
use netbox_operator.Engine.Inputs.{Search, nothing, single, several, search_failed}
use netbox_operator.Errors.Client.{NetboxError, ambiguous}
use package.netbox_operator.Claims.Inputs.{Claim, ClaimDescriptor, ClaimEndpoint, World, ClaimPass}
use package.netbox_operator.Claims.Ends.{ready}
use package.netbox_operator.Claims.Pool.{identity_params, found_in}
use package.netbox_operator.Claims.Settle.{
  dated, contested, pinned, unverifiable, holder_answered, pin_not_held, held_answered, verify_pin,
  pin_verification, when_due, settled,
}
use package.netbox_operator.Claims.Commits.{value_of}
use package.netbox_operator.Claims.Kept.{finish-claim}

-- The Ready condition of the claim, and when it was last verified.
abbrev pub Says : Claim → Bool → String → Option ℕ → Type 0
Says c holds reason at =
    (lookup "Ready" c.status.conditions ≡ some (record { holds = holds; reason = reason }))
    × (c.status.last_verified_at ≡ at)

module _ (w : World) (d : ClaimDescriptor) (e : ClaimEndpoint) (c : Claim) where
  abbrev pub identity_search : Search
  identity_search = e.client.get_one (identity_params w d e c.status.allocation_identity)

  abbrev pub value_search : Search
  value_search = e.client.get_one ((d.result_field, c.allocated) ∷ [])

  -- The object with the identity of the claim has its value.
  abbrev pub Own : Type 0
  Own = (live : Object) × (identity_search ≡ single live) × (value_of w d e live ≡ c.allocated)

  abbrev pub NotOwn : Type 0
  NotOwn =
      (identity_search ≡ nothing)
      ⊎ ((live : Object) × (identity_search ≡ single live) × (value_of w d e live ≢ c.allocated))

  abbrev pub IsAmbiguous : Search → Type 0
  IsAmbiguous s = ((os : List Object) × (s ≡ several os)) ⊎ (s ≡ search_failed ambiguous)

  abbrev pub Failed : Search → Type 0
  Failed s = (f : NetboxError) × (s ≡ search_failed f) × (f ≢ ambiguous)

  -- Ready, checked now and its own; or ready as before, because NetBox did not answer; or lost, since
  -- no object has the value; or contested, since several have the identity or others have the value.
  abbrev pub Verdict : ClaimPass → Type 0
  Verdict p =
      (Says p.claim true "AddressAllocated" (some w.now) × Own)
      ⊎ (Says p.claim true "AddressAllocated" c.status.last_verified_at
          × (Failed identity_search ⊎ (NotOwn × Failed value_search)))
      ⊎ (Says p.claim false "AllocationLost" (some w.now) × NotOwn × (value_search ≡ nothing))
      ⊎ (Says p.claim false "AllocationConflict" (some w.now)
          × (IsAmbiguous identity_search
              ⊎ (NotOwn
                  × (IsAmbiguous value_search
                      ⊎ ((holder : Object) × (value_search ≡ single holder))))))

module _ (w : World) (before : Claim) where
  contested-Says :
      (c : Claim) (reason event : String)
      → Says (contested w before c reason event).claim false reason (some w.now)
  unfolding contested
  contested-Says c reason event = rw (finish-claim w before _ _) (lookup-put_same "Ready" _ _, refl)

  pinned-Says :
      (c : Claim) (wait : ℕ)
      → Says (pinned w before c wait).claim true "AddressAllocated" c.status.last_verified_at
  unfolding pinned ready
  pinned-Says c wait = rw (finish-claim w before _ _) (lookup-put_same "Ready" _ _, refl)

module _ (w : World) (d : ClaimDescriptor) (e : ClaimEndpoint) (before c : Claim) where
  holder_answered-Verdict :
      NotOwn w d e c
      → (s : Search) → value_search w d e c ≡ s
      → Verdict w d e c (holder_answered w before d e c s)
  unfolding unverifiable
  holder_answered-Verdict other nothing asked =
      inr (inr (inl (contested-Says w before c _ _, other, asked)))
  holder_answered-Verdict other (single holder) asked =
      inr (inr (inr (contested-Says w before c _ _, inr (other, inr (holder, asked)))))
  holder_answered-Verdict other (several os) asked =
      inr (inr (inr (contested-Says w before c _ _, inr (other, inl (inl (os, asked))))))
  holder_answered-Verdict other (search_failed ambiguous) asked =
      inr (inr (inr (contested-Says w before c _ _, inr (other, inl (inr asked)))))
  holder_answered-Verdict other (search_failed f) asked =
      inr (inl (pinned-Says w before c _, inr (other, (f, asked, λ z. ground (arith, z)))))

  pin_not_held-Verdict : NotOwn w d e c → Verdict w d e c (pin_not_held w before d e c c.allocated)
  unfolding pin_not_held
  pin_not_held-Verdict other = holder_answered-Verdict other (value_search w d e c) refl

  held_answered-Verdict :
      (s : Search)
      → identity_search w d e c ≡ s
      → Verdict w d e c (held_answered w before d e c c.allocated (found_in s))
  unfolding found_in unverifiable
  held_answered-Verdict nothing asked = pin_not_held-Verdict (inl asked)
  held_answered-Verdict (single held) asked =
      if-cases (Verdict w d e c) (str_eq (value_of w d e held) c.allocated) _ _
        (λ same. inl (
          pinned-Says w before (dated w before c) _,
          (held, asked, (eq_iff (value_of w d e held) c.allocated).0 same),
        ))
        (λ differs. pin_not_held-Verdict (
          inr (
            held,
            asked,
            λ z. ground (arith, (eq_iff (value_of w d e held) c.allocated).1 z, differs),
          )))
  held_answered-Verdict (several os) asked =
      inr (inr (inr (contested-Says w before c _ _, inl (inl (os, asked)))))
  held_answered-Verdict (search_failed ambiguous) asked =
      inr (inr (inr (contested-Says w before c _ _, inl (inr asked))))
  held_answered-Verdict (search_failed f) asked =
      inr (inl (pinned-Says w before c _, inl (f, asked, λ z. ground (arith, z))))

-- A check of an allocation that is due leaves the claim ready only if NetBox shows its own object
-- with its value or does not answer a search; it calls it a conflict only if several objects have the
-- identity of the claim, or its own object is missing or has another value and some other object has
-- the value; and it calls it lost only if its own object is missing or has another value and no
-- object has the value. A check that NetBox answers is dated, and any other keeps the last date.
pub settled-Verdict :
    (w : World) (d : ClaimDescriptor) (e : ClaimEndpoint) (before c : Claim)
    → w.endpoints c.namespace c.endpoint_ref ≡ some e
    → pin_verification w before (some e) c ≡ none
    → Verdict w d e c (settled w before d c c.allocated)
unfolding settled verify_pin
settled-Verdict w d e before c found due =
    subst
      (λ (o : Option ClaimEndpoint).
        Verdict w d e c (when_due w before d o c c.allocated (pin_verification w before o c)))
      (sym found) (rw due (held_answered-Verdict w d e before c (identity_search w d e c) refl))
