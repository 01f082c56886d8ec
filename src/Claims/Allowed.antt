-- ===== src/Claims/Allowed.antt =====
-- Why a pass over a claim may send a POST, and what its guards say of the pool and the identity.
use mathlib.Core.Path.{subst}
use netbox_operator.Common.{
  ℕ, ◌<◌, ◌≤◌, ◌≡◌, ◌≢◌, ◌⊎◌, inl, inr, refl, String, true, false, Option, none, some, List, [],
  ◌∷◌, All, Bool-cases, contains, arith,
}
use netbox_operator.Common.Result.{Result, ok, err, >>=-eq-ok}
use netbox_operator.Json.{Object, get, as_string, as_int, choice_of, custom_field_of}
use netbox_operator.Engine.Inputs.{Search, nothing, single, several, search_failed}
use netbox_operator.Errors.Client.{NetboxError, ambiguous}
use netbox_operator.Placement.Netip.{Prefix}
use netbox_operator.Provenance.{stamp_applicable}
use package.netbox_operator.Claims.Inputs.{
  Claim, ClaimDescriptor, ClaimEndpoint, Allocator, World, ClaimEffect, posted, ClaimPass,
}
use package.netbox_operator.Claims.Ends.{after}
use package.netbox_operator.Claims.Pool.{
  Pool, wired, netbox, pool_ref, or_unresolved, pool_request, set_pool, parsed_pool, is_set,
  flagged, found_in, derived, resolve_pool, identity_params, admit_length,
}
use package.netbox_operator.Claims.Harmless.{IsHarmless}

-- At most one effect writes to NetBox, and `P` holds of it.
abbrev pub OneWrite : (ClaimEffect → Type 0) → List ClaimEffect → Type 0
OneWrite P [] = Unit
OneWrite P (x ∷ xs) = (IsHarmless x × OneWrite P xs) ⊎ (P x × All IsHarmless xs)

pub quiet-OneWrite :
    (P : ClaimEffect → Type 0) (xs : List ClaimEffect) → All IsHarmless xs → OneWrite P xs
quiet-OneWrite P [] h = tt
quiet-OneWrite P (x ∷ xs) h = inl (h.0, quiet-OneWrite P xs h.1)

pub after-OneWrite :
    (P : ClaimEffect → Type 0) (xs : List ClaimEffect) (p : ClaimPass)
    → All IsHarmless xs
    → OneWrite P p.effects
    → OneWrite P (after xs p).effects
after-OneWrite P [] p h q = q
after-OneWrite P (x ∷ xs) p h q = inl (h.0, after-OneWrite P xs p h.1 q)

-- The identity is the one that the spec names, or the derived one where it names none.
abbrev pub IsIdentity :
    World → ClaimDescriptor → ClaimEndpoint → Allocator → Claim → String → Type 0
IsIdentity w d e a c identity =
    ((c.explicit_identity ≢ "") × (identity ≡ c.explicit_identity))
    ⊎ ((c.explicit_identity ≡ "") × (identity ≡ derived w d e a c))

-- A length that is asked for is longer than that of the pool and no longer than an address.
abbrev pub LengthFits : Prefix → Option ℕ → Type 0
LengthFits cidr none = Unit
LengthFits cidr (some n) = (cidr.length < n) × (n ≤ cidr.addr.bits)

-- The pool is there, is a network, and neither its flags nor its status forbid an allocation.
abbrev pub OpenPool : World → ClaimDescriptor → ClaimEndpoint → String → ℕ → Object → Type 0
OpenPool w d e endpoint id payload =
    (live : Object) × (cidr : Prefix) × (e.client.get_by_id endpoint id ≡ ok (some live))
    × (w.parse_prefix (as_string (get live d.pool_value_field)) ≡ some cidr)
    × All (λ (flag : String). is_set (get live flag) ≡ false) d.pool_must_not_be_true
    × (contains d.pool_forbidden_status (choice_of (get live "status")) ≡ false)
    × ((d.request_length_field ≡ "")
        ⊎ LengthFits cidr (as_int w.go (get payload d.request_length_field)))

-- Why a POST for the identity may be sent through the endpoint `e`.
abbrev pub Allocatable :
    World → ClaimDescriptor → ClaimEndpoint → Claim → String → ℕ → Object → Type 0
Allocatable w d e c endpoint id payload =
    (a : Allocator) × (identity : String) × (e.allocator ≡ some a)
    × (stamp_applicable e.provenance ≡ true)
    × (contains e.provenance.fields e.allocation_identity_field ≡ true)
    × IsIdentity w d e a c identity
    × (e.client.get_one (identity_params w d e identity) ≡ nothing)
    × (custom_field_of payload e.allocation_identity_field ≡ identity)
    × OpenPool w d e endpoint id payload

abbrev pub Posts : World → ClaimDescriptor → ClaimEndpoint → Claim → ClaimEffect → Type 0
Posts w d e c (posted endpoint id sub payload) = Allocatable w d e c endpoint id payload
Posts w d e c _ = ⊥

pub flagged-All :
    (live : Object) (flags : List String)
    → flagged live flags ≡ false
    → All (λ (flag : String). is_set (get live flag) ≡ false) flags
unfolding flagged
flagged-All live [] h = tt
flagged-All live (f ∷ fs) h = elim (Bool-cases (is_set (get live f))) [
  | inl t ↦ absurd ground (arith, h, t)
  | inr t ↦ (t, flagged-All live fs (rw t at h))
]

pub found_in-nothing : (s : Search) → found_in s ≡ ok none → s ≡ nothing
unfolding found_in
found_in-nothing nothing h = refl
found_in-nothing (single live) h = cc
found_in-nothing (several os) h = cc
found_in-nothing (search_failed ambiguous) h = cc
found_in-nothing (search_failed f) h = cc

pub admit_length-Fits :
    (pool : Pool) (w : World) (d : ClaimDescriptor) (e : ClaimEndpoint) (n : Option ℕ)
    → admit_length w d e pool n ≡ true
    → LengthFits pool.cidr n
admit_length-Fits pool w d e none h = tt
admit_length-Fits pool w d e (some n) h = ground arith

netbox-ok :
    (r : Result NetboxError (Option Object)) (a : Option Object) → netbox r ≡ ok a → r ≡ ok a
netbox-ok (ok a) b same = cc same
netbox-ok (err f) b same = cc same

module _ (w : World) (d : ClaimDescriptor) (e : ClaimEndpoint) where
  -- The pool is the object that NetBox has under its id.
  abbrev pub IsRead : Pool × Object → Type 0
  IsRead (pool, live) =
      (e.client.get_by_id pool.endpoint pool.id ≡ ok (some live))
      × (w.parse_prefix (as_string (get live d.pool_value_field)) ≡ some pool.cidr)

  parsed_pool-IsRead :
      (endpoint : String) (id : ℕ) (o : Object) (cidr : Option Prefix) (p : Pool × Object)
      → e.client.get_by_id endpoint id ≡ ok (some o)
      → w.parse_prefix (as_string (get o d.pool_value_field)) ≡ cidr
      → parsed_pool w d e endpoint id o cidr ≡ ok p
      → IsRead p
  parsed_pool-IsRead endpoint id o none p got parsed same = absurd ground (arith, same)
  parsed_pool-IsRead endpoint id o (some cidr) p got parsed same =
      let display = as_string (get o d.pool_value_field) in
      let pool : Pool = record { endpoint = endpoint; id = id; cidr = cidr; display = display } in
      let made : Pool × Object = (pool, o) in
      let equal : made ≡ p = cc same in subst IsRead equal (got, parsed)

  set_pool-IsRead :
      (endpoint : String) (id : ℕ) (found : Option Object) (p : Pool × Object)
      → e.client.get_by_id endpoint id ≡ ok found
      → set_pool w d e endpoint id found ≡ ok p
      → IsRead p
  unfolding set_pool
  set_pool-IsRead endpoint id none p got same = absurd ground (arith, same)
  set_pool-IsRead endpoint id (some o) p got same =
      parsed_pool-IsRead endpoint id o (w.parse_prefix (as_string (get o d.pool_value_field))) p got
        refl same

  pub resolve_pool-IsRead : (c : Claim) (p : Pool × Object) → resolve_pool w d e c ≡ ok p → IsRead p
  unfolding resolve_pool
  resolve_pool-IsRead c p h =
      let (target, _, h1) = >>=-eq-ok (wired (w.pools d.pool.field.target)) _ p h in
      let (resolve, _, h2) = >>=-eq-ok (wired w.refs) _ p h1 in
      let (ref, _, h3) = >>=-eq-ok (pool_ref d.pool.field.spec c.spec) _ p h2 in
      let (resolved, _, h4) =
        >>=-eq-ok (or_unresolved (resolve (pool_request w d e c ref))) _ p h3 in
      let (found, got, h5) =
        >>=-eq-ok (netbox (e.client.get_by_id target.endpoint resolved.id)) _ p h4 in
      set_pool-IsRead target.endpoint resolved.id found p
        (netbox-ok (e.client.get_by_id target.endpoint resolved.id) found got) h5
