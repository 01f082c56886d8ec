-- ===== src/Claims/Writes.antt =====
-- When a pass over a claim writes to NetBox.
use netbox_operator.Common.{
  ◌≡◌, ◌⊎◌, inl, inr, refl, String, Bool, true, false, not, Option, none, some, Bool-cases,
  if-cases, str_eq, eq_iff, contains, arith,
}
use netbox_operator.Common.Result.{Result, ok, err}
use netbox_operator.Json.{Object, get, as_int, choice_of}
use netbox_operator.Provenance.{stamp_applicable}
use package.netbox_operator.Claims.Inputs.{
  Claim, ClaimDescriptor, ClaimEndpoint, Allocator, World, ClaimFailure, ClaimPass,
}
use package.netbox_operator.Claims.Ends.{stop, pending, blocked_on_pool}
use package.netbox_operator.Claims.Pool.{
  Pool, storable, chosen, allocation_identity, resolve_pool, admit_pool, flagged, identity_params,
  find_by_identity, payload_of, admit_length, admit_request,
}
use package.netbox_operator.Claims.Allocate.{
  reclaim, request, allocate, after_search, in_pool, identified, allocate_once,
}
use package.netbox_operator.Claims.Release.{free}
use package.netbox_operator.Claims.Harmless.{
  IsQuiet, warn_if-IsQuiet, stop-IsQuiet, pending-IsQuiet, blocked_on_pool-IsQuiet, reclaim-IsQuiet,
  post_answered-IsQuiet,
}
use package.netbox_operator.Claims.Payload.{IsApart, payload_of-identity}
use package.netbox_operator.Claims.Allowed.{
  OneWrite, quiet-OneWrite, after-OneWrite, IsIdentity, LengthFits, Posts, flagged-All,
  found_in-nothing, admit_length-Fits, resolve_pool-IsRead,
}

module _ (w : World) (before : Claim) (d : ClaimDescriptor) (e : ClaimEndpoint) (a : Allocator)
    (wired : e.allocator ≡ some a) (apart : IsApart d.request_fields) (c : Claim) where
  -- The identity is stored and is the one of the claim.
  abbrev IsStorable : String → Type 0
  IsStorable identity =
      (stamp_applicable e.provenance ≡ true)
      × (str_eq e.allocation_identity_field "" ≡ false)
      × (contains e.provenance.fields e.allocation_identity_field ≡ true)
      × IsIdentity w d e a c identity

  storable-parts :
      storable w d e ≡ true
      → (stamp_applicable e.provenance ≡ true)
        × (str_eq e.allocation_identity_field "" ≡ false)
        × (contains e.provenance.fields e.allocation_identity_field ≡ true)
  storable-parts h = (ground arith, ground arith, ground arith)

  chosen-IsIdentity :
      (identity : String) (explicit : Bool)
      → chosen w d e a c ≡ ok (identity, explicit)
      → IsIdentity w d e a c identity
  chosen-IsIdentity identity explicit h = elim (Bool-cases (str_eq c.explicit_identity "")) [
    | inl t ↦ inr ((eq_iff c.explicit_identity "").0 t, cc (rw t at h))
    | inr f ↦ inl ((λ e'. cc ((eq_iff c.explicit_identity "").1 e', f)), cc (rw f at h))
  ]

  allocation_identity-IsStorable :
      (identity : String) (explicit : Bool)
      → allocation_identity w d e a c ≡ ok (identity, explicit)
      → IsStorable identity
  unfolding allocation_identity
  allocation_identity-IsStorable identity explicit h = elim (Bool-cases (storable w d e)) [
    | inl t ↦
        let (applicable, named, listed) = storable-parts t in
        (applicable, named, listed, chosen-IsIdentity identity explicit (rw t at h))
    | inr f ↦ absurd ground (arith, h, f)
  ]

  abbrev One : ClaimPass → Type 0
  One p = OneWrite (Posts w d e c) p.effects

  quiet : (p : ClaimPass) → IsQuiet p → One p
  quiet p h = quiet-OneWrite (Posts w d e c) p.effects h

  stop-One : (f : ClaimFailure) → One (stop w before (some e) c f)
  stop-One f = quiet (stop w before (some e) c f) (stop-IsQuiet w before (some e) c f)

  admit_pool-parts :
      (live : Object)
      → admit_pool w d e live ≡ true
      → (flagged live d.pool_must_not_be_true ≡ false)
        × (contains d.pool_forbidden_status (choice_of (get live "status")) ≡ false)
  unfolding admit_pool
  admit_pool-parts live h = (ground arith, ground arith)

  admit_request-Fits :
      (pool : Pool) (payload : Object)
      → not (admit_request w d e pool payload) ≡ false
      → (d.request_length_field ≡ "")
        ⊎ LengthFits pool.cidr (as_int w.go (get payload d.request_length_field))
  unfolding admit_request
  admit_request-Fits pool payload h = elim (Bool-cases (str_eq d.request_length_field "")) [
    | inl t ↦ inl ((eq_iff d.request_length_field "").0 t)
    | inr f ↦
        let length = as_int w.go (get payload d.request_length_field) in
        let open_length : not (admit_length w d e pool length) ≡ false = rw f at h in
        inr (admit_length-Fits pool w d e length (ground (arith, open_length)))
  ]

  request-One :
      (pool : Pool) (live : Object) (identity : String)
      → IsStorable identity
      → resolve_pool w d e c ≡ ok (pool, live)
      → admit_pool w d e live ≡ true
      → find_by_identity w d e identity ≡ ok none
      → (r : Result ClaimFailure Object) → payload_of w d e c identity ≡ r
      → One (request w before d e a c pool identity r)
  request-One pool live identity stored read admitted free (err f) made = stop-One f
  request-One pool live identity (applicable, named, listed, mine) read admitted free (ok payload)
        made =
      let (got, parsed) = resolve_pool-IsRead w d e c (pool, live) read in
      let (flags, status) = admit_pool-parts live admitted in
      if-cases One (not (admit_request w d e pool payload)) _ _ (λ refused. stop-One _)
        (λ fits. inr (
          (
            a,
            identity,
            wired,
            applicable,
            listed,
            mine,
            found_in-nothing (e.client.get_one (identity_params w d e identity)) free,
            payload_of-identity w d e c identity payload named apart made,
            (
              live,
              pool.cidr,
              got,
              parsed,
              flagged-All live d.pool_must_not_be_true flags,
              status,
              admit_request-Fits pool payload fits,
            ),
          ),
          post_answered-IsQuiet w before d e c pool identity
              (a.allocate pool.endpoint pool.id d.pool_sub_path payload),
        ))

  allocate-One :
      (pool : Pool) (live : Object) (identity : String)
      → IsStorable identity
      → resolve_pool w d e c ≡ ok (pool, live)
      → admit_pool w d e live ≡ true
      → find_by_identity w d e identity ≡ ok none
      → One (allocate w before d e a c pool identity)
  unfolding allocate
  allocate-One pool live identity stored read admitted free =
      if-cases One (str_eq e.drift_mode "Report") _ _
        (λ report.
          quiet (pending w before (some e) c "ReportPending")
            (pending-IsQuiet w before (some e) c "ReportPending"))
        (λ send.
          request-One pool live identity stored read admitted free (payload_of w d e c identity)
            refl)

  after_search-One :
      (pool : Pool) (live : Object) (identity : String) (explicit : Bool)
      → IsStorable identity
      → resolve_pool w d e c ≡ ok (pool, live)
      → admit_pool w d e live ≡ true
      → (r : Result ClaimFailure (Option Object)) → find_by_identity w d e identity ≡ r
      → One (after_search w before d e a c pool identity explicit r)
  after_search-One pool live identity explicit stored read admitted (err f) found = stop-One f
  after_search-One pool live identity explicit stored read admitted (ok (some o)) found =
      quiet (reclaim w before d e c pool identity explicit o)
        (reclaim-IsQuiet w before d e c pool identity explicit o)
  after_search-One pool live identity explicit stored read admitted (ok none) found =
      allocate-One pool live identity stored read admitted found

  in_pool-One :
      (identity : String) (explicit : Bool)
      → IsStorable identity
      → (r : Result ClaimFailure (Pool × Object)) → resolve_pool w d e c ≡ r
      → One (in_pool w before d e a c identity explicit r)
  in_pool-One identity explicit stored (err f) read =
      quiet (blocked_on_pool w before (some e) c f) (blocked_on_pool-IsQuiet w before (some e) c f)
  in_pool-One identity explicit stored (ok (pool, live)) read =
      elim (Bool-cases (admit_pool w d e live)) [
        | inr f ↦ rw f (stop-One _)
        | inl t ↦ rw t (
            after-OneWrite (Posts w d e c) _
              (after_search w before d e a c pool identity explicit
                (find_by_identity w d e identity))
              (warn_if-IsQuiet w before _ "PoolUnexpectedStatus")
              (after_search-One pool live identity explicit stored read t
                (find_by_identity w d e identity) refl))
      ]

  identified-One :
      (r : Result ClaimFailure (String × Bool))
      → allocation_identity w d e a c ≡ r
      → One (identified w before d e a c r)
  identified-One (err f) h = stop-One f
  identified-One (ok (identity, explicit)) h =
      in_pool-One identity explicit (allocation_identity-IsStorable identity explicit h)
        (resolve_pool w d e c) refl

  -- A pass without an allocation sends one POST at most, and only where it may.
  pub allocate_once-One : One (allocate_once w before d e a c)
  unfolding allocate_once
  allocate_once-One = identified-One (allocation_identity w d e a c) refl
