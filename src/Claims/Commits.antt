-- ===== src/Claims/Commits.antt =====
-- When a claim comes to hold an allocation, and what it holds then.
use mathlib.Core.Path.{subst}
use netbox_operator.Common.{
  ℕ, ◌≡◌, ◌≢◌, ◌⊎◌, inl, inr, refl, String, Bool, true, false, not, ◌&&◌, ◌||◌, Option, none, some,
  Bool-cases, if-cases, str_eq, eq_iff, arith,
}
use netbox_operator.Common.Result.{Result, ok, err}
use netbox_operator.Json.{
  Object, get, as_string, custom_field_of, object_id, object_or_empty, custom_fields_key,
}
use netbox_operator.Client.{suppressed}
use netbox_operator.Engine.Inputs.{Search, nothing, single, several, search_failed}
use netbox_operator.Engine.Stamping.{read_fields}
use netbox_operator.Errors.Client.{NetboxError, ambiguous}
use netbox_operator.Provenance.{Conflict, conflict, read_claim, stamped}
use package.netbox_operator.Claims.Inputs.{
  Claim, ClaimDescriptor, ClaimEndpoint, Allocator, World, ClaimFailure, ClaimPass,
}
use package.netbox_operator.Claims.Ends.{stop}
use package.netbox_operator.Claims.Pool.{
  Pool, owner, found_in, allocation_identity, resolve_pool, admit_pool, identity_params,
  inside_pool, payload_of, admit_request,
}
use package.netbox_operator.Claims.Allocate.{
  commit, unattributed, refuses_foreign, reclaim_id, reclaim, verified_read, verify,
  commit_verified, read_back, post_answered, request, allocate, after_search, in_pool, identified,
  allocate_once,
}
use package.netbox_operator.Claims.Allowed.{IsRead, resolve_pool-IsRead}
use package.netbox_operator.Claims.Kept.{
  Keeps, stop-Keeps, pending-Keeps, ready-Keeps, blocked_on_pool-Keeps,
}

module _ (w : World) (d : ClaimDescriptor) (e : ClaimEndpoint) where
  abbrev pub value_of : Object → String
  value_of live = as_string (get live d.result_field)

  -- The stamp of the object is of the claim, and not one that cannot be read.
  abbrev pub IsAttributed : Claim → Object → Type 0
  IsAttributed c live =
      let fields = read_fields (object_or_empty (get live custom_fields_key)) in
      (conflict w.to_lower w.trim e.provenance fields (owner w d e c) ≡ none)
      × (stamped (read_claim w.to_lower w.trim e.provenance fields) ≡ true)

  -- The object is the one that a search for the identity found, attributed to the claim if the spec
  -- names the identity.
  abbrev pub Reclaimed : Claim → String → Bool → ℕ → Object → Type 0
  Reclaimed c identity explicit id live =
      (e.client.get_one (identity_params w d e identity) ≡ single live)
      × (object_id w.go live ≡ some id)
      × ((explicit ≡ false) ⊎ IsAttributed c live)

  -- Nothing had the identity, and the object was read back with it after the POST.
  abbrev pub Allocated : String → ℕ → Object → Type 0
  Allocated identity id live =
      (e.client.get_one (identity_params w d e identity) ≡ nothing)
      × (e.client.reread id ≡ ok (some live))
      × (custom_field_of live e.allocation_identity_field ≡ identity)
      × (value_of live ≢ "")

  -- The claim `c'` holds what the object has, inside the pool.
  abbrev pub Holds : Claim → Pool → String → ℕ → Object → Type 0
  Holds c' pool identity id live =
      (inside_pool w d e pool (value_of live) ≡ true)
      × (c'.allocated ≡ value_of live)
      × (c'.status.netbox_id ≡ id)
      × (c'.status.allocation_identity ≡ identity)

  abbrev pub Committed : Allocator → Claim → Claim → Type 0
  Committed a c c' =
      (identity : String) × (explicit : Bool) × (pool : Pool) × (pool_live : Object) × (id : ℕ)
      × (live : Object) × (allocation_identity w d e a c ≡ ok (identity, explicit))
      × IsRead w d e (pool, pool_live)
      × Holds c' pool identity id live
      × (Reclaimed c identity explicit id live ⊎ Allocated identity id live)

module _ (w : World) (before : Claim) (d : ClaimDescriptor) (e : ClaimEndpoint) (a : Allocator)
    (c : Claim) where
  abbrev Sound : ClaimPass → Type 0
  Sound p = Keeps c p ⊎ Committed w d e a c p.claim

  stop-Sound : (f : ClaimFailure) → Sound (stop w before (some e) c f)
  stop-Sound f = inl (stop-Keeps w before (some e) c f)

  commit-Holds :
      (pool : Pool) (identity : String) (live : Object) (id : ℕ) (reason event : String)
      → inside_pool w d e pool (value_of w d e live) ≡ true
      → Holds w d e
          (commit w before d e c pool identity live id (value_of w d e live) reason event).claim
          pool
          identity
          id
          live
  unfolding commit
  commit-Holds pool identity live id reason event inside =
      let (held, recorded, kept) = ready-Keeps w before _ _ in (inside, held, recorded, kept)

  attributed_when :
      (explicit : Bool) (found : Option Conflict) (live : Object)
      → (explicit && unattributed w before d e found live) ≡ false
      → (explicit ≡ false)
        ⊎ ((found ≡ none)
            × (stamped (
                  read_claim w.to_lower w.trim e.provenance
                    (read_fields (object_or_empty (get live custom_fields_key))))
                ≡ true))
  attributed_when false found live h = inl refl
  attributed_when true none live h = inr (refl, ground (arith, h))
  attributed_when true (some found) live h = absurd ground (arith, h)

  -- What is known of the pool and the identity when NetBox is asked.
  module _ (identity : String) (explicit : Bool) (pool : Pool) (pool_live : Object)
      (chosen : allocation_identity w d e a c ≡ ok (identity, explicit))
      (read : IsRead w d e (pool, pool_live)) where
    refuses_foreign-IsAttributed :
        (live : Object)
        → refuses_foreign w before d e c explicit live ≡ false
        → (explicit ≡ false) ⊎ IsAttributed w d e c live
    unfolding refuses_foreign
    refuses_foreign-IsAttributed live h =
        attributed_when explicit
          (conflict w.to_lower w.trim e.provenance
            (read_fields (object_or_empty (get live custom_fields_key))) (owner w d e c))
          live h

    reclaim_id-Sound :
        (live : Object) (id : Option ℕ)
        → e.client.get_one (identity_params w d e identity) ≡ single live
        → object_id w.go live ≡ id
        → Sound (reclaim_id w before d e c pool identity explicit live id)
    reclaim_id-Sound live none found known = stop-Sound _
    reclaim_id-Sound live (some id) found known =
        if-cases Sound (not (inside_pool w d e pool (value_of w d e live))) _ _
          (λ outside. stop-Sound _)
          (λ within.
            if-cases Sound (refuses_foreign w before d e c explicit live) _ _
              (λ foreign. stop-Sound _)
              (λ mine. inr (
                identity,
                explicit,
                pool,
                pool_live,
                id,
                live,
                chosen,
                read,
                commit-Holds pool identity live id _ _ (ground (arith, within)),
                inl (found, known, refuses_foreign-IsAttributed live mine),
              )))

    reclaim-Sound :
        (live : Object)
        → e.client.get_one (identity_params w d e identity) ≡ single live
        → Sound (reclaim w before d e c pool identity explicit live)
    unfolding reclaim
    reclaim-Sound live found = reclaim_id-Sound live (object_id w.go live) found refl

    -- What `verify` has checked of an object that it returns.
    abbrev Verified : ℕ → Object → Type 0
    Verified id live =
        (e.client.reread id ≡ ok (some live))
        × (custom_field_of live e.allocation_identity_field ≡ identity)
        × (value_of w d e live ≢ "")
        × (inside_pool w d e pool (value_of w d e live) ≡ true)

    verified_read-Verified :
        (allocated : Object) (id : ℕ) (answer : Option Object) (live : Object)
        → e.client.reread id ≡ ok answer
        → verified_read w before d e pool identity allocated answer ≡ ok live
        → Verified id live
    verified_read-Verified allocated id none live asked h = absurd ground (arith, h)
    verified_read-Verified allocated id (some o) live asked h =
        let got = value_of w d e o in
        let want = as_string (get allocated d.result_field) in
        let carried = custom_field_of o e.allocation_identity_field in
        elim (Bool-cases (str_eq got "" || not (str_eq got want))) [
          | inl t ↦ absurd ground (arith, h, t)
          | inr f ↦ elim (Bool-cases (not (str_eq carried identity))) [
            | inl t ↦ absurd ground (arith, h, f, t)
            | inr g ↦ elim (Bool-cases (not (inside_pool w d e pool got))) [
              | inl t ↦ absurd ground (arith, h, f, g, t)
              | inr i ↦
                  let same : o ≡ live = ground (arith, h, f, g, i) in
                  subst (λ (x : Object). Verified id x) same
                    (
                      asked,
                      (eq_iff carried identity).0 (ground (arith, g)),
                      (λ z. ground (arith, (eq_iff got "").1 z, f)),
                      ground (arith, i),
                    )
            ]
          ]
        ]

    verify-Verified :
        (allocated : Object) (id : ℕ) (answer : Result NetboxError (Option Object)) (live : Object)
        → e.client.reread id ≡ answer
        → verify w before d e pool identity allocated answer ≡ ok live
        → Verified id live
    verify-Verified allocated id (err f) live asked h = absurd ground (arith, h)
    verify-Verified allocated id (ok o) live asked h =
        verified_read-Verified allocated id o live asked h

    commit_verified-Sound :
        (id : ℕ) (r : Result ClaimFailure Object)
        → e.client.get_one (identity_params w d e identity) ≡ nothing
        → ((live : Object) → r ≡ ok live → Verified id live)
        → Sound (commit_verified w before d e c pool identity id r)
    commit_verified-Sound id (err f) free checked = stop-Sound f
    commit_verified-Sound id (ok live) free checked =
        let (asked, carried, named, inside) = checked live refl in
        inr (
          identity,
          explicit,
          pool,
          pool_live,
          id,
          live,
          chosen,
          read,
          commit-Holds pool identity live id _ _ inside,
          inr (free, asked, carried, named),
        )

    read_back-Sound :
        (allocated : Object) (id : Option ℕ)
        → e.client.get_one (identity_params w d e identity) ≡ nothing
        → Sound (read_back w before d e c pool identity allocated id)
    read_back-Sound allocated none free = stop-Sound _
    read_back-Sound allocated (some id) free =
        commit_verified-Sound id (verify w before d e pool identity allocated (e.client.reread id))
          free (λ live. verify-Verified allocated id (e.client.reread id) live refl)

    post_answered-Sound :
        (r : Result NetboxError Object)
        → e.client.get_one (identity_params w d e identity) ≡ nothing
        → Sound (post_answered w before d e c pool identity r)
    unfolding post_answered
    post_answered-Sound (err f) free = stop-Sound _
    post_answered-Sound (ok allocated) free =
        if-cases Sound (suppressed allocated) _ _
          (λ dry. inl (pending-Keeps w before (some e) c "DryRunPending"))
          (λ sent. read_back-Sound allocated (object_id w.go allocated) free)

    request-Sound :
        (r : Result ClaimFailure Object)
        → e.client.get_one (identity_params w d e identity) ≡ nothing
        → Sound (request w before d e a c pool identity r)
    request-Sound (err f) free = stop-Sound f
    request-Sound (ok payload) free =
        if-cases Sound (not (admit_request w d e pool payload)) _ _ (λ refused. stop-Sound _)
          (λ fits.
            post_answered-Sound (a.allocate pool.endpoint pool.id d.pool_sub_path payload) free)

    allocate-Sound :
        e.client.get_one (identity_params w d e identity) ≡ nothing
        → Sound (allocate w before d e a c pool identity)
    unfolding allocate
    allocate-Sound free =
        if-cases Sound (str_eq e.drift_mode "Report") _ _
          (λ report. inl (pending-Keeps w before (some e) c "ReportPending"))
          (λ send. request-Sound (payload_of w d e c identity) free)

    after_search-Sound :
        (s : Search)
        → e.client.get_one (identity_params w d e identity) ≡ s
        → Sound (after_search w before d e a c pool identity explicit (found_in s))
    unfolding found_in
    after_search-Sound nothing asked = allocate-Sound asked
    after_search-Sound (single live) asked = reclaim-Sound live asked
    after_search-Sound (several os) asked = stop-Sound _
    after_search-Sound (search_failed ambiguous) asked = stop-Sound _
    after_search-Sound (search_failed f) asked = stop-Sound _

  in_pool-Sound :
      (identity : String) (explicit : Bool)
      → allocation_identity w d e a c ≡ ok (identity, explicit)
      → (r : Result ClaimFailure (Pool × Object)) → resolve_pool w d e c ≡ r
      → Sound (in_pool w before d e a c identity explicit r)
  in_pool-Sound identity explicit chosen (err f) read =
      inl (blocked_on_pool-Keeps w before (some e) c f)
  in_pool-Sound identity explicit chosen (ok (pool, live)) read =
      if-cases Sound (not (admit_pool w d e live)) _ _ (λ refused. stop-Sound _)
        (λ admitted.
          after_search-Sound identity explicit pool live chosen
            (resolve_pool-IsRead w d e c (pool, live) read)
            (e.client.get_one (identity_params w d e identity)) refl)

  identified-Sound :
      (r : Result ClaimFailure (String × Bool))
      → allocation_identity w d e a c ≡ r
      → Sound (identified w before d e a c r)
  identified-Sound (err f) chosen = stop-Sound f
  identified-Sound (ok (identity, explicit)) chosen =
      in_pool-Sound identity explicit chosen (resolve_pool w d e c) refl

  pub allocate_once-Sound : Sound (allocate_once w before d e a c)
  unfolding allocate_once
  allocate_once-Sound = identified-Sound (allocation_identity w d e a c) refl
