-- ===== src/Claims/Allocate.antt =====
-- internal/reconciler/claim.go: the search for an earlier allocation, the allocation and what is
-- recorded of either.
use netbox_operator.Common.{
  ℕ, String, Bool, true, not, ◌&&◌, ◌||◌, Option, none, some, [], ◌∷◌, str_eq, if◌then◌else◌,
}
use netbox_operator.Common.Result.{Result, ok, err}
use netbox_operator.Json.{
  Object, get, as_string, choice_of, custom_field_of, object_id, object_or_empty, custom_fields_key,
}
use netbox_operator.Client.{suppressed}
use netbox_operator.Engine.Stamping.{read_fields}
use netbox_operator.Errors.{client, no_object_id}
use netbox_operator.Errors.Client.{NetboxError, exhausted}
use netbox_operator.Provenance.{Conflict, conflict, read_claim, stamped}
use package.netbox_operator.Claims.Inputs.{
  Claim, ClaimDescriptor, ClaimEndpoint, Allocator, World, ClaimFailure, unverified, engine, posted,
  normal, ClaimPass,
}
use package.netbox_operator.Claims.Ends.{
  with_condition, after, warn_if, stop, pending, ready, blocked_on_pool, resync_of,
}
use package.netbox_operator.Claims.Pool.{
  Pool, refuse, bad_pool, owner, allocation_identity, resolve_pool, admit_pool, expected_status,
  find_by_identity, inside_pool, payload_of, admit_request,
}

abbrev pub url_or : String → String → String
url_or url old = if str_eq url "" then old else url

-- The failures of Allocate.
unfoldable pub allocation_failure : NetboxError → ClaimFailure
allocation_failure exhausted = refuse "PoolExhausted" "PoolExhausted"
allocation_failure e = engine (client e)

module _ (w : World) (before : Claim) (d : ClaimDescriptor) (e : ClaimEndpoint) where
  -- `value` is what the object holds.
  unfoldable pub commit : Claim → Pool → String → Object → ℕ → String → String → String → ClaimPass
  commit c pool identity live id value reason event = after (normal event ∷ []) (
      ready w before
        (with_condition "Allocated" true reason (record c {
          allocated = value;
          status = record c.status {
            netbox_id = id;
            allocation_identity = identity;
            claim_uid = c.uid;
            allocated_at = some w.now;
            last_verified_at = some w.now;
            allocation_pool =
                some (record { display = pool.display; endpoint = pool.endpoint; id = pool.id });
            url = url_or (as_string (get live "url")) c.status.url;
          };
        }))
        (resync_of (some e)))

  abbrev pub foreign : ClaimFailure
  foreign = refuse "ForeignAllocation" "ForeignAllocation"

  abbrev pub unattributed : Option Conflict → Object → Bool
  unattributed (some found) live = true
  unattributed none live = not (
      stamped (
        read_claim w.to_lower w.trim e.provenance
          (read_fields (object_or_empty (get live custom_fields_key)))))

  -- Whether an identity that the spec names must not reclaim the object.
  unfoldable pub refuses_foreign : Claim → Bool → Object → Bool
  refuses_foreign c explicit live =
      explicit
      && unattributed
          (conflict w.to_lower w.trim e.provenance
            (read_fields (object_or_empty (get live custom_fields_key))) (owner w d e c))
          live

  abbrev pub reclaim_id : Claim → Pool → String → Bool → Object → Option ℕ → ClaimPass
  reclaim_id c pool identity explicit live none = stop w before (some e) c (engine no_object_id)
  reclaim_id c pool identity explicit live (some id) =
      let value = as_string (get live d.result_field) in
      if not (inside_pool w d e pool value)
      then stop w before (some e) c (refuse "ReclaimedOutsidePool" "ReclaimedOutsidePool")
      else if refuses_foreign c explicit live
      then stop w before (some e) c foreign
      else commit c pool identity live id value "ReclaimedByIdentity" "AllocationReclaimed"

  unfoldable pub reclaim : Claim → Pool → String → Bool → Object → ClaimPass
  reclaim c pool identity explicit live =
      reclaim_id c pool identity explicit live (object_id w.go live)

  -- The object and the value that were allocated, as they were read back.
  abbrev pub verified_read : Pool → String → Object → Option Object → Result ClaimFailure Object
  verified_read pool identity allocated none = err unverified
  verified_read pool identity allocated (some live) =
      let got = as_string (get live d.result_field) in
      if str_eq got "" || not (str_eq got (as_string (get allocated d.result_field)))
      then err unverified
      else if not (str_eq (custom_field_of live e.allocation_identity_field) identity)
      then err unverified
      else if not (inside_pool w d e pool got)
      then err unverified
      else ok live

  abbrev pub verify :
      Pool → String → Object → Result NetboxError (Option Object) → Result ClaimFailure Object
  verify pool identity allocated (err failure) = err (engine (client failure))
  verify pool identity allocated (ok answer) = verified_read pool identity allocated answer

  abbrev pub commit_verified : Claim → Pool → String → ℕ → Result ClaimFailure Object → ClaimPass
  commit_verified c pool identity id (err failure) = stop w before (some e) c failure
  commit_verified c pool identity id (ok live) =
      commit c pool identity live id (as_string (get live d.result_field)) "AddressAllocated"
        "Allocated"

  abbrev pub read_back : Claim → Pool → String → Object → Option ℕ → ClaimPass
  read_back c pool identity allocated none = stop w before (some e) c (engine no_object_id)
  read_back c pool identity allocated (some id) =
      commit_verified c pool identity id (verify pool identity allocated (e.client.reread id))

  unfoldable pub post_answered : Claim → Pool → String → Result NetboxError Object → ClaimPass
  post_answered c pool identity (err failure) =
      stop w before (some e) c (allocation_failure failure)
  post_answered c pool identity (ok allocated) =
      if suppressed allocated
      then pending w before (some e) c "DryRunPending"
      else read_back c pool identity allocated (object_id w.go allocated)

  abbrev pub post : Allocator → Claim → Pool → String → Object → ClaimPass
  post a c pool identity payload =
      after (posted pool.endpoint pool.id d.pool_sub_path payload ∷ [])
        (post_answered c pool identity (a.allocate pool.endpoint pool.id d.pool_sub_path payload))

  abbrev pub request : Allocator → Claim → Pool → String → Result ClaimFailure Object → ClaimPass
  request a c pool identity (err failure) = stop w before (some e) c failure
  request a c pool identity (ok payload) =
      if not (admit_request w d e pool payload)
      then stop w before (some e) c (refuse "Invalid" "Invalid")
      else post a c pool identity payload

  unfoldable pub allocate : Allocator → Claim → Pool → String → ClaimPass
  allocate a c pool identity =
      if str_eq e.drift_mode "Report"
      then pending w before (some e) c "ReportPending"
      else request a c pool identity (payload_of w d e c identity)

  abbrev pub after_search :
      Allocator → Claim → Pool → String → Bool → Result ClaimFailure (Option Object) → ClaimPass
  after_search a c pool identity explicit (err failure) = stop w before (some e) c failure
  after_search a c pool identity explicit (ok (some live)) = reclaim c pool identity explicit live
  after_search a c pool identity explicit (ok none) = allocate a c pool identity

  -- warnUnexpectedPool.
  abbrev pub warned : Object → ClaimPass → ClaimPass
  warned live = after (
      warn_if w before
        (not (expected_status w d e d.pool_expected_status (choice_of (get live "status"))))
        "PoolUnexpectedStatus")

  abbrev pub in_pool :
      Allocator → Claim → String → Bool → Result ClaimFailure (Pool × Object) → ClaimPass
  in_pool a c identity explicit (err failure) = blocked_on_pool w before (some e) c failure
  in_pool a c identity explicit (ok (pool, live)) =
      if not (admit_pool w d e live)
      then stop w before (some e) c bad_pool
      else warned live (after_search a c pool identity explicit (find_by_identity w d e identity))

  abbrev pub identified : Allocator → Claim → Result ClaimFailure (String × Bool) → ClaimPass
  identified a c (err failure) = stop w before (some e) c failure
  identified a c (ok (identity, explicit)) = in_pool a c identity explicit (resolve_pool w d e c)

  unfoldable pub allocate_once : Allocator → Claim → ClaimPass
  allocate_once a c = identified a c (allocation_identity w d e a c)
