-- ===== src/Engine/Lookup.antt =====
-- internal/reconciler/generic.go, duplicate.go, payload.go: how a pass finds the NetBox object of a
-- custom resource. `First` has which object it finds.
use Prim.Native.String.{◌++◌ as str_append}
use netbox_operator.Common.{
  ℕ, String, Bool, true, false, not, ◌&&◌, Option, none, some, List, [], ◌∷◌, ◌==◌, put, contains,
  str_eq, if◌then◌else◌,
}
use netbox_operator.Common.Result.{Result, ok, err}
use netbox_operator.Json.{Json, boolean, number, text, Object, get, object_id}
use netbox_operator.Errors.{
  Failure, client, no_candidate, unfilterable, no_object_id, duplicate_needs_provenance,
  duplicate_on_generated_child, unclaimable_duplicate,
}
use netbox_operator.Errors.Client.{NetboxError, ambiguous, not_found}
use netbox_operator.Registry.{KeyField, NullField, NaturalKey}
use package.netbox_operator.Engine.Inputs.{
  Params, Search, nothing, single, several, search_failed, Status, Setting,
}
use package.netbox_operator.Engine.Stamping.{stamp_identifies, stamped_uid}

-- `match`, and the status that the search leaves.
pub record Match : Type 0 where
  pub live : Option Object
  pub by_natural_key : Bool
  pub status : Status

abbrev pub param : String → String → String
param filter lookup =
    if str_eq lookup "" then filter else str_append filter (str_append "__" lookup)

module _ (p : Setting) where
  -- NaturalKey.Applicable
  unfoldable pub all_resolved : List KeyField → Bool
  all_resolved [] = true
  all_resolved (f ∷ fs) = contains p.resolved f.spec && all_resolved fs

  unfoldable pub none_declared : List NullField → Bool
  none_declared [] = true
  none_declared (f ∷ fs) = not (contains p.declared f.spec) && none_declared fs

  unfoldable pub applicable : NaturalKey → Bool
  applicable key = all_resolved key.fields && none_declared key.null_fields

  unfoldable pub candidates : List NaturalKey → List NaturalKey
  candidates [] = []
  candidates (key ∷ keys) =
      let rest = candidates keys in if applicable key then key ∷ rest else rest

  unfoldable pub filter_value : Json → Option String
  filter_value (text s) = if str_eq s "" then none else some s
  filter_value (boolean true) = some "true"
  filter_value (boolean false) = some "false"
  filter_value (number b) = some (p.format_number b)
  filter_value _ = none

  abbrev pub put_match :
      KeyField → Option String → Params → (Params → Option Params) → Option Params
  put_match f (some value) params rest = rest (put (param f.filter f.lookup) value params)
  put_match f none params rest = none

  unfoldable pub match_params : List KeyField → Params → Option Params
  match_params [] params = some params
  match_params (f ∷ fs) params =
      put_match f (filter_value (get p.spec f.spec)) params (match_params fs)

  -- Params.Null
  abbrev pub put_null : NullField → Params → Params
  put_null f params =
      if str_eq f.column "numeric"
      then put (str_append f.filter "__empty") "true" params
      else put f.filter "null" params

  unfoldable pub null_params : List NullField → Params → Params
  null_params [] params = params
  null_params (f ∷ fs) params = null_params fs (put_null f params)

  abbrev pub with_nulls : List NullField → Option Params → Option Params
  with_nulls fs none = none
  with_nulls fs (some params) = some (null_params fs params)

  unfoldable pub params_of : NaturalKey → Option Params
  params_of key = with_nulls key.null_fields (match_params key.fields [])

  -- claimStamped: the objects with the stamp of this resource, and those without any.
  unfoldable pub mine : List Object → List Object
  mine [] = []
  mine (o ∷ os) = let rest = mine os in if str_eq (stamped_uid p o) p.uid then o ∷ rest else rest

  unfoldable pub unstamped : List Object → List Object
  unstamped [] = []
  unstamped (o ∷ os) =
      let rest = unstamped os in
      if not (str_eq (stamped_uid p o) p.uid) && str_eq (stamped_uid p o) "" then o ∷ rest else rest

  abbrev pub matched : Object → Bool → Status → Match
  matched o by_key status = record { live = some o; by_natural_key = by_key; status = status }

  abbrev pub unmatched : Status → Match
  unmatched status = record { live = none; by_natural_key = false; status = status }

  abbrev pub with_id : ℕ → Status → Status
  with_id id status = record {
    id = id;
    adopted = status.adopted;
    deferred_pending = status.deferred_pending;
  }

  abbrev pub claim_own_stamp : Status → Object → Option ℕ → Result Failure Match
  claim_own_stamp status o none = err no_object_id
  claim_own_stamp status o (some id) = ok (matched o false (with_id id status))

  abbrev pub claim_stamped : Status → List Object → List Object → Result Failure Match
  claim_stamped status (o ∷ []) unstamped = claim_own_stamp status o (object_id p.go o)
  claim_stamped status (o ∷ os) unstamped = err unclaimable_duplicate
  claim_stamped status [] [] = ok (unmatched status)
  claim_stamped status [] (o ∷ os) = err unclaimable_duplicate

  -- duplicate, where the resource may be one of several alike.
  abbrev pub claim_duplicate : Status → Search → Result Failure Match
  claim_duplicate status nothing = ok (unmatched status)
  claim_duplicate status (search_failed e) = err (client e)
  claim_duplicate status (single o) = claim_stamped status (mine (o ∷ [])) (unstamped (o ∷ []))
  claim_duplicate status (several os) = claim_stamped status (mine os) (unstamped os)

  abbrev pub claim_single : Status → Search → Result Failure Match
  claim_single status nothing = ok (unmatched status)
  claim_single status (single o) = ok (matched o true status)
  claim_single status (several os) = err (client ambiguous)
  claim_single status (search_failed e) = err (client e)

  unfoldable pub duplicate : Status → Search → Result Failure Match
  duplicate status search =
      if not p.allows_duplicate
      then claim_single status search
      else if p.generated_child
      then err duplicate_on_generated_child
      else if not (stamp_identifies p)
      then err duplicate_needs_provenance
      else claim_duplicate status search

  -- The candidates one after another, up to the first that finds an object.
  abbrev pub or_rest : Option Object → Match → Result Failure Match → Result Failure Match
  or_rest (some o) m rest = ok m
  or_rest none m rest = rest

  abbrev pub unless_found : Result Failure Match → Result Failure Match → Result Failure Match
  unless_found (err e) rest = err e
  unless_found (ok m) rest = or_rest m.live m rest

  abbrev pub search_by : Status → Option Params → Result Failure Match
  search_by status none = err unfilterable
  search_by status (some params) = duplicate status (p.client.get_one params)

  unfoldable pub search_candidates : Status → List NaturalKey → Result Failure Match
  search_candidates status [] = ok (unmatched status)
  search_candidates status (key ∷ keys) =
      unless_found (search_by status (params_of key)) (search_candidates status keys)

  abbrev pub search_usable : Status → List NaturalKey → Result Failure Match
  search_usable status [] = err no_candidate
  search_usable status (key ∷ keys) = search_candidates status (key ∷ keys)

  unfoldable pub lookup_object : Status → Result Failure Match
  lookup_object status = search_usable status (candidates p.desc.natural_keys)

  abbrev pub forgotten : Status → Status
  forgotten status = record { id = 0; adopted = false; deferred_pending = status.deferred_pending }

  -- An error leaves the status as it is then.
  abbrev pub leaving : Status → Result Failure Match → Result (Status × Failure) Match
  leaving status (ok m) = ok m
  leaving status (err e) = err (status, e)

  abbrev pub recover : Status → Result (Status × Failure) Match
  recover status = leaving (forgotten status) (lookup_object (forgotten status))

  abbrev pub located : Status → Result NetboxError (Option Object) → Result (Status × Failure) Match
  located status (ok (some live)) = ok (matched live false status)
  located status (ok none) = recover status
  located status (err not_found) = recover status
  located status (err e) = err (status, client e)

  unfoldable pub locate : Status → Result (Status × Failure) Match
  locate status =
      if status.id == 0
      then leaving status (lookup_object status)
      else located status (p.client.get_by_id status.id)
