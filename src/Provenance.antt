-- ===== src/Provenance.antt =====
-- internal/provenance: the stamp that the operator leaves on the NetBox objects it writes, and how a
-- stamp of another writer is recognised and counted (internal/reconciler/conflict.go).
-- `Claimant` has what a stamp says against an owner, `Observed` the count of a conflict.
pub mod Claimant
pub mod Own
pub mod Observed
pub mod Tests
use Prim.Native.String.{◌++◌ as str_append}
use netbox_operator.Common.{
  ℕ, ◌+◌, ◌%◌, ◌^◌, String, Bool, true, false, not, ◌&&◌, ◌||◌, Option, none, some, List, [], ◌∷◌,
  ◌==◌, str_eq, contains, lookup, put, if◌then◌else◌,
}

-- The parts of Config and Stamp that are read here; an empty name is a field not configured.
pub record Stamp : Type 0 where
  pub cluster_id : String
  pub tag_id : ℕ
  pub uid_field : String
  pub cluster_field : String
  pub owner_field : String
  pub fields : List String

unfoldable pub enabled : Stamp → Bool
enabled s = not (str_eq s.cluster_id "")

unfoldable pub stamp_applicable : Stamp → Bool
unfolding enabled
stamp_applicable s = enabled s && not (s.tag_id == 0)

pub record Owner : Type 0 where
  pub kind : String
  pub namespace : String
  pub name : String
  pub uid : String

-- The custom fields of an object: a value that is no text is `none`.
abbrev pub CustomFields : Type 0
CustomFields = List (String × Option String)

pub record Claim : Type 0 where
  pub uid : String
  pub cluster_id : String
  pub owner : String

pub stamped : Claim → Bool
stamped c = not (str_eq c.uid "") || not (str_eq c.owner "") || not (str_eq c.cluster_id "")

pub data Reason : Type 0 where
  foreign_cluster foreign_owner : Reason

pub record Conflict : Type 0 where
  pub claim : Claim
  pub reason : Reason

-- The loop of customFields that leaves a value out.
pub left_out : Stamp → String → String → Bool
left_out s name value = str_eq name "" || str_eq value "" || not (contains s.fields name)

pub written : Stamp → List (String × String) → List (String × String)
written s [] = []
written s ((name, value) ∷ values) =
    let rest = written s values in if left_out s name value then rest else (name, value) ∷ rest

-- strings.ToLower and strings.TrimSpace
module _ (to_lower trim : String → String) where
  pub owner_ref : Owner → String
  owner_ref o =
      str_append (to_lower o.kind) (str_append "/" (str_append o.namespace (str_append "/" o.name)))

  abbrev pub text_of : Option (Option String) → String
  text_of (some (some value)) = trim value
  text_of (some none) = trim ""
  text_of none = trim ""

  pub stamp_value : CustomFields → String → String
  stamp_value fields name = if str_eq name "" then "" else text_of (lookup name fields)

  pub read_claim : Stamp → CustomFields → Claim
  read_claim s live = record {
    uid = stamp_value live s.uid_field;
    cluster_id = stamp_value live s.cluster_field;
    owner = stamp_value live s.owner_field;
  }

  pub claim_conflict : Stamp → Owner → Claim → Option Conflict
  claim_conflict s mine claim =
      if not (stamped claim)
      then none
      else if not (str_eq claim.cluster_id "") && not (str_eq claim.cluster_id s.cluster_id)
      then some (record { claim = claim; reason = foreign_cluster })
      else if not (str_eq claim.owner "") && not (str_eq claim.owner (owner_ref mine))
      then some (record { claim = claim; reason = foreign_owner })
      else none

  pub conflict : Stamp → CustomFields → Owner → Option Conflict
  conflict s live mine =
      if not (stamp_applicable s) then none else claim_conflict s mine (read_claim s live)

  -- The map literal of customFields: of two equal keys the later counts.
  pub stamp_entries : Stamp → Owner → List (String × String)
  stamp_entries s owner =
      put s.owner_field (owner_ref owner)
        (put s.cluster_field s.cluster_id (put s.uid_field owner.uid []))

  pub custom_fields : Stamp → Owner → List (String × String)
  custom_fields s owner = written s (stamp_entries s owner)

-- The fields that the spec declares, or none, and over them those of the stamp.
pub merge_custom_fields : CustomFields → List (String × String) → CustomFields
merge_custom_fields declared [] = declared
merge_custom_fields declared ((name, value) ∷ fields) =
    put name (some value) (merge_custom_fields declared fields)

-- status.conflict, with the count as an int32 in two's complement and a time that may be missing.
pub record ConflictStatus : Type 0 where
  pub reason : Reason
  pub cluster_id : String
  pub owner : String
  pub observations : ℕ
  pub first_observed : Option ℕ

abbrev pub conflict_sustained_after : ℕ
conflict_sustained_after = 5

abbrev pub reason_eq : Reason → Reason → Bool
reason_eq foreign_cluster foreign_cluster = true
reason_eq foreign_owner foreign_owner = true
reason_eq _ _ = false

pub first_sight : Conflict → ℕ → ConflictStatus
first_sight found now = record {
  reason = found.reason;
  cluster_id = found.claim.cluster_id;
  owner = found.claim.owner;
  observations = 1;
  first_observed = some now;
}

abbrev pub earlier : Option ℕ → ℕ → Option ℕ
earlier none now = some now
earlier (some first) now = some first

pub observed_again : ConflictStatus → Conflict → ℕ → ConflictStatus
unfolding first_sight
observed_again prev found now =
    let out = first_sight found now in
    if not (reason_eq prev.reason out.reason)
      || not (str_eq prev.cluster_id out.cluster_id)
      || not (str_eq prev.owner out.owner)
    then out
    else record out {
      observations = (prev.observations + 1) % 2 ^ 32;
      first_observed = earlier prev.first_observed now;
    }

abbrev pub observed_conflict : Option ConflictStatus → Conflict → ℕ → ConflictStatus
observed_conflict none found now = first_sight found now
observed_conflict (some prev) found now = observed_again prev found now

pub data Warning : Type 0 where
  event_conflict event_conflict_sustained : Warning

-- What reportConflict leaves of status.conflict, and its Events. The Conflict condition is there with
-- the reason of status.conflict, or neither is.
pub record Reported : Type 0 where
  pub conflict : Option ConflictStatus
  pub events : List Warning

pub warnings : ℕ → List Warning
warnings observations =
    if observations == 1
    then event_conflict ∷ []
    else if observations == conflict_sustained_after
    then event_conflict_sustained ∷ []
    else []

pub report_conflict : Option ConflictStatus → Option Conflict → ℕ → Reported
report_conflict before none now = record { conflict = none; events = [] }
report_conflict before (some found) now =
    let out = observed_conflict before found now in
    record { conflict = some out; events = warnings out.observations }
