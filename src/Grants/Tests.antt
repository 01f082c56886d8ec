-- ===== src/Grants/Tests.antt =====
-- Runs of internal/resolver/grants.go, and its theorems at concrete inputs.
use netbox_operator.Common.{
  String, ◌≡◌, ◌↔◌, ◌⊎◌, refl, Bool, true, false, Option, some, List, [], ◌∷◌, Any, str_eq,
  contains, if◌then◌else◌,
}
use netbox_operator.Common.Result.{Result, ok}
use netbox_operator.Grants.{
  Labels, GrantError, by_selector, RefGrant, RefGrantFrom, RefGrantTo, GrantReader, endpoint_kind,
  permits, permits_listed, allows, or_later, admits, admits_targets, in_audience, try_from, select,
  namespace_labels, in_targets, kind_exposed, name_exposed, targets_of, new_check,
}
use netbox_operator.Grants.Decide.{Admits, permits_iff}

abbrev team_labels : Labels
team_labels = ("tier", "gold") ∷ []

abbrev is_gold : Labels → Bool
is_gold [] = false
is_gold ((k, v) ∷ ls) = str_eq k "tier"

abbrev entry : RefGrantFrom
entry = record { namespaces = by_selector; selector = some is_gold }

abbrev grant_to : List RefGrantTo → RefGrant
grant_to to = record { namespace = "shared"; name = "g"; from = entry ∷ []; to = to }

abbrev endpoint_grant : RefGrant
endpoint_grant = grant_to (record { kinds = endpoint_kind ∷ []; names = "*" ∷ [] } ∷ [])

abbrev reader_of : RefGrant → GrantReader
reader_of g = record {
  list = λ ns. if str_eq ns "shared" then some (g ∷ []) else some [];
  get = λ ns. some team_labels;
}

-- The line says what a run of `permits` computes through.
permits_opened : Option GrantReader → String → String → String → String → Result GrantError Bool
unfolding permits permits_listed allows or_later admits admits_targets in_audience try_from select
    namespace_labels in_targets kind_exposed name_exposed targets_of new_check contains
permits_opened = permits

site_permitted :
    permits (some (reader_of (grant_to []))) "team-a" "NetBoxSite" "shared" "ams" ≡ ok true
unfolding permits_opened
site_permitted = refl

endpoint_denied :
    permits (some (reader_of (grant_to []))) "team-a" endpoint_kind "shared" "prod" ≡ ok false
unfolding permits_opened
endpoint_denied = refl

endpoint_permitted :
    permits (some (reader_of endpoint_grant)) "team-a" endpoint_kind "shared" "prod" ≡ ok true
unfolding permits_opened
endpoint_permitted = refl

permits_iff_example :
    (b : Bool) × (permits (some (reader_of endpoint_grant)) "team-a" endpoint_kind "shared" "prod"
      ≡ ok b)
    × ((b ≡ true) ↔ (
        ◌≡◌ {A = String} "shared" "team-a"
        ⊎ Any (Admits team_labels endpoint_kind "prod") (endpoint_grant ∷ [])))
permits_iff_example =
    permits_iff (reader_of endpoint_grant) "team-a" endpoint_kind "shared" "prod" team_labels
      (endpoint_grant ∷ []) refl refl
