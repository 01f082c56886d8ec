-- ===== src/Grants.antt =====
-- internal/resolver/grants.go: which references across namespaces a NetBoxRefGrant permits.
-- `permits` and the methods of `grantCheck`; the messages of `detail` and `remedy` are left out.
pub mod Decide
pub mod Tests
use netbox_operator.Common.{
  String, Bool, true, false, not, ◌&&◌, ◌||◌, Option, none, some, List, [], ◌∷◌, ◌++◌,
  if◌then◌else◌, str_eq, contains,
}
use netbox_operator.Common.Result.{Result, ok, err}

abbrev pub Labels : Type 0
Labels = List (String × String)

-- A value of `namespaces` other than `All` reads the selector.
pub data FromNamespaces : Type 0 where
  all_namespaces by_selector : FromNamespaces

-- The selector is what LabelSelectorAsSelector makes of it: a test of labels, or an error.
pub record RefGrantFrom : Type 0 where
  pub namespaces : FromNamespaces
  pub selector : Option (Labels → Bool)

pub record RefGrantTo : Type 0 where
  pub kinds : List String
  pub names : List String

pub record RefGrant : Type 0 where
  pub namespace : String
  pub name : String
  pub from : List RefGrantFrom
  pub to : List RefGrantTo

-- What the grant reader answers: the grants in a namespace and the labels of one. `none` is an error
-- of the API; without a reader nothing is asked.
pub record GrantReader : Type 0 where
  pub list : String → Option (List RefGrant)
  pub get : String → Option Labels

pub data GrantError : Type 0 where
  no_grant_reader list_failed namespace_unread : GrantError

pub record GrantCheck : Type 0 where
  pub from : String
  pub kind : String
  pub name : String
  pub endpoint_excluded : Bool
  pub problems : List (String × String)
  pub ns_labels : Labels
  pub ns_read : Bool

abbrev pub any_name : String
any_name = "*"

abbrev pub endpoint_kind : String
endpoint_kind = "NetBoxEndpoint"

-- A method of the check: an answer or an error, and the check as it leaves it.
abbrev pub Check : Type 0 → Type 0
Check A = Result GrantError A × GrantCheck

pub targets_of : RefGrant → List RefGrantTo
targets_of grant = elim grant.to [ [] ↦ record { kinds = []; names = [] } ∷ [] | t ∷ ts ↦ t ∷ ts ]

pub name_exposed : List String → String → Bool
name_exposed [] name = true
name_exposed (n ∷ names) name = contains (n ∷ names) any_name || contains (n ∷ names) name

pub kind_exposed : List String → GrantCheck → Bool × GrantCheck
kind_exposed [] c =
    if str_eq c.kind endpoint_kind
    then (false, record c { endpoint_excluded = true })
    else (true, c)
kind_exposed (k ∷ kinds) c = (contains (k ∷ kinds) c.kind, c)

pub in_targets : List RefGrantTo → GrantCheck → Bool × GrantCheck
in_targets [] c = (false, c)
in_targets (to ∷ rest) c =
    let (kind_ok, c') = kind_exposed to.kinds c in
    let later = in_targets rest c' in
    if kind_ok && name_exposed to.names c'.name then (true, c') else later

pub found_labels : Option Labels → GrantCheck → Check Labels
found_labels none c = (err namespace_unread, c)
found_labels (some live) c = (ok live, record c { ns_labels = live; ns_read = true })

pub namespace_labels : GrantReader → GrantCheck → Check Labels
unfolding found_labels
namespace_labels reader c =
    if c.ns_read then (ok c.ns_labels, c) else found_labels (reader.get c.from) c

pub add_problem : RefGrant → GrantCheck → GrantCheck
add_problem grant c = record c { problems = c.problems ++ (grant.namespace, grant.name) ∷ [] }

-- What follows in the loop body once the labels are asked for.
pub select : Check Labels → (Labels → Bool) → (GrantCheck → Check Bool) → Check Bool
select (ok known, c) matches rest = if matches known then (ok true, c) else rest c
select (err e, c) matches rest = (err e, c)

-- The body of the loop of inAudience.
pub try_from :
    GrantReader
    → RefGrant
    → FromNamespaces
    → Option (Labels → Bool)
    → (GrantCheck → Check Bool)
    → GrantCheck
    → Check Bool
unfolding select add_problem
try_from reader grant all_namespaces selector rest c = (ok true, c)
try_from reader grant by_selector none rest c = rest (add_problem grant c)
try_from reader grant by_selector (some matches) rest c =
    select (namespace_labels reader c) matches rest

pub in_audience : GrantReader → RefGrant → List RefGrantFrom → GrantCheck → Check Bool
in_audience reader grant [] c = (ok false, c)
in_audience reader grant (f ∷ fs) c =
    try_from reader grant f.namespaces f.selector (in_audience reader grant fs) c

pub admits_targets : RefGrant → Check Bool → Check Bool
admits_targets grant (ok true, c) =
    let (exposed, c') = in_targets (targets_of grant) c in (ok exposed, c')
admits_targets grant (ok false, c) = (ok false, c)
admits_targets grant (err e, c) = (err e, c)

pub admits : GrantReader → RefGrant → GrantCheck → Check Bool
admits reader grant c = admits_targets grant (in_audience reader grant grant.from c)

pub or_later : Check Bool → (GrantCheck → Check Bool) → Check Bool
or_later (ok true, c) rest = (ok true, c)
or_later (ok false, c) rest = rest c
or_later (err e, c) rest = (err e, c)

pub allows : GrantReader → List RefGrant → GrantCheck → Check Bool
allows reader [] c = (ok false, c)
allows reader (grant ∷ grants) c = or_later (admits reader grant c) (allows reader grants)

pub new_check : String → String → String → GrantCheck
new_check from kind name = record {
  from = from;
  kind = kind;
  name = name;
  endpoint_excluded = false;
  problems = [];
  ns_labels = [];
  ns_read = false;
}

pub permits_listed : GrantReader → Option (List RefGrant) → GrantCheck → Result GrantError Bool
permits_listed reader none check = err list_failed
permits_listed reader (some grants) check = (allows reader grants check).0

-- `permits from kind namespace name`: may an object in namespace `from` refer to that object?
unfoldable pub permits :
    Option GrantReader → String → String → String → String → Result GrantError Bool
unfolding permits_listed new_check
permits grants from kind namespace name = if str_eq namespace from then ok true else elim grants [
  | none ↦ err no_grant_reader
  | some reader ↦ permits_listed reader (reader.list namespace) (new_check from kind name)
]
