-- ===== src/Resolve/Generic.antt =====
-- internal/resolver/genericfk.go: a reference to an object of one of several kinds. The decoding of the
-- union from a spec is left out.
use Prim.Native.String.{◌++◌ as str_append}
use netbox_operator.Common.{
  String, true, false, Option, none, some, List, [], ◌∷◌, ◌≡◌, ◌⊎◌, str_eq, contains, if◌then◌else◌,
}
use netbox_operator.Common.Result.{Result, ok, err}
use netbox_operator.Registry.{Gvk}
use netbox_operator.Cycle.{RefNode, ObjectRef, mode_none}
use package.netbox_operator.Resolve.{
  Cause, ref_malformed, ref_type_not_allowed, Unresolved, blocked, Sources, Request, Resolved,
  plain, resolve,
}

pub record GenericFkMember : Type 0 where
  pub spec : String
  pub target : Gvk

pub record GenericFkSpec : Type 0 where
  pub allowed_types : List String
  pub members : List GenericFkMember

-- GenericRequest: `path` is the name of the field or of its element, and `union` the members that
-- are set, each once.
pub record GenericRequest : Type 0 where
  pub referrer : RefNode
  pub pair : GenericFkSpec
  pub path : String
  pub union : List (String × ObjectRef)

-- MemberFor.
unfoldable pub member_for : List GenericFkMember → String → Option GenericFkMember
member_for [] spec = none
member_for (m ∷ ms) spec =
    let rest = member_for ms spec in if str_eq m.spec spec then some m else rest

abbrev pub refused_union : GenericRequest → Cause → Unresolved
refused_union req cause =
    blocked (record { cause = cause; field = req.path; mode = mode_none; index = none })

abbrev pub member_request : GenericRequest → GenericFkMember → ObjectRef → Request
member_request req m ref = record {
  referrer = req.referrer;
  field = record {
    field = record {
      spec = str_append req.path (str_append "." m.spec);
      api = "";
      target = m.target;
    };
    empty_is_null = false;
    to_many = false;
  };
  ref = ref;
}

-- `object_type` is what the descriptor of a kind has as its ObjectType.
module _ (s : Sources) (object_type : Gvk → String) where
  abbrev pub allowed :
      GenericRequest → GenericFkMember → Result Unresolved Resolved → Result Unresolved Resolved
  allowed req m (err e) = err e
  allowed req m (ok r) =
      if contains req.pair.allowed_types (object_type m.target)
      then ok r
      else err (refused_union req ref_type_not_allowed)

  abbrev pub resolve_member :
      GenericRequest → ObjectRef → Option GenericFkMember → Result Unresolved Resolved
  resolve_member req ref none = err (refused_union req ref_type_not_allowed)
  resolve_member req ref (some m) = allowed req m (resolve s (member_request req m ref))

  abbrev pub of_union : GenericRequest → List (String × ObjectRef) → Result Unresolved Resolved
  of_union req [] = ok (plain mode_none 0)
  of_union req ((name, ref) ∷ []) = resolve_member req ref (member_for req.pair.members name)
  of_union req (_ ∷ _ ∷ _) = err (refused_union req ref_malformed)

  -- ResolveGenericFK.
  unfoldable pub resolve_generic : GenericRequest → Result Unresolved Resolved
  resolve_generic req = of_union req req.union

  -- The member `m` is set to `ref`, and is an allowed one that resolves to `r`.
  abbrev pub Chosen : GenericRequest → Resolved → List (String × ObjectRef) → Type 0
  Chosen req r union =
      (name : String) × (ref : ObjectRef) × (m : GenericFkMember) × (union ≡ (name, ref) ∷ [])
      × (member_for req.pair.members name ≡ some m)
      × (contains req.pair.allowed_types (object_type m.target) ≡ true)
      × (resolve s (member_request req m ref) ≡ ok r)

  abbrev pub Selected : GenericRequest → Resolved → List (String × ObjectRef) → Type 0
  Selected req r union = ((union ≡ []) × (plain mode_none 0 ≡ r)) ⊎ Chosen req r union
