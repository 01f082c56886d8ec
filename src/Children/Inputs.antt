-- ===== src/Children/Inputs.antt =====
-- internal/reconciler/children.go: what the pass over the inline children of a parent reads, and
-- what it does.
use netbox_operator.Common.{ℕ, String, Bool, Option, List}
use netbox_operator.Registry.{Gvk}
use package.netbox_operator.Children.Names.{ChildSets}

-- Whether an object is an Object or a Claim of the engine.
pub data Shape : Type 0 where
  an_object a_claim neither : Shape

-- The object that a builder makes for an entry. `gvk` is none where the scheme does not know it.
pub record Desired : Type 0 where
  pub gvk : Option Gvk
  pub shape : Shape
  pub endpoint_ref : String
  pub deletion_policy : String
  pub labels : List (String × String)
  pub annotations : List (String × String)

-- The object as it is applied.
pub record Manifest : Type 0 where
  pub gvk : Gvk
  pub namespace : String
  pub name : List ℕ
  pub endpoint_ref : String
  pub deletion_policy : String
  pub labels : List (String × String)
  pub annotations : List (String × String)

pub record Controller : Type 0 where
  pub kind : String
  pub name : String
  pub uid : String

-- An object of the cluster. `controller` is what GetControllerOf finds.
pub record Live : Type 0 where
  pub kind : String
  pub name : String
  pub labels : List (String × String)
  pub annotations : List (String × String)
  pub controller : Option Controller
  pub deleting : Bool

pub data ChildRead : Type 0 where
  absent unreadable : ChildRead
  present : Live → ChildRead

-- What Apply answers: the object with its Ready condition, a conflict of field managers, or an
-- error.
pub data ApplyAnswer : Type 0 where
  applied : Bool → ApplyAnswer
  conflicting apply_failed : ApplyAnswer

pub data DeleteAnswer : Type 0 where
  deleted not_there delete_failed : DeleteAnswer

-- ChildWriter. `apply` is told whether it forces the ownership; a list is none on an error.
pub record ChildWriter : Type 0 where
  pub get : Gvk → List ℕ → ChildRead
  pub apply : Manifest → Bool → ApplyAnswer
  pub list : Gvk → Option (List Live)
  pub delete : Live → DeleteAnswer

pub record GitOps : Type 0 where
  pub argo_cd : Bool
  pub flux : Bool
  pub extra : List (String × String)

pub data PassResult : Type 0 where
  dry_run reported other_result : PassResult

pub record ChildStatus : Type 0 where
  pub path : String
  pub kind : String
  pub name : List ℕ
  pub ready : Bool

-- The pass over the parent when it comes to its children. `inline` is none for a kind that
-- declares none; `reports` is the drift mode Report; `ready` its Ready condition; `before` the
-- children that the status named at the start.
pub record Parent : Type 0 where
  pub kind : String
  pub namespace : String
  pub name : String
  pub uid : String
  pub deleting : Bool
  pub id : ℕ
  pub endpoint_ref : String
  pub deletion_policy : String
  pub result : PassResult
  pub reports : Bool
  pub ready : Bool
  pub before : List ChildStatus
  pub inline : Option (ChildSets Desired)

-- `in_order` is what maps.Keys and SortFunc make of a set of kinds, `sorted` what SortFunc makes
-- of the children, `own` what SetControllerReference makes of an object, if it does not fail.
pub record ChildEngine : Type 0 where
  pub children : Option ChildWriter
  pub git_ops : Option GitOps
  pub in_order : List Gvk → List Gvk
  pub sorted : List ChildStatus → List ChildStatus
  pub own : Manifest → Option Manifest
  pub to_lower : String → String

-- What reaches Kubernetes, in order; an Event with its reason and the path of the child.
pub data ChildCall : Type 0 where
  apply_object : Manifest → ChildCall
  force_object : Manifest → ChildCall
  delete_object : Live → ChildCall
  event : String → String → ChildCall

-- `wait` in seconds; `children` and `condition` (ChildrenReady, with its reason) are none where
-- they are left as they are, and `withdrawn` is the reason for which Ready is set to false.
pub record ChildPass : Type 0 where
  pub calls : List ChildCall
  pub children : Option (List ChildStatus)
  pub condition : Option (Bool × String)
  pub withdrawn : Option String
  pub wait : ℕ
