-- ===== src/Children/State.antt =====
-- internal/reconciler/children.go: what a pass over the inline children keeps, and the helpers it
-- shares.
use netbox_operator.Common.{
  ℕ, String, Bool, true, false, ◌&&◌, Option, none, some, List, [], ◌∷◌, ◌++◌, str_eq, any, lookup,
  put, if◌then◌else◌,
}
use netbox_operator.Registry.{Gvk}
use package.netbox_operator.Children.Names.{bytes_eq}
use package.netbox_operator.Children.Inputs.{
  Shape, an_object, a_claim, neither, Desired, Controller, Live, ChildStatus, ChildCall,
}

abbrev pub owner_uid_label : String
owner_uid_label = "netbox.kubeforge.org/owner-uid"

abbrev pub owned_by_path : String
owned_by_path = "netbox.kubeforge.org/owned-by-path"

abbrev pub child_retry : ℕ
child_retry = 15

abbrev pub prune_margin : ℕ
prune_margin = 8

-- desiredChild.
pub record DesiredChild : Type 0 where
  pub path : String
  pub name : List ℕ
  pub gvk : Gvk
  pub obj : Desired

-- materialisation. Of `conflicts` and `failures` the paths or kinds are kept, of `pending` the
-- kinds, of `blocked` whether it is set; the keys of `paths` are those of `want`.
pub record Materialisation : Type 0 where
  pub want : List DesiredChild
  pub children : List ChildStatus
  pub conflicts : List String
  pub failures : List String
  pub pending : List String
  pub blocked : Bool
  pub calls : List ChildCall

abbrev pub nothing_yet : Materialisation
nothing_yet = record {
  want = [];
  children = [];
  conflicts = [];
  failures = [];
  pending = [];
  blocked = false;
  calls = [];
}

abbrev pub fail : String → Materialisation → Materialisation
fail what m = record m { failures = m.failures ++ (what ∷ []) }

abbrev pub call : ChildCall → Materialisation → Materialisation
call c m = record m { calls = m.calls ++ (c ∷ []) }

abbrev pub pend : String → Materialisation → Materialisation
pend what m = record m { pending = m.pending ++ (what ∷ []) }

-- A key that a Go map lacks reads as the empty text.
abbrev pub or_empty : Option String → String
or_empty none = ""
or_empty (some text) = text

unfoldable pub text_at : String → List (String × String) → String
text_at key entries = or_empty (lookup key entries)

abbrev pub controlled_by : String → Option Controller → Bool
controlled_by uid none = false
controlled_by uid (some controller) = str_eq controller.uid uid

unfoldable pub ours : Live → String → Bool
ours live uid =
    str_eq (text_at owner_uid_label live.labels) uid && controlled_by uid live.controller

abbrev pub child_ready : Shape → Bool → Bool
child_ready an_object ready = ready
child_ready a_claim ready = ready
child_ready neither ready = false

-- Of several entries of `add` with a key the first counts, as for lookup.
unfoldable pub overlay : List (String × String) → List (String × String) → List (String × String)
overlay base [] = base
overlay base ((key, text) ∷ add) = put key text (overlay base add)

abbrev pub or_parent : String → String → String
or_parent own inherited = if str_eq own "" then inherited else own

abbrev pub inherited : Shape → String → String → String
inherited an_object own parent = or_parent own parent
inherited a_claim own parent = or_parent own parent
inherited neither own parent = own

-- The kind and the name are compared as one text with a slash between them; no kind has a slash.
unfoldable pub same_at : DesiredChild → DesiredChild → Bool
same_at a b = str_eq a.gvk.kind b.gvk.kind && bytes_eq a.name b.name

unfoldable pub collision : List DesiredChild → List DesiredChild → Bool
collision seen [] = false
collision seen (child ∷ want) =
    let rest = collision (child ∷ seen) want in if any (same_at child) seen then true else rest

pub data Occupant : Type 0 where
  free own_child foreign unread : Occupant

abbrev pub paths : List DesiredChild → List String
paths [] = []
paths (child ∷ want) = child.path ∷ paths want

abbrev pub kinds : List DesiredChild → List Gvk
kinds [] = []
kinds (child ∷ want) = child.gvk ∷ kinds want

abbrev pub kinds_before : List ChildStatus → List Gvk
kinds_before [] = []
kinds_before (child ∷ before) =
    record { group = "netbox.kubeforge.org"; version = "v1alpha1"; kind = child.kind }
    ∷ kinds_before before
