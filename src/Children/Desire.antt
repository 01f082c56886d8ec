-- ===== src/Children/Desire.antt =====
-- internal/reconciler/children.go: the children that a parent asks for, and the object of each.
use Prim.Native.String.{◌++◌ as str_append}
use netbox_operator.Common.{
  String, Bool, true, false, Option, none, some, List, [], ◌∷◌, ◌++◌, put, if◌then◌else◌,
}
use netbox_operator.Registry.{Gvk}
use package.netbox_operator.Children.Names.{
  ChildSegment, ChildSets, no_sets, child_set, ChildEntries, no_entries, child_entry, Bytes,
  child_path, child_name,
}
use package.netbox_operator.Children.Inputs.{Desired, Manifest, GitOps, Parent, ChildEngine}
use package.netbox_operator.Children.State.{
  owner_uid_label, owned_by_path, DesiredChild, Materialisation, fail, overlay, inherited,
}

abbrev pub default_git_ops : GitOps
default_git_ops = record { argo_cd = true; flux = false; extra = [] }

abbrev pub git_ops_or : Option GitOps → GitOps
git_ops_or none = default_git_ops
git_ops_or (some git_ops) = git_ops

abbrev pub put_if : Bool → String → String → List (String × String) → List (String × String)
put_if set key text entries = if set then put key text entries else entries

module _ (go : Bytes) (e : ChildEngine) (p : Parent) where
  abbrev pub add :
      List ChildSegment → Option Desired → Option Gvk → Materialisation → Materialisation
  add path none gvk m = m
  add path (some obj) none m = fail (child_path path) m
  add path (some obj) (some gvk) m = record m {
    want =
        m.want
        ++ (record {
          path = child_path path;
          name = child_name go p.name path;
          gvk = gvk;
          obj = obj;
        }
            ∷ []);
  }

  abbrev pub gvk_of : Option Desired → Option Gvk
  gvk_of none = none
  gvk_of (some obj) = obj.gvk

  unfoldable mutual
    pub desire : ChildSets Desired → List ChildSegment → Materialisation → Materialisation
    desire no_sets path m = m
    desire (child_set field discriminator entries sets) path m =
        desire sets path (desire_entries field discriminator entries path m)

    pub desire_entries :
        String
        → String
        → ChildEntries Desired
        → List ChildSegment
        → Materialisation
        → Materialisation
    desire_entries field discriminator no_entries path m = m
    desire_entries field discriminator (child_entry key desired children entries) path m =
        let at =
          path ++ (record { field = field; discriminator = discriminator; key = key } ∷ []) in
        desire_entries field discriminator entries path
          (desire children at (add at desired (gvk_of desired) m))

  abbrev pub markers_of : GitOps → String → List (String × String)
  markers_of ops path =
      put "netbox.kubeforge.org/generated-by"
        (str_append (e.to_lower p.kind)
          (str_append "/" (str_append p.namespace (str_append "/" p.name))))
        (put owned_by_path path (
          put_if ops.flux "kustomize.toolkit.fluxcd.io/reconcile" "disabled"
            (put_if ops.argo_cd "argocd.argoproj.io/compare-options" "IgnoreExtraneous" ops.extra)))

  abbrev pub markers : String → List (String × String)
  markers path = markers_of (git_ops_or e.git_ops) path

  -- decorate, up to SetControllerReference.
  unfoldable pub decorated : DesiredChild → Manifest
  decorated child = record {
    gvk = child.gvk;
    namespace = p.namespace;
    name = child.name;
    endpoint_ref = inherited child.obj.shape child.obj.endpoint_ref p.endpoint_ref;
    deletion_policy = inherited child.obj.shape child.obj.deletion_policy p.deletion_policy;
    labels =
        overlay child.obj.labels
          ((owner_uid_label, p.uid) ∷ ("app.kubernetes.io/managed-by", "netbox-operator") ∷ []);
    annotations = overlay child.obj.annotations (markers child.path);
  }
