-- ===== src/Registry.antt =====
-- internal/registry: what the descriptors of registry.go and fields.go say of a kind, as far as the
-- resolver and the engine read it, and the natural keys of naturalkey.go.
use netbox_operator.Common.{String, Bool, ◌&&◌, ◌≡◌, ◌↔◌, true, List, arith, str_eq, eq_iff}

-- schema.GroupVersionKind
pub record Gvk : Type 0 where
  pub group : String
  pub version : String
  pub kind : String

unfoldable pub gvk_eq : Gvk → Gvk → Bool
gvk_eq a b = str_eq a.group b.group && str_eq a.version b.version && str_eq a.kind b.kind

pub gvk_eq_iff : (a b : Gvk) → (gvk_eq a b ≡ true) ↔ (a ≡ b)
unfolding gvk_eq
gvk_eq_iff a b =
    ground (arith, eq_iff a.group b.group, eq_iff a.version b.version, eq_iff a.kind b.kind)

pub record KeyField : Type 0 where
  pub filter : String
  pub spec : String
  pub lookup : String

pub record NullField : Type 0 where
  pub filter : String
  pub spec : String
  pub column : String

pub record NaturalKey : Type 0 where
  pub fields : List KeyField
  pub null_fields : List NullField

pub data DeferMode : Type 0 where
  defer_always defer_if_unresolved : DeferMode

pub record DeferredField : Type 0 where
  pub api_field : String
  pub mode : DeferMode

pub record Field : Type 0 where
  pub spec : String
  pub api : String
  pub target : Gvk

pub record Descriptor : Type 0 where
  pub gvk : Gvk
  pub endpoint : String
  pub custom_fieldable : Bool
  pub data_loss_on_delete : Bool
  pub fields : List Field
  pub natural_keys : List NaturalKey
  pub deferred : List DeferredField
