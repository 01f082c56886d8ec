-- ===== src/Engine/Deferral.antt =====
-- internal/reconciler/deferred.go: the fields that a create cannot carry.
use netbox_operator.Common.{
  String, Bool, true, false, ◌&&◌, Option, none, some, List, [], ◌∷◌, lookup, delete, contains,
  str_eq, if◌then◌else◌,
}
use netbox_operator.Json.{Object, get}
use netbox_operator.Drift.{Change, changes}
use netbox_operator.Registry.{DeferMode, defer_always, defer_if_unresolved, DeferredField, Field}
use package.netbox_operator.Engine.Inputs.{Setting}

-- deferredField
pub record Deferred : Type 0 where
  pub spec : String
  pub api : String
  pub mode : DeferMode
  pub resolved : Bool

abbrev pub is_some {ℓ} : {A : Type ℓ} → Option A → Bool
is_some none = false
is_some (some a) = true

abbrev pub always : DeferMode → Bool
always defer_always = true
always defer_if_unresolved = false

-- writerOf, where the fields are those of a reference class.
unfoldable pub writer_of : List Field → String → Option Field
writer_of [] api = none
writer_of (f ∷ fs) api = if str_eq f.api api then some f else writer_of fs api

unfoldable pub strip : List Deferred → List String
strip [] = []
strip (f ∷ fs) = let rest = strip fs in if always f.mode && f.resolved then f.api ∷ rest else rest

unfoldable pub delete_all : List String → Object → Object
delete_all [] payload = payload
delete_all (api ∷ apis) payload = delete_all apis (delete api payload)

abbrev pub create_payload : List Deferred → Object → Object
create_payload fields desired = delete_all (strip fields) desired

module _ (p : Setting) where
  abbrev pub add_deferred : DeferredField → Option Field → Object → List Deferred → List Deferred
  add_deferred declared none desired rest = rest
  add_deferred declared (some f) desired rest =
      if contains p.declared f.spec
      then record {
        spec = f.spec;
        api = f.api;
        mode = declared.mode;
        resolved = is_some (lookup f.api desired);
      }
        ∷ rest
      else rest

  unfoldable pub new_deferral : List DeferredField → Object → List Deferred
  new_deferral [] desired = []
  new_deferral (d ∷ ds) desired =
      add_deferred d (writer_of p.desc.fields d.api_field) desired (new_deferral ds desired)

  abbrev pub none_left : List Change → Bool
  none_left [] = true
  none_left (c ∷ cs) = false

  -- applied; a live object that is not there is `none`.
  abbrev pub applied : Option Object → Object → Deferred → Bool
  applied none desired f = false
  applied (some live) desired f =
      f.resolved && none_left (changes p.go live ((f.api, get desired f.api) ∷ []) p.rules)

  unfoldable pub pending : Option Object → Object → List Deferred → List String
  pending live desired [] = []
  pending live desired (f ∷ fs) =
      let rest = pending live desired fs in if applied live desired f then rest else f.spec ∷ rest
