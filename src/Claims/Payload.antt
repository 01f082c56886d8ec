-- ===== src/Claims/Payload.antt =====
-- internal/reconciler/claim.go: the payload of an allocation carries the identity of the claim.
use netbox_operator.Common.{
  String, false, Option, none, some, List, [], ◌∷◌, ◌≡◌, refl, ap, ◌∙◌, All, lookup, put,
  lookup-put_same, lookup-put_other, str_eq, Option-cases, inl, inr, arith,
}
use netbox_operator.Common.Result.{Result, ok, err, ◌>>=◌}
use netbox_operator.Json.{
  text, object, Object, get, or_null, members_of, to_members, object_or_empty, custom_fields_key,
  custom_field_of, set_custom_field,
}
use netbox_operator.Registry.{Field}
use package.netbox_operator.Claims.Inputs.{
  SpecField, Claim, ClaimDescriptor, ClaimEndpoint, World, ClaimFailure,
}
use package.netbox_operator.Claims.Pool.{
  request_value, put_fields, put_spec, payload_of, stamped_payload,
}

members_of-to_members : (o : Object) → members_of (to_members o) ≡ o
unfolding members_of to_members
members_of-to_members [] = refl
members_of-to_members ((k, v) ∷ o) = ap (λ (r : Object). (k, v) ∷ r) (members_of-to_members o)

custom_field_of-set :
    (o : Object) (name value : String)
    → str_eq name "" ≡ false
    → custom_field_of (set_custom_field o name value) name ≡ value
unfolding custom_field_of set_custom_field
custom_field_of-set o name value named =
    let fields = put name (text value) (object_or_empty (get o custom_fields_key)) in
    let stored : get (put custom_fields_key (object (to_members fields)) o) custom_fields_key
        ≡ object (to_members fields) =
      ap or_null (lookup-put_same custom_fields_key (object (to_members fields)) o) in
    rw named (
      rw stored (
        rw (members_of-to_members fields) (
          rw (lookup-put_same name (text value) (object_or_empty (get o custom_fields_key))) refl)))

-- The fields that a claim requests are not the custom fields.
abbrev pub IsApart : List Field → Type 0
IsApart fields = All (λ (f : Field). str_eq f.api custom_fields_key ≡ false) fields

abbrev Keeps : Object → Result ClaimFailure Object → Type 0
Keeps payload r =
    (out : Object) → r ≡ ok out → lookup custom_fields_key out ≡ lookup custom_fields_key payload

request_value-Keeps :
    (api : String) (f : Option SpecField) (payload : Object)
    → str_eq api custom_fields_key ≡ false
    → Keeps payload (request_value api f payload)
request_value-Keeps api none payload apart out e = cc
request_value-Keeps api (some f) payload apart out e = elim (Option-cases f.as_value) [
  | inl t ↦ absurd ground (arith, e, t)
  | inr (v, t) ↦
      let same : put api v payload ≡ out = cc (e, t) in
      rw (← same) (lookup-put_other custom_fields_key api v payload apart)
]

bind-Keeps :
    (payload : Object) (r : Result ClaimFailure Object) (f : Object → Result ClaimFailure Object)
    → Keeps payload r
    → ((next : Object) → Keeps next (f next))
    → Keeps payload (r >>= f)
bind-Keeps payload (ok next) f first rest out e = rest next out e ∙ first next refl
bind-Keeps payload (err failure) f first rest out e = cc

put_fields-Keeps :
    (spec : List (String × SpecField)) (fields : List Field) (payload : Object)
    → IsApart fields
    → Keeps payload (put_fields spec fields payload)
unfolding put_fields
put_fields-Keeps spec [] payload apart = λ out e. let same : payload ≡ out = cc e in rw same
put_fields-Keeps spec (f ∷ fields) payload apart =
    bind-Keeps payload (request_value f.api (lookup f.spec spec) payload) (put_fields spec fields)
      (request_value-Keeps f.api (lookup f.spec spec) payload apart.0)
      (λ next. put_fields-Keeps spec fields next apart.1)

put_spec-Keeps :
    (spec : Option (List (String × SpecField))) (fields : List Field) (payload : Object)
    → IsApart fields
    → Keeps payload (put_spec spec fields payload)
put_spec-Keeps spec [] payload apart out e = let same : payload ≡ out = cc e in rw same
put_spec-Keeps none (f ∷ fields) payload apart out e = cc
put_spec-Keeps (some spec) (f ∷ fields) payload apart out e =
    put_fields-Keeps spec (f ∷ fields) payload apart out e

pub payload_of-identity :
    (w : World) (d : ClaimDescriptor) (e : ClaimEndpoint) (c : Claim) (identity : String)
    (payload : Object)
    → str_eq e.allocation_identity_field "" ≡ false
    → IsApart d.request_fields
    → payload_of w d e c identity ≡ ok payload
    → custom_field_of payload e.allocation_identity_field ≡ identity
unfolding payload_of custom_field_of
payload_of-identity w d e c identity payload named apart made =
    let set = set_custom_field (stamped_payload w d e c) e.allocation_identity_field identity in
    let kept : lookup custom_fields_key payload ≡ lookup custom_fields_key set =
      put_spec-Keeps c.spec d.request_fields set apart payload made in
    rw kept
      (custom_field_of-set (stamped_payload w d e c) e.allocation_identity_field identity named)
