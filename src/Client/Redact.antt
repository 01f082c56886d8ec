-- ===== src/Client/Redact.antt =====
-- internal/netbox/do.go: what the client logs of a payload or a response.
use mathlib.Core.Path.{ap, ap₂}
use netbox_operator.Common.{
  String, Bool, true, false, Option, none, some, List, [], ◌∷◌, ◌≡◌, sym, ◌⊎◌, inl, inr, refl,
  contains, str_eq, if◌then◌else◌, Bool-cases,
}
use netbox_operator.Json.{
  Json, text, list, object, Items, no_items, item, Members, no_members, member, custom_fields_key,
}
use netbox_operator.Drift.Order.{sort_texts}

abbrev pub secret_fields : List String
secret_fields =
    "auth_psk" ∷ "psk" ∷ "preshared_key" ∷ "password" ∷ "auth_key" ∷ "token" ∷ "secret"
    ∷ "private_key" ∷ "api_key" ∷ []

unfoldable pub keys_of : Members → List String
keys_of no_members = []
keys_of (member key v m) = key ∷ keys_of m

abbrev pub custom_names : Json → Option (List String)
custom_names (object m) = some (keys_of m)
custom_names _ = none

-- strings.ToLower, and the text that Sprintf makes of the names of custom fields and their number.
module _ (to_lower : String → String) (describe : List String → String) where
  unfoldable pub is_secret_field : String → Bool
  is_secret_field key = contains secret_fields (to_lower key)

  abbrev pub described : Option (List String) → Json
  described none = text "[redacted]"
  described (some names) = text (describe (sort_texts names))

  abbrev pub redact_custom_fields : Json → Json
  redact_custom_fields value = described (custom_names value)

  -- The value of a key, where what it has inside is redacted already.
  abbrev pub shown : String → Json → Json → Json
  shown key value inside =
      if is_secret_field key
      then text "[redacted]"
      else if str_eq key custom_fields_key
      then redact_custom_fields value
      else inside

  unfoldable mutual
    pub redact_inside : String → Json → Json
    redact_inside key (object m) = object (redact m)
    redact_inside key (list vs) = list (redact_items key vs)
    redact_inside key v = v

    pub redact_items : String → Items → Items
    redact_items key no_items = no_items
    redact_items key (item v vs) = item (shown key v (redact_inside key v)) (redact_items key vs)

    pub redact : Members → Members
    redact no_members = no_members
    redact (member key v m) = member key (shown key v (redact_inside key v)) (redact m)

  abbrev pub redact_value : String → Json → Json
  redact_value key value = shown key value (redact_inside key value)

  -- Two payloads that differ in secrets only: in values of secret keys at any depth, and in what the
  -- custom fields have, but not in their names.
  abbrev pub Alike : String → Json → Json → Type 0 → Type 0
  Alike key v w Inside =
      (is_secret_field key ≡ true)
      ⊎ ((str_eq key custom_fields_key ≡ true) × (custom_names v ≡ custom_names w))
      ⊎ ((str_eq key custom_fields_key ≡ false) × Inside)

  unfoldable mutual
    pub AlikeInside : String → Json → Json → Type 0
    AlikeInside key (object m) (object n) = AlikeMembers m n
    AlikeInside key (list vs) (list ws) = AlikeItems key vs ws
    AlikeInside key v w = v ≡ w

    pub AlikeItems : String → Items → Items → Type 0
    AlikeItems key (item v vs) (item w ws) =
        Alike key v w (AlikeInside key v w) × AlikeItems key vs ws
    AlikeItems key vs ws = vs ≡ ws

    pub AlikeMembers : Members → Members → Type 0
    AlikeMembers (member k v m) (member l w n) =
        (k ≡ l) × Alike k v w (AlikeInside k v w) × AlikeMembers m n
    AlikeMembers m n = m ≡ n

  shown-Alike :
      (key : String) (v w : Json) (Inside : Type 0)
      → Alike key v w Inside
      → (Inside → redact_inside key v ≡ redact_inside key w)
      → redact_value key v ≡ redact_value key w
  shown-Alike key v w Inside h f = elim (Bool-cases (is_secret_field key)) [
    | inl t ↦ rw t refl
    | inr t ↦ rw t (elim (Bool-cases (str_eq key custom_fields_key)) [
      | inl c ↦ rw c (elim h [
        | inl s ↦ cc
        | inr (inl (d, names)) ↦ rw names refl
        | inr (inr (d, inside)) ↦ cc
      ])
      | inr c ↦
          rw c
            (elim h [ inl s ↦ cc | inr (inl (d, names)) ↦ cc | inr (inr (d, inside)) ↦ f inside ])
    ])
  ]

  mutual
    unfolding AlikeInside redact

    inside-alike :
        (key : String) (v w : Json)
        → AlikeInside key v w
        → redact_inside key v ≡ redact_inside key w
    inside-alike key (object m) (object n) h = ap object (members-alike m n h)
    inside-alike key (list vs) (list ws) h = ap list (items-alike key vs ws h)
    inside-alike key v w h = ap (redact_inside key) h

    items-alike :
        (key : String) (vs ws : Items)
        → AlikeItems key vs ws
        → redact_items key vs ≡ redact_items key ws
    items-alike key (item v vs) (item w ws) (a, rest) =
        ap₂ item (shown-Alike key v w (AlikeInside key v w) a (inside-alike key v w))
          (items-alike key vs ws rest)
    items-alike key vs ws h = ap (redact_items key) h

    members-alike : (m n : Members) → AlikeMembers m n → redact m ≡ redact n
    members-alike (member k v m) (member l w n) (e, a, rest) = rw (sym e) (
        ap₂ (member k) (shown-Alike k v w (AlikeInside k v w) a (inside-alike k v w))
          (members-alike m n rest))
    members-alike m n h = ap redact h

  -- What is logged of a payload tells nothing of its secrets: two payloads that differ only in the
  -- values of secret keys, at any depth of objects and lists, and in what custom fields of the same
  -- names have, are logged alike.
  pub redact-Alike : (m n : Members) → AlikeMembers m n → redact m ≡ redact n
  redact-Alike m n h = members-alike m n h
