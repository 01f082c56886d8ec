-- ===== src/Drift.antt =====
-- internal/netbox/drift.go: which fields of the desired object differ from the live one.
pub mod Order
pub mod Payload
pub mod Answered
pub mod Pairs
pub mod Settle
mod Tests
pub mod Patch
pub mod SameIds
use Prim.Native.String.{◌++◌ as str_append}
use netbox_operator.Common.{
  ℕ, String, Bool, true, false, not, ◌&&◌, ◌||◌, Option, none, some, List, [], ◌∷◌, ◌++◌, ◌==◌, leb,
  if◌then◌else◌, lookup, put, contains, str_eq,
}
use netbox_operator.Json.{
  Json, null, boolean, number, whole, text, texts, list, object, Object, items_of, members_of, get,
  Go, float_eq, as_string, unwrap_nested, object_or_empty, custom_fields_key, to_float, nested_ids,
  ids_of, add_text, canonicalise,
}
use Order.{sort_ids, sort_texts, compact, same_ids, same_texts, text_before}

pub record GenericFk : Type 0 where
  pub type_field : String
  pub id_field : String

pub record GenericFkItem : Type 0 where
  pub type_key : String
  pub id_key : String

-- A map to true is the list of its keys.
pub record FieldRules : Type 0 where
  pub m2m : List String
  pub arrays : List String
  pub object_type_lists : List String
  pub json : List String
  pub generic_fks : List GenericFk
  pub generic_fk_lists : List (String × GenericFkItem)

pub record Change : Type 0 where
  pub field : String
  pub old : Json
  pub new : Json

abbrev pub is_null : Json → Bool
is_null null = true
is_null _ = false

abbrev pub same_bool : Bool → Bool → Bool
same_bool true b = b
same_bool false b = not b

-- `none` where neither side is a boolean.
unfoldable pub bool_equal : Json → Json → Option Bool
bool_equal (boolean a) (boolean b) = some (same_bool a b)
bool_equal (boolean a) _ = some false
bool_equal _ (boolean b) = some false
bool_equal _ _ = none

-- ObjectTypesOf: texts, or the objects of content types.
abbrev pub type_name : Json → String
type_name (text s) = s
type_name (object m) =
    let app = as_string (get (members_of m) "app_label") in
    if str_eq app ""
    then ""
    else str_append app (str_append "." (as_string (get (members_of m) "model")))
type_name _ = ""

-- A text is taken as it is, an object that names no app is passed over.
abbrev pub add_type : Json → List String → List String
add_type (text s) names = s ∷ names
add_type v names = add_text (type_name v) names

pub type_names : List Json → List String
type_names [] = []
type_names (v ∷ vs) = add_type v (type_names vs)

pub object_types_of : Json → List String
object_types_of (texts names) = names
object_types_of (list vs) = type_names (items_of vs)
object_types_of _ = []

abbrev pub side_change : String → Json → Option Json → List Change → List Change
side_change field have none rest = rest
side_change field have (some want) rest = record { field = field; old = have; new = want } ∷ rest

unfoldable pub handled : List GenericFk → String → Bool
handled [] field = false
handled (pair ∷ pairs) field =
    str_eq pair.type_field field || str_eq pair.id_field field || handled pairs field

unfoldable pub insert_change : Change → List Change → List Change
insert_change c [] = c ∷ []
insert_change c (d ∷ ds) =
    let rest = insert_change c ds in if text_before d.field c.field then d ∷ rest else c ∷ d ∷ ds

unfoldable pub sort_changes : List Change → List Change
sort_changes [] = []
sort_changes (c ∷ cs) = insert_change c (sort_changes cs)

module _ (go : Go) where
  abbrev pub compare_numbers : Option ℕ → Option ℕ → Bool → Bool
  compare_numbers (some a) (some b) otherwise = float_eq a b
  compare_numbers _ _ otherwise = otherwise

  abbrev pub or_compare : Option Bool → Bool → Bool
  or_compare (some equal) otherwise = equal
  or_compare none otherwise = otherwise

  unfoldable pub scalar_equal : Json → Json → Bool
  unfolding bool_equal to_float
  scalar_equal have want =
      if is_null have || is_null want
      then is_null have && is_null want
      else or_compare (bool_equal have want) (
          compare_numbers (to_float go have) (to_float go want)
            (str_eq (go.sprint have) (go.sprint want)))

  pub same_id_set : Json → Json → Bool
  same_id_set have want = same_ids (sort_ids (nested_ids go have)) (sort_ids (ids_of go want))

  pub same_string_set : Json → Json → Bool
  same_string_set have want =
      same_texts (sort_texts (object_types_of have)) (sort_texts (object_types_of want))

  pub scalars_equal : List Json → List Json → Bool
  scalars_equal [] [] = true
  scalars_equal (x ∷ xs) (y ∷ ys) = scalar_equal x y && scalars_equal xs ys
  scalars_equal _ _ = false

  pub same_ordered_list : Json → Json → Bool
  same_ordered_list (list xs) (list ys) = scalars_equal (items_of xs) (items_of ys)
  same_ordered_list have want = scalar_equal have want

  -- The key of one element of a list of generic references; an id that is no number reads as 0.
  abbrev pub or_zero : Option ℕ → ℕ
  or_zero none = 0
  or_zero (some b) = b

  abbrev pub pair_key : GenericFkItem → Object → String
  pair_key keys o = str_append (go.sprint (unwrap_nested (get o keys.type_key))) (
      str_append "/"
        (go.sprint (number (or_zero (to_float go (unwrap_nested (get o keys.id_key)))))))

  abbrev pub add_key : GenericFkItem → Json → Option (List String) → Option (List String)
  add_key keys (object m) (some rest) = some (pair_key keys (members_of m) ∷ rest)
  add_key keys _ rest = none

  pub pair_keys : GenericFkItem → List Json → Option (List String)
  pair_keys keys [] = some []
  pair_keys keys (v ∷ vs) = add_key keys v (pair_keys keys vs)

  abbrev pub sorted_set : Option (List String) → Option (List String)
  sorted_set none = none
  sorted_set (some keys) = some (compact (sort_texts keys))

  pub pair_set : Json → GenericFkItem → Option (List String)
  pair_set (list vs) keys = sorted_set (pair_keys keys (items_of vs))
  pair_set _ keys = none

  abbrev pub compare_sets : Option (List String) → Option (List String) → Bool → Bool
  compare_sets (some have) (some want) otherwise = same_texts have want
  compare_sets _ _ otherwise = otherwise

  pub same_pair_set : Json → Json → GenericFkItem → Bool
  same_pair_set have want keys =
      compare_sets (pair_set have keys) (pair_set want keys) (scalar_equal have want)

  pub same_texts_read : Option String → Option String → Bool
  same_texts_read (some have) (some want) = str_eq have want
  same_texts_read _ _ = false

  pub same_json : Json → Json → Bool
  same_json have want =
      same_texts_read (go.marshal (canonicalise go have)) (go.marshal (canonicalise go want))

  pub members_equal : Object → Object → Bool
  members_equal live [] = true
  members_equal live ((key, value) ∷ desired) =
      scalar_equal (unwrap_nested (get live key)) value && members_equal live desired

  pub custom_fields_equal : Json → Json → Bool
  custom_fields_equal have (object m) = members_equal (object_or_empty have) (members_of m)
  custom_fields_equal have want = scalar_equal have want

  abbrev pub plain_or_pairs : Option GenericFkItem → Json → Json → Bool
  plain_or_pairs (some keys) have want = same_pair_set have want keys
  plain_or_pairs none have want = scalar_equal (unwrap_nested have) want

  unfoldable pub field_equal : FieldRules → String → Json → Json → Bool
  field_equal rules field have want =
      if str_eq field custom_fields_key
      then custom_fields_equal have want
      else if contains rules.m2m field
      then same_id_set have want
      else if contains rules.object_type_lists field
      then same_string_set have want
      else if contains rules.arrays field
      then same_ordered_list have want
      else if contains rules.json field
      then same_json have want
      else plain_or_pairs (lookup field rules.generic_fk_lists) have want

  -- genericFKChange: the two fields of a pair are written together, each that is desired.
  abbrev pub side_same : Json → Option Json → Bool
  side_same have none = true
  side_same have (some want) = scalar_equal (unwrap_nested have) want

  unfoldable pub generic_fk_change : Object → Object → GenericFk → List Change
  generic_fk_change live desired pair =
      let have_type = get live pair.type_field in
      let have_id = get live pair.id_field in
      let want_type = lookup pair.type_field desired in
      let want_id = lookup pair.id_field desired in
      if side_same have_type want_type && side_same have_id want_id
      then []
      else side_change pair.type_field have_type want_type
          (side_change pair.id_field have_id want_id [])

  unfoldable pub pair_changes : Object → Object → List GenericFk → List Change
  pair_changes live desired [] = []
  pair_changes live desired (pair ∷ pairs) =
      generic_fk_change live desired pair ++ pair_changes live desired pairs

  -- The loop over the desired fields.
  unfoldable pub field_changes : FieldRules → Object → Object → List Change
  field_changes rules live [] = []
  field_changes rules live ((field, want) ∷ desired) =
      let rest = field_changes rules live desired in
      let have = get live field in
      if handled rules.generic_fks field || field_equal rules field have want
      then rest
      else record { field = field; old = have; new = want } ∷ rest

  unfoldable pub changes : Object → Object → FieldRules → List Change
  changes live desired rules =
      sort_changes (pair_changes live desired rules.generic_fks ++ field_changes rules live desired)

-- Drift, which is also the payload of a patch.
unfoldable pub payload_of : List Change → Object
payload_of [] = []
payload_of (c ∷ cs) = put c.field c.new (payload_of cs)

module _ (go : Go) (sha : String → String) where
  abbrev pub hashed : Option String → Option String
  hashed none = none
  hashed (some canonical) = some (sha canonical)

  -- Hash; `sha` is the SHA-256 of a text in hex.
  unfoldable pub hash : Json → Option String
  hash obj = hashed (go.marshal (canonicalise go obj))
