-- ===== src/Json.antt =====
-- internal/netbox/object.go: the values of NetBox's JSON, and how they are read as numbers, ids and
-- texts. What strconv, fmt, encoding/json and Go's conversions answer is a parameter.
use netbox_operator.Common.{
  ℕ, ◌/◌, ◌%◌, ◌^◌, String, Bool, not, ◌&&◌, ◌||◌, Option, none, some, List, [], ◌∷◌, ◌==◌,
  if◌then◌else◌, lookup, put, str_eq,
}

-- A number that encoding/json read is a float64, given by its 64 bits; `whole` is an int in two's
-- complement, below 2 ^ 64. `ints` and `texts` are the typed slices []int and []string, `list` is
-- []any. A builder puts no other type of Go into an object.
mutual
  pub data Json : Type 0 where
    null : Json
    boolean : Bool → Json
    number whole : ℕ → Json
    text : String → Json
    ints : List ℕ → Json
    texts : List String → Json
    list : Items → Json
    object : Members → Json

  pub data Items : Type 0 where
    no_items : Items
    item : Json → Items → Items

  pub data Members : Type 0 where
    no_members : Members
    member : String → Json → Members → Members

abbrev pub Object : Type 0
Object = List (String × Json)

unfoldable pub items_of : Items → List Json
items_of no_items = []
items_of (item v rest) = v ∷ items_of rest

unfoldable pub members_of : Members → Object
members_of no_members = []
members_of (member k v rest) = (k, v) ∷ members_of rest

-- A read of a map: a key that is missing reads as nil.
abbrev pub or_null : Option Json → Json
or_null none = null
or_null (some v) = v

abbrev pub get : Object → String → Json
get o key = or_null (lookup key o)

pub record Go : Type 0 where
  pub parse_float : String → Option ℕ
  pub atoi : String → Option ℕ
  pub float_of_int : ℕ → ℕ
  pub int_of_float : ℕ → ℕ
  pub sprint : Json → String
  pub marshal : Json → Option String

-- The comparison of two float64: a NaN equals nothing, and the two zeros each other.
unfoldable pub is_nan : ℕ → Bool
is_nan b = (b / 2 ^ 52) % 2 ^ 11 == 2047 && not (b % 2 ^ 52 == 0)

unfoldable pub is_zero : ℕ → Bool
is_zero b = b % 2 ^ 63 == 0

unfoldable pub float_eq : ℕ → ℕ → Bool
unfolding is_nan is_zero
float_eq a b = not (is_nan a) && not (is_nan b) && (a == b || is_zero a && is_zero b)

abbrev pub as_string : Json → String
as_string (text s) = s
as_string _ = ""

-- asList: the elements that are objects.
unfoldable pub objects_of : List Json → List Object
objects_of [] = []
objects_of (object m ∷ vs) = members_of m ∷ objects_of vs
objects_of (v ∷ vs) = objects_of vs

unfoldable pub as_list : Json → List Object
as_list (list vs) = objects_of (items_of vs)
as_list _ = []

abbrev pub unwrap_members : Json → Option Json → Option Json → Json
unwrap_members have (some id) value = id
unwrap_members have none (some value) = value
unwrap_members have none none = have

-- What a related object or a choice is written as: its id, or its value.
unfoldable pub unwrap_nested : Json → Json
unwrap_nested (object m) =
    unwrap_members (object m) (lookup "id" (members_of m)) (lookup "value" (members_of m))
unwrap_nested v = v

-- Unwrap, IDOf, ChoiceOf, CustomFieldOf and SetCustomField; a map that a write makes is a copy.
abbrev pub custom_fields_key : String
custom_fields_key = "custom_fields"

unfoldable pub to_members : Object → Members
to_members [] = no_members
to_members ((k, v) ∷ o) = member k v (to_members o)

abbrev pub object_or_empty : Json → Object
object_or_empty (object m) = members_of m
object_or_empty _ = []

unfoldable pub choice_of : Json → String
choice_of (object m) = as_string (get (members_of m) "value")
choice_of v = as_string v

unfoldable pub custom_field_of : Object → String → String
custom_field_of o name =
    if str_eq name "" then "" else as_string (get (object_or_empty (get o custom_fields_key)) name)

unfoldable pub set_custom_field : Object → String → String → Object
set_custom_field o name value =
    if str_eq name ""
    then o
    else put custom_fields_key
        (object (to_members (put name (text value) (object_or_empty (get o custom_fields_key))))) o

abbrev pub add_id : Option ℕ → List ℕ → List ℕ
add_id none ids = ids
add_id (some id) ids = id ∷ ids

abbrev pub add_text : String → List String → List String
add_text s rest = if str_eq s "" then rest else s ∷ rest

module _ (go : Go) where
  unfoldable pub as_int : Json → Option ℕ
  as_int (number b) = some (go.int_of_float b)
  as_int (whole n) = some n
  as_int (text s) = go.atoi s
  as_int _ = none

  abbrev pub object_id : Object → Option ℕ
  object_id o = as_int (get o "id")

  unfoldable pub to_float : Json → Option ℕ
  to_float (number b) = some b
  to_float (text s) = go.parse_float s
  to_float (whole n) = some (go.float_of_int n)
  to_float _ = none

  abbrev pub id_of : Json → Option ℕ
  id_of v = as_int (unwrap_nested v)

  unfoldable pub ids_in : List Object → List ℕ
  ids_in [] = []
  ids_in (o ∷ os) = add_id (object_id o) (ids_in os)

  unfoldable pub nested_ids : Json → List ℕ
  nested_ids v = ids_in (as_list v)

  abbrev pub id_item : Json → Option ℕ
  id_item (object m) = object_id (members_of m)
  id_item v = as_int v

  unfoldable pub item_ids : List Json → List ℕ
  item_ids [] = []
  item_ids (v ∷ vs) = add_id (id_item v) (item_ids vs)

  unfoldable pub ids_of : Json → List ℕ
  ids_of (ints ids) = ids
  ids_of (list vs) = item_ids (items_of vs)
  ids_of _ = []

  -- canonicalise goes through lists and objects, and reads numbers wherever it can.
  abbrev pub as_number : Option ℕ → Json → Json
  as_number (some b) v = number b
  as_number none v = v

  unfoldable mutual
    pub canonicalise : Json → Json
    canonicalise (object m) = object (canonicalise_members m)
    canonicalise (list vs) = list (canonicalise_items vs)
    canonicalise (text s) = as_number (go.parse_float s) (text s)
    canonicalise (whole n) = number (go.float_of_int n)
    canonicalise v = v

    pub canonicalise_items : Items → Items
    canonicalise_items no_items = no_items
    canonicalise_items (item v vs) = item (canonicalise v) (canonicalise_items vs)

    pub canonicalise_members : Members → Members
    canonicalise_members no_members = no_members
    canonicalise_members (member k v m) = member k (canonicalise v) (canonicalise_members m)
