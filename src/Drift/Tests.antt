-- ===== src/Drift/Tests.antt =====
-- Runs of the comparison of objects at concrete inputs, and its theorems at such inputs.
use mathlib.Core.Path.{subst}
use netbox_operator.Common.{
  ℕ, String, true, false, Option, none, some, [], ◌∷◌, ◌≡◌, ◌↔◌, ◌⊎◌, refl, lookup, put, contains,
  str_eq, eq_iff, ◌==◌, if◌then◌else◌, inl, Any, Bool, Bool-cases, inr, lookup-miss, ◌∙◌, sym,
}
use netbox_operator.Json.{
  Json, number, text, ints, list, object, item, no_items, member, no_members, Object, Go, get,
  canonicalise, nested_ids, ids_of, items_of, members_of, as_list, objects_of, ids_in, item_ids,
  float_eq, is_nan, is_zero, to_float, as_int, unwrap_nested,
}
use netbox_operator.Drift.{
  FieldRules, GenericFk, scalar_equal, bool_equal, same_id_set, field_equal, generic_fk_change,
  pair_changes, handled, field_changes, insert_change, sort_changes, changes, payload_of, hash,
}
use netbox_operator.Drift.Order.{insert_id, sort_ids, same_ids}
use netbox_operator.Drift.Settle.{changes-settled}
use netbox_operator.Drift.Answered.{Answers}
use netbox_operator.Drift.Pairs.{SidesSame}
use netbox_operator.Drift.Patch.{patched-desired, patched}
use netbox_operator.Drift.SameIds.{count, same_id_set_iff}

-- The bits of 7 and of the NaN that strconv reads.
abbrev seven : ℕ
seven = 4619567317775286272

abbrev not_a_number : ℕ
not_a_number = 9221120237041090561

abbrev parse : String → Option ℕ
parse s =
    if str_eq s "7"
    then some seven
    else if str_eq s "007"
    then some seven
    else if str_eq s "nan"
    then some not_a_number
    else none

abbrev print : Json → String
print (text s) = s
print _ = "?"

abbrev go : Go
go = record {
  parse_float = parse;
  atoi = λ s. none;
  float_of_int = λ n. n;
  int_of_float = λ b. if b == seven then 7 else 0;
  sprint = print;
  marshal = λ v. some (print v);
}

abbrev rules : FieldRules
rules = record {
  m2m = "tags" ∷ [];
  arrays = [];
  object_type_lists = [];
  json = [];
  generic_fks = (record { type_field = "scope_type"; id_field = "scope_id" }) ∷ [];
  generic_fk_lists = [];
}

abbrev desired : Object
desired =
    ("scope_type", text "dcim.site")
    ∷ ("scope_id", text "7")
    ∷ ("serial", text "7")
    ∷ ("comments", text "new")
    ∷ []

abbrev live : Object
live =
    ("scope_type", text "dcim.region")
    ∷ ("scope_id", number seven)
    ∷ ("serial", text "007")
    ∷ ("comments", text "old")
    ∷ []

abbrev later : Object
later =
    ("scope_type", text "dcim.site")
    ∷ ("scope_id", number seven)
    ∷ ("serial", text "007")
    ∷ ("comments", text "new")
    ∷ []

opened : ℕ → ℕ → Bool
unfolding lookup put contains scalar_equal bool_equal field_equal generic_fk_change pair_changes
    handled field_changes insert_change sort_changes changes payload_of float_eq is_nan is_zero
    to_float as_int unwrap_nested same_id_set insert_id sort_ids same_ids nested_ids ids_of items_of
    members_of as_list objects_of ids_in item_ids canonicalise hash count
opened = float_eq

-- The serial stays "007", as both texts read as the number 7, and the scope is written whole.
payload_run :
    payload_of (changes go live desired rules)
    ≡ ("scope_type", text "dcim.site") ∷ ("scope_id", text "7") ∷ ("comments", text "new") ∷ []
unfolding opened
payload_run = refl

-- A field is the key or another one.
at_key :
    (P : String → Type 0) (key field : String)
    → P key
    → (str_eq key field ≡ false → P field)
    → P field
at_key P key field h f = elim (Bool-cases (str_eq key field)) [
  | inl t ↦ subst P ((eq_iff key field).0 t) h
  | inr t ↦ f t
]

abbrev Answered : String → Type 0
Answered field =
    Answers go rules live later field (lookup field (payload_of (changes go live desired rules)))

-- No field of `live` or `later`.
absent :
    (field : String) (a b c d : Json)
    → str_eq "scope_type" field ≡ false
    → str_eq "scope_id" field ≡ false
    → str_eq "serial" field ≡ false
    → str_eq "comments" field ≡ false
    → lookup field (("scope_type", a) ∷ ("scope_id", b) ∷ ("serial", c) ∷ ("comments", d) ∷ [])
      ≡ none
unfolding lookup
absent field a b c d e f g h =
    lookup-miss field "scope_type" a (("scope_id", b) ∷ ("serial", c) ∷ ("comments", d) ∷ []) e
    ∙ lookup-miss field "scope_id" b (("serial", c) ∷ ("comments", d) ∷ []) f
    ∙ lookup-miss field "serial" c (("comments", d) ∷ []) g
    ∙ lookup-miss field "comments" d [] h

not_patched :
    (field : String)
    → str_eq "scope_type" field ≡ false
    → str_eq "scope_id" field ≡ false
    → str_eq "comments" field ≡ false
    → lookup field (payload_of (changes go live desired rules)) ≡ none
unfolding opened
not_patched field e f h =
    lookup-miss field "scope_type" (text "dcim.site")
      (("scope_id", text "7") ∷ ("comments", text "new") ∷ []) e
    ∙ lookup-miss field "scope_id" (text "7") (("comments", text "new") ∷ []) f
    ∙ lookup-miss field "comments" (text "new") [] h

answered : (field : String) → Answered field
unfolding opened
answered field = at_key Answered "scope_type" field refl (λ a.
    at_key Answered "scope_id" field refl (λ b. at_key Answered "comments" field refl (λ c.
      at_key Answered "serial" field refl (λ d.
        let same : get later field ≡ get live field =
          rw (absent field (text "dcim.site") (number seven) (text "007") (text "new") a b d c) (
            rw (absent field (text "dcim.region") (number seven) (text "007") (text "old") a b d c)
              refl) in
        subst (Answers go rules live later field) (sym (not_patched field a b c)) same))))

changes-settled_example : changes go later desired rules ≡ []
unfolding opened
changes-settled_example =
    changes-settled go rules live desired later (refl, (refl, (refl, (refl, tt)))) answered

patched-desired_example :
    ((field : String)
      → (patched go live desired rules field ≡ none)
        ⊎ (patched go live desired rules field ≡ lookup field desired))
    × ((pair : GenericFk)
        → Any (λ (other : GenericFk). other ≡ pair) rules.generic_fks
        → SidesSame go live desired pair
          ⊎ ((patched go live desired rules pair.type_field ≡ lookup pair.type_field desired)
              × (patched go live desired rules pair.id_field ≡ lookup pair.id_field desired)))
unfolding opened
patched-desired_example = patched-desired go live desired rules (refl, (refl, (refl, (refl, tt))))

abbrev tags : Json
tags = list (
    item (object (member "id" (number seven) no_members))
      (item (object (member "id" (number 0) no_members)) no_items))

same_id_set_iff_example :
    (same_id_set go tags (ints (0 ∷ 7 ∷ [])) ≡ true)
    ↔ ((n : ℕ) → count n (nested_ids go tags) ≡ count n (ids_of go (ints (0 ∷ 7 ∷ []))))
same_id_set_iff_example = same_id_set_iff go tags (ints (0 ∷ 7 ∷ []))

same_run : same_id_set go tags (ints (0 ∷ 7 ∷ [])) ≡ true
unfolding opened
same_run = refl

differ_run : same_id_set go tags (ints (7 ∷ 7 ∷ [])) ≡ false
unfolding opened
differ_run = refl

-- A text that reads as NaN differs from itself.
nan_run : field_equal go rules "name" (text "nan") (text "nan") ≡ false
unfolding opened
nan_run = refl
