-- ===== src/Children/Names.antt =====
-- api/v1alpha1/inline_children.go: the inline children of a parent, and the path and the name of each.
use Prim.Native.String.{◌++◌ as str_append}
use netbox_operator.Common.{
  ℕ, zero, suc, ◌+◌, String, Bool, true, false, ◌&&◌, ◌||◌, Option, List, [], ◌∷◌, ◌++◌, leb, ◌==◌,
  str_eq, length, if◌then◌else◌,
}

-- A segment of a path: the field of the parent, its discriminator and the key of the entry.
pub record ChildSegment : Type 0 where
  pub field : String
  pub discriminator : String
  pub key : String

-- []InlineChildSet and []InlineChildEntry for builders that make an `A`; `none` is a nil Desired.
mutual
  pub data ChildSets (A : Type 0) : Type 0 where
    no_sets : ChildSets A
    child_set : String → String → ChildEntries A → ChildSets A → ChildSets A

  pub data ChildEntries (A : Type 0) : Type 0 where
    no_entries : ChildEntries A
    child_entry : String → Option A → ChildSets A → ChildEntries A → ChildEntries A

-- ChildPath.
abbrev pub segment_text : ChildSegment → String
segment_text s = str_append "." (str_append s.field (str_append "[" (str_append s.key "]")))

unfoldable pub path_from : String → List ChildSegment → String
path_from text [] = text
path_from text (segment ∷ path) = path_from (str_append text (segment_text segment)) path

abbrev pub child_path : List ChildSegment → String
child_path path = path_from "spec" path

-- Texts as their bytes: `digest` is the hexadecimal form of a SHA-256 sum.
pub record Bytes : Type 0 where
  pub bytes : String → List ℕ
  pub digest : List ℕ → List ℕ

abbrev pub dash : ℕ
dash = 45

unfoldable pub lower_case : ℕ → ℕ
lower_case c = if leb 65 c && leb c 90 then c + 32 else c

unfoldable pub is_alnum : ℕ → Bool
is_alnum c = (leb 97 c && leb c 122) || (leb 48 c && leb c 57)

-- len(out) > 0 && out[len(out)-1] != '-'
unfoldable pub ends_in_word : List ℕ → Bool
ends_in_word [] = false
ends_in_word (b ∷ []) = if b == dash then false else true
ends_in_word (b ∷ (c ∷ bs)) = ends_in_word (c ∷ bs)

-- strings.TrimRight(s, "-")
abbrev pub keep : ℕ → List ℕ → List ℕ
keep b [] = if b == dash then [] else b ∷ []
keep b (c ∷ cs) = b ∷ (c ∷ cs)

unfoldable pub trim_right : List ℕ → List ℕ
trim_right [] = []
trim_right (b ∷ bs) = keep b (trim_right bs)

unfoldable pub slug_byte : List ℕ → ℕ → List ℕ
slug_byte out c =
    if is_alnum c then out ++ (c ∷ []) else if ends_in_word out then out ++ (dash ∷ []) else out

unfoldable pub slug_loop : List ℕ → List ℕ → List ℕ
slug_loop out [] = out
slug_loop out (b ∷ bs) = slug_loop (slug_byte out (lower_case b)) bs

abbrev pub slugify : List ℕ → List ℕ
slugify bs = trim_right (slug_loop [] bs)

abbrev pub max_child_name : ℕ
max_child_name = 253

abbrev pub child_name_prefix : ℕ
child_name_prefix = 246

abbrev pub child_name_digest : ℕ
child_name_digest = 6

unfoldable pub bytes_eq : List ℕ → List ℕ → Bool
bytes_eq [] [] = true
bytes_eq [] (c ∷ cs) = false
bytes_eq (b ∷ bs) [] = false
bytes_eq (b ∷ bs) (c ∷ cs) = (b == c) && bytes_eq bs cs

-- s[:n], where s has so many bytes.
unfoldable pub take : ℕ → List ℕ → List ℕ
take zero bs = []
take (suc n) [] = []
take (suc n) (b ∷ bs) = b ∷ take n bs

module _ (go : Bytes) where
  -- strings.Join(parts, "-"), from the second part on.
  unfoldable pub joined : List ChildSegment → List ℕ
  joined [] = []
  joined (s ∷ path) =
      let rest = dash ∷ (go.bytes s.key ++ joined path) in
      if str_eq s.discriminator "" then rest else dash ∷ (go.bytes s.discriminator ++ rest)

  unfoldable pub shortened : List ℕ → List ℕ
  shortened slug =
      if leb (length slug) max_child_name
      then slug
      else trim_right (take child_name_prefix slug)
        ++ (dash ∷ take child_name_digest (go.digest slug))

  unfoldable pub child_name : String → List ChildSegment → List ℕ
  child_name parent path = shortened (slugify (go.bytes parent ++ joined path))
