-- ===== src/Drift/Order.antt =====
-- The sorts of internal/netbox/drift.go and object.go. Any sort serves; these are by insertion.
use Prim.Native.Nat.{Ordering}
use Prim.Native.String.{compare as compare_texts}
use netbox_operator.Common.{
  ℕ, String, Bool, true, false, ◌&&◌, List, [], ◌∷◌, ◌==◌, leb, if◌then◌else◌, str_eq,
}

unfoldable pub insert_id : ℕ → List ℕ → List ℕ
insert_id x [] = x ∷ []
insert_id x (y ∷ ys) = let rest = insert_id x ys in if leb x y then x ∷ y ∷ ys else y ∷ rest

unfoldable pub sort_ids : List ℕ → List ℕ
sort_ids [] = []
sort_ids (x ∷ xs) = insert_id x (sort_ids xs)

unfoldable pub same_ids : List ℕ → List ℕ → Bool
same_ids [] [] = true
same_ids (x ∷ xs) (y ∷ ys) = x == y && same_ids xs ys
same_ids _ _ = false

abbrev pub text_before : String → String → Bool
text_before s t = elim (compare_texts s t) [ Ordering.lt ↦ true | _ ↦ false ]

pub insert_text : String → List String → List String
insert_text s [] = s ∷ []
insert_text s (t ∷ ts) =
    let rest = insert_text s ts in if text_before t s then t ∷ rest else s ∷ t ∷ ts

pub sort_texts : List String → List String
sort_texts [] = []
sort_texts (s ∷ ss) = insert_text s (sort_texts ss)

-- slices.Compact
pub compact_after : String → List String → List String
compact_after s [] = []
compact_after s (t ∷ ts) = let rest = compact_after t ts in if str_eq s t then rest else t ∷ rest

pub compact : List String → List String
compact [] = []
compact (s ∷ ss) = s ∷ compact_after s ss

pub same_texts : List String → List String → Bool
same_texts [] [] = true
same_texts (s ∷ ss) (t ∷ ts) = str_eq s t && same_texts ss ts
same_texts _ _ = false
