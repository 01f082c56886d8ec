-- ===== src/Common/Maps.antt =====
-- Go's maps as association lists in which the first entry of a key counts.
use Prim.Native.String.{String}
use mathlib.Core.Path.{◌≡◌, refl}
use mathlib.Core.Bool.{true, false}
use mathlib.Core.Logic.{inl, inr}
use mathlib.Core.Option.{Option, none, some}
use mathlib.Core.List.{List, [], ◌∷◌}
use text.Mathlib.Text.{◌==◌ as str_eq}
use text.Mathlib.TextEquality.{eq_iff}
use package.netbox_operator.Common.Tests.{if◌then◌else◌, Bool-cases}

module _ {ℓ} {A : Type ℓ} where
  unfoldable pub lookup : String → List (String × A) → Option A
  lookup key [] = none
  lookup key ((k, v) ∷ entries) = if str_eq k key then some v else lookup key entries

  unfoldable pub put : String → A → List (String × A) → List (String × A)
  put key value [] = (key, value) ∷ []
  put key value ((k, v) ∷ entries) =
      let rest = put key value entries in
      if str_eq k key then (key, value) ∷ entries else (k, v) ∷ rest

  unfoldable pub delete : String → List (String × A) → List (String × A)
  delete key [] = []
  delete key ((k, v) ∷ entries) =
      let rest = delete key entries in if str_eq k key then rest else (k, v) ∷ rest

  pub lookup-put_same :
      (key : String) (value : A) (entries : List (String × A))
      → lookup key (put key value entries) ≡ some value
  unfolding lookup put
  lookup-put_same key value [] = rw ((eq_iff key key).1 refl) refl
  lookup-put_same key value ((k, v) ∷ entries) = elim (Bool-cases (str_eq k key)) [
    | inl t ↦ rw t (rw ((eq_iff key key).1 refl) refl)
    | inr t ↦ rw t (rw t (lookup-put_same key value entries))
  ]

  pub lookup-put_other :
      (key other : String) (value : A) (entries : List (String × A))
      → str_eq other key ≡ false
      → lookup key (put other value entries) ≡ lookup key entries
  unfolding lookup put
  lookup-put_other key other value [] h = rw h refl
  lookup-put_other key other value ((k, v) ∷ entries) h = elim (Bool-cases (str_eq k other)) [
    | inl t ↦ let same : k ≡ other = (eq_iff k other).0 t in rw t (rw same (rw h refl))
    | inr t ↦ rw t (elim (Bool-cases (str_eq k key)) [
      | inl s ↦ rw s refl
      | inr s ↦ rw s (lookup-put_other key other value entries h)
    ])
  ]

  pub lookup-hit :
      (key k : String) (v : A) (entries : List (String × A))
      → str_eq k key ≡ true
      → lookup key ((k, v) ∷ entries) ≡ some v
  unfolding lookup
  lookup-hit key k v entries t = rw t refl

  pub lookup-miss :
      (key k : String) (v : A) (entries : List (String × A))
      → str_eq k key ≡ false
      → lookup key ((k, v) ∷ entries) ≡ lookup key entries
  unfolding lookup
  lookup-miss key k v entries t = rw t refl

  pub lookup-delete_same :
      (key : String) (entries : List (String × A)) → lookup key (delete key entries) ≡ none
  unfolding lookup delete
  lookup-delete_same key [] = refl
  lookup-delete_same key ((k, v) ∷ entries) = elim (Bool-cases (str_eq k key)) [
    | inl t ↦ rw t (lookup-delete_same key entries)
    | inr t ↦ rw t (rw t (lookup-delete_same key entries))
  ]

  pub lookup-delete_other :
      (key other : String) (entries : List (String × A))
      → str_eq other key ≡ false
      → lookup key (delete other entries) ≡ lookup key entries
  unfolding lookup delete
  lookup-delete_other key other [] h = refl
  lookup-delete_other key other ((k, v) ∷ entries) h = elim (Bool-cases (str_eq k other)) [
    | inl t ↦
        let same : k ≡ other = (eq_iff k other).0 t in
        rw t (rw same (rw h (lookup-delete_other key other entries h)))
    | inr t ↦ rw t (elim (Bool-cases (str_eq k key)) [
      | inl s ↦ rw s refl
      | inr s ↦ rw s (lookup-delete_other key other entries h)
    ])
  ]
