-- ===== src/Drift/SameIds.antt =====
-- internal/netbox/drift.go, sameIDSet: two lists of ids compared without their order.
use netbox_operator.Common.{
  ℕ, suc, true, List, [], ◌∷◌, ◌≡◌, ◌↔◌, refl, sym, inl, inr, ◌∙◌, ap, ◌≤◌, leb, ◌==◌,
  if◌then◌else◌, All, if-cases, Bool-cases, arith,
}
use netbox_operator.Json.{Json, Go, nested_ids, ids_of}
use package.netbox_operator.Drift.{same_id_set}
use package.netbox_operator.Drift.Order.{insert_id, sort_ids, same_ids}

-- How often an id occurs.
unfoldable pub count : ℕ → List ℕ → ℕ
count n [] = 0
count n (x ∷ xs) = let rest = count n xs in if x == n then suc rest else rest

Least : ℕ → List ℕ → Type 0
Least x xs = All (λ y. x ≤ y) xs

abbrev Sorted : List ℕ → Type 0
Sorted [] = Unit
Sorted (x ∷ xs) = Least x xs × Sorted xs

count-insert_id : (n x : ℕ) (xs : List ℕ) → count n (insert_id x xs) ≡ count n (x ∷ xs)
unfolding count insert_id
count-insert_id n x [] = refl
count-insert_id n x (y ∷ ys) = ground (arith, count-insert_id n x ys)

count-sort_ids : (n : ℕ) (xs : List ℕ) → count n (sort_ids xs) ≡ count n xs
unfolding count sort_ids
count-sort_ids n [] = refl
count-sort_ids n (x ∷ xs) = count-insert_id n x (sort_ids xs) ∙ ground (arith, count-sort_ids n xs)

insert_id-Least : (n x : ℕ) (xs : List ℕ) → n ≤ x → Least n xs → Least n (insert_id x xs)
unfolding insert_id Least
insert_id-Least n x [] l h = (l, tt)
insert_id-Least n x (y ∷ ys) l h =
    if-cases (λ (zs : List ℕ). All (λ z. n ≤ z) zs) (leb x y) (x ∷ y ∷ ys) (y ∷ insert_id x ys)
      (λ t. (l, h)) (λ t. (h.0, insert_id-Least n x ys l h.1))

Least-trans : (m n : ℕ) (xs : List ℕ) → m ≤ n → Least n xs → Least m xs
unfolding Least
Least-trans m n [] l h = tt
Least-trans m n (x ∷ xs) l h = (omega (arith, h.0), Least-trans m n xs l h.1)

insert_id-Sorted : (x : ℕ) (xs : List ℕ) → Sorted xs → Sorted (insert_id x xs)
unfolding insert_id Least
insert_id-Sorted x [] h = (tt, tt)
insert_id-Sorted x (y ∷ ys) h =
    if-cases (λ (zs : List ℕ). Sorted zs) (leb x y) (x ∷ y ∷ ys) (y ∷ insert_id x ys)
      (λ t. ((ground arith, Least-trans x y ys ground arith h.0), h))
      (λ t. (insert_id-Least y x ys ground arith h.0, insert_id-Sorted x ys h.1))

sort_ids-Sorted : (xs : List ℕ) → Sorted (sort_ids xs)
unfolding sort_ids
sort_ids-Sorted [] = tt
sort_ids-Sorted (x ∷ xs) = insert_id-Sorted x (sort_ids xs) (sort_ids-Sorted xs)

-- An id that occurs is at least the least one.
Least-count : (m n c : ℕ) (xs : List ℕ) → Least m xs → count n xs ≡ suc c → m ≤ n
unfolding Least count
Least-count m n c [] h e = omega (arith, e)
Least-count m n c (x ∷ xs) h e = elim (Bool-cases (x == n)) [
  | inl t ↦ ground (arith, h.0)
  | inr t ↦ Least-count m n c xs h.1 (rw t at e)
]

count_head : (x : ℕ) (xs : List ℕ) → count x (x ∷ xs) ≡ suc (count x xs)
unfolding count
count_head x xs = ground arith

Sorted-unique :
    (xs ys : List ℕ) → Sorted xs → Sorted ys → ((n : ℕ) → count n xs ≡ count n ys) → xs ≡ ys
unfolding count Least
Sorted-unique [] [] hx hy e = refl
Sorted-unique [] (y ∷ ys) hx hy e = absurd (omega (arith, e y, count_head y ys))
Sorted-unique (x ∷ xs) [] hx hy e = absurd (omega (arith, e x, count_head x xs))
Sorted-unique (x ∷ xs) (y ∷ ys) hx hy e =
    let below : x ≤ y =
      Least-count x y (count y ys) (x ∷ xs) (omega arith, hx.0) (e y ∙ count_head y ys) in
    let above : y ≤ x =
      Least-count y x (count x xs) (y ∷ ys) (omega arith, hy.0) (sym (e x) ∙ count_head x xs) in
    let same : x ≡ y = omega (arith, below, above) in
    let rest : xs ≡ ys = Sorted-unique xs ys hx.1 hy.1 (λ n. ground (arith, e n, same)) in cc

same_ids_iff : (xs ys : List ℕ) → (same_ids xs ys ≡ true) ↔ (xs ≡ ys)
unfolding same_ids
same_ids_iff [] [] = (λ t. refl, λ e. refl)
same_ids_iff [] (y ∷ ys) = (λ t. cc, λ e. cc)
same_ids_iff (x ∷ xs) [] = (λ t. cc, λ e. cc)
same_ids_iff (x ∷ xs) (y ∷ ys) = ground (arith, same_ids_iff xs ys)

-- sameIDSet takes two lists of ids for equal exactly if each id is as often in the live list as in
-- the desired one.
pub same_id_set_iff :
    (go : Go) (have want : Json)
    → (same_id_set go have want ≡ true)
      ↔ ((n : ℕ) → count n (nested_ids go have) ≡ count n (ids_of go want))
unfolding same_id_set
same_id_set_iff go have want =
    let xs = nested_ids go have in
    let ys = ids_of go want in
    (
      λ t n.
          sym (count-sort_ids n xs)
          ∙ ap (count n) ((same_ids_iff (sort_ids xs) (sort_ids ys)).0 t)
          ∙ count-sort_ids n ys,
      λ f. (same_ids_iff (sort_ids xs) (sort_ids ys)).1 (
          Sorted-unique (sort_ids xs) (sort_ids ys) (sort_ids-Sorted xs) (sort_ids-Sorted ys)
            (λ n. count-sort_ids n xs ∙ f n ∙ sym (count-sort_ids n ys))),
    )
