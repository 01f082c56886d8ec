-- ===== src/Children/Labels.antt =====
-- api/v1alpha1/inline_children.go: the names of children as names of Kubernetes objects.
use netbox_operator.Common.{
  ℕ, zero, suc, ◌≤◌, ◌≡◌, refl, inl, inr, ◌⊎◌, String, true, List, [], ◌∷◌, ◌++◌, arith, leb, ◌==◌,
  length, length-append, All, All-append, if-cases, leb→le,
}
use package.netbox_operator.Children.Names.{
  ChildSegment, Bytes, dash, lower_case, is_alnum, ends_in_word, trim_right, slug_byte, slug_loop,
  slugify, keep, take, joined, shortened, child_name,
}

-- A byte of a word: a lower case letter or a digit.
abbrev pub IsWord : ℕ → Type 0
IsWord c = ((97 ≤ c) × (c ≤ 122)) ⊎ ((48 ≤ c) × (c ≤ 57))

abbrev pub IsSlugByte : ℕ → Type 0
IsSlugByte c = IsWord c ⊎ (c ≡ dash)

abbrev pub Starts : List ℕ → Type 0
Starts [] = Unit
Starts (b ∷ bs) = IsWord b

abbrev pub Ends : List ℕ → Type 0
Ends [] = Unit
Ends (b ∷ []) = IsWord b
Ends (b ∷ (c ∷ bs)) = Ends (c ∷ bs)

pub record IsLabel (name : List ℕ) : Type 0 where
  pub bytes : All IsSlugByte name
  pub starts : Starts name
  pub ends : Ends name
  pub fits : length name ≤ 253

is_alnum-IsWord : (c : ℕ) → is_alnum c ≡ true → IsWord c
unfolding is_alnum
is_alnum-IsWord c h = ground arith

-- Trimming on the right.
keep-All : (b : ℕ) (bs : List ℕ) → IsSlugByte b → All IsSlugByte bs → All IsSlugByte (keep b bs)
keep-All b [] h hs = if-cases (All IsSlugByte) (b == dash) _ _ (λ t. tt) (λ f. (h, tt))
keep-All b (c ∷ cs) h hs = (h, hs)

keep-Ends : (b : ℕ) (bs : List ℕ) → IsSlugByte b → Ends bs → Ends (keep b bs)
keep-Ends b [] h hs = if-cases Ends (b == dash) _ _ (λ t. tt) (λ f. ground arith)
keep-Ends b (c ∷ cs) h hs = hs

keep-word : (b : ℕ) (bs : List ℕ) → IsWord b → keep b bs ≡ b ∷ bs
keep-word b [] h = ground arith
keep-word b (c ∷ cs) h = refl

keep-length : (b : ℕ) (bs : List ℕ) → length (keep b bs) ≤ suc (length bs)
keep-length b [] =
    if-cases (λ xs. length xs ≤ 1) (b == dash) _ _ (λ t. omega arith) (λ f. omega arith)
keep-length b (c ∷ cs) = omega arith

trim_right-All : (bs : List ℕ) → All IsSlugByte bs → All IsSlugByte (trim_right bs)
unfolding trim_right
trim_right-All [] h = tt
trim_right-All (b ∷ bs) h = keep-All b (trim_right bs) h.0 (trim_right-All bs h.1)

trim_right-Ends : (bs : List ℕ) → All IsSlugByte bs → Ends (trim_right bs)
unfolding trim_right
trim_right-Ends [] h = tt
trim_right-Ends (b ∷ bs) h = keep-Ends b (trim_right bs) h.0 (trim_right-Ends bs h.1)

trim_right-Starts : (bs : List ℕ) → Starts bs → Starts (trim_right bs)
unfolding trim_right
trim_right-Starts [] h = tt
trim_right-Starts (b ∷ bs) h = rw (keep-word b (trim_right bs) h) h

trim_right-length : (bs : List ℕ) → length (trim_right bs) ≤ length bs
unfolding trim_right
trim_right-length [] = omega arith
trim_right-length (b ∷ bs) = omega (arith, keep-length b (trim_right bs), trim_right-length bs)

-- Appending and cutting.
Ends-append : (bs : List ℕ) (c : ℕ) (cs : List ℕ) → Ends (c ∷ cs) → Ends (bs ++ (c ∷ cs))
Ends-append [] c cs h = h
Ends-append (b ∷ []) c cs h = h
Ends-append (b ∷ (x ∷ bs)) c cs h = Ends-append (x ∷ bs) c cs h

take-All {ℓ} : (P : ℕ → Type ℓ) (n : ℕ) (bs : List ℕ) → All P bs → All P (take n bs)
unfolding take
take-All P zero bs h = tt
take-All P (suc n) [] h = tt
take-All P (suc n) (b ∷ bs) h = (h.0, take-All P n bs h.1)

take-length : (n : ℕ) (bs : List ℕ) → length (take n bs) ≤ n
unfolding take
take-length zero bs = omega arith
take-length (suc n) [] = omega arith
take-length (suc n) (b ∷ bs) = omega (arith, take-length n bs)

-- The slug: bytes of words and dashes, the first one of a word.
slug_byte-All : (out : List ℕ) (c : ℕ) → All IsSlugByte out → All IsSlugByte (slug_byte out c)
unfolding slug_byte
slug_byte-All out c h =
    if-cases (All IsSlugByte) (is_alnum c) _ _
      (λ t. All-append IsSlugByte out (c ∷ []) h (inl (is_alnum-IsWord c t), tt))
      (λ f.
        if-cases (All IsSlugByte) (ends_in_word out) _ _
          (λ t. All-append IsSlugByte out (dash ∷ []) h (inr refl, tt)) (λ f. h))

slug_byte-Starts : (out : List ℕ) (c : ℕ) → Starts out → Starts (slug_byte out c)
unfolding slug_byte ends_in_word
slug_byte-Starts [] c h = if-cases Starts (is_alnum c) _ _ (λ t. is_alnum-IsWord c t) (λ f. tt)
slug_byte-Starts (b ∷ bs) c h =
    if-cases Starts (is_alnum c) _ _ (λ t. h)
      (λ f. if-cases Starts (ends_in_word (b ∷ bs)) _ _ (λ t. h) (λ f. h))

slug_loop-lem :
    (out bs : List ℕ)
    → All IsSlugByte out
    → Starts out
    → All IsSlugByte (slug_loop out bs) × Starts (slug_loop out bs)
unfolding slug_loop
slug_loop-lem out [] h s = (h, s)
slug_loop-lem out (b ∷ bs) h s =
    slug_loop-lem (slug_byte out (lower_case b)) bs (slug_byte-All out (lower_case b) h)
      (slug_byte-Starts out (lower_case b) s)

-- What a shortened slug is put together from: a beginning of it, a dash and six bytes of words.
prefixed-Starts :
    (n : ℕ) (bs cs : List ℕ)
    → suc n ≤ length bs
    → Starts bs
    → Starts (trim_right (take (suc n) bs) ++ cs)
unfolding take trim_right
prefixed-Starts n [] cs l h = absurd omega (arith, l)
prefixed-Starts n (b ∷ bs) cs l h = rw (keep-word b (trim_right (take n bs)) h) h

Ends-take :
    (n : ℕ) (bs : List ℕ)
    → suc n ≤ length bs
    → All IsWord bs
    → (b : ℕ) × (rest : List ℕ) × (take (suc n) bs ≡ b ∷ rest)
      × Ends (b ∷ rest)
      × All IsSlugByte (b ∷ rest)
unfolding take
Ends-take n [] l h = absurd omega (arith, l)
Ends-take zero (b ∷ bs) l h = (b, [], refl, h.0, (inl h.0, tt))
Ends-take (suc n) (b ∷ bs) l h =
    let (c, rest, same, ends, all) = Ends-take n bs (omega (arith, l)) h.1 in
    (b, take (suc n) bs, refl, rw same ends, (inl h.0, rw same all))

-- What is documented of a SHA-256 sum in hexadecimal: 64 digits, the letters in lower case.
abbrev pub IsHex : (List ℕ → List ℕ) → Type 0
IsHex digest = (s : List ℕ) → (length (digest s) ≡ 64) × All IsWord (digest s)

module _ (go : Bytes) (hex : IsHex go.digest) where
  shortened-IsLabel :
      (slug : List ℕ) → All IsSlugByte slug → Starts slug → Ends slug → IsLabel (shortened go slug)
  unfolding shortened
  shortened-IsLabel slug h s e =
      if-cases IsLabel (leb (length slug) 253) _ _
        (λ t. record { bytes = h; starts = s; ends = e; fits = leb→le (length slug) 253 t })
        (λ f.
          let (b, rest, same, ends, all) =
            Ends-take 5 (go.digest slug) (rw (hex slug).0 (omega arith)) (hex slug).1 in
          let head : List ℕ = trim_right (take 246 slug) in
          let tail : List ℕ = take 6 (go.digest slug) in
          record {
            bytes =
                All-append IsSlugByte head (dash ∷ tail)
                  (trim_right-All (take 246 slug) (take-All IsSlugByte 246 slug h))
                  (inr refl, rw same all);
            starts = prefixed-Starts 245 slug (dash ∷ tail) (ground (arith, f)) s;
            ends = Ends-append head dash tail (rw same ends);
            fits = omega (
              arith,
              length-append head (dash ∷ tail),
              take-length 246 slug,
              trim_right-length (take 246 slug),
              take-length 6 (go.digest slug),
            );
          })

  -- The name of a child has at most 253 bytes, all of them lower case letters, digits and dashes,
  -- and neither begins nor ends with a dash, if a SHA-256 sum prints as 64 hexadecimal digits.
  pub child_name-IsLabel :
      (parent : String) (path : List ChildSegment) → IsLabel (child_name go parent path)
  unfolding child_name
  child_name-IsLabel parent path =
      let raw : List ℕ = go.bytes parent ++ joined go path in
      let (all, starts) = slug_loop-lem [] raw tt tt in
      shortened-IsLabel (slugify raw) (trim_right-All (slug_loop [] raw) all)
        (trim_right-Starts (slug_loop [] raw) starts) (trim_right-Ends (slug_loop [] raw) all)
