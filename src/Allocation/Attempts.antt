-- ===== src/Allocation/Attempts.antt =====
-- How many ranges placeRange asks for, and which.
use netbox_operator.Common.{
  ℕ, zero, suc, ◌+◌, ◌<◌, ◌≤◌, ◌≡◌, refl, Bool, Option, none, some, List, [], ◌∷◌, arith, length,
  leb, if-cases,
}
use netbox_operator.Common.Result.{Result, ok, err}
use netbox_operator.Placement.{Alignment, Interval, Placed, placed, no_room, panics, first_gap}
use netbox_operator.Placement.Netip.{Prefix}
use netbox_operator.Placement.Gap.{IsParent, FreeStart, lo_of, hi_of, first_gap-Lowest}
use netbox_operator.Placement.Scan.{Lowest}
use netbox_operator.Allocation.{
  Row, Posted, created, overlapping, rejected, PlaceError, unfinished, contended, Service, Placing,
  occupied_ranges, after_post, after_gap, after_rows, after_list, place_loop, place_range,
  right_size, max_placement_attempts,
}

-- What a result says of the number of requests: at most five, and exactly five if it is contended. No
-- result is `unfinished`.
abbrev pub Fits : Result PlaceError (Option ℕ) → ℕ → Type 0
Fits (ok n) total = total ≤ 5
Fits (err unfinished) total = ⊥
Fits (err (contended k)) total = (k ≡ 5) × (total ≡ 5)
Fits (err e) total = total ≤ 5

module _ (service : Service) (cidr : Prefix) (vrf : Bool) (size : ℕ) (align : Alignment) where
  -- A placing after `n` requests.
  abbrev pub Bounded : ℕ → Placing → Type 0
  Bounded n p = Fits p.answer (n + length p.posts)

  pub after_post-Bounded :
      (n : ℕ) (i : Interval) (answer : Posted) (rest : Placing)
      → n < 5
      → (n + 1 < 5 → Bounded (n + 1) rest)
      → Bounded n (after_post service cidr vrf size align (n + 1) i answer rest)
  unfolding after_post
  after_post-Bounded n i (created m) rest h later =
      if-cases (λ a. Fits a (n + 1)) (right_size m size) _ _ (λ t. omega arith) (λ t. omega arith)
  after_post-Bounded n i rejected rest h later = omega arith
  after_post-Bounded n i overlapping rest h later =
      if-cases (Bounded n) (leb max_placement_attempts (n + 1)) _ _
        (λ last. (ground arith, ground arith))
        (λ more.
          if-cases (Bounded n) (service.sleep (n + 1)) _ _
            (λ t.
              let count : n + suc (length rest.posts) ≡ n + 1 + length rest.posts = omega arith in
              rw count (later (ground arith)))
            (λ t. omega arith))

  pub after_gap-Bounded :
      (n : ℕ) (gap : Placed) (rest : Placing)
      → n < 5
      → (n + 1 < 5 → Bounded (n + 1) rest)
      → Bounded n (after_gap service cidr vrf size align (n + 1) gap rest)
  unfolding after_gap
  after_gap-Bounded n no_room rest h later = omega arith
  after_gap-Bounded n panics rest h later = omega arith
  after_gap-Bounded n (placed i) rest h later =
      after_post-Bounded n i (service.post (n + 1) i) rest h later

  pub after_rows-Bounded :
      (n : ℕ) (rows : Option (List Interval)) (rest : Placing)
      → n < 5
      → (n + 1 < 5 → Bounded (n + 1) rest)
      → Bounded n (after_rows service cidr vrf size align (n + 1) rows rest)
  unfolding after_rows
  after_rows-Bounded n none rest h later = omega arith
  after_rows-Bounded n (some occupied) rest h later =
      after_gap-Bounded n (first_gap cidr occupied size align) rest h later

  pub after_list-Bounded :
      (n : ℕ) (rows : Option (List Row)) (rest : Placing)
      → n < 5
      → (n + 1 < 5 → Bounded (n + 1) rest)
      → Bounded n (after_list service cidr vrf size align (n + 1) rows rest)
  unfolding after_list
  after_list-Bounded n none rest h later = omega arith
  after_list-Bounded n (some rows) rest h later =
      after_rows-Bounded n (occupied_ranges vrf rows) rest h later

  pub place_loop-Bounded :
      (rounds n : ℕ)
      → rounds + n ≡ 5
      → n < 5
      → Bounded n (place_loop service cidr vrf size align rounds (n + 1))
  unfolding place_loop
  place_loop-Bounded zero n h less = absurd (omega arith)
  place_loop-Bounded (suc rounds) n h less =
      after_list-Bounded n (service.list (n + 1)) _ less
        (λ more. place_loop-Bounded rounds (n + 1) (omega arith) more)

  -- placeRange ends by itself after at most five requests for a range, and reports a contended pool
  -- only after five, with the number five.
  pub place_range-Fits :
      Fits
        (place_range service cidr vrf size align).answer
        (length (place_range service cidr vrf size align).posts)
  unfolding place_range
  place_range-Fits =
      let posts = (place_loop service cidr vrf size align 5 1).posts in
      let none_yet : 0 + length posts ≡ length posts = omega arith in
      rw⁻¹ none_yet (place_loop-Bounded 5 0 (omega arith) (omega arith))

  -- A range that this attempt computes from the rows that it lists.
  abbrev pub Computed : ℕ → Interval → Type 0
  Computed attempt i =
      (rows : List Row) × (occupied : List Interval) × (service.list attempt ≡ some rows)
      × (occupied_ranges vrf rows ≡ some occupied)
      × Lowest cidr.addr.bits size (FreeStart (lo_of cidr) (hi_of cidr) occupied size align)
          (placed i)

  -- The requests of consecutive attempts, one of each.
  abbrev pub ComputedFrom : ℕ → List Interval → Type 0
  ComputedFrom attempt [] = Unit
  ComputedFrom attempt (i ∷ posts) = Computed attempt i × ComputedFrom (attempt + 1) posts

  pub after_post-Computed :
      (attempt : ℕ) (i : Interval) (answer : Posted) (rest : Placing)
      → Computed attempt i
      → ComputedFrom (attempt + 1) rest.posts
      → ComputedFrom attempt (after_post service cidr vrf size align attempt i answer rest).posts
  unfolding after_post
  after_post-Computed attempt i (created m) rest here later = (here, tt)
  after_post-Computed attempt i rejected rest here later = (here, tt)
  after_post-Computed attempt i overlapping rest here later =
      if-cases (λ (p : Placing). ComputedFrom attempt p.posts) (leb max_placement_attempts attempt)
        _ _ (λ last. (here, tt))
        (λ more.
          if-cases (λ (p : Placing). ComputedFrom attempt p.posts) (service.sleep attempt) _ _
            (λ t. (here, later)) (λ t. (here, tt)))

  module _ (parent : IsParent cidr) (positive : 0 < size) where
    pub after_gap-Computed :
        (attempt : ℕ) (rows : List Row) (occupied : List Interval) (gap : Placed) (rest : Placing)
        → service.list attempt ≡ some rows
        → occupied_ranges vrf rows ≡ some occupied
        → Lowest cidr.addr.bits size (FreeStart (lo_of cidr) (hi_of cidr) occupied size align) gap
        → ComputedFrom (attempt + 1) rest.posts
        → ComputedFrom attempt (after_gap service cidr vrf size align attempt gap rest).posts
    unfolding after_gap
    after_gap-Computed attempt rows occupied no_room rest l o g later = tt
    after_gap-Computed attempt rows occupied panics rest l o g later = tt
    after_gap-Computed attempt rows occupied (placed i) rest l o g later =
        after_post-Computed attempt i (service.post attempt i) rest (rows, occupied, l, o, g) later

    pub after_rows-Computed :
        (attempt : ℕ) (rows : List Row) (read : Option (List Interval)) (rest : Placing)
        → service.list attempt ≡ some rows
        → occupied_ranges vrf rows ≡ read
        → ComputedFrom (attempt + 1) rest.posts
        → ComputedFrom attempt (after_rows service cidr vrf size align attempt read rest).posts
    unfolding after_rows
    after_rows-Computed attempt rows none rest l o later = tt
    after_rows-Computed attempt rows (some occupied) rest l o later =
        after_gap-Computed attempt rows occupied (first_gap cidr occupied size align) rest l o
          (first_gap-Lowest cidr occupied size align parent positive) later

    pub after_list-Computed :
        (attempt : ℕ) (answer : Option (List Row)) (rest : Placing)
        → service.list attempt ≡ answer
        → ComputedFrom (attempt + 1) rest.posts
        → ComputedFrom attempt (after_list service cidr vrf size align attempt answer rest).posts
    unfolding after_list
    after_list-Computed attempt none rest l later = tt
    after_list-Computed attempt (some rows) rest l later =
        after_rows-Computed attempt rows (occupied_ranges vrf rows) rest l refl later

    pub place_loop-Computed :
        (rounds attempt : ℕ)
        → ComputedFrom attempt (place_loop service cidr vrf size align rounds attempt).posts
    unfolding place_loop
    place_loop-Computed zero attempt = tt
    place_loop-Computed (suc rounds) attempt =
        after_list-Computed attempt (service.list attempt) _ refl
          (place_loop-Computed rounds (attempt + 1))
