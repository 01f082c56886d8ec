-- ===== src/Allocation.antt =====
-- internal/netbox/allocate.go: the loop of placeRange, which computes a free run, asks NetBox for it
-- and computes again if somebody else was first. `Attempts` has what holds of all its attempts.
pub mod Attempts
pub mod Tests
use netbox_operator.Common.{
  ℕ, zero, suc, ◌+◌, Bool, true, false, Option, none, some, List, [], ◌∷◌, leb, ◌==◌, if◌then◌else◌,
}
use netbox_operator.Common.Result.{Result, ok, err}
use netbox_operator.Placement.{Alignment, Interval, Placed, placed, no_room, panics, first_gap}
use netbox_operator.Placement.Netip.{Addr, Prefix}

abbrev pub max_placement_attempts : ℕ
max_placement_attempts = 5

-- A row of the list of ip-ranges: the id of its VRF, and its two addresses as hostOf reads them.
pub record Row : Type 0 where
  pub vrf : Option ℕ
  pub start_address : Option Addr
  pub end_address : Option Addr

-- What NetBox answers to a request for a range: an object with its size, a rejection that speaks of an
-- overlap, or another error.
pub data Posted : Type 0 where
  created : Option ℕ → Posted
  overlapping rejected : Posted

-- `unfinished`, which does not happen, is a loop cut off; `gap_panics` is the panic of FirstGap.
pub data PlaceError : Type 0 where
  list_failed bad_row exhausted create_failed wrong_size cancelled gap_panics unfinished :
      PlaceError
  contended : ℕ → PlaceError

-- NetBox as each attempt finds it, and whether the wait after the attempt runs to its end. The list
-- may change from one attempt to the next.
pub record Service : Type 0 where
  pub list : ℕ → Option (List Row)
  pub post : ℕ → Interval → Posted
  pub sleep : ℕ → Bool

-- The ranges that were asked for, and the result.
pub record Placing : Type 0 where
  pub posts : List Interval
  pub answer : Result PlaceError (Option ℕ)

abbrev pub give_up : PlaceError → Placing
give_up e = record { posts = []; answer = err e }

abbrev pub in_vrf : Option ℕ → Bool
in_vrf none = false
in_vrf (some id) = true

abbrev pub same_bool : Bool → Bool → Bool
same_bool true b = b
same_bool false true = false
same_bool false false = true

abbrev pub interval_row :
    Option Addr → Option Addr → Option (List Interval) → Option (List Interval)
interval_row (some lo) (some hi) (some rest) = some (record { lo = lo; hi = hi } ∷ rest)
interval_row _ _ _ = none

-- The loop of occupiedRanges; a row outside the VRF of the pool is passed over.
pub occupied_ranges : Bool → List Row → Option (List Interval)
occupied_ranges pool_in_vrf [] = some []
occupied_ranges pool_in_vrf (row ∷ rows) =
    let rest = occupied_ranges pool_in_vrf rows in
    if same_bool (in_vrf row.vrf) pool_in_vrf
    then interval_row row.start_address row.end_address rest
    else rest

abbrev pub right_size : Option ℕ → ℕ → Bool
right_size none size = false
right_size (some n) size = n == size

module _ (service : Service) (cidr : Prefix) (pool_in_vrf : Bool) (size : ℕ)
    (align : Alignment) where
  pub after_post : ℕ → Interval → Posted → Placing → Placing
  after_post attempt i (created n) rest = record {
    posts = i ∷ [];
    answer = if right_size n size then ok n else err wrong_size;
  }
  after_post attempt i rejected rest = record { posts = i ∷ []; answer = err create_failed }
  after_post attempt i overlapping rest =
      if leb max_placement_attempts attempt
      then record { posts = i ∷ []; answer = err (contended attempt) }
      else if service.sleep attempt
      then record { posts = i ∷ rest.posts; answer = rest.answer }
      else record { posts = i ∷ []; answer = err cancelled }

  pub after_gap : ℕ → Placed → Placing → Placing
  after_gap attempt no_room rest = give_up exhausted
  after_gap attempt panics rest = give_up gap_panics
  after_gap attempt (placed i) rest = after_post attempt i (service.post attempt i) rest

  pub after_rows : ℕ → Option (List Interval) → Placing → Placing
  after_rows attempt none rest = give_up bad_row
  after_rows attempt (some occupied) rest =
      after_gap attempt (first_gap cidr occupied size align) rest

  pub after_list : ℕ → Option (List Row) → Placing → Placing
  after_list attempt none rest = give_up list_failed
  after_list attempt (some rows) rest = after_rows attempt (occupied_ranges pool_in_vrf rows) rest

  -- The loop, from an attempt on, in at most `rounds` rounds.
  pub place_loop : ℕ → ℕ → Placing
  place_loop zero attempt = give_up unfinished
  place_loop (suc rounds) attempt =
      after_list attempt (service.list attempt) (place_loop rounds (attempt + 1))

  pub place_range : Placing
  place_range = place_loop max_placement_attempts 1
