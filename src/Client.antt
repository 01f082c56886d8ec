-- ===== src/Client.antt =====
-- internal/netbox/client.go and do.go: the operations of the client. `Calls` has one call with its
-- retries, `Listing` the pages of a list, `Redact` what may be logged of a payload.
pub mod Calls
pub mod Listing
pub mod Writes
pub mod Redact
mod Tests
use Prim.Native.String.{◌++◌ as str_append}
use netbox_operator.Common.{
  ℕ, ◌+◌, String, Bool, true, false, Option, none, some, List, [], ◌∷◌, ◌++◌, put, ◌==◌, str_eq,
  if◌then◌else◌,
}
use netbox_operator.Common.Result.{Result, ok, err}
use netbox_operator.Json.{Json, Object, boolean, whole, text, get as field}
use netbox_operator.Errors.Client.{ambiguous, protected, exhausted as pool_exhausted}
use Calls.{
  Setup, World, Method, Request, CallError, netbox, Call, Answer, ended, tried, attempt, do_call,
}
use Listing.{Urls, Listed, or_nil, list, read, endpoint_url, object_url}

abbrev pub dry_run_marker : String
dry_run_marker = "__dryRun"

-- Config.Mode, after New put Apply for none.
pub data Mode : Type 0 where
  apply dry_run : Mode

-- The copy of the payload with the marker.
unfoldable pub suppress : Object → Object
suppress payload = put dry_run_marker (boolean true) payload

abbrev pub is_true : Json → Bool
is_true (boolean b) = b
is_true _ = false

unfoldable pub suppressed : Object → Bool
suppressed obj = is_true (field obj dry_run_marker)

abbrev pub unless_dry_run : Mode → Object → Call → Call
unless_dry_run apply payload call = call
unless_dry_run dry_run payload call = ended (ok (some (suppress payload)))

unfoldable pub one : List Object → Result CallError (Option Object)
one [] = ok none
one (match ∷ []) = ok (some match)
one _ = err (netbox ambiguous)

abbrev pub one_of : Result CallError (List Object) → Result CallError (Option Object)
one_of (ok matches) = one matches
one_of (err e) = err e

-- The error of a pool without a free object.
abbrev pub exhausted : Answer → Answer
exhausted (err (netbox (protected status))) =
    if status == 409 then err (netbox pool_exhausted) else err (netbox (protected status))
exhausted answer = answer

abbrev pub place_range_path : String
place_range_path = "place-ip-range"

-- A call of one of the exported methods, and what calls one after another send.
pub data Operation : Type 0 where
  lists gets_one : String → List (String × String) → Operation
  gets_by_id deletes : String → ℕ → Operation
  creates : String → Object → Operation
  patches : String → ℕ → Object → Operation
  allocates : String → ℕ → String → Object → Operation

pub record Traffic : Type 0 where
  pub sent : List Request
  pub tries : ℕ

abbrev pub of_call : Call → Traffic
of_call call = record { sent = call.sent; tries = call.tries }

abbrev pub of_list : Listed → Traffic
of_list listed = record { sent = listed.sent; tries = listed.tries }

module _ (urls : Urls) (setup : Setup) (world : World) where
  pub get_one : ℕ → String → List (String × String) → Result CallError (Option Object)
  get_one start endpoint params = one_of (list urls setup world start endpoint params).answer

  -- The id that GetByID adds to an error of NetBox is left out.
  unfoldable pub get_by_id : ℕ → String → ℕ → Call
  get_by_id start endpoint id = do_call setup world start (read (object_url urls setup endpoint id))

  unfoldable pub create : Mode → ℕ → String → Object → Call
  create mode start endpoint payload = unless_dry_run mode payload (
      do_call setup world start (record {
        method = Method.post;
        target = endpoint_url urls setup endpoint;
        payload = some payload;
      }))

  unfoldable pub patch : Mode → ℕ → String → ℕ → Object → Call
  patch mode start endpoint id payload = unless_dry_run mode payload (
      do_call setup world start (record {
        method = Method.patch;
        target = object_url urls setup endpoint id;
        payload = some payload;
      }))

  unfoldable pub delete : Mode → ℕ → String → ℕ → Call
  delete mode start endpoint id =
      unless_dry_run mode (("endpoint", text endpoint) ∷ ("id", whole id) ∷ []) (
        do_call setup world start (record {
          method = Method.delete;
          target = object_url urls setup endpoint id;
          payload = none;
        }))

  -- A request that is not tried again.
  abbrev pub once : ℕ → Request → Call
  once start request =
      let exchange = world.exchange (start + 0) request in
      tried request exchange (ended (exhausted (attempt setup world exchange)))

  -- `ranges` is placeRange.
  unfoldable pub allocate :
      Mode → (ℕ → String → ℕ → Object → Call) → ℕ → String → ℕ → String → Object → Call
  allocate mode ranges start endpoint id sub payload = unless_dry_run mode payload (
      if str_eq sub place_range_path
      then ranges start endpoint id payload
      else once start (record {
        method = Method.post;
        target = str_append (object_url urls setup endpoint id) (str_append sub "/");
        payload = some payload;
      }))

  pub traffic : Mode → (ℕ → String → ℕ → Object → Call) → ℕ → Operation → Traffic
  traffic mode ranges start (lists endpoint params) =
      of_list (list urls setup world start endpoint params)
  traffic mode ranges start (gets_one endpoint params) =
      of_list (list urls setup world start endpoint params)
  traffic mode ranges start (gets_by_id endpoint id) = of_call (get_by_id start endpoint id)
  traffic mode ranges start (deletes endpoint id) = of_call (delete mode start endpoint id)
  traffic mode ranges start (creates endpoint payload) =
      of_call (create mode start endpoint payload)
  traffic mode ranges start (patches endpoint id payload) =
      of_call (patch mode start endpoint id payload)
  traffic mode ranges start (allocates endpoint id sub payload) =
      of_call (allocate mode ranges start endpoint id sub payload)

  pub session : Mode → (ℕ → String → ℕ → Object → Call) → ℕ → List Operation → List Request
  session mode ranges start [] = []
  session mode ranges start (op ∷ ops) =
      let t = traffic mode ranges start op in t.sent ++ session mode ranges (start + t.tries) ops
