-- ===== src/Client/Tests.antt =====
-- Runs of the client at concrete inputs, and its theorems at such inputs.
use netbox_operator.Common.{
  ℕ, suc, String, true, some, List, [], ◌∷◌, ◌≡◌, ◌≤◌, ◌<◌, ◌↔◌, refl, All, ◌==◌, if◌then◌else◌,
  put, lookup, str_eq, length, contains, inl, inr,
}
use netbox_operator.Common.Result.{ok, err}
use netbox_operator.Json.{
  Json, text, list as array, object, item, no_items, member, Members, no_members, Object, as_list,
  objects_of, items_of, members_of,
}
use netbox_operator.Errors.Client.{truncated, classify_response, is_protected, retryable}
use netbox_operator.Client.{
  dry_run, Operation, creates, gets_by_id, session, allocates, allocate, once, traffic, suppress,
  create, get_by_id, delete,
}
use netbox_operator.Client.Calls.{
  Setup, World, Method, Request, Call, Exchange, answered, parsed, netbox, Answer, do_call, retry,
  attempt, jitter, retry_delay,
}
use netbox_operator.Client.Calls.Tried.{Retried, Final, Sends, do_call-Tried}
use netbox_operator.Client.Listing.{Urls, read, list, pages, next_page, first_page, with_params}
use netbox_operator.Client.Listing.Whole.{Pages, list_iff}
use netbox_operator.Client.Listing.Origin.{ReadsAt, PrintsBack, list-ReadsAt}
use netbox_operator.Client.Writes.{IsRead, session-IsRead}
use netbox_operator.Client.Redact.{
  redact, AlikeMembers, redact-Alike, is_secret_field, redact_inside, keys_of,
}

abbrev setup : Setup
setup = record {
  base = "https://nb/api";
  page_size = 2;
  max_pages = 3;
  max_retries = 1;
  base_delay = 5;
  max_delay = 8;
}

abbrev site : String → Json
site name = object (member "name" (text name) no_members)

abbrev first_body : Object
first_body = ("next", text "b") ∷ ("results", array (item (site "ams") no_items)) ∷ []

abbrev second_body : Object
second_body = ("results", array (item (site "fra") no_items)) ∷ []

abbrev respond : ℕ → Object → Exchange
respond status body =
    answered (record { status = status; retry_after = 0; body = "" }) (parsed body)

-- The server is away at first, and then has two pages.
abbrev world : World
world = record {
  exchange = λ n q.
      if n == 0
      then respond 503 []
      else if n == 1
      then respond 200 first_body
      else respond 200 second_body;
  sleeps = λ n. true;
  random = λ draw bound. 0;
  to_lower = λ s. s;
  text_contains = str_eq;
}

abbrev urls : Urls
urls = record {
  parse = λ s.
      some (record { scheme = "https"; host = "nb"; path = "/api/dcim/sites/"; raw_query = s });
  print = λ url. url.raw_query;
  encode = λ query. "a";
  trim = λ s. s;
  digits = λ n. "2";
}

opened : ℕ → Request → Answer
unfolding do_call retry attempt jitter retry_delay classify_response is_protected retryable list
    pages next_page with_params put lookup as_list objects_of items_of members_of session traffic
    suppress create get_by_id delete redact is_secret_field redact_inside keys_of contains
    AlikeMembers
opened n q = (do_call setup world n q).answer

retried_run : opened 0 (read "a") ≡ ok (some first_body)
unfolding opened
retried_run = refl

listed_run :
    (list urls setup world 0 "dcim/sites" []).answer
    ≡ ok ((("name", text "ams") ∷ []) ∷ (("name", text "fra") ∷ []) ∷ [])
unfolding opened
listed_run = refl

do_call-Tried_example :
    (last : ℕ) × (last ≤ 1)
    × ((n : ℕ) → n < last → Retried setup world 0 (read "a") n)
    × ((do_call setup world 0 (read "a")).tries ≡ suc last)
    × Final setup world 0 (read "a") last (do_call setup world 0 (read "a")).answer
    × Sends setup world 0 (read "a") (do_call setup world 0 (read "a"))
    × All (λ (delay : ℕ). 0 < delay) (do_call setup world 0 (read "a")).waits
do_call-Tried_example = do_call-Tried setup world 0 (read "a")

abbrev sites : List Object
sites = (("name", text "ams") ∷ []) ∷ (("name", text "fra") ∷ []) ∷ []

list_iff_example :
    (((list urls setup world 0 "dcim/sites" []).answer ≡ ok sites) ↔ (
      (count : ℕ) × (count ≤ 3)
      × Pages urls setup world count 0 (first_page urls setup world "dcim/sites" []) sites))
    × ((count : ℕ)
        → 3 < count
        → Pages urls setup world count 0 (first_page urls setup world "dcim/sites" []) sites
        → (list urls setup world 0 "dcim/sites" []).answer ≡ err (netbox truncated))
list_iff_example = list_iff urls setup world 0 "dcim/sites" [] sites

prints_back : PrintsBack urls
prints_back current following base next p q =
    let same : base
        ≡ record { scheme = "https"; host = "nb"; path = "/api/dcim/sites/"; raw_query = current } =
      cc in
    rw same refl

list-ReadsAt_example :
    All
      (ReadsAt urls (record {
        scheme = "https";
        host = "nb";
        path = "/api/dcim/sites/";
        raw_query = first_page urls setup world "dcim/sites" [];
      }))
      (list urls setup world 0 "dcim/sites" []).sent
list-ReadsAt_example = list-ReadsAt urls prints_back setup world 0 "dcim/sites" [] _ refl

abbrev calls : List Operation
calls =
    creates "dcim/sites" (("name", text "ams") ∷ [])
    ∷ allocates "ipam/prefixes" 3 "available-ips" []
    ∷ gets_by_id "dcim/sites" 2
    ∷ []

-- A placeRange that posts at once.
abbrev places : ℕ → String → ℕ → Object → Call
places start endpoint id payload = once urls setup world start (record {
  method = Method.post;
  target = "https://nb/api/ipam/ip-ranges/";
  payload = some payload;
})

session-IsRead_example : All IsRead (session urls setup world dry_run places 0 calls)
session-IsRead_example = session-IsRead urls setup world places 0 calls

-- In the mode DryRun only the read is sent, twice as the server is away at first.
session_run : length (session urls setup world dry_run places 0 calls) ≡ 2
unfolding opened allocate
session_run = refl

abbrev describe : List String → String
describe names = "custom fields"

-- A payload with a secret inside a list.
abbrev with_key : String → Members
with_key key =
    member "name" (text "wlan") (
      member "keys" (array (item (object (member "psk" (text key) no_members)) no_items))
        no_members)

redact-Alike_example :
    redact (λ s. s) describe (with_key "one") ≡ redact (λ s. s) describe (with_key "two")
unfolding opened
redact-Alike_example =
    redact-Alike (λ s. s) describe (with_key "one") (with_key "two")
      (
        refl,
        inr (inr (refl, refl)),
        (refl, inr (inr (refl, (inr (inr (refl, (refl, inl refl, refl))), refl))), refl),
      )

redact_run : redact (λ s. s) describe (with_key "one") ≡ with_key "[redacted]"
unfolding opened
redact_run = refl
