-- ===== src/Client/Listing.antt =====
-- internal/netbox/client.go: List, which follows the pages of a list. `Whole` has what it returns and
-- `Origin` where its requests go.
pub mod Whole
pub mod Origin
use Prim.Native.String.{◌++◌ as str_append}
use netbox_operator.Common.{
  ℕ, zero, suc, ◌+◌, String, Option, none, some, List, [], ◌∷◌, ◌++◌, if◌then◌else◌, put, str_eq,
}
use netbox_operator.Common.Result.{Result, ok, err}
use netbox_operator.Json.{Object, get as field, as_list, as_string}
use netbox_operator.Errors.Client.{validation, truncated}
use package.netbox_operator.Client.Calls.{
  Setup, World, Method, Request, CallError, netbox, stopped, Call, do_call,
}

-- net/url's URL, as far as the client reads it.
pub record Url : Type 0 where
  pub scheme : String
  pub host : String
  pub path : String
  pub raw_query : String

-- url.Parse, URL.String, Values.Encode, strings.Trim of slashes, and the digits of an int.
pub record Urls : Type 0 where
  pub parse : String → Option Url
  pub print : Url → String
  pub encode : List (String × String) → String
  pub trim : String → String
  pub digits : ℕ → String

-- The requests of a list, the number of their attempts, and the result.
pub record Listed : Type 0 where
  pub sent : List Request
  pub tries : ℕ
  pub answer : Result CallError (List Object)

abbrev pub read : String → Request
read target = record { method = Method.get; target = target; payload = none }

abbrev pub or_nil : Option Object → Object
or_nil none = []
or_nil (some o) = o

abbrev pub done : Result CallError (List Object) → Listed
done answer = record { sent = []; tries = 0; answer = answer }

-- The requests of a page come before those of the pages that follow it.
abbrev pub after_page : Call → Listed → Listed
after_page call rest = record {
  sent = call.sent ++ rest.sent;
  tries = call.tries + rest.tries;
  answer = rest.answer;
}

abbrev pub if_ok {ℓ} : {A : Type ℓ} → Result CallError A → (A → Listed) → Listed
if_ok (ok a) rest = rest a
if_ok (err e) rest = done (err e)

-- The current page with the query of the next.
abbrev pub with_query : Option Url → Option Url → Urls → Result CallError String
with_query none base urls = err (netbox (validation 0))
with_query (some next) none urls = err stopped
with_query (some next) (some base) urls = ok (
    urls.print (record {
      scheme = base.scheme;
      host = base.host;
      path = base.path;
      raw_query = next.raw_query;
    }))

module _ (urls : Urls) where
  unfoldable pub next_page : String → String → Result CallError String
  next_page current next =
      if str_eq next "" then ok "" else with_query (urls.parse next) (urls.parse current) urls

  abbrev pub endpoint_url : Setup → String → String
  endpoint_url setup endpoint =
      str_append setup.base (str_append "/" (str_append (urls.trim endpoint) "/"))

  abbrev pub object_url : Setup → String → ℕ → String
  object_url setup endpoint id =
      str_append (endpoint_url setup endpoint) (str_append (urls.digits id) "/")

  unfoldable pub with_params :
      List (String × String) → List (String × String) → List (String × String)
  with_params [] query = query
  with_params ((key, value) ∷ params) query = with_params params (put key value query)

  module _ (setup : Setup) (world : World) where
    -- `left` more pages are allowed.
    unfoldable pub pages : ℕ → ℕ → String → List Object → Listed
    pages zero start target all =
        if str_eq target "" then done (ok all) else done (err (netbox truncated))
    pages (suc left) start target all =
        let call = do_call setup world start (read target) in
        if str_eq target ""
        then done (ok all)
        else after_page call (
            if_ok call.answer (λ body.
              if_ok (next_page target (as_string (field (or_nil body) "next"))) (λ next.
                pages left (start + call.tries) next
                  (all ++ as_list (field (or_nil body) "results")))))

    abbrev pub first_page : String → List (String × String) → String
    first_page endpoint params = str_append (endpoint_url setup endpoint) (
        str_append "?"
          (urls.encode (with_params params (("limit", urls.digits setup.page_size) ∷ []))))

    unfoldable pub list : ℕ → String → List (String × String) → Listed
    list start endpoint params = pages setup.max_pages start (first_page endpoint params) []
