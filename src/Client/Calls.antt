-- ===== src/Client/Calls.antt =====
-- internal/netbox/do.go and client.go: one call of the client, which tries again after errors that a
-- retry may cure. `Tried` has what holds of it.
pub mod Tried
use netbox_operator.Common.{
  ℕ, zero, suc, ◌+◌, ◌*◌, ◌%◌, ◌^◌, String, Bool, true, false, ◌||◌, Option, none, some, List, [],
  ◌∷◌, ltb, leb, ◌==◌, if◌then◌else◌,
}
use netbox_operator.Common.Result.{Result, ok, err}
use netbox_operator.Json.{Object}
use netbox_operator.Errors.Client.{
  NetboxError, validation, rate_limit, transient, retryable, Response, classify_response,
}

-- What New puts into a client. A duration is a number of nanoseconds.
pub record Setup : Type 0 where
  pub base : String
  pub page_size : ℕ
  pub max_pages : ℕ
  pub max_retries : ℕ
  pub base_delay : ℕ
  pub max_delay : ℕ

abbrev pub default_rate_limit_delay : ℕ
default_rate_limit_delay = 5 * 10 ^ 9

abbrev pub default_max_retries : ℕ
default_max_retries = 4

-- An int that a Config may leave out; `negative` is any int below 0.
pub data Retries : Type 0 where
  unset negative : Retries
  retries : ℕ → Retries

pub retries_or_default : Retries → ℕ
retries_or_default unset = default_max_retries
retries_or_default negative = 0
retries_or_default (retries n) = n

-- orDefaultInt and orDefaultDuration, where an int that is not positive is given as 0.
pub or_default : ℕ → ℕ → ℕ
or_default zero fallback = fallback
or_default (suc n) fallback = suc n

pub data Method : Type 0 where
  get post patch delete : Method

pub record Request : Type 0 where
  pub method : Method
  pub target : String
  pub payload : Option Object

-- The body of a response: blank, no JSON object, or an object.
pub data Body : Type 0 where
  blank unparseable : Body
  parsed : Object → Body

-- What becomes of one attempt: it fails before it is sent, its context ends, its response does not
-- arrive, or it is answered.
pub data Exchange : Type 0 where
  unsent cut_off broken : Exchange
  answered : Response → Body → Exchange

-- An error of the client, the same after the last attempt, or one that is none of them.
pub data CallError : Type 0 where
  netbox gave_up : NetboxError → CallError
  stopped : CallError

-- The exchanges and the waits, numbered from the first of the client on; rand.Int64N; and the texts
-- that classify reads.
pub record World : Type 0 where
  pub exchange : ℕ → Request → Exchange
  pub sleeps : ℕ → Bool
  pub random : ℕ → ℕ → ℕ
  pub to_lower : String → String
  pub text_contains : String → String → Bool

abbrev pub Answer : Type 0
Answer = Result CallError (Option Object)

-- What a call sent, how long it waited between attempts, how many attempts it made, and its result.
pub record Call : Type 0 where
  pub sent : List Request
  pub waits : List ℕ
  pub tries : ℕ
  pub answer : Answer

abbrev pub decode : Response → Body → Answer
decode r blank = ok none
decode r (parsed body) = ok (some body)
decode r unparseable = err (netbox (validation 0))

abbrev pub ended : Answer → Call
ended answer = record { sent = []; waits = []; tries = 0; answer = answer }

-- The end of an attempt: its result, or the attempts that follow an error worth one.
abbrev pub unless_final : Answer → (NetboxError → Call) → Call
unless_final (err (netbox e)) again = if retryable e then again e else ended (err (netbox e))
unless_final answer again = ended answer

abbrev pub tried : Request → Exchange → Call → Call
tried request exchange rest = record {
  sent = elim exchange [ unsent ↦ rest.sent | _ ↦ request ∷ rest.sent ];
  waits = rest.waits;
  tries = suc rest.tries;
  answer = rest.answer;
}

abbrev pub waited : Bool → ℕ → Call → Call
waited true delay rest = record {
  sent = rest.sent;
  waits = delay ∷ rest.waits;
  tries = rest.tries;
  answer = rest.answer;
}
waited false delay rest = ended (err stopped)

module _ (setup : Setup) (world : World) where
  unfoldable pub attempt : Exchange → Answer
  attempt unsent = err stopped
  attempt cut_off = err stopped
  attempt broken = err (netbox (transient 0))
  attempt (answered r body) =
      if leb 400 r.status
      then err (netbox (classify_response world.to_lower world.text_contains r))
      else decode r body

  -- `baseDelay << attempt` on an int64, which is negative from 2 ^ 63 on.
  unfoldable pub jitter : ℕ → ℕ → ℕ
  jitter draw n =
      let backoff = (setup.base_delay * 2 ^ n) % 2 ^ 64 in
      let bound =
        if ltb setup.max_delay backoff || leb (2 ^ 63) backoff || backoff == 0
        then setup.max_delay
        else backoff in
      world.random draw bound + 1

  unfoldable pub retry_delay : ℕ → ℕ → NetboxError → ℕ
  retry_delay draw n (rate_limit after) = if after == 0 then default_rate_limit_delay else after
  retry_delay draw n e = jitter draw n

  -- The attempts after the first: `left` of them, of which the next has the number `suc n`. The first
  -- attempt of the call is the number `start` of the client.
  unfoldable pub retry : ℕ → Request → ℕ → ℕ → NetboxError → Call
  retry start request zero n last = ended (err (gave_up last))
  retry start request (suc left) n last =
      let exchange = world.exchange (start + suc n) request in
      waited (world.sleeps (start + suc n)) (retry_delay (start + suc n) n last) (
        tried request exchange
          (unless_final (attempt exchange) (λ e. retry start request left (suc n) e)))

  unfoldable pub do_call : ℕ → Request → Call
  do_call start request =
      let exchange = world.exchange (start + 0) request in
      tried request exchange
        (unless_final (attempt exchange) (λ e. retry start request setup.max_retries 0 e))
