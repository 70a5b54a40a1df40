-- ===== src/Endpoints/Webhook.antt =====
-- WebhookClient of bell/protocols/http.py. What the endpoint answers to each attempt is the argument
-- `respond`, the environment is `environ`, the keyed digest `hmac` and the JSON text are arguments
-- too; delays are in microseconds.
use Prim.Native.Nat.{min}
use school_bells.Prelude.{
  ℕ, zero, suc, ◌+◌, ◌*◌, ◌^◌, String, Bool, true, false, ◌&&◌, ◌||◌, List, [], ◌∷◌, Option, none,
  some, leb, ltb, ◌==◌, if◌then◌else◌, show, str_eq,
}
use school_bells.Prelude.Results.{Result, ok, err}
use school_bells.Dates.{◌&◌}
use school_bells.Config.{Destination, http}
use school_bells.Endpoints.{DeliveryOutcome}

pub data Response : Type 0 where
  answered : ℕ → Response
  http_error : ℕ → String → Response
  failed : String → Response

pub record Request : Type 0 where
  pub url : String
  pub body : String
  pub idempotency_key : String
  pub timestamp : String
  pub signature : Option String
  pub tls_ca_file : Option String

-- `if not value` of an optional text.
unfoldable pub given : Option String → Option String
given none = none
given (some s) = if str_eq s "" then none else some s

unfoldable pub accepted : Response → Bool
accepted (answered status) = leb 200 status && ltb status 300
accepted (http_error code reason) = false
accepted (failed detail) = false

retry_status : ℕ → Bool
retry_status status = status == 408 || status == 425 || status == 429 || leb 500 status

unfoldable pub retryable : Response → Bool
unfolding retry_status
retryable (answered status) = retry_status status
retryable (http_error code reason) = retry_status code
retryable (failed detail) = true

unfoldable pub last_detail : Response → String
last_detail (answered status) = "unexpected HTTP status " & show status
last_detail (http_error code reason) = "HTTP " & show code & ": " & reason
last_detail (failed detail) = detail

status_text : Response → String
status_text (answered status) = show status
status_text (http_error code reason) = show code
status_text (failed detail) = detail

abbrev pub delay : ℕ → ℕ
delay attempt = min 2000000 (250000 * 2 ^ attempt)

-- What the loop of `trigger` ends with: whether a response was accepted, the status, the detail, the
-- number of attempts, and the delays between them.
pub record Tried : Type 0 where
  pub success : Bool
  pub status : String
  pub detail : String
  pub attempts : ℕ
  pub delays : List ℕ

unfoldable pub after_delay : ℕ → Tried → Tried
after_delay attempt t = record t { delays = delay attempt ∷ t.delays }

unfoldable pub gave_up : ℕ → Response → Tried
gave_up attempt r = record {
  success = false;
  status = "failed";
  detail = last_detail r;
  attempts = attempt + 1;
  delays = [];
}

taken : ℕ → Response → Tried
taken attempt r = record {
  success = true;
  status = status_text r;
  detail = "webhook accepted";
  attempts = attempt + 1;
  delays = [];
}

-- The loop, with so many retries left, from the attempt of this number.
unfoldable pub try_from : (ℕ → Response) → ℕ → ℕ → Tried
unfolding status_text taken
try_from respond zero attempt =
    if accepted (respond attempt)
    then taken attempt (respond attempt)
    else gave_up attempt (respond attempt)
try_from respond (suc left) attempt =
    let rest = try_from respond left (attempt + 1) in
    if accepted (respond attempt)
    then taken attempt (respond attempt)
    else if retryable (respond attempt)
    then after_delay attempt rest
    else gave_up attempt (respond attempt)

unfoldable pub outcome_of : Destination → ℕ → Tried → DeliveryOutcome
outcome_of d duration t = record {
  destination = d.name;
  protocol = http;
  success = t.success;
  status = t.status;
  detail = t.detail;
  attempts = t.attempts;
  duration = duration;
}

-- The outcome, and the delays slept through.
pub record Triggered : Type 0 where
  pub outcome : DeliveryOutcome
  pub delays : List ℕ

unfoldable pub post : Destination → Request → (Request → ℕ → Response) → ℕ → Triggered
unfolding outcome_of
post d request respond duration =
    let t = try_from (respond request) d.retries 0 in
    record { outcome = outcome_of d duration t; delays = t.delays }

unfoldable pub unsigned : Destination → String → Triggered
unsigned d name = record {
  outcome = record {
    destination = d.name;
    protocol = http;
    success = false;
    status = "configuration_error";
    detail = "environment variable " & name & " is not set";
    attempts = 0;
    duration = 0;
  };
  delays = [];
}

unfoldable pub request_for :
    Destination → String → String → String → String → Option String → Request
request_for d url body key timestamp signature = record {
  url = url;
  body = body;
  idempotency_key = key;
  timestamp = timestamp;
  signature = signature;
  tls_ca_file = given d.tls_ca_file;
}

unfoldable pub trigger :
    (environ : String → Option String) (hmac : String → String → String)
    (respond : Request → ℕ → Response)
    → Destination
    → String
    → String
    → String
    → ℕ
    → Result Triggered
unfolding post unsigned request_for given
trigger environ hmac respond d body key timestamp duration = elim (given d.webhook_url) [
  | none ↦ err "HTTP destination has no webhook_url"
  | some url ↦ elim (given d.webhook_secret_env) [
    | none ↦ ok (post d (request_for d url body key timestamp none) respond duration)
    | some name ↦ elim (given (environ name)) [
      | none ↦ ok (unsigned d name)
      | some secret ↦ ok (
          post d
            (request_for d url body key timestamp
              (some ("sha256=" & hmac secret (timestamp & "." & body))))
            respond duration)
    ]
  ]
]

reached : Response → Bool
reached (answered status) = ltb status 500
reached (http_error code reason) = ltb code 500
reached (failed detail) = false

check_status : Response → String
check_status (answered status) = show status
check_status (http_error code reason) = show code
check_status (failed detail) = "unreachable"

check_detail : Response → String
check_detail (answered status) = if ltb status 500 then "endpoint reachable" else "server error"
check_detail (http_error code reason) = reason
check_detail (failed detail) = detail

-- `healthcheck_url or webhook_url`
check_url : Destination → Option String
check_url d = elim (given d.healthcheck_url) [ none ↦ given d.webhook_url | some url ↦ some url ]

unfoldable pub check : (String → Response) → Destination → ℕ → Result DeliveryOutcome
unfolding reached check_status check_detail check_url
check respond d duration = elim (check_url d) [
  | none ↦ err "HTTP destination has no URL"
  | some url ↦ ok (record {
    destination = d.name;
    protocol = http;
    success = reached (respond url);
    status = check_status (respond url);
    detail = check_detail (respond url);
    attempts = 1;
    duration = duration;
  })
]
