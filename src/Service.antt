-- ===== src/Service.antt =====
-- api/service.py: the handlers of `MeterService`, with what a request says in api/http.py. What a
-- handler answers is kept before it is written as JSON. `int(text)` and the reading of a state's name
-- are parameters; so is the meter's reader.
pub mod Limits
use taskflow_meter.Prelude.{
  ℕ, ◌+◌, min, Bool, true, false, Option, none, some, List, [], ◌∷◌, String, str_eq, if◌then◌else◌,
}
use taskflow_meter.Prelude.Int.{ℤ, pos, ltb_ℤ, pos_part}
use taskflow_meter.Prelude.Dict
use taskflow_meter.Prelude.Dict.{Dict}
use taskflow_meter.States.{State}
use taskflow_meter.Models.{AtomSnapshot, FlowSnapshot}
pub use taskflow_meter.Http.{ApiError, status, MeterRequest}
use taskflow_meter.Poller.{PollStats}
use taskflow_meter.DataSource.{Outcome, ok, value_error, unknown_marker, FlowPage, EventPage}

abbrev pub max_limit : ℕ
max_limit = 500

abbrev pub flow_limit : ℕ
flow_limit = 50

abbrev pub event_limit : ℕ
event_limit = 200

-- `escaped` is an error that no handler turns into an answer
pub data Answer {ℓ} (A : Type ℓ) : Type ℓ where
  answer : A → Answer A
  failed : ApiError → Answer A
  escaped : Answer A

abbrev pub and_then {ℓ κ} : {A : Type ℓ} {B : Type κ} → Answer A → (A → Answer B) → Answer B
and_then (Answer.answer a) f = f a
and_then (Answer.failed e) f = Answer.failed e
and_then Answer.escaped f = Answer.escaped

-- what `health` reports, of the meter's properties and the poller's counters
pub record Health : Type 0 where
  pub status_text : String
  pub version : String
  pub running : Bool
  pub supports_events : Bool
  pub poller : Option PollStats

unfoldable pub health : String → Bool → Bool → Option PollStats → Health
health version running supports_events poller = record {
  status_text = "ok";
  version = version;
  running = running;
  supports_events = supports_events;
  poller = poller;
}

-- `param`
abbrev pub found {ℓ} : {A : Type ℓ} → Option A → Answer A
found none = Answer.escaped
found (some a) = Answer.answer a

unfoldable pub param : MeterRequest → String → Answer String
param req name = found (Dict.get name req.path_params)

-- `get`, with no default: a parameter that is there with no value counts as missing
abbrev pub first_value : Option (List String) → Option String
first_value none = none
first_value (some []) = none
first_value (some (v ∷ vs)) = some v

unfoldable pub get : MeterRequest → String → Option String
get req name = first_value (Dict.get name req.query)

-- what a handler asks of the meter
pub record Backend : Type 0 where
  pub supports_events : Bool
  pub list_flows : Option State → Option String → ℕ → Option String → Outcome FlowPage
  pub get_flow : String → Option FlowSnapshot
  pub get_atoms : String → Option (List AtomSnapshot)
  pub events_since : String → ℤ → ℕ → Outcome EventPage

-- where `stream` starts its cursor
pub record StreamStart : Type 0 where
  pub run_id : String
  pub since_seq : ℤ
  pub batch_limit : ℕ

-- an atom or a flow that is not there
abbrev pub or_404 {ℓ} : {A : Type ℓ} → Option A → Answer A
or_404 none = Answer.failed ApiError.not_found
or_404 (some a) = Answer.answer a

-- `except UnknownMarkerError`
abbrev pub of_listing : Outcome FlowPage → Answer FlowPage
of_listing (ok page) = Answer.answer page
of_listing (unknown_marker m) = Answer.failed ApiError.bad_request
of_listing value_error = Answer.escaped

abbrev pub of_events : Outcome EventPage → Answer EventPage
of_events (ok page) = Answer.answer page
of_events _ = Answer.escaped

abbrev pub state_filter : (String → State) → Option String → Option State
state_filter state_of none = none
state_filter state_of (some s) = some (state_of s)

module _ (int_of : String → Option ℤ) (state_of : String → State) (largest : ℕ) where
  -- `int(raw)`, or a bad request
  unfoldable pub to_int : String → Answer ℤ
  to_int raw = elim (int_of raw) [
    | none ↦ Answer.failed ApiError.bad_request
    | some n ↦ Answer.answer n
  ]

  -- the end of `get_int`
  unfoldable pub int_or : Option String → ℤ → Answer ℤ
  int_or none default = Answer.answer default
  int_or (some raw) default = if str_eq raw "" then Answer.answer default else to_int raw

  unfoldable pub get_int : MeterRequest → String → ℤ → Answer ℤ
  get_int req name default = int_or (get req name) default

  -- `_limit`
  unfoldable pub within_limit : ℤ → Answer ℕ
  within_limit n =
      if ltb_ℤ n (pos 1)
      then Answer.failed ApiError.bad_request
      else Answer.answer (min (pos_part n) largest)

  unfoldable pub limit_of : MeterRequest → ℕ → Answer ℕ
  limit_of req default = and_then (get_int req "limit" (pos default)) within_limit

  unfoldable pub list_flows : Backend → MeterRequest → Answer FlowPage
  list_flows b req = and_then (limit_of req flow_limit) (λ limit. of_listing (
      b.list_flows (state_filter state_of (get req "state")) (get req "book_id") limit
        (get req "marker")))

  -- `_flow_or_404`
  unfoldable pub flow_or_404 : Backend → String → Answer FlowSnapshot
  flow_or_404 b run_id = or_404 (b.get_flow run_id)

  -- `_require_events`
  unfoldable pub require_events : Backend → Answer (Unit {0})
  require_events b =
      if b.supports_events then Answer.answer tt else Answer.failed ApiError.unsupported

  unfoldable pub get_flow : Backend → MeterRequest → Answer FlowSnapshot
  get_flow b req = and_then (param req "run_id") (flow_or_404 b)

  unfoldable pub get_atoms : Backend → MeterRequest → Answer (List AtomSnapshot)
  get_atoms b req = and_then (param req "run_id") (λ run_id. or_404 (b.get_atoms run_id))

  -- the checks that `get_events` and `stream` share
  unfoldable pub watched_run : Backend → MeterRequest → Answer String
  watched_run b req = and_then (param req "run_id") (λ run_id.
      and_then (require_events b)
        (λ _. and_then (flow_or_404 b run_id) (λ flow. Answer.answer run_id)))

  unfoldable pub get_events : Backend → MeterRequest → Answer EventPage
  get_events b req = and_then (watched_run b req) (λ run_id.
      and_then (get_int req "since_seq" (pos 0)) (λ since.
        and_then (limit_of req event_limit)
          (λ limit. of_events (b.events_since run_id since limit))))

  -- the header of `_resume_point`
  unfoldable pub of_header : Option String → Answer ℤ
  of_header none = Answer.answer (pos 0)
  of_header (some header) = to_int header

  -- `_resume_point`
  unfoldable pub resume_from_query : Option String → MeterRequest → Answer ℤ
  resume_from_query (some _) req = get_int req "since_seq" (pos 0)
  resume_from_query none req = of_header (Dict.get "last-event-id" req.headers)

  unfoldable pub resume_point : MeterRequest → Answer ℤ
  resume_point req = resume_from_query (get req "since_seq") req

  unfoldable pub stream : Backend → MeterRequest → Answer StreamStart
  stream b req = and_then (watched_run b req) (λ run_id. and_then (resume_point req) (λ since.
      and_then (limit_of req event_limit) (λ limit.
        Answer.answer (record { run_id = run_id; since_seq = since; batch_limit = limit }))))
