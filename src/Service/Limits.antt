-- ===== src/Service/Limits.antt =====
-- What the handlers ask of a datasource, and that none of them lets an error escape.
use taskflow_meter.Prelude.{
  ℕ, ◌≤◌, min, false, Option, none, some, List, String, ◌≡◌, ◌≢◌, refl, sym, subst, arith, str_eq,
  if◌then◌else◌, ltb, Bool-cases, inl, inr,
}
use taskflow_meter.Prelude.Int.{ℤ, pos, negsuc, ltb_ℤ, pos_part}
use taskflow_meter.Prelude.Dict
use taskflow_meter.States.{State}
use taskflow_meter.Models.{FlowSnapshot}
use taskflow_meter.DataSource.{value_error, page_of, start_of, newest_first, matching}
use taskflow_meter.Memory.{Memory, list_flows as memory_list_flows, flows}
use taskflow_meter.Prelude.Sort.{sorted}
use taskflow_meter.Service.{
  ApiError, Answer, and_then, MeterRequest, param, Backend, or_404, of_listing, of_events, to_int,
  int_or, get_int, within_limit, limit_of, list_flows, flow_or_404, require_events, get_flow,
  get_atoms, watched_run, get_events, of_header, resume_from_query, resume_point, stream,
  flow_limit, event_limit, state_filter, get,
}

-- What a datasource owes to the handlers: a limit of at least 1 is never an error, and an event page has
-- no marker that could be unknown.
pub record Lawful (b : Backend) : Type 0 where
  pub lists :
      (state : Option State) (book_id : Option String) (limit : ℕ) (marker : Option String)
      → 1 ≤ limit
      → of_listing (b.list_flows state book_id limit marker) ≢ Answer.escaped
  pub serves :
      (run_id : String) (since : ℤ) (limit : ℕ)
      → 1 ≤ limit
      → of_events (b.events_since run_id since limit) ≢ Answer.escaped

-- an answer that is not an error that escaped, and whose value is as it should be
pub data Safe {A : Type 0} (P : A → Type 0) : Answer A → Type 0 where
  good : (a : A) → P a → Safe P (Answer.answer a)
  refused : (e : ApiError) → Safe P (Answer.failed e)

Safe-and_then :
    {A B : Type 0} (P : A → Type 0) (Q : B → Type 0) (x : Answer A) (f : A → Answer B)
    → Safe P x
    → ((a : A) → P a → Safe Q (f a))
    → Safe Q (and_then x f)
Safe-and_then P Q _ f (good a p) h = h a p
Safe-and_then P Q _ f (refused e) h = Safe.refused e

abbrev pub Anything {ℓ} : {A : Type ℓ} → A → Type 0
Anything a = Unit

not_escaped : {A : Type 0} (x : Answer A) → x ≢ Answer.escaped → Safe Anything x
not_escaped (Answer.answer a) h = Safe.good a tt
not_escaped (Answer.failed e) h = Safe.refused e
not_escaped Answer.escaped h = absurd (h refl)

abbrev pub Within : ℕ → ℕ → Type 0
Within largest n = (1 ≤ n) × (n ≤ largest)

module _ (int_of : String → Option ℤ) (state_of : String → State) (largest : ℕ)
    (room : 1 ≤ largest) where
  to_int-Safe : (raw : String) → Safe Anything (to_int int_of state_of largest raw)
  unfolding to_int
  to_int-Safe raw = go (int_of raw)
    where
      go :
          (o : Option ℤ)
          → Safe Anything (elim o as (λ _. Answer ℤ) [
            | none ↦ Answer.failed ApiError.bad_request
            | some n ↦ Answer.answer n
          ])
      go none = Safe.refused ApiError.bad_request
      go (some n) = Safe.good n tt

  int_or-Safe : (o : Option String) (d : ℤ) → Safe Anything (int_or int_of state_of largest o d)
  unfolding int_or
  int_or-Safe none d = Safe.good d tt
  int_or-Safe (some raw) d = elim (Bool-cases (str_eq raw "")) [
    | inl e ↦ rw e (Safe.good d tt)
    | inr e ↦ rw e (to_int-Safe raw)
  ]

  within_limit-Safe : (n : ℤ) → Safe (Within largest) (within_limit int_of state_of largest n)
  unfolding within_limit
  within_limit-Safe n = elim (Bool-cases (ltb_ℤ n (pos 1))) [
    | inl e ↦ rw e (Safe.refused ApiError.bad_request)
    | inr e ↦ rw e (Safe.good (min (pos_part n) largest) (omega (arith, positive n e), omega arith))
  ]
    where
      positive : (n : ℤ) → ltb_ℤ n (pos 1) ≡ false → 1 ≤ pos_part n
      positive (pos n) h = ground (arith, h)
      positive (negsuc n) h = absurd (ground (arith, h))

  -- Whatever a client asks for, the limit is refused as a bad request or lies between 1 and the
  -- largest that the service grants, and no error escapes.
  pub limit_of-Safe :
      (req : MeterRequest) (d : ℕ) → Safe (Within largest) (limit_of int_of state_of largest req d)
  unfolding limit_of get_int
  limit_of-Safe req d =
      Safe-and_then Anything (Within largest)
        (int_or int_of state_of largest (get req "limit") (pos d))
        (within_limit int_of state_of largest) (int_or-Safe (get req "limit") (pos d))
        (λ n _. within_limit-Safe n)

  get_int-Safe :
      (req : MeterRequest) (name : String) (d : ℤ)
      → Safe Anything (get_int int_of state_of largest req name d)
  unfolding get_int
  get_int-Safe req name d = int_or-Safe (get req name) d

  resume_point-Safe :
      (req : MeterRequest) → Safe Anything (resume_point int_of state_of largest req)
  unfolding resume_point resume_from_query of_header
  resume_point-Safe req = go (get req "since_seq")
    where
      from_header : (o : Option String) → Safe Anything (of_header int_of state_of largest o)
      from_header none = Safe.good (pos 0) tt
      from_header (some raw) = to_int-Safe raw

      go : (o : Option String) → Safe Anything (resume_from_query int_of state_of largest o req)
      go none = from_header (Dict.get "last-event-id" req.headers)
      go (some raw) = get_int-Safe req "since_seq" (pos 0)

  or_404-Safe : {A : Type 0} (o : Option A) → Safe Anything (or_404 o)
  or_404-Safe none = Safe.refused ApiError.not_found
  or_404-Safe (some a) = Safe.good a tt

  module _ (b : Backend) (lawful : Lawful b) (req : MeterRequest) (run_id : String)
      (routed : Dict.get "run_id" req.path_params ≡ some run_id) where
    param-Safe : Safe (λ r. r ≡ run_id) (param req "run_id")
    unfolding param
    param-Safe = rw routed (Safe.good run_id refl)

    watched_run-Safe : Safe Anything (watched_run int_of state_of largest b req)
    unfolding watched_run require_events flow_or_404
    watched_run-Safe =
        Safe-and_then (λ r. r ≡ run_id) Anything (param req "run_id") _ param-Safe
          (λ r e.
            Safe-and_then Anything Anything (require_events int_of state_of largest b) _ supported
              (λ u _.
                Safe-and_then Anything Anything (or_404 (b.get_flow r)) _
                  (or_404-Safe (b.get_flow r)) (λ f _. Safe.good r tt)))
      where
        supported : Safe Anything (require_events int_of state_of largest b)
        supported = elim (Bool-cases b.supports_events) [
          | inl e ↦ rw e (Safe.good tt tt)
          | inr e ↦ rw e (Safe.refused ApiError.unsupported)
        ]

    -- Where the largest limit that the service grants is at least 1, the listing, the flow, the
    -- atoms, the events and the stream each answer a request that was routed with a run, or refuse
    -- it with an error that has a status, whatever its query and its headers say, over any
    -- datasource that raises nothing at a limit of at least 1.
    pub handlers-Safe :
        Safe Anything (list_flows int_of state_of largest b req)
        × Safe Anything (get_flow int_of state_of largest b req)
        × Safe Anything (get_atoms int_of state_of largest b req)
        × Safe Anything (get_events int_of state_of largest b req)
        × Safe Anything (stream int_of state_of largest b req)
    unfolding list_flows get_flow get_atoms get_events stream flow_or_404
    handlers-Safe = (
      Safe-and_then (Within largest) Anything (limit_of int_of state_of largest req flow_limit) _
          (limit_of-Safe req flow_limit)
          (λ n w. not_escaped _ (
            lawful.lists (state_filter state_of (get req "state")) (get req "book_id") n
              (get req "marker") w.0)),
      Safe-and_then (λ r. r ≡ run_id) Anything (param req "run_id") _ param-Safe
          (λ r e. or_404-Safe (b.get_flow r)),
      Safe-and_then (λ r. r ≡ run_id) Anything (param req "run_id") _ param-Safe
          (λ r e. or_404-Safe (b.get_atoms r)),
      Safe-and_then Anything Anything (watched_run int_of state_of largest b req) _ watched_run-Safe
          (λ r _.
            Safe-and_then Anything Anything
              (get_int int_of state_of largest req "since_seq" (pos 0)) _
              (get_int-Safe req "since_seq" (pos 0))
              (λ since _.
                Safe-and_then (Within largest) Anything
                  (limit_of int_of state_of largest req event_limit) _
                  (limit_of-Safe req event_limit)
                  (λ n w. not_escaped _ (lawful.serves r since n w.0)))),
      Safe-and_then Anything Anything (watched_run int_of state_of largest b req) _ watched_run-Safe
          (λ r _.
            Safe-and_then Anything Anything (resume_point int_of state_of largest req) _
              (resume_point-Safe req)
              (λ since _.
                Safe-and_then (Within largest) Anything
                  (limit_of int_of state_of largest req event_limit) _
                  (limit_of-Safe req event_limit) (λ n w. Safe.good _ tt))),
    )

start_of-answers :
    (marker : Option String) (fs : List FlowSnapshot) → start_of marker fs ≢ value_error
unfolding start_of
start_of-answers marker fs = λ q. ground (arith, q)

page_of-answers :
    (fs : List FlowSnapshot) (limit : ℕ) (marker : Option String)
    → of_listing (page_of fs limit marker) ≢ Answer.escaped
unfolding page_of
page_of-answers fs limit marker =
    λ q. ground (arith, q, start_of-answers marker (sorted newest_first fs))

-- The listing of the memory store at a limit of at least 1 is a page or an unknown marker.
pub memory_list_flows-answers :
    (m : Memory) (state : Option State) (book_id : Option String) (limit : ℕ)
    (marker : Option String)
    → 1 ≤ limit
    → of_listing (memory_list_flows m state book_id limit marker) ≢ Answer.escaped
unfolding memory_list_flows
memory_list_flows-answers m state book_id limit marker h =
    let some_limit : ltb limit 1 ≡ false = ground arith in
    subst
      (λ b.
        of_listing (
          if b
          then value_error
          else page_of (matching state book_id (flows (Dict.values m.runs))) limit marker)
        ≢ Answer.escaped)
      (sym some_limit)
      (page_of-answers (matching state book_id (flows (Dict.values m.runs))) limit marker)
