-- ===== src/DataSource.antt =====
-- datasource/base.py: the pages that a datasource returns, and the listing that memory.py and
-- persistence.py share word for word.
pub mod Order
pub mod Windows
use taskflow_meter.Prelude.{
  ℕ, suc, ◌+◌, Bool, true, false, ◌&&◌, Option, none, some, List, [], ◌∷◌, String, String-discrete,
  ite, ltb, le_str, length, take, drop, last, if◌then◌else◌, is_some,
}
use taskflow_meter.Prelude.Sort.{sorted}
use taskflow_meter.States.{State, Option-State-discrete}
use taskflow_meter.Models.{AtomSnapshot, FlowSnapshot, atoms_at, atom_names}
use taskflow_meter.Events.{Event}

-- what a read returns or raises
pub data Outcome {ℓ} (A : Type ℓ) : Type ℓ where
  ok : A → Outcome A
  value_error : Outcome A
  unknown_marker : String → Outcome A

pub record FlowPage : Type 0 where
  pub items : List FlowSnapshot
  pub next_marker : Option String

abbrev pub has_more : FlowPage → Bool
has_more p = is_some p.next_marker

pub record EventPage : Type 0 where
  pub events : List Event
  pub next_seq : ℕ
  pub oldest_seq : Option ℕ
  pub truncated : Bool

abbrev pub default_flow_limit : ℕ
default_flow_limit = 50

abbrev pub default_event_limit : ℕ
default_event_limit = 500

abbrev pub run_ids : List FlowSnapshot → List String
run_ids [] = []
run_ids (f ∷ fs) = f.run_id ∷ run_ids fs

-- `flows.sort(key=lambda flow: (-flow.observed_at, flow.run_id))`
unfoldable pub newest_first : FlowSnapshot → FlowSnapshot → Bool
newest_first f g =
    if ltb g.observed_at f.observed_at
    then true
    else if ltb f.observed_at g.observed_at
    then false
    else le_str f.run_id g.run_id

-- `state is None or flow.state == state`
unfoldable pub has_state : Option State → FlowSnapshot → Bool
has_state none f = true
has_state (some s) f = ite (Option-State-discrete f.state (some s)) true false

unfoldable pub Option-String-discrete : Discrete (Option String)
unfolding String-discrete
Option-String-discrete = hlevel String-discrete

unfoldable pub has_book : Option String → FlowSnapshot → Bool
has_book none f = true
has_book (some b) f = ite (Option-String-discrete f.book_id (some b)) true false

unfoldable pub matching : Option State → Option String → List FlowSnapshot → List FlowSnapshot
matching state book_id [] = []
matching state book_id (f ∷ fs) =
    let others = matching state book_id fs in
    if has_state state f && has_book book_id f then f ∷ others else others

-- `positions[marker]`, where the dictionary has been filled in order, so the last index wins
unfoldable pub position : String → List FlowSnapshot → Option ℕ
position marker [] = none
position marker (f ∷ fs) = elim (position marker fs) [
  | some i ↦ some (suc i)
  | none ↦ ite (String-discrete f.run_id marker) (some 0) none
]

unfoldable pub start_of : Option String → List FlowSnapshot → Outcome ℕ
start_of none flows = ok 0
start_of (some marker) flows = elim (position marker flows) [
  | none ↦ unknown_marker marker
  | some i ↦ ok (i + 1)
]

abbrev pub run_id_of : Option FlowSnapshot → Option String
run_id_of none = none
run_id_of (some f) = some f.run_id

-- the window from `start`; `window[-1].run_id if more and window else None`
unfoldable pub page_at : List FlowSnapshot → ℕ → ℕ → FlowPage
page_at flows limit start =
    let window = take limit (drop start flows) in
    record {
      items = window;
      next_marker = if ltb (start + limit) (length flows) then run_id_of (last window) else none;
    }

-- the body of `list_flows` from the sort on
unfoldable pub page_of : List FlowSnapshot → ℕ → Option String → Outcome FlowPage
page_of flows limit marker = elim (start_of marker (sorted newest_first flows)) [
  | ok start ↦ ok (page_at (sorted newest_first flows) limit start)
  | value_error ↦ value_error
  | unknown_marker m ↦ unknown_marker m
]

-- `DataSource.get_atoms`, over the flow that `get_flow` gives
unfoldable pub atoms_of_flow : Option FlowSnapshot → Option (List AtomSnapshot)
atoms_of_flow none = none
atoms_of_flow (some f) = some (atoms_at f.atoms (atom_names f))

-- the end of `events_since`, which memory.py and sqlalchemy/source.py share: `oldest` is the lowest
-- number stored
unfoldable pub expected_seq : Option ℕ → ℕ → ℕ
expected_seq none since_seq = since_seq + 1
expected_seq (some oldest) since_seq = if ltb (since_seq + 1) oldest then oldest else since_seq + 1

unfoldable pub is_truncated : Option ℕ → ℕ → Bool
is_truncated none since_seq = false
is_truncated (some oldest) since_seq = ltb (since_seq + 1) oldest

abbrev pub last_seq : ℕ → List Event → ℕ
last_seq since_seq es = elim (last es) [ none ↦ since_seq | some e ↦ e.seq ]

unfoldable pub event_page : Option ℕ → ℕ → List Event → EventPage
event_page oldest since_seq selected = record {
  events = selected;
  next_seq = last_seq since_seq selected;
  oldest_seq = oldest;
  truncated = is_truncated oldest since_seq;
}
