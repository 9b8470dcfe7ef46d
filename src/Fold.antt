-- ===== src/Fold.antt =====
-- fold.py: folding events back into a snapshot.
pub mod Replay
pub mod Contiguous
pub mod Identity
use taskflow_meter.Prelude.{
  ℕ, zero, suc, ◌+◌, Bool, true, false, Option, none, some, List, [], ◌∷◌, String, max, str_eq, ltb,
  leb, ◌==◌, not, ◌-◌, if◌then◌else◌,
}
use taskflow_meter.Prelude.Dict
use taskflow_meter.Prelude.Dict.{Dict}
use taskflow_meter.Models.{AtomSnapshot, new_atom, FlowSnapshot}
use taskflow_meter.Events.{Event, EventKind}
use taskflow_meter.Values.{Value, text_of, truthy, look, look_or, optional_str}

unfoldable pub flow_from_event : Event → FlowSnapshot
flow_from_event e = record {
  run_id = e.run_id;
  name = text_of (look_or "flow_name" (Value.str "") e.details);
  state = none;
  book_id = e.book_id;
  book_name = optional_str (look "book_name" e.details);
  observed_at = e.ts;
  meta = [];
  atoms = [];
}

-- `new or old`, for a text that may be `None`
unfoldable pub or_text : Option String → String → String
or_text none old = old
or_text (some s) old = if str_eq s "" then old else s

-- `changes[...] = new` where the event says something
abbrev pub given {ℓ} : {A : Type ℓ} → Option A → A → A
given none old = old
given (some a) old = a

abbrev pub given_opt {ℓ} : {A : Type ℓ} → Option A → Option A → Option A
given_opt none old = old
given_opt (some a) old = some a

abbrev pub given_value : Value → Value → Value
given_value Value.null old = old
given_value v old = v

-- what every atom event may change
unfoldable pub fold_common : AtomSnapshot → Event → AtomSnapshot
fold_common a e = record a {
  uuid = given_opt e.atom_uuid a.uuid;
  atom_type = given e.atom_type a.atom_type;
  intention = given_opt e.intention a.intention;
  progress = given e.progress a.progress;
}

unfoldable pub fold_atom_kind : EventKind → AtomSnapshot → Event → AtomSnapshot
fold_atom_kind EventKind.atom_state a e = record a {
  state = e.state;
  failure = given_value (look "failure" e.details) a.failure;
  revert_failure = given_value (look "revert_failure" e.details) a.revert_failure;
  has_result = if truthy (look "has_result" e.details) then true else a.has_result;
}
fold_atom_kind EventKind.atom_progress a e = record a {
  progress_details = look "progress_details" e.details;
}
fold_atom_kind _ a e = a

abbrev pub atom_or_new : Option AtomSnapshot → String → AtomSnapshot
atom_or_new none name = new_atom name
atom_or_new (some a) name = a

unfoldable pub fold_atom : Option AtomSnapshot → Event → String → AtomSnapshot
fold_atom a e name = fold_atom_kind e.kind (fold_common (atom_or_new a name) e) e

-- the `ATOM_STATE` and `ATOM_PROGRESS` branch; an event with no atom name is ignored
unfoldable pub fold_named : Option String → FlowSnapshot → Event → FlowSnapshot
fold_named none f e = f
fold_named (some name) f e = record f {
  atoms = Dict.set name (fold_atom (Dict.get name f.atoms) e name) f.atoms;
}

unfoldable pub fold_kind : EventKind → FlowSnapshot → Event → FlowSnapshot
fold_kind EventKind.flow_state f e = record f {
  state = e.state;
  name = or_text (optional_str (look "flow_name" e.details)) f.name;
}
fold_kind EventKind.atom_state f e = fold_named e.atom_name f e
fold_kind EventKind.atom_progress f e = fold_named e.atom_name f e
fold_kind _ f e = f

unfoldable pub fold : FlowSnapshot → Event → FlowSnapshot
fold f e = fold_kind e.kind (record f { observed_at = max f.observed_at e.ts }) e

-- the loop of `for event in events: flow = fold(flow, event)`
unfoldable pub fold_all : FlowSnapshot → List Event → FlowSnapshot
fold_all f [] = f
fold_all f (e ∷ es) = fold_all (fold f e) es

-- the loop of `contiguous_from`: `room` more events may be taken, and after the last of them the
-- loop breaks
unfoldable pub contiguous_loop : ℕ → List Event → ℕ → List Event
contiguous_loop room [] expected = []
contiguous_loop room (e ∷ es) expected = elim (ltb e.seq expected) [
  | true ↦ contiguous_loop room es expected
  | false ↦ elim (e.seq == expected) [
    | false ↦ []
    | true ↦ e ∷ (if leb room 1 then [] else contiguous_loop (room - 1) es (expected + 1))
  ]
]

unfoldable pub contiguous_from : List Event → ℕ → ℕ → List Event
contiguous_from events expected limit = contiguous_loop limit events expected
