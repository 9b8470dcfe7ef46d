-- ===== src/Sql/Rows.antt =====
-- The two tables of datasource/sqlalchemy/models.py, and the conversions at the end of
-- datasource/sqlalchemy/source.py. A JSON column gives back the value that was put into it.
use taskflow_meter.Prelude.{
  ℕ, Bool, Option, none, some, List, [], ◌∷◌, String, ◌≡◌, refl, ap, ◌∙◌, map, ◌>>=◌,
}
use taskflow_meter.Prelude.Int.{ℤ}
use taskflow_meter.Prelude.Dict.{Dict}
use taskflow_meter.States.{State}
use taskflow_meter.Values.{Value}
use taskflow_meter.Models.{AtomSnapshot, FlowSnapshot}
use taskflow_meter.Events.{Event, EventKind}
use taskflow_meter.Wire.{kind_text, kind_of}

-- `asdict(atom)`: what stands in the JSON of a flow's row
pub record AtomRow : Type 0 where
  pub name : String
  pub uuid : Option String
  pub atom_type : String
  pub state : Option State
  pub intention : Option String
  pub progress : ℤ
  pub progress_details : Value
  pub failure : Value
  pub revert_failure : Value
  pub has_result : Bool
  pub meta : Dict Value

pub record FlowRow : Type 0 where
  pub run_id : String
  pub book_id : Option String
  pub book_name : Option String
  pub name : String
  pub state : Option State
  pub observed_at : ℕ
  pub meta : Option (Dict Value)
  pub atoms : Option (Dict AtomRow)

pub record EventRow : Type 0 where
  pub run_id : String
  pub seq : ℕ
  pub ts : ℕ
  pub kind : String
  pub book_id : Option String
  pub atom_name : Option String
  pub atom_uuid : Option String
  pub atom_type : Option String
  pub state : Option State
  pub old_state : Option State
  pub intention : Option String
  pub progress : Option ℤ
  pub details : Option (Dict Value)

unfoldable pub atom_row : AtomSnapshot → AtomRow
atom_row a = record {
  name = a.name;
  uuid = a.uuid;
  atom_type = a.atom_type;
  state = a.state;
  intention = a.intention;
  progress = a.progress;
  progress_details = a.progress_details;
  failure = a.failure;
  revert_failure = a.revert_failure;
  has_result = a.has_result;
  meta = a.meta;
}

-- `AtomSnapshot(**data)`
unfoldable pub atom_from_row : AtomRow → AtomSnapshot
atom_from_row a = record {
  name = a.name;
  uuid = a.uuid;
  atom_type = a.atom_type;
  state = a.state;
  intention = a.intention;
  progress = a.progress;
  progress_details = a.progress_details;
  failure = a.failure;
  revert_failure = a.revert_failure;
  has_result = a.has_result;
  meta = a.meta;
}

unfoldable pub atom_rows : Dict AtomSnapshot → Dict AtomRow
atom_rows [] = []
atom_rows ((k, a) ∷ d) = (k, atom_row a) ∷ atom_rows d

unfoldable pub atoms_from_rows : Dict AtomRow → Dict AtomSnapshot
atoms_from_rows [] = []
atoms_from_rows ((k, a) ∷ d) = (k, atom_from_row a) ∷ atoms_from_rows d

-- the `values` of `_save_flow`
unfoldable pub flow_row : FlowSnapshot → FlowRow
flow_row f = record {
  run_id = f.run_id;
  book_id = f.book_id;
  book_name = f.book_name;
  name = f.name;
  state = f.state;
  observed_at = f.observed_at;
  meta = some f.meta;
  atoms = some (atom_rows f.atoms);
}

-- `column or {}`
abbrev pub or_empty {ℓ} : {V : Type ℓ} → Option (Dict V) → Dict V
or_empty none = []
or_empty (some d) = d

-- `_flow_from_row`
unfoldable pub flow_from_row : FlowRow → FlowSnapshot
flow_from_row r = record {
  run_id = r.run_id;
  name = r.name;
  state = r.state;
  book_id = r.book_id;
  book_name = r.book_name;
  observed_at = r.observed_at;
  meta = or_empty r.meta;
  atoms = atoms_from_rows (or_empty r.atoms);
}

-- `_event_row`
unfoldable pub event_row : Event → EventRow
event_row e = record {
  run_id = e.run_id;
  seq = e.seq;
  ts = e.ts;
  kind = kind_text e.kind;
  book_id = e.book_id;
  atom_name = e.atom_name;
  atom_uuid = e.atom_uuid;
  atom_type = e.atom_type;
  state = e.state;
  old_state = e.old_state;
  intention = e.intention;
  progress = e.progress;
  details = some e.details;
}

abbrev pub with_kind : EventRow → EventKind → Event
with_kind r kind = record {
  run_id = r.run_id;
  seq = r.seq;
  ts = r.ts;
  kind = kind;
  book_id = r.book_id;
  atom_name = r.atom_name;
  atom_uuid = r.atom_uuid;
  atom_type = r.atom_type;
  state = r.state;
  old_state = r.old_state;
  intention = r.intention;
  progress = r.progress;
  details = or_empty r.details;
}

-- `_event_from_row`: `none` is the `ValueError` of a kind that is no `EventKind`
unfoldable pub event_from_row : EventRow → Option Event
event_from_row r = kind_of r.kind >>= λ kind. some (with_kind r kind)

-- the list comprehension, which raises at the first row that does
unfoldable pub events_from_rows : List EventRow → Option (List Event)
events_from_rows [] = some []
events_from_rows (r ∷ rs) = event_from_row r >>= λ e. events_from_rows rs >>= λ es. some (e ∷ es)

pub atoms_from_rows-atom_rows : (d : Dict AtomSnapshot) → atoms_from_rows (atom_rows d) ≡ d
unfolding atoms_from_rows atom_rows atom_row atom_from_row
atoms_from_rows-atom_rows [] = refl
atoms_from_rows-atom_rows ((k, a) ∷ d) = ap (◌∷◌ (k, a)) (atoms_from_rows-atom_rows d)

pub flow_from_row-flow_row : (f : FlowSnapshot) → flow_from_row (flow_row f) ≡ f
unfolding flow_from_row flow_row
flow_from_row-flow_row f = ap (λ d. record f { atoms = d }) (atoms_from_rows-atom_rows f.atoms)

kind_of-kind_text : (k : EventKind) → kind_of (kind_text k) ≡ some k
unfolding kind_of kind_text
kind_of-kind_text EventKind.flow_state = refl
kind_of-kind_text EventKind.atom_state = refl
kind_of-kind_text EventKind.atom_progress = refl
kind_of-kind_text EventKind.flow_structure = refl
kind_of-kind_text EventKind.flow_result = refl
kind_of-kind_text EventKind.heartbeat = refl

pub event_from_row-event_row : (e : Event) → event_from_row (event_row e) ≡ some e
unfolding event_from_row event_row
event_from_row-event_row e =
    ap (λ o. o >>= λ kind. some (record e { kind = kind })) (kind_of-kind_text e.kind)

pub events_from_rows-map : (es : List Event) → events_from_rows (map event_row es) ≡ some es
unfolding events_from_rows
events_from_rows-map [] = refl
events_from_rows-map (e ∷ es) =
    ap (λ o. o >>= λ x. events_from_rows (map event_row es) >>= λ xs. some (x ∷ xs))
      (event_from_row-event_row e)
    ∙ ap (λ o. o >>= λ xs. some (e ∷ xs)) (events_from_rows-map es)
