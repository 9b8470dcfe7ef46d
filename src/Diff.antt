-- ===== src/Diff.antt =====
-- diff.py: the events that explain the difference of two snapshots.
-- `ValueError` across runs is the result `none`.
pub mod Every
pub mod Stamp
pub mod Atoms
pub mod Roundtrip
pub mod Replay
pub mod First
pub mod BookName
pub mod Quiet
use taskflow_meter.Prelude.{
  ℕ, Bool, true, false, Option, none, some, List, [], ◌∷◌, ◌++◌, String, ite, ◌||◌, not, is_some,
  String-discrete, if◌then◌else◌,
}
use taskflow_meter.Prelude.Int.{ℤ, pos, ℤ_discrete}
use taskflow_meter.Prelude.Dict
use taskflow_meter.Prelude.Dict.{Dict}
use taskflow_meter.States.{State, Option-State-discrete}
use taskflow_meter.Values.{Value, Value-discrete, is_null}
use taskflow_meter.Models.{AtomSnapshot, FlowSnapshot, is_finished, atom_names}
use taskflow_meter.Events.{Event, EventKind, Allocator, allocate}

-- the atom's share of `_new_event`
abbrev pub atom_name_of : Option AtomSnapshot → Option String
atom_name_of none = none
atom_name_of (some a) = some a.name

abbrev pub atom_uuid_of : Option AtomSnapshot → Option String
atom_uuid_of none = none
atom_uuid_of (some a) = a.uuid

abbrev pub atom_type_of : Option AtomSnapshot → Option String
atom_type_of none = none
atom_type_of (some a) = some a.atom_type

abbrev pub intention_of : Option AtomSnapshot → Option String
intention_of none = none
intention_of (some a) = a.intention

-- `_new_event`: the placeholders for `seq` and `ts` are 0
unfoldable pub new_event :
    FlowSnapshot
    → EventKind
    → Option AtomSnapshot
    → Option State
    → Option State
    → Option ℤ
    → Dict Value
    → Event
new_event flow kind atom state old_state progress details = record {
  run_id = flow.run_id;
  seq = 0;
  ts = 0;
  kind = kind;
  book_id = flow.book_id;
  atom_name = atom_name_of atom;
  atom_uuid = atom_uuid_of atom;
  atom_type = atom_type_of atom;
  state = state;
  old_state = old_state;
  intention = intention_of atom;
  progress = progress;
  details = details;
}

-- the identity of the run, on its first sight only
unfoldable pub identity : Option FlowSnapshot → FlowSnapshot → Dict Value
identity (some _) new = []
identity none new =
    ("flow_name", Value.str new.name)
    ∷ elim new.book_name [ none ↦ [] | some b ↦ ("book_name", Value.str b) ∷ [] ]

abbrev pub flow_state_of : Option FlowSnapshot → Option State
flow_state_of none = none
flow_state_of (some f) = f.state

-- `old is not None and old.state == new.state`
unfoldable pub same_flow_state : Option FlowSnapshot → FlowSnapshot → Bool
same_flow_state none new = false
same_flow_state (some old) new = ite (Option-State-discrete old.state new.state) true false

unfoldable pub flow_events : Option FlowSnapshot → FlowSnapshot → List Event
flow_events old new =
    if same_flow_state old new
    then []
    else new_event new EventKind.flow_state none new.state (flow_state_of old) none
        (identity old new)
      ∷ []

-- `current.x is not None and (before is None or before.x != current.x)`
unfoldable pub newly : Option Value → Value → Bool
newly before Value.null = false
newly none v = true
newly (some w) v = ite (Value-discrete w v) false true

abbrev pub map_atom {ℓ} : {A : Type ℓ} → (AtomSnapshot → A) → Option AtomSnapshot → Option A
map_atom f none = none
map_atom f (some a) = some (f a)

-- one entry of `details`, where the code sets it
abbrev pub entry : Bool → String → Value → Dict Value
entry true k v = (k, v) ∷ []
entry false k v = []

unfoldable pub state_details : Option AtomSnapshot → AtomSnapshot → Dict Value
state_details before current =
    entry (newly (map_atom (λ a. a.failure) before) current.failure) "failure" current.failure
    ++ (entry (newly (map_atom (λ a. a.revert_failure) before) current.revert_failure)
          "revert_failure" current.revert_failure
        ++ entry current.has_result "has_result" (Value.flag true))

abbrev pub atom_state_of : Option AtomSnapshot → Option State
atom_state_of none = none
atom_state_of (some a) = a.state

unfoldable pub atom_state_event : FlowSnapshot → Option AtomSnapshot → AtomSnapshot → Event
atom_state_event flow before current =
    new_event flow EventKind.atom_state (some current) current.state (atom_state_of before)
      (some current.progress) (state_details before current)

unfoldable pub atom_progress_event : FlowSnapshot → AtomSnapshot → Event
atom_progress_event flow current =
    new_event flow EventKind.atom_progress (some current) current.state none (some current.progress)
      (entry (not (is_null current.progress_details)) "progress_details" current.progress_details)

unfoldable pub progress_changed : Option AtomSnapshot → AtomSnapshot → Bool
progress_changed none current =
    ite (ℤ_discrete current.progress (pos 0)) false true || not (is_null current.progress_details)
progress_changed (some before) current =
    ite (ℤ_discrete before.progress current.progress) false true
    || ite (Value-discrete before.progress_details current.progress_details) false true

-- `before is None or before.state != current.state`
unfoldable pub state_changed : Option AtomSnapshot → AtomSnapshot → Bool
state_changed none current = true
state_changed (some before) current =
    ite (Option-State-discrete before.state current.state) false true

-- the events of one atom: its state event precedes its progress event
unfoldable pub events_of_atom : FlowSnapshot → Option AtomSnapshot → AtomSnapshot → List Event
events_of_atom new before current =
    (if state_changed before current then atom_state_event new before current ∷ [] else [])
    ++ (if progress_changed before current then atom_progress_event new current ∷ [] else [])

abbrev pub previous_atoms : Option FlowSnapshot → Dict AtomSnapshot
previous_atoms none = []
previous_atoms (some old) = old.atoms

-- the loop over the names; a name that is no key of `new.atoms` would be a `KeyError`
unfoldable pub events_for : Dict AtomSnapshot → FlowSnapshot → List String → List Event
events_for previous new [] = []
events_for previous new (name ∷ names) =
    elim (Dict.get name new.atoms) [
      | none ↦ []
      | some current ↦ events_of_atom new (Dict.get name previous) current
    ]
    ++ events_for previous new names

unfoldable pub atom_events : Option FlowSnapshot → FlowSnapshot → List Event
atom_events old new = events_for (previous_atoms old) new (atom_names new)

-- the list comprehension that stamps the events, numbers first
unfoldable pub stamp : String → ℕ → List Event → Allocator → List Event × Allocator
stamp run_id ts [] c = ([], c)
stamp run_id ts (e ∷ es) c =
    let (n, c') = allocate run_id c in
    let (rest, c'') = stamp run_id ts es c' in (record e { seq = n; ts = ts } ∷ rest, c'')

-- a flow that has finished is reported after its atoms
unfoldable pub ordered : Option FlowSnapshot → FlowSnapshot → List Event
ordered old new =
    if is_finished new
    then atom_events old new ++ flow_events old new
    else flow_events old new ++ atom_events old new

-- `old is not None and old.run_id != new.run_id`
unfoldable pub crosses_runs : Option FlowSnapshot → FlowSnapshot → Bool
crosses_runs none new = false
crosses_runs (some old) new = ite (String-discrete old.run_id new.run_id) false true

-- `ts` where it is given, else the time of the observation
abbrev pub stamp_time : Option ℕ → FlowSnapshot → ℕ
stamp_time none new = new.observed_at
stamp_time (some ts) new = ts

unfoldable pub diff_flow :
    Option FlowSnapshot → FlowSnapshot → Option ℕ → Allocator → Option (List Event × Allocator)
diff_flow old new ts c =
    if crosses_runs old new
    then none
    else some (stamp new.run_id (stamp_time ts new) (ordered old new) c)
