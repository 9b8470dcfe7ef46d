-- ===== src/Models.antt =====
-- models.py: what is known of an atom and of a flow run at one moment.
-- A float is a whole number of ticks: `one` ticks make 1.0. Times are ticks since the epoch.
pub mod Rollup
use taskflow_meter.Prelude.{
  ℕ, suc, ◌+◌, ◌/◌, Bool, false, Option, none, some, List, [], ◌∷◌, String, ite, le_str,
  if◌then◌else◌, length,
}
use taskflow_meter.Prelude.Int.{ℤ, pos, min_ℤ, max_ℤ, pos_part}
use taskflow_meter.Prelude.Dict
use taskflow_meter.Prelude.Dict.{Dict}
use taskflow_meter.Prelude.Sort.{sorted}
use taskflow_meter.States.{
  State, State-discrete, is_in, flow_finish_states, atom_finish_states, atom_running_states,
  atom_complete_states,
}
use taskflow_meter.Values.{Value}

abbrev pub one : ℕ
one = 1000000

abbrev pub task : String
task = "task"

abbrev pub retry : String
retry = "retry"

pub record AtomSnapshot : Type 0 where
  pub name : String
  pub uuid : Option String
  pub atom_type : String
  pub state : Option State
  pub intention : Option String
  pub progress : ℤ
  pub progress_details : Value
  pub failure : Value
  pub revert_failure : Value
  pub has_result : Bool
  pub meta : Dict Value

-- `AtomSnapshot(name=name)`: the defaults of the dataclass
abbrev pub new_atom : String → AtomSnapshot
new_atom name = record {
  name = name;
  uuid = none;
  atom_type = task;
  state = none;
  intention = none;
  progress = pos 0;
  progress_details = Value.null;
  failure = Value.null;
  revert_failure = Value.null;
  has_result = false;
  meta = [];
}

unfoldable pub atom_is_finished : AtomSnapshot → Bool
atom_is_finished a = is_in a.state atom_finish_states

unfoldable pub atom_is_running : AtomSnapshot → Bool
atom_is_running a = is_in a.state atom_running_states

-- `_clamp` at its defaults, 0.0 and 1.0
unfoldable pub clamp : ℤ → ℤ
clamp v = max_ℤ (pos 0) (min_ℤ (pos one) v)

unfoldable pub atom_completion : AtomSnapshot → ℤ
atom_completion a =
    if is_in a.state atom_complete_states
    then pos one
    else if atom_is_running a
    then clamp a.progress
    else pos 0

pub record FlowSnapshot : Type 0 where
  pub run_id : String
  pub name : String
  pub state : Option State
  pub book_id : Option String
  pub book_name : Option String
  pub observed_at : ℕ
  pub meta : Dict Value
  pub atoms : Dict AtomSnapshot

unfoldable pub is_finished : FlowSnapshot → Bool
is_finished f = is_in f.state flow_finish_states

unfoldable pub atom_names : FlowSnapshot → List String
atom_names f = sorted le_str (Dict.keys f.atoms)

abbrev pub atom : FlowSnapshot → String → Option AtomSnapshot
atom f name = Dict.get name f.atoms

-- `self.atoms[name]` for the names in turn: a name that is no key would be a `KeyError`, and
-- `atom_names` gives keys only
unfoldable pub atoms_at : Dict AtomSnapshot → List String → List AtomSnapshot
atoms_at d [] = []
atoms_at d (n ∷ ns) = elim (Dict.get n d) [ none ↦ atoms_at d ns | some a ↦ a ∷ atoms_at d ns ]

unfoldable pub only_running : List AtomSnapshot → List AtomSnapshot
only_running [] = []
only_running (a ∷ rest) =
    let others = only_running rest in if atom_is_running a then a ∷ others else others

unfoldable pub running_atoms : FlowSnapshot → List AtomSnapshot
running_atoms f = only_running (atoms_at f.atoms (atom_names f))

-- the key under which an atom is counted
abbrev pub count_key : AtomSnapshot → State
count_key a = elim a.state [ none ↦ State.other "UNKNOWN" | some s ↦ s ]

-- `counts[key] = counts.get(key, 0) + 1`
unfoldable pub bump : State → List (State × ℕ) → List (State × ℕ)
bump k [] = (k, 1) ∷ []
bump k ((j, n) ∷ d) = ite (State-discrete k j) ((j, n + 1) ∷ d) ((j, n) ∷ bump k d)

unfoldable pub count_states : List (State × ℕ) → List AtomSnapshot → List (State × ℕ)
count_states counts [] = counts
count_states counts (a ∷ rest) = count_states (bump (count_key a) counts) rest

unfoldable pub state_counts : FlowSnapshot → List (State × ℕ)
state_counts f = count_states [] (Dict.values f.atoms)

-- `sum(...)`; a completion is never negative
unfoldable pub total_completion : List AtomSnapshot → ℕ
total_completion [] = 0
total_completion (a ∷ rest) = pos_part (atom_completion a) + total_completion rest

-- the mean, rounded down to a tick
unfoldable pub completion_of : Dict AtomSnapshot → ℕ
completion_of [] = 0
completion_of ((k, a) ∷ d) = total_completion (a ∷ Dict.values d) / suc (length d)

unfoldable pub completion : FlowSnapshot → ℕ
completion f = completion_of f.atoms
