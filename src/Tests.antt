-- ===== src/Tests.antt =====
-- Concrete snapshots, events and stores, shared by the tests in the files below.
pub mod Tracking
pub mod Storing
pub mod Polling
pub mod Serving
pub mod Lifetimes
pub mod Answers
pub mod Tables
pub mod Routing
pub mod Collecting
use taskflow_meter.Prelude.{ℕ, String, Option, none, some, List, [], ◌∷◌, false}
use taskflow_meter.Prelude.Int.{pos}
use taskflow_meter.States.{State}
use taskflow_meter.Values.{Value}
use taskflow_meter.Models.{AtomSnapshot, FlowSnapshot, new_atom, one}
use taskflow_meter.Events.{Event, EventKind}

-- an atom, and a run of it, as a collector sees them three times
abbrev pub fetching : AtomSnapshot
fetching = record (new_atom "fetch") { state = some State.running; progress = pos 250000 }

abbrev pub fetched : AtomSnapshot
fetched = record fetching { state = some State.success; progress = pos one }

abbrev pub under_way : FlowSnapshot
under_way = record {
  run_id = "r1";
  name = "build";
  state = some State.running;
  book_id = some "b1";
  book_name = some "nightly";
  observed_at = 10;
  meta = [];
  atoms = ("fetch", fetching) ∷ [];
}

abbrev pub done : FlowSnapshot
done = record under_way {
  state = some State.success;
  observed_at = 20;
  atoms = ("fetch", fetched) ∷ [];
}

-- an event of the run with this number
abbrev pub numbered : ℕ → Event
numbered n = record {
  run_id = "r1";
  seq = n;
  ts = 10;
  kind = EventKind.flow_state;
  book_id = some "b1";
  atom_name = none;
  atom_uuid = none;
  atom_type = none;
  state = some State.running;
  old_state = none;
  intention = none;
  progress = none;
  details = [];
}

abbrev pub three : List Event
three = numbered 1 ∷ numbered 2 ∷ numbered 3 ∷ []
