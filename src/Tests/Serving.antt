-- ===== src/Tests/Serving.antt =====
-- Witnesses for the theorems on what is served: pages over a hole, streams, and the persistence source.
use taskflow_meter.Prelude.{
  String, none, some, List, [], ◌∷◌, ◌++◌, ◌≡◌, refl, arith, subst, true, false, length,
}
use mathlib.Core.Option.{some-injective}
use taskflow_meter.Prelude.Int.{pos}
use taskflow_meter.Prelude.Dict
use taskflow_meter.Prelude.Dict.{Distinct}
use taskflow_meter.States.{State}
use taskflow_meter.Values.{Value}
use taskflow_meter.Events.{Event}
use taskflow_meter.DataSource.{atoms_of_flow}
use taskflow_meter.Memory.{Run, Memory, run_page}
use taskflow_meter.Memory.History.{history}
use taskflow_meter.Memory.Gap.{run_page-hole}
use taskflow_meter.Stream.{EventCursor, drive}
use taskflow_meter.Stream.Resumes.{Feeds, readers, Sends}
use taskflow_meter.Stream.Once.{drive-Sends}
use taskflow_meter.Persistence.{
  AtomDetail, FlowDetail, Connection, Conversions, atom_snapshot, snapshots, get_atoms, get_flow,
}
use taskflow_meter.Persistence.Reads.{names, get_atoms-agrees}
use taskflow_meter.Tests.{under_way, numbered, three}

-- numbers 1 and 2, and then 6
run_page-hole_example :
    let page = run_page ((numbered 1 ∷ []) ++ numbered 2 ∷ numbered 6 ∷ []) 2 10 in
    (page.events ≡ []) × (page.truncated ≡ false) × (page.next_seq ≡ 2)
run_page-hole_example =
    run_page-hole (numbered 1 ∷ []) (numbered 6 ∷ []) (numbered 2) 2 10 (omega arith)
      ((λ q. omega (arith, q)), ((λ q. omega (arith, q)), ((λ q. omega (arith, q)), tt)))

-- the store after two events and after three
abbrev run_with : List Event → Run
run_with es = record { flow = under_way; events = es; oldest_seq = some 1; highest_seq = length es }

abbrev store_with : List Event → Memory
store_with es = record {
  max_events_per_run = 1000;
  max_runs = none;
  runs = ("r1", run_with es) ∷ [];
}

abbrev client : EventCursor
client = record { run_id = "r1"; since_seq = 1; batch_limit = 200; complete = false }

abbrev stores : List Memory
stores = store_with (numbered 1 ∷ numbered 2 ∷ []) ∷ store_with three ∷ []

stores-Feeds : Feeds "r1" 1000 three 1 stores
unfolding history Dict.get
stores-Feeds = (
  2,
  run_with (numbered 1 ∷ numbered 2 ∷ []),
  omega arith,
  omega arith,
  refl,
  refl,
  (3, run_with three, omega arith, omega arith, refl, refl, tt),
)

drive-Sends_example : Sends three client (drive (readers stores) 1 15 0 client)
drive-Sends_example =
    drive-Sends three 1000 1 15 (refl, (refl, (refl, tt))) stores 1 client 0 stores-Feeds
      (omega arith) (omega arith) (omega arith) (omega arith)

-- taskflow with one book, one flow and two atoms
abbrev atom_detail : String → AtomDetail
atom_detail name = record {
  name = name;
  uuid = some "u1";
  is_task = true;
  state = some State.running;
  intention = some "EXECUTE";
  failure = Value.null;
  revert_failure = Value.null;
  has_results = false;
  meta = [];
}

abbrev detail : FlowDetail
detail = record {
  uuid = "r1";
  name = "build";
  state = some State.running;
  meta = [];
  atoms = atom_detail "fetch" ∷ atom_detail "build" ∷ [];
}

abbrev taskflow : Connection
taskflow = record {
  get_logbooks = record { uuid = "b1"; name = "nightly"; created = some 5 } ∷ [];
  get_flows_for_book = λ book. detail ∷ [];
  get_flow_details = λ run_id. some detail;
  get_atoms_for_flow = λ run_id. detail.atoms;
}

abbrev plain : Conversions
plain = record {
  to_float = λ v. pos 0;
  failure_dict = λ v. v;
  time_value = λ t. Value.other "time";
}

detail_found :
    (d : FlowDetail)
    → some detail ≡ some d
    → (detail.atoms ≡ d.atoms) × Distinct (names (snapshots plain d.atoms))
unfolding atom_snapshot
detail_found d h =
    let same = some-injective _ _ h in
    subst
      (λ (d : FlowDetail). (detail.atoms ≡ d.atoms) × Distinct (names (snapshots plain d.atoms)))
      same (refl, (refl, (refl, tt)))

get_atoms-agrees_example :
    get_atoms plain taskflow "r1" ≡ atoms_of_flow (get_flow plain taskflow 10 "r1")
get_atoms-agrees_example = get_atoms-agrees plain taskflow 10 "r1" detail_found
