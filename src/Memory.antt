-- ===== src/Memory.antt =====
-- datasource/memory.py: `MemoryDataSource`. Every method holds the lock, so each is one step on the
-- state. A run that is evicted while it is being written is no longer in the dictionary, and what is
-- written to it is lost with it.
pub mod History
pub mod Resume
pub mod Reads
pub mod Gap
pub mod Invariant
pub mod Calls
pub mod Listing
use taskflow_meter.Prelude.{
  ℕ, zero, suc, ◌+◌, ◌-◌, max, Bool, true, false, Option, none, some, List, [], ◌∷◌, ◌++◌, String,
  ltb, leb, length, drop, if◌then◌else◌, is_some,
}
use taskflow_meter.Prelude.Dict
use taskflow_meter.Prelude.Dict.{Dict}
use taskflow_meter.Prelude.Sort.{sorted}
use taskflow_meter.States.{State}
use taskflow_meter.Models.{AtomSnapshot, FlowSnapshot}
use taskflow_meter.Events.{Event}
use taskflow_meter.Fold.{fold, flow_from_event, contiguous_from}
use taskflow_meter.Fold.Contiguous.{by_seq}
use taskflow_meter.DataSource.{
  Outcome, ok, value_error, FlowPage, EventPage, matching, page_of, atoms_of_flow, expected_seq,
  event_page,
}

pub record Run : Type 0 where
  pub flow : FlowSnapshot
  pub events : List Event
  pub oldest_seq : Option ℕ
  pub highest_seq : ℕ

abbrev pub new_run : FlowSnapshot → Run
new_run flow = record { flow = flow; events = []; oldest_seq = none; highest_seq = 0 }

pub record Memory : Type 0 where
  pub max_events_per_run : ℕ
  pub max_runs : Option ℕ
  pub runs : Dict Run

abbrev pub default_max_events_per_run : ℕ
default_max_events_per_run = 1000

-- `max_runs is not None and max_runs < 1`
abbrev pub too_few_runs : Option ℕ → Bool
too_few_runs none = false
too_few_runs (some n) = ltb n 1

unfoldable pub new_memory : ℕ → Option ℕ → Outcome Memory
new_memory max_events max_runs =
    if ltb max_events 1
    then value_error
    else if too_few_runs max_runs
    then value_error
    else ok (record { max_events_per_run = max_events; max_runs = max_runs; runs = [] })

-- `deque(maxlen=limit).append(x)`
unfoldable pub push : ℕ → List Event → Event → List Event
push limit xs x = drop (suc (length xs) - limit) (xs ++ x ∷ [])

abbrev pub first_seq : List Event → Option ℕ
first_seq [] = none
first_seq (e ∷ es) = some e.seq

-- `_record`
unfoldable pub record_event : ℕ → Run → Event → Run
record_event limit run e =
    let events = push limit run.events e in
    record run {
      events = events;
      oldest_seq = first_seq events;
      highest_seq = max run.highest_seq e.seq;
    }

-- `min(runs, key=observed_at)`: the first of the runs that were observed earliest
unfoldable pub earliest : Run → List Run → Run
earliest best [] = best
earliest best (r ∷ rs) =
    earliest (if ltb r.flow.observed_at best.flow.observed_at then r else best) rs

unfoldable pub evict : List Run → Dict Run → Dict Run
evict [] runs = runs
evict (r ∷ rs) runs = Dict.remove (earliest r rs).flow.run_id runs

-- `_evict_if_needed`
unfoldable pub evict_if_needed : Option ℕ → Dict Run → Dict Run
evict_if_needed none runs = runs
evict_if_needed (some limit) runs =
    if leb (length runs) limit then runs else evict (Dict.values runs) runs

-- the run of the event and the runs with it, by what `self._runs.get(event.run_id)` gave
unfoldable pub ensure_run : Option Run → Memory → Event → Run × Dict Run
ensure_run (some run) m e = (run, m.runs)
ensure_run none m e =
    let run = new_run (flow_from_event e) in
    (run, evict_if_needed m.max_runs (Dict.set e.run_id run m.runs))

unfoldable pub written : Memory → Run → Event → Run
written m run e = record_event m.max_events_per_run (record run { flow = fold run.flow e }) e

-- the rest of `apply` writes to the run, which is seen in the dictionary if it is still there
unfoldable pub write_back : Memory → Event → Run × Dict Run → Memory
write_back m e (run, runs) = record m {
  runs =
      if is_some (Dict.get e.run_id runs) then Dict.set e.run_id (written m run e) runs else runs;
}

unfoldable pub apply : Memory → Event → Memory
apply m e = write_back m e (ensure_run (Dict.get e.run_id m.runs) m e)

-- `WritableDataSource.apply_many`
unfoldable pub apply_many : Memory → List Event → Memory
apply_many m [] = m
apply_many m (e ∷ es) = apply_many (apply m e) es

unfoldable pub forget : Memory → String → Memory × Bool
forget m run_id = (record m { runs = Dict.remove run_id m.runs }, is_some (Dict.get run_id m.runs))

-- `_detach` copies, and the model's values cannot be mutated
unfoldable pub get_flow : Memory → String → Option FlowSnapshot
get_flow m run_id = elim (Dict.get run_id m.runs) [ none ↦ none | some run ↦ some run.flow ]

unfoldable pub get_atoms : Memory → String → Option (List AtomSnapshot)
get_atoms m run_id = atoms_of_flow (get_flow m run_id)

abbrev pub flows : List Run → List FlowSnapshot
flows [] = []
flows (r ∷ rs) = r.flow ∷ flows rs

unfoldable pub list_flows :
    Memory → Option State → Option String → ℕ → Option String → Outcome FlowPage
list_flows m state book_id limit marker =
    if ltb limit 1
    then value_error
    else page_of (matching state book_id (flows (Dict.values m.runs))) limit marker

-- the page of a run whose events are `events`
unfoldable pub run_page : List Event → ℕ → ℕ → EventPage
run_page events since_seq limit =
    let stored = sorted by_seq events in
    let oldest = first_seq stored in
    event_page oldest since_seq (contiguous_from stored (expected_seq oldest since_seq) limit)

unfoldable pub events_since : Memory → String → ℕ → ℕ → Outcome EventPage
events_since m run_id since_seq limit =
    if ltb limit 1 then value_error else elim (Dict.get run_id m.runs) [
      | none ↦
          ok (record { events = []; next_seq = since_seq; oldest_seq = none; truncated = false })
      | some run ↦ ok (run_page run.events since_seq limit)
    ]
