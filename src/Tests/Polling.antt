-- ===== src/Tests/Polling.antt =====
-- Witnesses for the theorems on the poller and on the walk over the pages.
use taskflow_meter.Prelude.{
  ◌+◌, String, none, some, List, [], ◌∷◌, ◌≡◌, refl, arith, All, length, is_some, true,
}
use taskflow_meter.Prelude.Dict
use taskflow_meter.Prelude.Dict.{Dict, mem}
use taskflow_meter.Prelude.Sort.{sorted}
use taskflow_meter.Models.{FlowSnapshot, is_finished, atom_names}
use taskflow_meter.Events.{Event, peek, allocate}
use taskflow_meter.Prelude.Int.{ℤ_discrete}
use taskflow_meter.States.{State-discrete, is_in}
use taskflow_meter.Diff.{
  diff_flow, crosses_runs, stamp, ordered, flow_events, same_flow_state, atom_events, events_for,
  events_of_atom, state_changed, progress_changed, atom_state_event, atom_progress_event,
}
use taskflow_meter.Diff.First.{flow_event}
use taskflow_meter.Diff.Replay.{Follows}
use taskflow_meter.DataSource.{Outcome, ok, value_error}
use taskflow_meter.Memory.{Memory, get_flow}
use taskflow_meter.Memory.History.{history}
use taskflow_meter.Poller.{Poller, Sink, new_stats, poll, rounds}
use taskflow_meter.Poller.Passes.{memory_sink}
use taskflow_meter.Poller.Stream.{Streams, rounds-Streams}
use taskflow_meter.Poller.Sync.{Reflects, Fair}
use taskflow_meter.Poller.InStep.{InStep, poll-InStep}
use taskflow_meter.Poller.Failure.{poll-spends}
use taskflow_meter.Tests.{under_way, done, fetching}
use taskflow_meter.Tests.Tracking.{one-IsKeyed}

-- the events of the first sight
abbrev first_head : Event
first_head = record (flow_event under_way) { seq = 1; ts = 10 }

abbrev first_rest : List Event
first_rest =
    record (atom_state_event under_way none fetching) { seq = 2; ts = 10 }
    ∷ record (atom_progress_event under_way fetching) { seq = 3; ts = 10 }
    ∷ []

first_shape :
    diff_flow (Dict.get "r1" []) under_way (some 10) []
    ≡ some (first_head ∷ first_rest, ("r1", 3) ∷ [])
unfolding diff_flow crosses_runs stamp ordered is_finished is_in State-discrete flow_events
    same_flow_state atom_events events_for events_of_atom state_changed progress_changed ℤ_discrete
    atom_names sorted allocate peek Dict.get Dict.set
first_shape = refl

abbrev empty_store : Memory
empty_store = record { max_events_per_run = 1000; max_runs = none; runs = [] }

abbrev fresh : Poller Memory
fresh = record { previous = []; allocator = []; sink = empty_store; stats = new_stats }

fresh-Streams : Streams "r1" 1000 fresh.allocator fresh.sink
unfolding history Dict.get peek
fresh-Streams = record {
  stream = [];
  kept_last = refl;
  chain = tt;
  reached = refl;
  unlimited = refl;
  room = refl;
}

abbrev say : Outcome (List FlowSnapshot) → String
say o = "error"

-- a run under way, a failure to read, and the run done
abbrev three_rounds : List (Outcome (List FlowSnapshot))
three_rounds = ok (under_way ∷ []) ∷ value_error ∷ ok (done ∷ []) ∷ []

rounds-Streams_example :
    let q = rounds memory_sink say three_rounds fresh in Streams "r1" 1000 q.allocator q.sink
rounds-Streams_example = rounds-Streams "r1" 1000 say three_rounds fresh fresh-Streams

fresh-InStep : InStep fresh
unfolding get_flow Dict.get
fresh-InStep = record {
  unlimited = refl;
  reflects = λ r. Reflects.unknown;
  by_run = λ r s h. absurd (ground (arith, h));
}

under_way-Fair : Fair [] under_way
unfolding Dict.get
under_way-Fair = record { keyed = one-IsKeyed under_way fetching refl; stays = λ n h. refl }

nothing_before :
    (r : String) → is_some (Dict.get r fresh.previous) ≡ true → mem r ("r1" ∷ []) ≡ true
unfolding Dict.get
nothing_before r h = absurd (ground (arith, h))

poll-InStep_example :
    let q = poll memory_sink (under_way ∷ []) fresh in
    (q.1 ≡ none)
    × InStep q.0
    × All
        (λ s. (f : FlowSnapshot) × (get_flow q.0.sink s.run_id ≡ some f) × Follows f (some s))
        (under_way ∷ [])
poll-InStep_example =
    poll-InStep (under_way ∷ []) fresh fresh-InStep (refl, tt) (under_way-Fair, tt) nothing_before

-- a sink that stores nothing
abbrev broken : Sink Memory
broken m es = (m, some "ConnectionError")

poll-spends_example :
    let q = poll broken (under_way ∷ []) fresh in
    (q.1 ≡ some "ConnectionError")
    × (q.0.previous ≡ [])
    × (q.0.sink ≡ empty_store)
    × (peek "r1" q.0.allocator ≡ peek "r1" [] + length (first_head ∷ first_rest))
poll-spends_example =
    poll-spends broken fresh under_way [] first_head first_rest (("r1", 3) ∷ []) "ConnectionError"
      first_shape refl

failed : (poll broken (under_way ∷ []) fresh).1 ≡ some "ConnectionError"
failed =
    (poll-spends broken fresh under_way [] first_head first_rest (("r1", 3) ∷ []) "ConnectionError"
      first_shape refl).0

abbrev two_flows : List FlowSnapshot
two_flows = under_way ∷ record done { run_id = "r2" } ∷ []
