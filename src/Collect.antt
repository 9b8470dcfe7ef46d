-- ===== src/Collect.antt =====
-- collect/listener.py, collect/progress.py and `_emit_structure` of collect/attachment.py: what the notifiers of an engine report, the events that
-- are built from it, and the steps by which the engine's threads hand them on.
pub mod Sorted
pub mod Arrivals
pub mod Watching
pub mod Overtaken
pub mod Tap
pub mod Attachment
pub mod Graph
pub mod TornDown
use taskflow_meter.Prelude.{
  ℕ, zero, suc, Bool, true, false, not, Option, none, some, List, [], ◌∷◌, ◌++◌, String, ite,
  if◌then◌else◌, join,
}
use taskflow_meter.Prelude.Int.{ℤ}
use taskflow_meter.Prelude.Dict
use taskflow_meter.Prelude.Dict.{Dict}
use taskflow_meter.States.{State, State-discrete}
use taskflow_meter.Values.{Value, is_null, look}
use taskflow_meter.Models.{task, retry}
use taskflow_meter.Events.{Event, EventKind, Allocator, allocate}

-- What stands in the details of a notification: a state, a text, or the result of an atom, which is
-- an object of the application or a `Failure`, kept as what `failure_dict` makes of it.
pub data Detail : Type 0 where
  reached : State → Detail
  text : String → Detail
  object : Value → Detail
  failed : Value → Detail

-- A call of a receiver with its details. A task's progress comes with the task's name and what it
-- reports, where `dict(details or {})` accepts that. The structure is what `describe_graph` gives,
-- where it does not raise.
pub data Notice : Type 0 where
  flow_changed : State → Dict Detail → Notice
  task_changed : State → Dict Detail → Notice
  retry_changed : State → Dict Detail → Notice
  progressed : String → Option (Dict Value) → Notice
  structure : Option (Dict Value) → Notice

-- What the two producers are made with and what they ask the engine: its `flow_uuid`, the book that
-- the caller names, `_atom_uuid`, and, of Python, `float(value)`, where it does not raise, and a dict
-- as a value.
pub record Watched : Type 0 where
  pub run_id : String
  pub book_id : Option String
  pub atom_uuid : String → Option String
  pub to_float : Value → Option ℤ
  pub as_value : Dict Value → Value

-- `details.get(key)`, as a state and as a text
unfoldable pub state_at : String → Dict Detail → Option State
state_at key d = elim (Dict.get key d) [ some (Detail.reached s) ↦ some s | _ ↦ none ]

unfoldable pub text_at : String → Dict Detail → Option String
text_at key d = elim (Dict.get key d) [ some (Detail.text s) ↦ some s | _ ↦ none ]

-- `{"flow_name": details.get("flow_name")}`
unfoldable pub flow_extra : Dict Detail → Dict Value
flow_extra d =
    ("flow_name", elim (text_at "flow_name" d) [ none ↦ Value.null | some s ↦ Value.str s ]) ∷ []

-- `{key: value for key, value in extra.items() if value is not None}`
unfoldable pub without_none : Dict Value → Dict Value
without_none [] = []
without_none ((key, v) ∷ extra) =
    let rest = without_none extra in if is_null v then rest else (key, v) ∷ rest

unfoldable pub failure_key : State → String
failure_key state = ite (State-discrete state State.revert_failure) "revert_failure" "failure"

-- the `extra` of `_atom_event`, by the result, where there is one
unfoldable pub result_extra : State → Option Detail → Dict Value
result_extra state none = []
result_extra state (some (Detail.object v)) = ("has_result", Value.flag (not (is_null v))) ∷ []
result_extra state (some (Detail.failed v)) =
    ("has_result", Value.flag true) ∷ (failure_key state, v) ∷ []
result_extra state (some _) = ("has_result", Value.flag true) ∷ []

module _ (w : Watched) where
  -- `MeterListener._build`
  unfoldable pub listener_event :
      EventKind
      → State
      → Option State
      → Option String
      → Option String
      → Option String
      → Dict Value
      → ℕ
      → Allocator
      → Event × Allocator
  listener_event kind state old_state atom_name atom_uuid atom_type extra ts c =
      let (seq, c') = allocate w.run_id c in
      (
        record {
          run_id = w.run_id;
          seq = seq;
          ts = ts;
          kind = kind;
          book_id = w.book_id;
          atom_name = atom_name;
          atom_uuid = atom_uuid;
          atom_type = atom_type;
          state = some state;
          old_state = old_state;
          intention = none;
          progress = none;
          details = without_none extra;
        },
        c',
      )

  -- `_atom_event`
  unfoldable pub atom_event :
      State → Dict Detail → String → String → ℕ → Allocator → Event × Allocator
  atom_event state d atom_type prefix ts c =
      listener_event EventKind.atom_state state (state_at "old_state" d)
        (text_at (join prefix "_name") d) (text_at (join prefix "_uuid") d) (some atom_type)
        (result_extra state (Dict.get "result" d)) ts c

  -- `float(progress) if progress is not None else None`, where it does not raise
  unfoldable pub read_progress : Value → Option (Option ℤ)
  read_progress Value.null = some none
  read_progress v = elim (w.to_float v) [ none ↦ none | some p ↦ some (some p) ]

  -- `{"progress_details": payload} if payload else {}`
  unfoldable pub rest_of : Dict Value → Dict Value
  rest_of [] = []
  rest_of (x ∷ xs) = ("progress_details", w.as_value (x ∷ xs)) ∷ []

  -- the event of `ProgressTap._build`, once its number has been taken
  unfoldable pub progress_event : String → Dict Value → ℕ → ℕ → Option (Option ℤ) → Option Event
  progress_event name payload seq ts none = none
  progress_event name payload seq ts (some progress) = some (record {
    run_id = w.run_id;
    seq = seq;
    ts = ts;
    kind = EventKind.atom_progress;
    book_id = w.book_id;
    atom_name = some name;
    atom_uuid = w.atom_uuid name;
    atom_type = some task;
    state = none;
    old_state = none;
    intention = none;
    progress = progress;
    details = rest_of (Dict.remove "progress" payload);
  })

  -- `ProgressTap._build`; no event where it raises
  unfoldable pub tap_event : String → Option (Dict Value) → ℕ → Allocator → Option Event × Allocator
  tap_event name none ts c = (none, c)
  tap_event name (some payload) ts c =
      let (seq, c') = allocate w.run_id c in
      (progress_event name payload seq ts (read_progress (look "progress" payload)), c')

  -- the event of `_emit_structure`
  unfoldable pub structure_event : Dict Value → ℕ → Allocator → Event × Allocator
  structure_event graph ts c =
      let (seq, c') = allocate w.run_id c in
      (
        record {
          run_id = w.run_id;
          seq = seq;
          ts = ts;
          kind = EventKind.flow_structure;
          book_id = w.book_id;
          atom_name = none;
          atom_uuid = none;
          atom_type = none;
          state = none;
          old_state = none;
          intention = none;
          progress = none;
          details = graph;
        },
        c',
      )

  -- a receiver up to the call of `emit`, and how the allocator stands then
  unfoldable pub built : Notice → ℕ → Allocator → Option Event × Allocator
  built (Notice.flow_changed state d) ts c =
      let (e, c') =
        listener_event EventKind.flow_state state (state_at "old_state" d) none none none
          (flow_extra d) ts c in
      (some e, c')
  built (Notice.task_changed state d) ts c =
      let (e, c') = atom_event state d task "task" ts c in (some e, c')
  built (Notice.retry_changed state d) ts c =
      let (e, c') = atom_event state d retry "retry" ts c in (some e, c')
  built (Notice.progressed name payload) ts c = tap_event name payload ts c
  built (Notice.structure none) ts c = (none, c)
  built (Notice.structure (some graph)) ts c =
      let (e, c') = structure_event graph ts c in (some e, c')

-- The producers of one engine: the allocator that they share, the events that are built and stand
-- before their threads' calls of `emit`, and what `emit` leads to.
pub record Producers (S : Type 0) : Type 0 where
  pub allocator : Allocator
  pub in_flight : List Event
  pub sink : S

-- A thread builds an event at a time of the clock, or the thread with the nth event in flight emits.
pub data Step : Type 0 where
  notify : Notice → ℕ → Step
  hand_over : ℕ → Step

-- the nth of a list, and the others
unfoldable pub pick : ℕ → List Event → Option (Event × List Event)
pick n [] = none
pick zero (x ∷ xs) = some (x, xs)
pick (suc n) (x ∷ xs) = elim (pick n xs) [ none ↦ none | some (y, rest) ↦ some (y, x ∷ rest) ]

abbrev pub add_built : List Event → Option Event → List Event
add_built xs none = xs
add_built xs (some e) = xs ++ e ∷ []

module _ (w : Watched) {S : Type 0} (emit : Event → S → S × Option String) where
  -- the call of `emit` in `_safely` and in `on_progress`: what it raises is passed over
  unfoldable pub handed : Option (Event × List Event) → Producers S → Producers S
  handed none p = p
  handed (some (e, rest)) p = record p { in_flight = rest; sink = (emit e p.sink).0 }

  unfoldable pub step : Step → Producers S → Producers S
  step (Step.notify notice ts) p =
      let (made, c) = built w notice ts p.allocator in
      record p { allocator = c; in_flight = add_built p.in_flight made }
  step (Step.hand_over n) p = handed (pick n p.in_flight) p

  unfoldable pub steps : List Step → Producers S → Producers S
  steps [] p = p
  steps (x ∷ xs) p = steps xs (step x p)
