-- ===== src/Tests/Collecting.antt =====
-- Concrete runs of the collectors.
use mathlib.Core.List.{Permᴰ}
use mathlib.Core.List.Permᴰ
use taskflow_meter.Prelude.{
  ◌<◌, ◌≢◌, All, true, false, Option, none, some, List, [], ◌∷◌, String, ◌≡◌, refl, arith, ◌==◌,
  if◌then◌else◌, take, drop, length, str_eq,
}
use taskflow_meter.Prelude.Int.{pos}
use taskflow_meter.Prelude.Dict
use taskflow_meter.States.{State}
use taskflow_meter.Values.{Value, look}
use taskflow_meter.Events.{Event, peek, allocate}
use taskflow_meter.Events.Sequence.{Consecutive}
use taskflow_meter.DataSource.{ok, EventPage}
use taskflow_meter.Memory.{Memory, run_page, events_since}
use taskflow_meter.Memory.History.{history}
use taskflow_meter.Collect.{
  Notice, Detail, Watched, Producers, Step, steps, read_progress, step, handed, pick, built,
  listener_event, atom_event, tap_event, progress_event, state_at, text_at, result_extra, rest_of,
}
use taskflow_meter.Collect.Arrivals.{Arrives}
use taskflow_meter.Collect.Watching.{new_producers, to_store, watched-Arrives, watched-read}
use taskflow_meter.Collect.Overtaken.{run_page-overtaken}
use taskflow_meter.Collect.Tap.{
  Atom, Callback, Notifiers, Laws, new_tap, register, deregister_all, register_all, after_register,
  deregister,
}
use taskflow_meter.Collect.Attachment.{attach, with_listener, with_tap, leave_tap}
use taskflow_meter.Collect.TornDown.{attach-torn_down}
use taskflow_meter.Collect.Graph.{GraphNode, describe_graph, describe_graph-Perm}
use taskflow_meter.Tests.{numbered}

abbrev watched : Watched
watched = record {
  run_id = "r1";
  book_id = some "b1";
  atom_uuid = λ name. none;
  to_float = λ v. some (pos 500000);
  as_value = λ payload. Value.other "{}";
}

abbrev empty_store : Memory
empty_store = record { max_events_per_run = 10; max_runs = none; runs = [] }

-- two threads: the one that builds its event second is the first to emit
abbrev inverted : List Step
inverted =
    Step.notify (Notice.task_changed State.running (("task_name", Detail.text "fetch") ∷ [])) 10
    ∷ Step.notify
        (Notice.progressed "load"
          (some (("progress", Value.other "0.5") ∷ ("step", Value.str "a") ∷ [])))
        11
    ∷ Step.hand_over 1
    ∷ Step.hand_over 0
    ∷ []

abbrev inverted_end : Producers Memory
inverted_end = steps watched to_store inverted (new_producers empty_store)

some_ne_none : {A : Type 0} (a : A) → some a ≢ none
some_ne_none a h = ground arith

watched-Arrives_example :
    Arrives watched to_store empty_store
      (steps watched to_store inverted (new_producers empty_store))
unfolding read_progress Dict.get look
watched-Arrives_example =
    watched-Arrives watched to_store empty_store inverted (tt, (some_ne_none _, (tt, (tt, tt))))

run_page-overtaken_example :
    let page = run_page (numbered 2 ∷ []) 0 10 in
    (page.truncated ≡ true)
    × (1 < page.next_seq)
    × All (λ e. 1 < e.seq) (run_page (numbered 2 ∷ numbered 1 ∷ []) page.next_seq 10).events
run_page-overtaken_example =
    run_page-overtaken (numbered 2 ∷ []) (numbered 2 ∷ numbered 1 ∷ []) 0 10 (omega arith)
      (λ q. ground arith) (omega arith, tt)

inverted_landed : inverted_end.in_flight ≡ []
unfolding steps step handed pick built listener_event atom_event tap_event progress_event
    read_progress look allocate peek Dict.get Dict.set Dict.remove state_at text_at result_extra
    rest_of
inverted_landed = refl

inverted_numbers : peek "r1" inverted_end.allocator ≡ 2
unfolding steps step handed pick built listener_event atom_event tap_event progress_event
    read_progress look allocate peek Dict.get Dict.set Dict.remove state_at text_at result_extra
    rest_of
inverted_numbers = refl

watched-read_example :
    (whole : List Event) × Consecutive 1 whole
    × (length whole ≡ peek "r1" inverted_end.allocator)
    × Permᴰ (history "r1" inverted_end.sink) whole
    × (page : EventPage) × (events_since inverted_end.sink "r1" 0 10 ≡ ok page)
    × (page.events ≡ take 10 (drop 0 whole))
    × (page.truncated ≡ false)
unfolding read_progress look Dict.get history
watched-read_example =
    watched-read watched empty_store inverted 0 10 (tt, (some_ne_none _, (tt, (tt, tt)))) refl refl
      inverted_landed (omega (arith, inverted_numbers)) (omega arith)

-- notifiers as one list of what is bound; one task refuses with an exception
abbrev notifiers : Notifiers
notifiers = record {
  Registry = List Callback;
  accepts = λ a. true;
  register = λ a k s. if str_eq a.name "refuses" then (s, some "closed") else (k ∷ s, none);
  deregister = λ a k s. elim s [
    | [] ↦ ([], none)
    | ◌∷◌ j rest ↦ if j == k then (rest, none) else (◌∷◌ j rest, none)
  ];
}

notifiers-Laws : Laws notifiers
notifiers-Laws = record {
  refused = λ a k s error h. ground arith;
  undone = λ a k s h. ground arith;
}

abbrev atoms : List Atom
atoms =
    record { name = "fetch"; is_task = true }
    ∷ record { name = "again"; is_task = false }
    ∷ record { name = "refuses"; is_task = true }
    ∷ []

abbrev no_error : Option String
no_error = none

attach-torn_down_example :
    let r = register notifiers atoms new_tap [] in
    let (w, raised) = attach notifiers atoms no_error (some "boom") [] in
    (w.pipeline_on ≡ false)
    × (w.listener_on ≡ false)
    × (deregister_all notifiers w.tap.bound w.notifiers ≡ [])
    × ((error : String)
        → no_error ≡ some error
        → (raised ≡ some error) × (w.notifiers ≡ []) × (w.tap.bound ≡ []))
    × (no_error ≡ none
        → r.2 ≡ none
        → (raised ≡ some "boom") × (w.notifiers ≡ []) × (w.tap.bound ≡ []))
    × ((error : String)
        → no_error ≡ none
        → r.2 ≡ some error
        → (raised ≡ some error) × (w.notifiers ≡ r.1) × (w.tap.bound ≡ r.0.bound))
attach-torn_down_example = attach-torn_down notifiers notifiers-Laws atoms no_error (some "boom") []

-- what is left bound where the third task refuses
left_bound : (attach notifiers atoms none none []).0.notifiers ≡ 0 ∷ []
unfolding attach with_listener with_tap leave_tap register register_all after_register deregister
    deregister_all
left_bound = refl

abbrev fetch_node : GraphNode
fetch_node = record { name = some "fetch"; text = "fetch==1.0"; kind = some "task" }

abbrev flow_node : GraphNode
flow_node = record { name = none; text = "build"; kind = some "flow" }

describe_graph-Perm_example :
    describe_graph ("task" ∷ []) (fetch_node ∷ flow_node ∷ []) ((flow_node, fetch_node) ∷ [])
    ≡ describe_graph ("task" ∷ []) (flow_node ∷ fetch_node ∷ []) ((flow_node, fetch_node) ∷ [])
describe_graph-Perm_example =
    describe_graph-Perm ("task" ∷ []) (Permᴰ.swap refl refl)
      (Permᴰ.refl ((flow_node, fetch_node) ∷ []))
