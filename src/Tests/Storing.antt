-- ===== src/Tests/Storing.antt =====
-- Witnesses for the theorems on the stores.
use taskflow_meter.Prelude.{
  suc, List, ◌-◌, ◌≤◌, ◌<◌, none, some, [], ◌∷◌, ◌++◌, ◌≡◌, refl, arith, true, false, take, drop,
  kept, length,
}
use taskflow_meter.Prelude.Dict
use taskflow_meter.Prelude.Sort.{sorted}
use taskflow_meter.Fold.Contiguous.{by_seq}
use taskflow_meter.DataSource.{EventPage, ok}
use taskflow_meter.Memory.{Run, Memory, apply_many, get_flow, events_since, run_page}
use taskflow_meter.Memory.History.{history, absorb, history-apply_many, get_flow-apply_many}
use taskflow_meter.Memory.Resume.{Serves, run_page-Serves, events_since_stream}
use taskflow_meter.DataSource.{matching, newest_first}
use taskflow_meter.Memory.{new_memory, list_flows, flows}
use taskflow_meter.Memory.Invariant.{WellFormed}
use taskflow_meter.Memory.Calls.{Call, after_calls, after_calls-WellFormed}
use taskflow_meter.Memory.Listing.{read_all-list_flows}
use taskflow_meter.Poller.{read_all}
use taskflow_meter.Tests.{under_way, numbered, three}

-- a store that keeps two events of a run, after three
abbrev run : Run
run = record {
  flow = under_way;
  events = numbered 2 ∷ numbered 3 ∷ [];
  oldest_seq = some 2;
  highest_seq = 3;
}

abbrev pub store : Memory
store = record { max_events_per_run = 2; max_runs = none; runs = ("r1", run) ∷ [] }

stored : Dict.get "r1" store.runs ≡ some run
unfolding Dict.get
stored = refl

store-history : history "r1" store ≡ kept 2 three
unfolding history Dict.get
store-history = refl

history-apply_many_example :
    history "r1" (apply_many store (numbered 4 ∷ [])) ≡ kept 2 (three ++ numbered 4 ∷ [])
history-apply_many_example =
    history-apply_many "r1" 2 store (numbered 4 ∷ []) three refl refl (refl, tt) store-history

get_flow-apply_many_example :
    get_flow (apply_many store (numbered 4 ∷ [])) "r1"
    ≡ absorb (get_flow store "r1") (numbered 4 ∷ [])
get_flow-apply_many_example = get_flow-apply_many "r1" store (numbered 4) [] refl (refl, tt)

run_page-Serves_example :
    Serves
      (sorted by_seq (numbered 5 ∷ numbered 2 ∷ []))
      1
      10
      (run_page (numbered 5 ∷ numbered 2 ∷ []) 1 10)
run_page-Serves_example = run_page-Serves (numbered 5 ∷ numbered 2 ∷ []) 1 10 (omega arith)

events_since_stream_example :
    (page : EventPage) × (events_since store "r1" 2 10 ≡ ok page)
    × (length three - 2 ≤ 2 → (page.events ≡ take 10 (drop 2 three)) × (page.truncated ≡ false))
    × (2 < length three - 2
        → 1 ≤ 2
        → (page.events ≡ take 10 (kept 2 three)) × (page.truncated ≡ true))
events_since_stream_example =
    events_since_stream store "r1" three 2 2 10 run stored store-history (refl, (refl, (refl, tt)))
      (omega arith)

-- a store for at most one run, which has seen an event of two
abbrev small : Memory
small = record { max_events_per_run = 2; max_runs = some 1; runs = [] }

small-made : new_memory 2 (some 1) ≡ ok small
unfolding new_memory
small-made = refl

abbrev writes : List Call
writes =
    Call.applied (numbered 1)
    ∷ Call.applied (record (numbered 1) { run_id = "r2" })
    ∷ Call.forgotten "r1"
    ∷ []

after_calls-WellFormed_example : WellFormed (after_calls small writes)
after_calls-WellFormed_example = after_calls-WellFormed 2 (some 1) small writes small-made

store-WellFormed : WellFormed store
store-WellFormed = record {
  distinct = (refl, tt);
  sound = (record { own_key = refl; bounded = omega arith; oldest = refl }, tt);
  fits = tt;
}

read_all-list_flows_example :
    read_all
      (list_flows store none none)
      1
      (suc (length (matching none none (flows (Dict.values store.runs)))))
    ≡ some (ok (sorted newest_first (matching none none (flows (Dict.values store.runs)))))
read_all-list_flows_example = read_all-list_flows store none none 1 store-WellFormed (omega arith)

abbrev later_run : Run
later_run = record run { flow = record under_way { run_id = "r2"; observed_at = 30 } }
