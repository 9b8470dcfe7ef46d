-- ===== src/Poller.antt =====
-- poller.py: `Poller`. The source is a parameter, `list_flows` at a limit and a marker; so is the
-- sink, whose `apply_many` gives its new state and the error that it raised, if any.
pub mod Passes
pub mod Stream
pub mod Sync
pub mod InStep
pub mod Failure
pub mod Paging
use taskflow_meter.Prelude.{
  ℕ, zero, suc, ◌+◌, Option, none, some, List, [], ◌∷◌, ◌++◌, String, leb, ltb, length,
  if◌then◌else◌,
}
use taskflow_meter.Prelude.Dict
use taskflow_meter.Prelude.Dict.{Dict}
use taskflow_meter.Models.{FlowSnapshot}
use taskflow_meter.Events.{Event, Allocator}
use taskflow_meter.Diff.{diff_flow}
use taskflow_meter.DataSource.{Outcome, ok, value_error, unknown_marker, FlowPage}

pub record PollStats : Type 0 where
  pub polls : ℕ
  pub events : ℕ
  pub errors : ℕ
  pub flows_seen : ℕ
  pub last_error : Option String

abbrev pub new_stats : PollStats
new_stats = record { polls = 0; events = 0; errors = 0; flows_seen = 0; last_error = none }

-- `source.list_flows(limit=..., marker=...)`
abbrev pub Source : Type 0
Source = ℕ → Option String → Outcome FlowPage

-- `sink.apply_many(events)`
abbrev pub Sink : Type 0 → Type 0
Sink S = S → List Event → S × Option String

-- The loop of `_read_all`, on fuel: `none` where the fuel ran out before the last page.
unfoldable pub read_pages :
    Source → ℕ → ℕ → Option String → List FlowSnapshot → Option (Outcome (List FlowSnapshot))
read_pages source page_size zero marker flows = none
read_pages source page_size (suc fuel) marker flows = elim (source page_size marker) [
  | value_error ↦ some value_error
  | unknown_marker m ↦ some (unknown_marker m)
  | ok page ↦ elim page.next_marker [
    | none ↦ some (ok (flows ++ page.items))
    | some m ↦ read_pages source page_size fuel (some m) (flows ++ page.items)
  ]
]

unfoldable pub read_all : Source → ℕ → ℕ → Option (Outcome (List FlowSnapshot))
read_all source page_size fuel = read_pages source page_size fuel none []

-- the variables of the loop of `poll_once`, with what it changes outside
pub record Pass (S : Type 0) : Type 0 where
  pub seen : Dict FlowSnapshot
  pub emitted : ℕ
  pub allocator : Allocator
  pub sink : S

pub record Poller (S : Type 0) : Type 0 where
  pub previous : Dict FlowSnapshot
  pub allocator : Allocator
  pub sink : S
  pub stats : PollStats

module _ {S : Type 0} (apply_many : Sink S) where
  -- `if events: self.sink.apply_many(events); emitted += len(events)`
  unfoldable pub emit : List Event → Pass S → Pass S × Option String
  emit [] p = (p, none)
  emit (e ∷ es) p =
      let (sink, raised) = apply_many p.sink (e ∷ es) in
      elim raised [
        | none ↦ (record p { sink = sink; emitted = p.emitted + length (e ∷ es) }, none)
        | some error ↦ (record p { sink = sink }, some error)
      ]

  -- what is done with a difference; `diff_flow` raises where the runs differ
  unfoldable pub take_diff : Option (List Event × Allocator) → Pass S → Pass S × Option String
  take_diff none p = (p, some "ValueError")
  take_diff (some (events, allocator)) p = emit events (record p { allocator = allocator })

  -- the body of the loop, for one snapshot
  unfoldable pub visit : Dict FlowSnapshot → FlowSnapshot → Pass S → Pass S × Option String
  visit previous snapshot p =
      take_diff
        (diff_flow (Dict.get snapshot.run_id previous) snapshot (some snapshot.observed_at)
          p.allocator)
        (record p { seen = Dict.set snapshot.run_id snapshot p.seen })

  unfoldable pub visit_all : Dict FlowSnapshot → List FlowSnapshot → Pass S → Pass S × Option String
  visit_all previous [] p = (p, none)
  visit_all previous (snapshot ∷ rest) p =
      let (p', raised) = visit previous snapshot p in
      elim raised [ none ↦ visit_all previous rest p' | some error ↦ (p', some error) ]

-- how `poll_once` ends: a pass that raised leaves `previous` and the counters as they were
unfoldable pub finish : {S : Type 0} → Poller S → Pass S × Option String → Poller S × Option String
finish p (pass, some error) =
    (record p { allocator = pass.allocator; sink = pass.sink }, some error)
finish p (pass, none) = (
  record p {
    previous = pass.seen;
    allocator = pass.allocator;
    sink = pass.sink;
    stats = record (p.stats) {
      polls = p.stats.polls + 1;
      events = p.stats.events + pass.emitted;
      flows_seen = length pass.seen;
    };
  },
  none,
)

abbrev pub new_pass : {S : Type 0} → Poller S → Pass S
new_pass p = record { seen = []; emitted = 0; allocator = p.allocator; sink = p.sink }

-- one round of `_loop`: an error is counted, and the loop goes on
unfoldable pub count_error : {S : Type 0} → Poller S × Option String → Poller S
count_error (p, none) = p
count_error (p, some error) = record p {
  stats = record (p.stats) { errors = p.stats.errors + 1; last_error = some error };
}

module _ {S : Type 0} (apply_many : Sink S) where
  -- `poll_once`, once the source has been read
  unfoldable pub poll : List FlowSnapshot → Poller S → Poller S × Option String
  poll snapshots p = finish p (visit_all apply_many p.previous snapshots (new_pass p))

  -- `poll_once`; `repr` gives the text of a source's error
  unfoldable pub poll_once :
      (Outcome (List FlowSnapshot) → String)
      → Outcome (List FlowSnapshot)
      → Poller S
      → Poller S × Option String
  poll_once repr (ok snapshots) p = poll snapshots p
  poll_once repr error p = (p, some (repr error))

  unfoldable pub rounds :
      (Outcome (List FlowSnapshot) → String)
      → List (Outcome (List FlowSnapshot))
      → Poller S
      → Poller S
  rounds repr [] p = p
  rounds repr (r ∷ rs) p = rounds repr rs (count_error (poll_once repr r p))

-- `Poller(...)` and its checks; intervals are in ticks
unfoldable pub new_poller : {S : Type 0} → S → ℕ → ℕ → Outcome (Poller S)
new_poller sink interval page_size =
    if leb interval 0
    then value_error
    else if ltb page_size 1
    then value_error
    else ok (record { previous = []; allocator = []; sink = sink; stats = new_stats })
