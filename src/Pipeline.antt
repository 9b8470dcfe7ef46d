-- ===== src/Pipeline.antt =====
-- collect/pipeline.py: `EventPipeline`. The producers' `submit` and each turn of the sender's loop are
-- the steps; the thread itself, its start and the waiting are not modelled.
pub mod Delivery
pub mod Traces
use taskflow_meter.Prelude.{
  ℕ, zero, suc, ◌+◌, ◌-◌, Bool, true, false, Option, none, some, List, [], ◌∷◌, ◌++◌, String, ltb,
  leb, length, if◌then◌else◌,
}
use taskflow_meter.Events.{Event}
use taskflow_meter.DataSource.{Outcome, ok, value_error}

abbrev pub default_max_queue : ℕ
default_max_queue = 1000

abbrev pub default_batch : ℕ
default_batch = 100

pub record PipelineStats : Type 0 where
  pub submitted : ℕ
  pub delivered : ℕ
  pub dropped : ℕ
  pub errors : ℕ
  pub last_error : Option String

abbrev pub new_stats : PipelineStats
new_stats = record { submitted = 0; delivered = 0; dropped = 0; errors = 0; last_error = none }

-- what stands in the queue: an event, or `_STOP`
pub data Entry : Type 0 where
  item : Event → Entry
  stop : Entry

-- `publisher.publish(events)`: the publisher afterwards, and what it raised, if anything
abbrev pub Publish : Type 0 → Type 0
Publish P = P → List Event → P × Option String

pub record Pipeline (P : Type 0) : Type 0 where
  pub publishers : List P
  pub batch_size : ℕ
  pub max_queue : ℕ
  pub stats : PipelineStats
  pub queue : List Entry
  pub idle : Bool
  -- the arguments of the calls of `on_drop`, the last one first
  pub drop_calls : List Event

unfoldable pub new_pipeline : {P : Type 0} → List P → ℕ → ℕ → Outcome (Pipeline P)
new_pipeline publishers max_queue batch_size =
    if ltb max_queue 1
    then value_error
    else if ltb batch_size 1
    then value_error
    else ok (record {
      publishers = publishers;
      batch_size = batch_size;
      max_queue = max_queue;
      stats = new_stats;
      queue = [];
      idle = true;
      drop_calls = [];
    })

-- `queue.get_nowait()` for its effect: an empty queue raises `Empty`, which is passed over
abbrev pub without_oldest : List Entry → List Entry
without_oldest [] = []
without_oldest (x ∷ xs) = xs

abbrev pub count_dropped : PipelineStats → PipelineStats
count_dropped s = record s { dropped = s.dropped + 1 }

-- `put_nowait`: the queue with the entry, or `Full`
unfoldable pub put_nowait : ℕ → List Entry → Entry → Option (List Entry)
put_nowait max_queue queue x = if ltb (length queue) max_queue then some (queue ++ x ∷ []) else none

-- the end of `_make_room_for`, by what `put_nowait` gave
unfoldable pub after_room : {P : Type 0} → Option (List Entry) → Pipeline P → Pipeline P × Bool
after_room (some queue) p = (record p { queue = queue; idle = false }, true)
after_room none p = (record p { stats = count_dropped p.stats }, false)

-- `_make_room_for`
unfoldable pub make_room_for : {P : Type 0} → Event → Pipeline P → Pipeline P × Bool
make_room_for e p =
    let queue = without_oldest p.queue in
    after_room (put_nowait p.max_queue queue (Entry.item e))
      (record p { queue = queue; stats = count_dropped p.stats; drop_calls = e ∷ p.drop_calls })

-- the end of `submit`, by what `put_nowait` gave
unfoldable pub after_put :
    {P : Type 0} → Option (List Entry) → Event → Pipeline P → Pipeline P × Bool
after_put (some queue) e p = (record p { queue = queue; idle = false }, true)
after_put none e p = make_room_for e p

unfoldable pub submit : {P : Type 0} → Event → Pipeline P → Pipeline P × Bool
submit e p =
    after_put (put_nowait p.max_queue p.queue (Entry.item e)) e
      (record p { stats = record (p.stats) { submitted = p.stats.submitted + 1 } })

-- `self._queue.put(_STOP)` of `stop`, where there is room; it waits where there is none
unfoldable pub request_stop : {P : Type 0} → Pipeline P → Option (Pipeline P)
request_stop p = elim (put_nowait p.max_queue p.queue Entry.stop) [
  | none ↦ none
  | some queue ↦ some (record p { queue = queue })
]

-- `_take_more`: up to `room` more entries, and what is left in the queue
unfoldable pub take_more : ℕ → List Entry → List Entry × List Entry
take_more zero queue = ([], queue)
take_more (suc room) [] = ([], [])
take_more (suc room) (x ∷ queue) = let (more, rest) = take_more room queue in (x ∷ more, rest)

abbrev pub events_in : List Entry → List Event
events_in [] = []
events_in (Entry.item e ∷ xs) = e ∷ events_in xs
events_in (Entry.stop ∷ xs) = events_in xs

-- `any(entry is _STOP for entry in taken)`
abbrev pub has_stop : List Entry → Bool
has_stop [] = false
has_stop (Entry.item e ∷ xs) = has_stop xs
has_stop (Entry.stop ∷ xs) = true

module _ {P : Type 0} (publish : Publish P) where
  -- what one publisher's answer does to the counters
  unfoldable pub count_delivery : ℕ → Option String → PipelineStats → PipelineStats
  count_delivery n none s = record s { delivered = s.delivered + n }
  count_delivery n (some error) s = record s { errors = s.errors + 1; last_error = some error }

  -- the loop of `_deliver`
  unfoldable pub publish_all : List Event → List P → PipelineStats → List P × PipelineStats
  publish_all events [] s = ([], s)
  publish_all events (publisher ∷ rest) s =
      let (publisher', raised) = publish publisher events in
      let (rest', s') = publish_all events rest (count_delivery (length events) raised s) in
      (publisher' ∷ rest', s')

  -- `_deliver`
  unfoldable pub deliver : List Event → Pipeline P → Pipeline P
  deliver [] p = p
  deliver (e ∷ es) p =
      let (publishers, stats) = publish_all (e ∷ es) p.publishers p.stats in
      record p { publishers = publishers; stats = stats }

  abbrev pub set_idle : Pipeline P → Pipeline P
  set_idle p = record p { idle = elim p.queue [ [] ↦ true | _ ↦ p.idle ] }

  -- one turn of `_run` on what stands in the queue, and whether it is the last; `none` where it waits
  -- for an entry
  unfoldable pub turn_on : List Entry → Pipeline P → Option (Pipeline P × Bool)
  turn_on [] p = none
  turn_on (x ∷ queue) p =
      let (more, rest) = take_more (p.batch_size - 1) queue in
      some
        (set_idle (deliver (events_in (x ∷ more)) (record p { queue = rest })), has_stop (x ∷ more))

  unfoldable pub turn : Pipeline P → Option (Pipeline P × Bool)
  turn p = turn_on p.queue p
