-- ===== src/Transport.antt =====
-- transports/memory.py: `MemoryTransport` and `DataSourcePublisher`. Each method holds the lock.
pub mod Buffer
pub mod Posting
use taskflow_meter.Prelude.{ℕ, ◌+◌, ◌-◌, List, [], ◌∷◌, ◌++◌, ltb, length, kept, if◌then◌else◌}
use taskflow_meter.Events.{Event}
use taskflow_meter.DataSource.{Outcome, ok, value_error}
use taskflow_meter.Memory.{Memory, apply_many}

abbrev pub default_max_events : ℕ
default_max_events = 10000

pub record MemoryTransport : Type 0 where
  pub max_events : ℕ
  pub events : List Event
  pub dropped : ℕ

unfoldable pub new_transport : ℕ → Outcome MemoryTransport
new_transport max_events =
    if ltb max_events 1
    then value_error
    else ok (record { max_events = max_events; events = []; dropped = 0 })

-- `max(0, len(self._events) + len(events) - room)` and `deque.extend`
unfoldable pub publish : List Event → MemoryTransport → MemoryTransport
publish events t = record t {
  dropped = t.dropped + (length t.events + length events - t.max_events);
  events = kept t.max_events (t.events ++ events);
}

unfoldable pub drain : MemoryTransport → List Event × MemoryTransport
drain t = (t.events, record t { events = [] })

-- `MemoryTransport.peek`, and `len(transport)`
abbrev pub buffered : MemoryTransport → List Event
buffered t = t.events

abbrev pub buffered_count : MemoryTransport → ℕ
buffered_count t = length t.events

-- `DataSourcePublisher.publish`, over the memory store
unfoldable pub publish_to_store : List Event → Memory → Memory
publish_to_store events sink = apply_many sink events
