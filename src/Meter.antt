-- ===== src/Meter.antt =====
-- meter.py: the lifecycle of a `Meter`. Each method holds the lock throughout. What is kept of a
-- component is whether it is on; whether its `start` raises is a parameter, and what its `stop` raises
-- is passed over.
pub mod Lifecycle
use taskflow_meter.Prelude.{
  ℕ, zero, suc, ◌+◌, ◌-◌, Bool, true, false, Option, none, some, List, [], ◌∷◌, ◌==◌, ltb,
  if◌then◌else◌,
}

pub data Component : Type 0 where
  source store poller : Component

pub record Meter : Type 0 where
  pub has_store : Bool
  pub has_poller : Bool
  pub holders : ℕ
  pub started : Bool
  pub source_on : Bool
  pub store_on : Bool
  pub poller_on : Bool
  pub atexit_registered : Bool

-- `Meter(source, store=..., poll=...)`: with `poll`, a store is made where none is given
unfoldable pub new_meter : Bool → Bool → Meter
new_meter store_given poll = record {
  has_store = if store_given then true else poll;
  has_poller = poll;
  holders = 0;
  started = false;
  source_on = false;
  store_on = false;
  poller_on = false;
  atexit_registered = false;
}

-- `reader`
unfoldable pub reader : Meter → Component
reader m = if m.has_store then Component.store else Component.source

module _ (raises : Component → Bool) where
  -- `component.start()`, where there is one
  abbrev pub fails : Bool → Component → Bool
  fails present c = if present then raises c else false

  -- `_start_locked` from the poller on
  unfoldable pub start_poller : Meter → Meter × Option Component
  start_poller m = if fails m.has_poller Component.poller then (m, some Component.poller) else (
    record m {
      poller_on = if m.has_poller then true else m.poller_on;
      atexit_registered = true;
      started = true;
    },
    none,
  )

  unfoldable pub start_store : Meter → Meter × Option Component
  start_store m =
      if fails m.has_store Component.store
      then (m, some Component.store)
      else start_poller (record m { store_on = if m.has_store then true else m.store_on })

  -- `_start_locked`, with the component that raised
  unfoldable pub start_locked : Meter → Meter × Option Component
  start_locked m =
      if m.started
      then (m, none)
      else if raises Component.source
      then (m, some Component.source)
      else start_store (record m { source_on = true })

  unfoldable pub start : Meter → Meter × Option Component
  start m = start_locked (record m { holders = m.holders + 1 })

  unfoldable pub ensure_started : Meter → Meter × Option Component
  ensure_started m = start_locked m

-- `_stop_locked`
unfoldable pub stop_locked : Meter → Meter
stop_locked m =
    if m.started
    then record m {
      started = false;
      poller_on = if m.has_poller then false else m.poller_on;
      store_on = if m.has_store then false else m.store_on;
      source_on = false;
      atexit_registered = false;
    }
    else m

-- `stop` once the count has gone down
unfoldable pub stop_unheld : Meter → Meter
stop_unheld m = if m.holders == 0 then stop_locked m else m

unfoldable pub stop : Meter → Meter
stop m = stop_unheld (record m { holders = m.holders - 1 })

unfoldable pub atexit_stop : Meter → Meter
atexit_stop m = stop_locked (record m { holders = 0 })
