-- ===== src/Meter/Lifecycle.antt =====
-- What is on while a meter is started, and how many hold it.
use taskflow_meter.Prelude.{
  ℕ, ◌+◌, ◌-◌, Bool, true, false, some, List, [], ◌∷◌, ◌≡◌, refl, arith, if◌then◌else◌, Bool-cases,
  inl, inr, ◌==◌,
}
use taskflow_meter.Meter.{
  Component, source, Meter, new_meter, start_poller, start_store, start_locked, start,
  ensure_started, stop_locked, stop_unheld, stop, atexit_stop,
}

-- A meter that is started has every component on and itself registered for the exit of the process;
-- one that is not has every component off, and nobody holds it.
pub record Whole (m : Meter) : Type 0 where
  pub source_on : m.source_on ≡ m.started
  pub store_on : m.store_on ≡ (if m.has_store then m.started else false)
  pub poller_on : m.poller_on ≡ (if m.has_poller then m.started else false)
  pub registered : m.atexit_registered ≡ m.started
  pub held : m.started ≡ false → m.holders ≡ 0

pub data Call : Type 0 where
  started stopped ensured at_exit : Call

abbrev pub never : Component → Bool
never c = false

unfoldable pub after_call : Meter → Call → Meter
after_call m started = (start never m).0
after_call m stopped = stop m
after_call m ensured = (ensure_started never m).0
after_call m at_exit = atexit_stop m

unfoldable pub after_calls : Meter → List Call → Meter
after_calls m [] = m
after_calls m (c ∷ cs) = after_calls (after_call m c) cs

start_locked-Whole :
    (m : Meter) (n : ℕ)
    → Whole m
    → Whole (start_locked never (record m { holders = n })).0
      × ((start_locked never (record m { holders = n })).0.started ≡ true)
unfolding start_locked start_store start_poller
start_locked-Whole m n w = (
  record {
    source_on = ground (arith, w.source_on);
    store_on = ground (arith, w.store_on);
    poller_on = ground (arith, w.poller_on);
    registered = ground (arith, w.registered);
    held = λ e. absurd (ground (arith, e));
  },
  ground arith,
)

stop_locked-Whole :
    (m : Meter)
    → m.holders ≡ 0
    → (m.source_on ≡ m.started)
    → (m.store_on ≡ (if m.has_store then m.started else false))
    → (m.poller_on ≡ (if m.has_poller then m.started else false))
    → m.atexit_registered ≡ m.started
    → Whole (stop_locked m) × ((stop_locked m).started ≡ false)
unfolding stop_locked
stop_locked-Whole m h a b c d = (
  record {
    source_on = ground (arith, a);
    store_on = ground (arith, b);
    poller_on = ground (arith, c);
    registered = ground (arith, d);
    held = λ e. ground (arith, h);
  },
  ground arith,
)

stop-Whole : (m : Meter) → Whole m → Whole (stop m)
unfolding stop stop_unheld
stop-Whole m w = elim (Bool-cases (m.holders - 1 == 0)) [
  | inl e ↦
      rw e
        (stop_locked-Whole (record m { holders = m.holders - 1 }) (ground arith) w.source_on
          w.store_on w.poller_on w.registered).0
  | inr e ↦ rw e (record {
    source_on = w.source_on;
    store_on = w.store_on;
    poller_on = w.poller_on;
    registered = w.registered;
    held = λ k. omega (arith, w.held k);
  })
]

after_call-Whole : (m : Meter) (c : Call) → Whole m → Whole (after_call m c)
unfolding after_call start ensure_started atexit_stop
after_call-Whole m started w = (start_locked-Whole m (m.holders + 1) w).0
after_call-Whole m stopped w = stop-Whole m w
after_call-Whole m ensured w = (start_locked-Whole m m.holders w).0
after_call-Whole m at_exit w =
    (stop_locked-Whole (record m { holders = 0 }) refl w.source_on w.store_on w.poller_on
      w.registered).0

run-Whole : (cs : List Call) (m : Meter) → Whole m → Whole (after_calls m cs)
unfolding after_calls
run-Whole [] m w = w
run-Whole (c ∷ cs) m w = run-Whole cs (after_call m c) (after_call-Whole m c w)

new-Whole : (store_given poll : Bool) → Whole (new_meter store_given poll)
unfolding new_meter
new-Whole store_given poll = record {
  source_on = refl;
  store_on = ground arith;
  poller_on = ground arith;
  registered = refl;
  held = λ e. refl;
}

-- From a new meter on, whatever is called and however often, where no component raises as it
-- starts, every component is on while the meter is started, and off with nobody holding it while
-- it is not.
pub after_calls-Whole :
    (store_given poll : Bool) (cs : List Call) → Whole (after_calls (new_meter store_given poll) cs)
after_calls-Whole store_given poll cs =
    run-Whole cs (new_meter store_given poll) (new-Whole store_given poll)

-- Where the source raises as it starts, the reference is kept: after the next start that succeeds
-- and its own stop, the meter that nobody holds any more is still on.
pub start-keeps_reference :
    (raises : Component → Bool) (m : Meter)
    → m.started ≡ false
    → m.holders ≡ 0
    → raises source ≡ true
    → let failed = start raises m in
      (failed.1 ≡ some source)
      × (failed.0.holders ≡ 1)
      × ((stop (start never failed.0).0).started ≡ true)
unfolding start start_locked start_store start_poller stop stop_unheld
start-keeps_reference raises m s h r = (ground arith, ground arith, ground arith)
