-- ===== src/Collect/Watching.antt =====
-- A store that is told the events of one engine as its threads emit them.
use mathlib.Core.List.{Permᴰ}
use mathlib.Core.List.Permᴰ
use taskflow_meter.Prelude.{
  ℕ, ◌≤◌, Option, none, List, [], ◌∷◌, ◌++◌, String, ◌≡◌, refl, ap, sym, subst, ◌∙◌, arith, All,
  length, take, drop, drop-nil, ◌-◌, kept_all, false,
}
use taskflow_meter.Prelude.Dict
use taskflow_meter.Events.{Event, peek, new_allocator}
use taskflow_meter.Events.Sequence.{Consecutive}
use taskflow_meter.DataSource.{ok, EventPage}
use taskflow_meter.Memory.{Memory, apply, apply_many, run_page, events_since}
use taskflow_meter.Memory.History.{history, history-apply_many}
use taskflow_meter.Memory.Reads.{memory_page}
use taskflow_meter.Memory.Resume.{page_seen}
use taskflow_meter.Collect.{Watched, Producers, Step, steps}
use taskflow_meter.Collect.Arrivals.{Readable, Arrives, emit_all, steps-Arrives}
use taskflow_meter.Collect.Sorted.{sorted-Perm, length-Perm, All-Perm, Consecutive-Apart}

abbrev pub new_producers : {S : Type 0} → S → Producers S
new_producers s = record { allocator = new_allocator; in_flight = []; sink = s }

pub watched-Arrives :
    (w : Watched) {S : Type 0} (emit : Event → S → S × Option String) (start : S) (xs : List Step)
    → All (Readable w) xs
    → Arrives w emit start (steps w emit xs (new_producers start))
unfolding peek emit_all Dict.get
watched-Arrives w emit start xs h = steps-Arrives w emit start xs (new_producers start) h (record {
  whole = [];
  arrived = [];
  chain = tt;
  reached = refl;
  own = tt;
  same = Permᴰ.nil;
  emitted = refl;
})

-- `emit` where it leads to a memory store
abbrev pub to_store : Event → Memory → Memory × Option String
to_store e m = (apply m e, none)

emit_all-to_store : (es : List Event) (m : Memory) → emit_all to_store es m ≡ apply_many m es
unfolding emit_all apply_many
emit_all-to_store [] m = refl
emit_all-to_store (e ∷ es) m = emit_all-to_store es (apply m e)

-- the order of arrival makes no difference to a page
run_page-Perm :
    {arrived whole : List Event} (since limit : ℕ)
    → Permᴰ arrived whole
    → Consecutive 1 whole
    → run_page arrived since limit ≡ run_page whole since limit
unfolding run_page
run_page-Perm {whole} since limit p chain =
    let s = sorted-Perm (Permᴰ.symm p) (Consecutive-Apart 1 whole chain) in rw (sym s.1) refl

-- Whatever an engine's threads report and in whatever order they hand it on, once nothing is in
-- flight, a memory store with no limit on its runs that held nothing of the run, is told each
-- event as it is emitted and may keep them all, holds just the events that were built, one for
-- each number that was handed out, and serves a client, at any number it has seen and a limit of
-- at least 1, the next ones in the order of their numbers with no gap reported; provided `float`
-- accepts every progress that a task reports.
pub watched-read :
    (w : Watched) (m : Memory) (xs : List Step) (since limit : ℕ)
    → All (Readable w) xs
    → m.max_runs ≡ none
    → history w.run_id m ≡ []
    → let p = steps w to_store xs (new_producers m) in
      p.in_flight ≡ []
      → peek w.run_id p.allocator ≤ m.max_events_per_run
      → 1 ≤ limit
      → (whole : List Event) × Consecutive 1 whole
        × (length whole ≡ peek w.run_id p.allocator)
        × Permᴰ (history w.run_id p.sink) whole
        × (page : EventPage) × (events_since p.sink w.run_id since limit ≡ ok page)
        × (page.events ≡ take limit (drop since whole))
        × (page.truncated ≡ false)
watched-read w m xs since limit readable unlimited fresh landed room h =
    let p = steps w to_store xs (new_producers m) in
    let a = watched-Arrives w to_store m xs readable in
    let r = w.run_id in
    let same : Permᴰ a.arrived a.whole =
      subst (λ es. Permᴰ (es ++ a.arrived) a.whole) landed a.same in
    let stored : history r p.sink ≡ a.arrived =
      ap (history r) (a.emitted ∙ emit_all-to_store a.arrived m)
      ∙ (history-apply_many r m.max_events_per_run m a.arrived [] unlimited refl
            (All-Perm (λ e. e.run_id ≡ r) (Permᴰ.symm same) a.own)
            (fresh ∙ sym (drop-nil (0 - m.max_events_per_run)))
          ∙ kept_all m.max_events_per_run a.arrived
              (omega (arith, length-Perm same, a.reached, room))) in
    let served = page_seen 1 a.whole a.chain since since limit h (omega arith) in
    (
      a.whole,
      a.chain,
      sym a.reached,
      subst (λ es. Permᴰ es a.whole) (sym stored) same,
      run_page a.whole since limit,
      memory_page p.sink r since limit h
          ∙ (ap (λ es. ok (run_page es since limit)) stored
              ∙ ap ok (run_page-Perm since limit same a.chain)),
      served.0,
      served.1,
    )
