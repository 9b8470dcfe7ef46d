-- ===== src/Memory/Calls.antt =====
-- The memory store through any calls that write to it.
use taskflow_meter.Prelude.{
  ℕ, suc, ◌≤◌, Option, none, some, List, [], ◌∷◌, String, ◌≡◌, refl, ap, sym, ◌∙◌, subst, arith,
  length, is_some, Bool-cases, Option-cases, inl, inr,
}
use taskflow_meter.Prelude.Dict
use taskflow_meter.Prelude.Dict.{
  Dict, AllValues-set, Distinct-set, Distinct-remove, length-set, length-remove,
}
use taskflow_meter.Events.{Event}
use taskflow_meter.Fold.{flow_from_event}
use taskflow_meter.DataSource.{ok}
use taskflow_meter.Memory.{
  Run, new_run, Memory, new_memory, evict_if_needed, ensure_run, written, write_back, apply, forget,
}
use taskflow_meter.Memory.History.{apply_old}
use taskflow_meter.Memory.Invariant.{
  Sound, Fits, Good, WellFormed, All-remove, All-get, evict_if_needed-Good, set-Good, written-Sound,
}

write_back-WellFormed :
    (m : Memory) (e : Event) (run : Run) (runs : Dict Run)
    → run.flow.run_id ≡ e.run_id
    → Good m.max_events_per_run m.max_runs runs
    → WellFormed (write_back m e (run, runs))
unfolding write_back
write_back-WellFormed m e run runs own h = elim (Bool-cases (is_some (Dict.get e.run_id runs))) [
  | inl there ↦ rw there (
      set-Good m.max_events_per_run m.max_runs e.run_id (written m run e) runs there
        (written-Sound m e.run_id run e own) h)
  | inr gone ↦ rw gone h
]

-- one more run than before
room_for_one :
    (max_runs : Option ℕ) (n size : ℕ) → max_runs ≡ some n → Fits max_runs size → size ≤ n
room_for_one none n size e h = absurd (ground arith)
room_for_one (some k) n size e h = ground (arith, h)

new_run-Sound : (limit : ℕ) (e : Event) → Sound limit e.run_id (new_run (flow_from_event e))
unfolding flow_from_event
new_run-Sound limit e = record { own_key = refl; bounded = omega arith; oldest = refl }

apply-WellFormed : (m : Memory) (e : Event) → WellFormed m → WellFormed (apply m e)
unfolding apply
apply-WellFormed m e h = elim (Option-cases (Dict.get e.run_id m.runs)) [
  | inl new ↦
      let run = new_run (flow_from_event e) in
      let sound = new_run-Sound m.max_events_per_run e in
      let runs = Dict.set e.run_id run m.runs in
      let size : length runs ≡ suc (length m.runs) = length-set e.run_id run m.runs ∙ rw new refl in
      let started : write_back m e (run, evict_if_needed m.max_runs runs)
          ≡ write_back m e (ensure_run (Dict.get e.run_id m.runs) m e) =
        ap (λ o. write_back m e o)
          (sym (ap (λ o. ensure_run o m e) new ∙ unfold ensure_run in refl)) in
      subst WellFormed started (
        write_back-WellFormed m e run (evict_if_needed m.max_runs runs) sound.own_key (
          evict_if_needed-Good m.max_events_per_run m.max_runs runs
            (Distinct-set e.run_id run m.runs h.distinct)
            (AllValues-set (Sound m.max_events_per_run) e.run_id run m.runs sound h.sound)
            (λ n k. omega (arith, size, room_for_one m.max_runs n (length m.runs) k h.fits))))
  | inr (run, old) ↦ subst WellFormed (sym (apply_old m e run old)) (
      set-Good m.max_events_per_run m.max_runs e.run_id (written m run e) m.runs (rw old refl)
        (written-Sound m e.run_id run e
          (All-get (Sound m.max_events_per_run) e.run_id m.runs run h.sound old).own_key)
        h)
]

fewer : (max_runs : Option ℕ) (n size : ℕ) → n ≤ size → Fits max_runs size → Fits max_runs n
fewer none n size l h = tt
fewer (some k) n size l h = omega (arith, l, h)

forget-WellFormed : (m : Memory) (r : String) → WellFormed m → WellFormed (forget m r).0
unfolding forget
forget-WellFormed m r h = record {
  distinct = Distinct-remove r m.runs h.distinct;
  sound = All-remove (Sound m.max_events_per_run) r m.runs h.sound;
  fits =
      fewer m.max_runs (length (Dict.remove r m.runs)) (length m.runs)
        (ground (arith, length-remove r m.runs)) h.fits;
}

pub data Call : Type 0 where
  applied : Event → Call
  forgotten : String → Call

unfoldable pub after_calls : Memory → List Call → Memory
after_calls m [] = m
after_calls m (applied e ∷ cs) = after_calls (apply m e) cs
after_calls m (forgotten r ∷ cs) = after_calls (forget m r).0 cs

run-WellFormed : (cs : List Call) (m : Memory) → WellFormed m → WellFormed (after_calls m cs)
unfolding after_calls
run-WellFormed [] m h = h
run-WellFormed (applied e ∷ cs) m h = run-WellFormed cs (apply m e) (apply-WellFormed m e h)
run-WellFormed (forgotten r ∷ cs) m h = run-WellFormed cs (forget m r).0 (forget-WellFormed m r h)

new_memory-WellFormed :
    (max_events : ℕ) (max_runs : Option ℕ) (m : Memory)
    → new_memory max_events max_runs ≡ ok m
    → WellFormed m
unfolding new_memory
new_memory-WellFormed max_events max_runs m h =
    let fresh : Memory = record {
      max_events_per_run = max_events;
      max_runs = max_runs;
      runs = [];
    } in
    let made : fresh ≡ m = ground (arith, h) in
    subst WellFormed made (record { distinct = tt; sound = tt; fits = none_yet max_runs })
  where
    none_yet : (o : Option ℕ) → Fits o 0
    none_yet none = tt
    none_yet (some n) = omega arith

-- From a new store on, through any events and any runs forgotten, in any order, each run is stored
-- once, under its own id, with no more events than the limit and the number of the oldest of them,
-- and there are never more runs than the store may hold.
pub after_calls-WellFormed :
    (max_events : ℕ) (max_runs : Option ℕ) (m : Memory) (cs : List Call)
    → new_memory max_events max_runs ≡ ok m
    → WellFormed (after_calls m cs)
after_calls-WellFormed max_events max_runs m cs h =
    run-WellFormed cs m (new_memory-WellFormed max_events max_runs m h)
