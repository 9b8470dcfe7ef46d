-- ===== src/Memory/Reads.antt =====
-- What a read of the memory store gives by the history of the run.
use taskflow_meter.Prelude.{
  ℕ, ◌≤◌, Option, none, some, List, [], String, ◌≡◌, refl, ltb, false, arith,
}
use taskflow_meter.Prelude.Dict
use taskflow_meter.Prelude.Sort.{sorted}
use taskflow_meter.Events.{Event}
use taskflow_meter.DataSource.{ok, EventPage, Outcome, event_page, is_truncated}
use taskflow_meter.Memory.{Memory, Run, run_page, events_since}
use taskflow_meter.Memory.History.{history}
use taskflow_meter.Fold.{contiguous_from, contiguous_loop}

-- a read of the memory store, whether the run is there or not
pub memory_page :
    (m : Memory) (r : String) (since limit : ℕ)
    → 1 ≤ limit
    → events_since m r since limit ≡ ok (run_page (history r m) since limit)
unfolding events_since history
memory_page m r since limit h =
    let enough : ltb limit 1 ≡ false = ground arith in rw enough (split (Dict.get r m.runs))
  where
    split :
        (o : Option Run)
        → elim o as (λ _. Outcome EventPage) [
          | none ↦
              ok (record { events = []; next_seq = since; oldest_seq = none; truncated = false })
          | some run ↦ ok (run_page run.events since limit)
        ]
          ≡ ok (
              run_page
                (elim o as (λ _. List Event) [ none ↦ [] | some run ↦ run.events ])
                since
                limit)
    split none =
        unfold run_page sorted contiguous_from contiguous_loop event_page is_truncated in refl
    split (some run) = refl
