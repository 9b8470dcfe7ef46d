-- ===== src/Poller/Failure.antt =====
-- A pass that raises.
use taskflow_meter.Prelude.{
  ◌+◌, Option, none, some, List, [], ◌∷◌, String, ◌≡◌, refl, ap, ◌∙◌, arith, length,
}
use taskflow_meter.Prelude.Dict
use taskflow_meter.Models.{FlowSnapshot}
use taskflow_meter.Events.{Event, Allocator, peek}
use taskflow_meter.Diff.{diff_flow}
use taskflow_meter.Diff.Stamp.{diff_flow-Numbered}
use taskflow_meter.Poller.{
  Sink, Pass, Poller, emit, take_diff, visit, visit_all, finish, new_pass, poll,
}
use taskflow_meter.Poller.Passes.{visit_all-raised, finish-sink}

finish-raised :
    {S : Type 0} (p : Poller S) (q : Pass S × Option String) (error : String)
    → (finish p q).1 ≡ some error
    → ((finish p q).0.previous ≡ p.previous) × ((finish p q).0.stats ≡ p.stats) × (q.1 ≡ some error)
unfolding finish
finish-raised p (q, none) error h = absurd (ground arith)
finish-raised p (q, some e) error h = (refl, refl, h)

finish_error :
    {S : Type 0} (p : Poller S) (q : Pass S × Option String) (error : String)
    → q.1 ≡ some error
    → (finish p q).1 ≡ some error
unfolding finish
finish_error p (q, none) error h = absurd (ground arith)
finish_error p (q, some e) error h = h

module _ {S : Type 0} (sink : Sink S) (p : Poller S) where
  -- A poll that raises leaves what the poller remembers and its counters as they were, whatever
  -- the sink is.
  pub poll-raised :
      (ss : List FlowSnapshot) (error : String)
      → (poll sink ss p).1 ≡ some error
      → ((poll sink ss p).0.previous ≡ p.previous) × ((poll sink ss p).0.stats ≡ p.stats)
  unfolding poll
  poll-raised ss error h =
      let k = finish-raised p (visit_all sink p.previous ss (new_pass p)) error h in (k.0, k.1)

  raised :
      (s : FlowSnapshot) (e : Event) (es : List Event) (c : Allocator) (error : String)
      → diff_flow (Dict.get s.run_id p.previous) s (some s.observed_at) p.allocator
        ≡ some (e ∷ es, c)
      → sink p.sink (e ∷ es) ≡ (p.sink, some error)
      → visit sink p.previous s (new_pass p)
        ≡ (record (new_pass p) { seen = Dict.set s.run_id s []; allocator = c }, some error)
  unfolding visit take_diff emit
  raised s e es c error d h =
      let start : Pass S = record (new_pass p) { seen = Dict.set s.run_id s [] } in
      ap (λ o. take_diff sink o start) d
      ∙ ap
          (λ (r : S × Option String).
            let q : Pass S = record start { allocator = c } in
            elim r.1 as (λ _. Pass S × Option String) [
              | none ↦ (record q { sink = r.0; emitted = q.emitted + length (e ∷ es) }, none)
              | some error ↦ (record q { sink = r.0 }, some error)
            ])
          h

  -- A poll whose sink raises at the first batch and stores nothing of it raises, remembers no more
  -- than before, and has spent the numbers of the batch all the same.
  pub poll-spends :
      (s : FlowSnapshot) (rest : List FlowSnapshot) (e : Event) (es : List Event) (c : Allocator)
      (error : String)
      → diff_flow (Dict.get s.run_id p.previous) s (some s.observed_at) p.allocator
        ≡ some (e ∷ es, c)
      → sink p.sink (e ∷ es) ≡ (p.sink, some error)
      → let q = poll sink (s ∷ rest) p in
        (q.1 ≡ some error)
        × (q.0.previous ≡ p.previous)
        × (q.0.sink ≡ p.sink)
        × (peek s.run_id q.0.allocator ≡ peek s.run_id p.allocator + length (e ∷ es))
  unfolding poll
  poll-spends s rest e es c error d h =
      let pass : Pass S = record (new_pass p) { seen = Dict.set s.run_id s []; allocator = c } in
      let all =
        visit_all-raised sink p.previous s rest (new_pass p) pass error
          (raised s e es c error d h) in
      let q = visit_all sink p.previous (s ∷ rest) (new_pass p) in
      let error' = finish_error p q error (ap (λ (r : Pass S × Option String). r.1) all) in
      let n =
        diff_flow-Numbered (Dict.get s.run_id p.previous) s (some s.observed_at) p.allocator d in
      (
        error',
        (finish-raised p q error error').0,
        (finish-sink p q).0 ∙ ap (λ (r : Pass S × Option String). r.0.sink) all,
        ap (peek s.run_id)
              ((finish-sink p q).1 ∙ ap (λ (r : Pass S × Option String). r.0.allocator) all)
            ∙ n.reached,
      )
