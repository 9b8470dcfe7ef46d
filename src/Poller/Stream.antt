-- ===== src/Poller/Stream.antt =====
-- The poller over the memory store: the events of a run reach the store numbered from 1 with no gap,
-- for ever.
use taskflow_meter.Prelude.{
  ℕ, suc, ◌+◌, none, some, List, [], ◌∷◌, ◌++◌, String, ◌≡◌, ◌≢◌, ap, sym, ◌∙◌, subst, Bool-cases,
  inl, inr, arith, All_map, length, length-append, kept, str_eq, eq_iff,
}
use taskflow_meter.Prelude.Dict
use taskflow_meter.Prelude.Dict.{Dict}
use taskflow_meter.Models.{FlowSnapshot}
use taskflow_meter.Events.{Event, Allocator, peek}
use taskflow_meter.Events.Sequence.{Consecutive, Consecutive-append}
use taskflow_meter.Diff.Stamp.{Numbered, diff_flow-Numbered}
use taskflow_meter.DataSource.{Outcome, ok, value_error, unknown_marker}
use taskflow_meter.Memory.{Memory, apply_many}
use taskflow_meter.Memory.History.{history, history-apply_many, apply_many-other, limits-apply_many}
use taskflow_meter.Poller.{
  Pass, Poller, visit, visit_all, new_pass, poll, poll_once, rounds, count_error,
}
use taskflow_meter.Poller.Passes.{
  memory_sink, visit_all-keeps, refused, written, visit-Visited, finish-sink, count_error-sink,
}

-- The store holds the last events of the run, as many as it may keep, of a stream that is numbered
-- from 1 with no gap, and the allocator stands at the last of them.
pub record Streams (r : String) (limit : ℕ) (c : Allocator) (m : Memory) : Type 0 where
  pub stream : List Event
  pub kept_last : history r m ≡ kept limit stream
  pub chain : Consecutive 1 stream
  pub reached : peek r c ≡ length stream
  pub unlimited : m.max_runs ≡ none
  pub room : m.max_events_per_run ≡ limit

-- one numbered batch
batch-Streams :
    (r run_id : String) (limit ts : ℕ) (c : Allocator) (m : Memory) (b : List Event × Allocator)
    → Numbered run_id ts c b
    → Streams r limit c m
    → Streams r limit b.1 (apply_many m b.0)
batch-Streams r run_id limit ts c m b h s =
    let unlimited = (limits-apply_many m b.0).0 ∙ s.unlimited in
    let room = (limits-apply_many m b.0).1 ∙ s.room in
    elim (Bool-cases (str_eq r run_id)) [
      | inl e ↦
          let same = (eq_iff r run_id).0 e in
          let reached : peek r c ≡ peek run_id c = ap (λ j. peek j c) same in
          let first : suc (peek run_id c) ≡ 1 + length s.stream =
            omega (arith, s.reached, reached) in
          record {
            stream = s.stream ++ b.0;
            kept_last =
                history-apply_many r limit m b.0 s.stream s.unlimited s.room
                  (All_map (λ x k. k ∙ sym same) b.0 h.of_run) s.kept_last;
            chain =
                Consecutive-append 1 s.stream b.0 s.chain
                  (subst (λ n. Consecutive n b.0) first h.consecutive);
            reached =
                ap (λ j. peek j b.1) same
                ∙ omega (arith, h.reached, first, length-append s.stream b.0);
            unlimited = unlimited;
            room = room;
          }
      | inr e ↦
          let differ : r ≢ run_id = λ k. absurd (ground (arith, eq_iff r run_id)) in
          record {
            stream = s.stream;
            kept_last =
                (apply_many-other r m b.0 s.unlimited
                  (All_map (λ x k q. differ (sym q ∙ k)) b.0 h.of_run)).0
                ∙ s.kept_last;
            chain = s.chain;
            reached = h.apart r differ ∙ s.reached;
            unlimited = unlimited;
            room = room;
          }
    ]

module _ (r : String) (limit : ℕ) where
  abbrev StreamsPass : Pass Memory → Type 0
  StreamsPass p = Streams r limit p.allocator p.sink

  visit-Streams :
      (previous : Dict FlowSnapshot) (s : FlowSnapshot) (p : Pass Memory)
      → StreamsPass p
      → StreamsPass (visit memory_sink previous s p).0
  visit-Streams previous s p h = elim (visit-Visited previous s p) [
    | refused d sink allocator ↦ rw (sink, allocator) h
    | written b d quiet sink allocator seen ↦
        rw (sink, allocator)
          (batch-Streams r s.run_id limit s.observed_at p.allocator p.sink b
            (diff_flow-Numbered (Dict.get s.run_id previous) s (some s.observed_at) p.allocator d)
            h)
  ]

  poll-Streams :
      (snapshots : List FlowSnapshot) (p : Poller Memory)
      → Streams r limit p.allocator p.sink
      → Streams r limit
          (poll memory_sink snapshots p).0.allocator
          (poll memory_sink snapshots p).0.sink
  unfolding poll
  poll-Streams snapshots p h =
      let q = visit_all memory_sink p.previous snapshots (new_pass p) in
      let k = finish-sink p q in
      rw (k.0, k.1)
        (visit_all-keeps memory_sink p.previous StreamsPass (visit-Streams p.previous) snapshots
          (new_pass p) h)

  poll_once-Streams :
      (repr : Outcome (List FlowSnapshot) → String) (o : Outcome (List FlowSnapshot))
      (p : Poller Memory)
      → Streams r limit p.allocator p.sink
      → let q = (poll_once memory_sink repr o p).0 in Streams r limit q.allocator q.sink
  unfolding poll_once
  poll_once-Streams repr (ok snapshots) p h = poll-Streams snapshots p h
  poll_once-Streams repr value_error p h = h
  poll_once-Streams repr (unknown_marker m) p h = h

  -- Through any number of rounds of the loop, whatever the source shows or raises, the memory
  -- store holds the last events of an unbroken stream of the run, numbered from 1, and the
  -- allocator stands at the last of them, if it was so before and the store has no limit on its
  -- runs.
  pub rounds-Streams :
      (repr : Outcome (List FlowSnapshot) → String) (os : List (Outcome (List FlowSnapshot)))
      (p : Poller Memory)
      → Streams r limit p.allocator p.sink
      → let q = rounds memory_sink repr os p in Streams r limit q.allocator q.sink
  unfolding rounds
  rounds-Streams repr [] p h = h
  rounds-Streams repr (o ∷ os) p h =
      let q = poll_once memory_sink repr o p in
      let k = count_error-sink q in
      rounds-Streams repr os (count_error q) (rw (k.0, k.1) (poll_once-Streams repr o p h))
