-- ===== src/Transport/Buffer.antt =====
-- What the buffer of `MemoryTransport` loses and what it hands on.
use taskflow_meter.Prelude.{
  ◌+◌, ◌-◌, ◌≤◌, List, [], ◌∷◌, ◌++◌, ◌≡◌, ap, ◌∙◌, arith, length, length-append, length-drop, kept,
  kept-kept-append,
}
use mathlib.Core.List.{append_assoc}
use taskflow_meter.Events.{Event}
use taskflow_meter.Transport.{MemoryTransport, publish, drain}

-- Two publications to a buffer within its bound lose and keep what one of the two together does.
pub publish-publish :
    (xs ys : List Event) (t : MemoryTransport)
    → length t.events ≤ t.max_events
    → publish ys (publish xs t) ≡ publish (xs ++ ys) t
unfolding publish
publish-publish xs ys t h =
    let mid = kept t.max_events (t.events ++ xs) in
    let lost = t.dropped + (length t.events + length xs - t.max_events) in
    let counts : lost + (length mid + length ys - t.max_events)
        ≡ t.dropped + (length t.events + length (xs ++ ys) - t.max_events) =
      omega (
        arith,
        length-append xs ys,
        length-append t.events xs,
        length-drop (length (t.events ++ xs) - t.max_events) (t.events ++ xs),
      ) in
    ap (λ es. record t { dropped = lost + (length mid + length ys - t.max_events); events = es })
      (kept-kept-append t.max_events (t.events ++ xs) ys
        ∙ ap (kept t.max_events) (append_assoc t.events xs ys))
    ∙ ap (λ n. record t { dropped = n; events = kept t.max_events (t.events ++ (xs ++ ys)) }) counts

pub data Call : Type 0 where
  published : List Event → Call
  drained : Call

-- the calls in turn, and all that they drained
unfoldable pub run : List Call → MemoryTransport → List Event × MemoryTransport
run [] t = ([], t)
run (published es ∷ calls) t = run calls (publish es t)
run (drained ∷ calls) t =
    let (taken, t') = drain t in let (more, t'') = run calls t' in (taken ++ more, t'')

abbrev pub sent : List Call → List Event
sent [] = []
sent (published es ∷ calls) = es ++ sent calls
sent (drained ∷ calls) = sent calls

publish-counts :
    (es : List Event) (t : MemoryTransport)
    → length t.events ≤ t.max_events
    → ((publish es t).dropped + length (publish es t).events
        ≡ t.dropped + length t.events + length es)
      × (length (publish es t).events ≤ (publish es t).max_events)
unfolding publish
publish-counts es t h =
    let all = length-append t.events es in
    let left = length-drop (length (t.events ++ es) - t.max_events) (t.events ++ es) in
    (omega (arith, all, left), omega (arith, all, left))

-- Through any calls, every event that was published has been drained, or is buffered, or is
-- counted as dropped, and the buffer is within its bound.
pub run-counts :
    (calls : List Call) (t : MemoryTransport)
    → length t.events ≤ t.max_events
    → let r = run calls t in
      (r.1.dropped + length r.0 + length r.1.events
        ≡ t.dropped + length t.events + length (sent calls))
      × (length r.1.events ≤ r.1.max_events)
unfolding run drain
run-counts [] t h = (omega arith, h)
run-counts (published es ∷ calls) t h =
    let p = publish-counts es t h in
    let r = run-counts calls (publish es t) p.1 in
    (omega (arith, p.0, r.0, length-append es (sent calls)), r.1)
run-counts (drained ∷ calls) t h =
    let r = run-counts calls (record t { events = [] }) (omega arith) in
    (omega (arith, r.0, length-append t.events (run calls (record t { events = [] })).0), r.1)
