-- ===== src/Stream/Once.antt =====
-- A client of a stream over the memory store is sent each event once and in order.
use taskflow_meter.Prelude.{
  ℕ, zero, suc, ◌+◌, ◌-◌, ◌≤◌, min, List, [], ◌∷◌, ◌++◌, ◌≡◌, ap, sym, ◌∙◌, subst, inl, inr, arith,
  take, drop, length, length-take, length-drop, drop-drop, take-take, drop-take, take-join,
  take-nil,
}
use taskflow_meter.Events.{Event}
use taskflow_meter.Events.Sequence.{Consecutive}
use taskflow_meter.Memory.{Memory}
use taskflow_meter.Stream.{Frame, EventCursor, memory_reader, drive}
use taskflow_meter.Stream.Resumes.{
  messages, messages-append, Polled, poll-Polled, Feeds, readers, Sends, drive_step,
}

Consecutive-take : (n k : ℕ) (es : List Event) → Consecutive n es → Consecutive n (take k es)
Consecutive-take n k [] h = subst (Consecutive n) (sym (take-nil k)) tt
Consecutive-take n zero (e ∷ es) h = tt
Consecutive-take n (suc k) (e ∷ es) h = (h.0, Consecutive-take (suc n) k es h.1)

-- what a poll sends, in terms of the whole stream
module _ (all : List Event) (k : ℕ) (within : k ≤ length all) (c : EventCursor)
    (seen : c.since_seq ≤ k) (r : List Frame × EventCursor) (p : Polled c (take k all) r) where
  abbrev step : ℕ
  step = min c.batch_limit (k - c.since_seq)

  slice : take c.batch_limit (drop c.since_seq (take k all)) ≡ take step (drop c.since_seq all)
  slice =
      ap (take c.batch_limit) (drop-take c.since_seq k all)
      ∙ take-take c.batch_limit (k - c.since_seq) (drop c.since_seq all)

  sent_step : messages r.0 ≡ take step (drop c.since_seq all)
  sent_step = p.sent ∙ slice

  moved_step : r.1.since_seq ≡ c.since_seq + step
  moved_step = omega (
    arith,
    p.moved,
    ap length slice,
    length-take step (drop c.since_seq all),
    length-drop c.since_seq all,
  )

  -- the loop ends here
  last-Sends : Sends all c r
  last-Sends = record {
    onward = omega (arith, moved_step);
    within = omega (arith, moved_step, seen, within);
    sent =
        let e : step ≡ r.1.since_seq - c.since_seq = omega (arith, moved_step) in
        sent_step ∙ ap (λ n. take n (drop c.since_seq all)) e;
  }

  -- or goes on
  more-Sends :
      (beats : List Frame) (rest : List Frame × EventCursor)
      → messages beats ≡ []
      → Sends all r.1 rest
      → Sends all c (r.0 ++ (beats ++ rest.0), rest.1)
  more-Sends beats rest b h =
      let there : r.1.since_seq ≡ c.since_seq + step = moved_step in
      let left = rest.1.since_seq - r.1.since_seq in
      let size : step + left ≡ rest.1.since_seq - c.since_seq = omega (arith, there, h.onward) in
      let from : drop r.1.since_seq all ≡ drop step (drop c.since_seq all) =
        ap (λ n. drop n all) there ∙ sym (drop-drop step c.since_seq all) in
      record {
        onward = omega (arith, there, h.onward);
        within = h.within;
        sent =
            messages-append r.0 (beats ++ rest.0)
            ∙ (ap (λ es. messages r.0 ++ es)
                  (messages-append beats rest.0 ∙ ap (λ es. es ++ messages rest.0) b)
                ∙ (ap (λ es. es ++ messages rest.0) sent_step
                    ∙ (ap (λ es. take step (drop c.since_seq all) ++ es)
                          (h.sent ∙ ap (take left) from)
                        ∙ (take-join step left (drop c.since_seq all)
                            ∙ ap (λ n. take n (drop c.since_seq all)) size))));
      }

module _ (all : List Event) (keep interval heartbeat : ℕ) (chain : Consecutive 1 all) where
  -- A client, reading at least one event at a time, of a stream whose stored events are more and
  -- more of one stream numbered from 1 with no gap, of which nothing that it has still to see is
  -- dropped, has been sent, whenever it leaves, the events after the number it came with up to
  -- where its cursor stands, each once, in order and none left out.
  pub drive-Sends :
      (ms : List Memory) (n : ℕ) (c : EventCursor) (quiet : ℕ)
      → Feeds c.run_id keep all n ms
      → 1 ≤ c.batch_limit
      → c.since_seq ≤ n
      → c.since_seq ≤ length all
      → length all ≤ keep + c.since_seq
      → Sends all c (drive (readers ms) interval heartbeat quiet c)
  unfolding drive
  drive-Sends [] n c quiet feeds limit seen low near = record {
    onward = omega arith;
    within = low;
    sent =
        let e : 0 ≡ c.since_seq - c.since_seq = omega arith in
        ap (λ n. take n (drop c.since_seq all)) e;
  }
  drive-Sends (m ∷ ms) n c quiet (k, run, later, within, found, stored, feeds) limit seen low near =
      let (r, polled, p) =
        poll-Polled m run (take k all) keep c found stored (Consecutive-take 1 k all chain) limit
          (omega (arith, length-take k all)) in
      let seen' : c.since_seq ≤ k = omega arith in
      let moved = moved_step all k within c seen' r p in
      elim (drive_step (memory_reader m) (readers ms) interval heartbeat quiet c r polled) [
        | inl e ↦ subst (Sends all c) (sym e) (last-Sends all k within c seen' r p)
        | inr (q, beats, b, e) ↦ subst (Sends all c) (sym e) (
            more-Sends all k within c seen' r p beats (drive (readers ms) interval heartbeat q r.1)
              b
              (drive-Sends ms k r.1 q (subst (λ j. Feeds j keep all k ms) (sym p.run_id) feeds)
                (omega (arith, p.batch_limit, limit)) (omega (arith, moved)) (omega (arith, moved))
                (omega (arith, moved, near))))
      ]
