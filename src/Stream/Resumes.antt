-- ===== src/Stream/Resumes.antt =====
-- A client of a stream over the memory store.
use taskflow_meter.Prelude.{
  ℕ, ◌+◌, ◌-◌, ◌≤◌, leb, ◌⊎◌, Bool, true, false, Option, some, List, [], ◌∷◌, ◌++◌, String, ◌≡◌,
  refl, ap, sym, ◌∙◌, subst, arith, take, drop, length, kept, if◌then◌else◌, Bool-cases, inl, inr,
}
use taskflow_meter.Prelude.Dict
use taskflow_meter.Models.{FlowSnapshot}
use taskflow_meter.Events.{Event}
use taskflow_meter.Events.Sequence.{Consecutive}
use taskflow_meter.DataSource.{Outcome, ok, value_error, unknown_marker, EventPage}
use taskflow_meter.Memory.{Run, Memory, events_since, get_flow, run_page}
use taskflow_meter.Memory.History.{history}
use taskflow_meter.Memory.Resume.{events_since_stream, run_page-Serves}
use taskflow_meter.Stream.{
  Frame, Reader, memory_reader, EventCursor, event_frames, gap_frames, at_end, take_page, poll,
  drive, heartbeat_frame, quiet_after,
}

-- the events in what was sent
abbrev pub messages : List Frame → List Event
messages [] = []
messages (Frame.message e ∷ fs) = e ∷ messages fs
messages (Frame.retry n ∷ fs) = messages fs
messages (Frame.comment s ∷ fs) = messages fs
messages (Frame.gap o ∷ fs) = messages fs
messages (Frame.end_of_stream ∷ fs) = messages fs

pub messages-append : (fs gs : List Frame) → messages (fs ++ gs) ≡ messages fs ++ messages gs
messages-append [] gs = refl
messages-append (Frame.message e ∷ fs) gs = ap (◌∷◌ e) (messages-append fs gs)
messages-append (Frame.retry n ∷ fs) gs = messages-append fs gs
messages-append (Frame.comment s ∷ fs) gs = messages-append fs gs
messages-append (Frame.gap o ∷ fs) gs = messages-append fs gs
messages-append (Frame.end_of_stream ∷ fs) gs = messages-append fs gs

messages-event_frames :
    (es : List Event) (b : Bool)
    → messages (event_frames es ++ (if b then Frame.end_of_stream ∷ [] else [])) ≡ es
unfolding event_frames
messages-event_frames [] true = refl
messages-event_frames [] false = refl
messages-event_frames (e ∷ es) b = ap (◌∷◌ e) (messages-event_frames es b)

ok-injective : {a b : EventPage} → ok a ≡ ok b → a ≡ b
ok-injective {a} h = ap (from_ok a) h
  where
    from_ok : EventPage → Outcome EventPage → EventPage
    from_ok d (ok page) = page
    from_ok d value_error = d
    from_ok d (unknown_marker m) = d

-- what a client is served where nothing that it wants has been dropped
served :
    (m : Memory) (r : String) (run : Run) (xs : List Event) (keep since limit : ℕ)
    → Dict.get r m.runs ≡ some run
    → history r m ≡ kept keep xs
    → Consecutive 1 xs
    → 1 ≤ limit
    → length xs ≤ keep + since
    → let page = run_page run.events since limit in
      (events_since m r since limit ≡ ok page)
      × (page.events ≡ take limit (drop since xs))
      × (page.truncated ≡ false)
      × (page.next_seq ≡ since + length page.events)
unfolding events_since
served m r run xs keep since limit g k chain h near =
    let found : events_since m r since limit ≡ ok (run_page run.events since limit) =
      ground arith in
    let s = events_since_stream m r xs keep since limit run g k chain h in
    let same : s.0 ≡ run_page run.events since limit = ok-injective (sym s.1 ∙ found) in
    let e =
      subst
        (λ (page : EventPage).
          (page.events ≡ take limit (drop since xs)) × (page.truncated ≡ false))
        same (s.2 (omega arith)) in
    (found, e.0, e.1, ((run_page-Serves run.events since limit h).no_hole e.1).1)

-- one poll of the cursor
pub record Polled (c : EventCursor) (xs : List Event) (r : List Frame × EventCursor) : Type 0 where
  pub sent : messages r.0 ≡ take c.batch_limit (drop c.since_seq xs)
  pub moved : r.1.since_seq ≡ c.since_seq + length (take c.batch_limit (drop c.since_seq xs))
  pub run_id : r.1.run_id ≡ c.run_id
  pub batch_limit : r.1.batch_limit ≡ c.batch_limit

take_page-Polled :
    (page : EventPage) (f : Option FlowSnapshot) (c : EventCursor) (xs : List Event)
    → page.events ≡ take c.batch_limit (drop c.since_seq xs)
    → page.truncated ≡ false
    → page.next_seq ≡ c.since_seq + length page.events
    → Polled c xs (take_page page f c)
unfolding take_page
take_page-Polled page f c xs e t n = record {
  sent =
      messages-append (gap_frames page.truncated page.oldest_seq) (
        event_frames page.events ++ (if at_end page.events f then Frame.end_of_stream ∷ [] else []))
      ∙ (ap
            (λ b.
              messages (gap_frames b page.oldest_seq)
              ++ messages (
                  event_frames page.events
                  ++ (if at_end page.events f then Frame.end_of_stream ∷ [] else [])))
            t
          ∙ (silent ∙ (messages-event_frames page.events (at_end page.events f) ∙ e)));
  moved = n ∙ ap (λ es. c.since_seq + length es) e;
  run_id = refl;
  batch_limit = refl;
}
  where
    silent :
        messages (gap_frames false page.oldest_seq)
          ++ messages (
              event_frames page.events
              ++ (if at_end page.events f then Frame.end_of_stream ∷ [] else []))
        ≡ messages (
            event_frames page.events
            ++ (if at_end page.events f then Frame.end_of_stream ∷ [] else []))
    silent = unfold gap_frames in refl

pub poll-Polled :
    (m : Memory) (run : Run) (xs : List Event) (keep : ℕ) (c : EventCursor)
    → Dict.get c.run_id m.runs ≡ some run
    → history c.run_id m ≡ kept keep xs
    → Consecutive 1 xs
    → 1 ≤ c.batch_limit
    → length xs ≤ keep + c.since_seq
    → (r : List Frame × EventCursor) × (poll (memory_reader m) c ≡ ok r) × Polled c xs r
unfolding poll
poll-Polled m run xs keep c g k chain h near =
    let s = served m c.run_id run xs keep c.since_seq c.batch_limit g k chain h near in
    let page = run_page run.events c.since_seq c.batch_limit in
    (
      take_page page (get_flow m c.run_id) c,
      ground (arith, s.0),
      take_page-Polled page (get_flow m c.run_id) c xs s.1 s.2 s.3,
    )

-- The stores that a client's polls meet: each holds the run, with the last `keep` events of a longer
-- and longer beginning of `all`, which is at least `n` events long.
abbrev pub Feeds : String → ℕ → List Event → ℕ → List Memory → Type 0
Feeds r keep all n [] = Unit
Feeds r keep all n (m ∷ ms) =
    (k : ℕ) × (run : Run) × (n ≤ k)
    × (k ≤ length all)
    × (Dict.get r m.runs ≡ some run)
    × (history r m ≡ kept keep (take k all))
    × Feeds r keep all k ms

abbrev pub readers : List Memory → List Reader
readers [] = []
readers (m ∷ ms) = memory_reader m ∷ readers ms

-- what a whole run of the loop sends
pub record Sends (all : List Event) (c : EventCursor) (r : List Frame × EventCursor) : Type 0 where
  pub onward : c.since_seq ≤ r.1.since_seq
  pub within : r.1.since_seq ≤ length all
  pub sent : messages r.0 ≡ take (r.1.since_seq - c.since_seq) (drop c.since_seq all)

-- the loop after one poll
pub drive_step :
    (reader : Reader) (rs : List Reader) (interval heartbeat quiet : ℕ) (c : EventCursor)
    (r : List Frame × EventCursor)
    → poll reader c ≡ ok r
    → (drive (reader ∷ rs) interval heartbeat quiet c ≡ r)
      ⊎ ((q : ℕ) × (beats : List Frame) × (messages beats ≡ [])
          × (drive (reader ∷ rs) interval heartbeat quiet c ≡ (
            r.0 ++ (beats ++ (drive rs interval heartbeat q r.1).0),
            (drive rs interval heartbeat q r.1).1,
          )))
unfolding drive
drive_step reader rs interval heartbeat quiet c r h =
    let silent = quiet_after r.0 interval quiet in
    let beats = leb heartbeat silent in
    elim (Bool-cases r.1.complete) [
      | inl e ↦ inl (ground (arith, h))
      | inr e ↦ elim (Bool-cases beats) [
        | inl b ↦ inr (0, heartbeat_frame ∷ [], refl, ground (arith, h))
        | inr b ↦ inr (silent, [], refl, ground (arith, h))
      ]
    ]
