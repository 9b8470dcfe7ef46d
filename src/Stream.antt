-- ===== src/Stream.antt =====
-- api/sse.py: the cursor of one client, and the loop that drives it. A frame is what is said in it, not
-- its bytes: how its lines are joined and its JSON written is left out.
pub mod Resumes
pub mod Once
use taskflow_meter.Prelude.{
  ℕ, ◌+◌, Bool, true, false, Option, none, some, List, [], ◌∷◌, ◌++◌, String, leb, if◌then◌else◌,
}
use taskflow_meter.Models.{FlowSnapshot, is_finished}
use taskflow_meter.Events.{Event}
use taskflow_meter.DataSource.{Outcome, ok, value_error, unknown_marker, EventPage}
use taskflow_meter.Memory.{Memory, get_flow, events_since}

abbrev pub default_retry_ms : ℕ
default_retry_ms = 3000

pub data Frame : Type 0 where
  -- an empty message with a retry hint
  retry : ℕ → Frame
  comment : String → Frame
  -- `event: gap`, with the number to resume from
  gap : Option ℕ → Frame
  -- an event, under its kind and its number
  message : Event → Frame
  end_of_stream : Frame

-- what the cursor asks of a datasource
pub record Reader : Type 0 where
  pub events_since : String → ℕ → ℕ → Outcome EventPage
  pub get_flow : String → Option FlowSnapshot

abbrev pub memory_reader : Memory → Reader
memory_reader m = record { events_since = events_since m; get_flow = get_flow m }

pub record EventCursor : Type 0 where
  pub run_id : String
  pub since_seq : ℕ
  pub batch_limit : ℕ
  pub complete : Bool

-- `opening`
unfoldable pub opening : List Frame
opening = Frame.retry default_retry_ms ∷ Frame.comment "stream open" ∷ []

abbrev pub heartbeat_frame : Frame
heartbeat_frame = Frame.comment "keep-alive"

-- `_flow_finished`, by what `get_flow` gave
unfoldable pub flow_finished : Option FlowSnapshot → Bool
flow_finished none = false
flow_finished (some f) = is_finished f

unfoldable pub event_frames : List Event → List Frame
event_frames [] = []
event_frames (e ∷ es) = Frame.message e ∷ event_frames es

unfoldable pub gap_frames : Bool → Option ℕ → List Frame
gap_frames true oldest = Frame.gap oldest ∷ []
gap_frames false oldest = []

-- `not page.events and self._flow_finished()`
unfoldable pub at_end : List Event → Option FlowSnapshot → Bool
at_end [] f = flow_finished f
at_end (e ∷ es) f = false

-- `poll` once the page has been read
unfoldable pub take_page : EventPage → Option FlowSnapshot → EventCursor → List Frame × EventCursor
take_page page f c =
    let ended = at_end page.events f in
    (
      gap_frames page.truncated page.oldest_seq
          ++ (event_frames page.events ++ (if ended then Frame.end_of_stream ∷ [] else [])),
      record c { since_seq = page.next_seq; complete = if ended then true else c.complete },
    )

-- `EventCursor.poll`
unfoldable pub poll : Reader → EventCursor → Outcome (List Frame × EventCursor)
poll reader c = elim (reader.events_since c.run_id c.since_seq c.batch_limit) [
  | ok page ↦ ok (take_page page (reader.get_flow c.run_id) c)
  | value_error ↦ value_error
  | unknown_marker m ↦ unknown_marker m
]

-- `quiet = 0.0 if frames else quiet + interval`
unfoldable pub quiet_after : List Frame → ℕ → ℕ → ℕ
quiet_after [] interval quiet = quiet + interval
quiet_after (f ∷ fs) interval quiet = 0

-- The loop of `iter_frames` and `aiter_frames`, over the states of the datasource at the polls, until
-- the client leaves. What a poll raises ends the stream.
unfoldable pub drive : List Reader → ℕ → ℕ → ℕ → EventCursor → List Frame × EventCursor
drive [] interval heartbeat quiet c = ([], c)
drive (reader ∷ readers) interval heartbeat quiet c = elim (poll reader c) [
  | value_error ↦ ([], c)
  | unknown_marker m ↦ ([], c)
  | ok answer ↦
      let silent = quiet_after answer.0 interval quiet in
      let beats = leb heartbeat silent in
      let rest = drive readers interval heartbeat (if beats then 0 else silent) answer.1 in
      if answer.1.complete
      then answer
      else (answer.0 ++ ((if beats then heartbeat_frame ∷ [] else []) ++ rest.0), rest.1)
]

unfoldable pub iter_frames : List Reader → ℕ → ℕ → EventCursor → List Frame × EventCursor
iter_frames readers interval heartbeat c =
    let driven = drive readers interval heartbeat 0 c in (opening ++ driven.0, driven.1)
