-- ===== src/Wire.antt =====
-- The form in which events leave the process: `to_dict` and `from_dict` of events.py, and the envelope
-- of transports/base.py. Python does not check the types of what it is given under a known key; a
-- value of another type than `to_dict` writes there is outside the model, and is refused.
pub mod Envelope
use taskflow_meter.Prelude.{
  ℕ, Bool, true, false, ◌&&◌, ◌||◌, Option, none, some, List, [], ◌∷◌, String, str_eq, ◌>>=◌,
  if◌then◌else◌,
}
use taskflow_meter.Prelude.Int.{ℤ}
use taskflow_meter.Prelude.Dict
use taskflow_meter.Prelude.Dict.{Dict, mem}
use taskflow_meter.States.{State}
use taskflow_meter.Values.{Value}
use taskflow_meter.Events.{Event, EventKind}

-- the values that stand in an event's dictionary
pub data Item : Type 0 where
  text : String → Item
  number : ℕ → Item
  optional_text : Option String → Item
  optional_state : Option State → Item
  optional_progress : Option ℤ → Item
  mapping : Dict Value → Item

-- `str(kind)` and `EventKind(text)`
unfoldable pub kind_text : EventKind → String
kind_text EventKind.flow_state = "flow_state"
kind_text EventKind.atom_state = "atom_state"
kind_text EventKind.atom_progress = "atom_progress"
kind_text EventKind.flow_structure = "flow_structure"
kind_text EventKind.flow_result = "flow_result"
kind_text EventKind.heartbeat = "heartbeat"

unfoldable pub kind_of : String → Option EventKind
kind_of s =
    if str_eq s "flow_state"
    then some EventKind.flow_state
    else if str_eq s "atom_state"
    then some EventKind.atom_state
    else if str_eq s "atom_progress"
    then some EventKind.atom_progress
    else if str_eq s "flow_structure"
    then some EventKind.flow_structure
    else if str_eq s "flow_result"
    then some EventKind.flow_result
    else if str_eq s "heartbeat"
    then some EventKind.heartbeat
    else none

-- `to_dict`
unfoldable pub to_dict : Event → Dict Item
to_dict e =
    ("run_id", Item.text e.run_id)
    ∷ ("seq", Item.number e.seq)
    ∷ ("ts", Item.number e.ts)
    ∷ ("kind", Item.text (kind_text e.kind))
    ∷ ("book_id", Item.optional_text e.book_id)
    ∷ ("atom_name", Item.optional_text e.atom_name)
    ∷ ("atom_uuid", Item.optional_text e.atom_uuid)
    ∷ ("atom_type", Item.optional_text e.atom_type)
    ∷ ("state", Item.optional_state e.state)
    ∷ ("old_state", Item.optional_state e.old_state)
    ∷ ("intention", Item.optional_text e.intention)
    ∷ ("progress", Item.optional_progress e.progress)
    ∷ ("details", Item.mapping e.details)
    ∷ []

abbrev pub field_names : List String
field_names =
    "run_id" ∷ "seq" ∷ "ts" ∷ "kind" ∷ "book_id" ∷ "atom_name" ∷ "atom_uuid" ∷ "atom_type" ∷ "state"
    ∷ "old_state" ∷ "intention" ∷ "progress" ∷ "details" ∷ []

-- whether `cls(**payload)` takes every key
abbrev pub all_known : List String → Bool
all_known [] = true
all_known (k ∷ ks) = mem k field_names && all_known ks

-- a field with no default
abbrev pub need_text : Option Item → Option String
need_text (some (Item.text s)) = some s
need_text _ = none

abbrev pub need_number : Option Item → Option ℕ
need_number (some (Item.number n)) = some n
need_number _ = none

-- a field whose default is `None`
abbrev pub maybe_text : Option Item → Option (Option String)
maybe_text none = some none
maybe_text (some (Item.optional_text o)) = some o
maybe_text (some _) = none

abbrev pub maybe_state : Option Item → Option (Option State)
maybe_state none = some none
maybe_state (some (Item.optional_state o)) = some o
maybe_state (some _) = none

abbrev pub maybe_progress : Option Item → Option (Option ℤ)
maybe_progress none = some none
maybe_progress (some (Item.optional_progress o)) = some o
maybe_progress (some _) = none

abbrev pub maybe_details : Option Item → Option (Dict Value)
maybe_details none = some []
maybe_details (some (Item.mapping d)) = some d
maybe_details (some _) = none

-- `cls(**payload)`, once the kind is an `EventKind`
unfoldable pub build : Dict Item → EventKind → Option Event
build d kind = do
  run_id ← need_text (Dict.get "run_id" d)
  seq ← need_number (Dict.get "seq" d)
  ts ← need_number (Dict.get "ts" d)
  book_id ← maybe_text (Dict.get "book_id" d)
  atom_name ← maybe_text (Dict.get "atom_name" d)
  atom_uuid ← maybe_text (Dict.get "atom_uuid" d)
  atom_type ← maybe_text (Dict.get "atom_type" d)
  state ← maybe_state (Dict.get "state" d)
  old_state ← maybe_state (Dict.get "old_state" d)
  intention ← maybe_text (Dict.get "intention" d)
  progress ← maybe_progress (Dict.get "progress" d)
  details ← maybe_details (Dict.get "details" d)
  if all_known (Dict.keys d)
      then some (record {
        run_id = run_id;
        seq = seq;
        ts = ts;
        kind = kind;
        book_id = book_id;
        atom_name = atom_name;
        atom_uuid = atom_uuid;
        atom_type = atom_type;
        state = state;
        old_state = old_state;
        intention = intention;
        progress = progress;
        details = details;
      })
      else none

-- `from_dict`; whatever it raises is `none`
unfoldable pub from_dict : Dict Item → Option Event
from_dict d = do name ← need_text (Dict.get "kind" d); kind ← kind_of name; build d kind

-- `to_payload`, the value under "events"
unfoldable pub to_payload : List Event → List (Dict Item)
to_payload [] = []
to_payload (e ∷ es) = to_dict e ∷ to_payload es

-- `from_payload`: one event that cannot be read spoils the envelope
unfoldable pub from_payload : List (Dict Item) → Option (List Event)
from_payload [] = some []
from_payload (d ∷ ds) = do e ← from_dict d; es ← from_payload ds; some (e ∷ es)
