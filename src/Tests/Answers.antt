-- ===== src/Tests/Answers.antt =====
-- Witnesses for the theorems on what goes over the wire and on the handlers.
use taskflow_meter.Prelude.{
  if◌then◌else◌, str_eq, String, Option, none, some, [], ◌∷◌, ◌≡◌, refl, arith, true,
}
use taskflow_meter.Prelude.Int.{ℤ, pos}
use taskflow_meter.Prelude.Dict
use taskflow_meter.Prelude.Dict.{Dict, mem}
use taskflow_meter.States.{State}
use taskflow_meter.DataSource.{ok}
use taskflow_meter.Memory.{
  list_flows as memory_list_flows, get_flow as memory_get_flow, get_atoms as memory_get_atoms,
}
use taskflow_meter.Persistence.{events_since}
use taskflow_meter.Wire.{Item, to_payload, from_payload}
use taskflow_meter.Wire.Envelope.{from_payload-to_payload}
use taskflow_meter.Service.{
  MeterRequest, Backend, list_flows, get_flow, get_atoms, get_events, stream,
}
use taskflow_meter.Service.Limits.{Lawful, Safe, Anything, handlers-Safe, memory_list_flows-answers}
use taskflow_meter.Tests.{three}
use taskflow_meter.Tests.Storing.{store}

from_payload-to_payload_example : from_payload (to_payload three) ≡ some three
from_payload-to_payload_example = from_payload-to_payload three

abbrev newer : Dict Item
newer = ("run_id", Item.text "r1") ∷ ("priority", Item.number 1) ∷ []

-- a request for one run, with a limit that is no number
abbrev request : MeterRequest
request = record {
  method = "GET";
  path = "/api/v1/flows/r1";
  prefix = "";
  query = ("limit", "many" ∷ []) ∷ [];
  headers = ("last-event-id", "7") ∷ [];
  path_params = ("run_id", "r1") ∷ [];
}

abbrev only_seven : String → Option ℤ
only_seven s = if str_eq s "7" then some (pos 7) else none

abbrev as_text : String → State
as_text s = State.other s

-- the memory store's flows, with no history
abbrev backend : Backend
backend = record {
  supports_events = true;
  list_flows = memory_list_flows store;
  get_flow = memory_get_flow store;
  get_atoms = memory_get_atoms store;
  events_since = λ run_id since limit. ok (events_since run_id 0 limit);
}

backend-Lawful : Lawful backend
backend-Lawful = record {
  lists = memory_list_flows-answers store;
  serves = λ run_id since limit h q. absurd (ground (arith, q));
}

routed : Dict.get "run_id" request.path_params ≡ some "r1"
unfolding Dict.get
routed = refl

handlers-Safe_example :
    Safe Anything (list_flows only_seven as_text 500 backend request)
    × Safe Anything (get_flow only_seven as_text 500 backend request)
    × Safe Anything (get_atoms only_seven as_text 500 backend request)
    × Safe Anything (get_events only_seven as_text 500 backend request)
    × Safe Anything (stream only_seven as_text 500 backend request)
handlers-Safe_example =
    handlers-Safe only_seven as_text 500 (omega arith) backend backend-Lawful request "r1" routed
