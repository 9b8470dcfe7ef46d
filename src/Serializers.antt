-- ===== src/Serializers.antt =====
-- api/serializers.py: what the handlers write as JSON, with the links that lead on from it. A dictionary
-- with fixed keys is a record; `urlencode` and `str` of a number are parameters.
pub mod Links
use taskflow_meter.Prelude.{
  ℕ, Bool, true, false, Option, none, some, List, [], ◌∷◌, ◌++◌, String, map, length,
}
use taskflow_meter.Prelude.Int.{ℤ}
use taskflow_meter.Prelude.Dict.{Dict}
use taskflow_meter.States.{State}
use taskflow_meter.Values.{Value}
use taskflow_meter.Models.{
  AtomSnapshot, FlowSnapshot, atom_completion, atom_is_finished, atom_is_running, is_finished,
  completion, running_atoms, state_counts, atoms_at, atom_names,
}
use taskflow_meter.Wire.{Item, to_dict}
use taskflow_meter.DataSource.{FlowPage, EventPage}
use taskflow_meter.Http.{MeterRequest, url}
use taskflow_meter.Router.{format, flows_path, flow_path, atoms_path, events_path, stream_path}

pub record AtomPayload : Type 0 where
  pub name : String
  pub uuid : Option String
  pub atom_type : String
  pub state : Option State
  pub intention : Option String
  pub progress : ℤ
  pub progress_details : Value
  pub completion : ℤ
  pub finished : Bool
  pub running : Bool
  pub has_result : Bool
  pub failure : Value
  pub revert_failure : Value

-- `atom`
unfoldable pub atom_payload : AtomSnapshot → AtomPayload
atom_payload a = record {
  name = a.name;
  uuid = a.uuid;
  atom_type = a.atom_type;
  state = a.state;
  intention = a.intention;
  progress = a.progress;
  progress_details = a.progress_details;
  completion = atom_completion a;
  finished = atom_is_finished a;
  running = atom_is_running a;
  has_result = a.has_result;
  failure = a.failure;
  revert_failure = a.revert_failure;
}

pub record FlowPayload : Type 0 where
  pub run_id : String
  pub name : String
  pub state : Option State
  pub book_id : Option String
  pub book_name : Option String
  pub observed_at : ℕ
  pub finished : Bool
  pub completion : ℕ
  pub atom_count : ℕ
  pub running_atoms : List String
  pub state_counts : List (State × ℕ)
  pub meta : Dict Value
  pub links : Dict String
  -- `none` where the key is left out
  pub atoms : Option (List AtomPayload)

pub record FlowPagePayload : Type 0 where
  pub flows : List FlowPayload
  pub next_marker : Option String
  pub links : Dict String

pub record EventPagePayload : Type 0 where
  pub events : List (Dict Item)
  pub next_seq : ℕ
  pub oldest_seq : Option ℕ
  pub truncated : Bool
  pub links : Dict String

module _ (urlencode : List (String × String) → String) (str_of : ℕ → String) where
  -- the links of `flow`
  unfoldable pub flow_links : String → MeterRequest → Bool → Dict String
  flow_links run_id req with_events =
      ("self", url urlencode req (format flow_path run_id) [])
      ∷ ("atoms", url urlencode req (format atoms_path run_id) [])
      ∷ elim with_events [
        | true ↦
            ("events", url urlencode req (format events_path run_id) [])
            ∷ ("stream", url urlencode req (format stream_path run_id) [])
            ∷ []
        | false ↦ []
      ]

  -- `flow`
  unfoldable pub flow_payload : FlowSnapshot → MeterRequest → Bool → Bool → FlowPayload
  flow_payload f req with_atoms with_events = record {
    run_id = f.run_id;
    name = f.name;
    state = f.state;
    book_id = f.book_id;
    book_name = f.book_name;
    observed_at = f.observed_at;
    finished = is_finished f;
    completion = completion f;
    atom_count = length f.atoms;
    running_atoms = map (λ a. a.name) (running_atoms f);
    state_counts = state_counts f;
    meta = f.meta;
    links = flow_links f.run_id req with_events;
    atoms = elim with_atoms [
      | true ↦ some (map atom_payload (atoms_at f.atoms (atom_names f)))
      | false ↦ none
    ];
  }

  -- `flow_page`
  unfoldable pub flow_page : FlowPage → MeterRequest → Bool → FlowPagePayload
  flow_page page req with_events = record {
    flows = map (λ f. flow_payload f req false with_events) page.items;
    next_marker = page.next_marker;
    links = ("self", url urlencode req flows_path []) ∷ elim page.next_marker [
      | none ↦ []
      | some marker ↦ ("next", url urlencode req flows_path (("marker", some marker) ∷ [])) ∷ []
    ];
  }

  -- `event_page`
  unfoldable pub event_page : EventPage → String → MeterRequest → EventPagePayload
  event_page page run_id req =
      let path = format events_path run_id in
      record {
        events = map to_dict page.events;
        next_seq = page.next_seq;
        oldest_seq = page.oldest_seq;
        truncated = page.truncated;
        links =
            ("self", url urlencode req path [])
            ∷ ("next", url urlencode req path (("since_seq", some (str_of page.next_seq)) ∷ []))
            ∷ [];
      }
