-- ===== src/Wire/Envelope.antt =====
-- What was sent is what is read.
use taskflow_meter.Prelude.{
  ℕ, true, false, ◌&&◌, Option, none, some, List, [], ◌∷◌, ◌≡◌, refl, ap, sym, ◌∙◌, ◌>>=◌, String,
  str_eq, if◌then◌else◌, arith, eq_iff, Bool-cases, inl, inr,
}
use taskflow_meter.Prelude.Int.{ℤ}
use taskflow_meter.States.{State}
use taskflow_meter.Values.{Value}
use taskflow_meter.Prelude.Dict
use taskflow_meter.Prelude.Dict.{Dict, mem}
use taskflow_meter.Events.{Event, EventKind}
use taskflow_meter.Wire.{
  Item, need_text, need_number, maybe_text, maybe_state, maybe_progress, maybe_details, kind_text,
  kind_of, to_dict, from_dict, build, all_known, field_names, to_payload, from_payload,
}

kind_of-kind_text : (k : EventKind) → kind_of (kind_text k) ≡ some k
unfolding kind_of kind_text
kind_of-kind_text EventKind.flow_state = refl
kind_of-kind_text EventKind.atom_state = refl
kind_of-kind_text EventKind.atom_progress = refl
kind_of-kind_text EventKind.flow_structure = refl
kind_of-kind_text EventKind.flow_result = refl
kind_of-kind_text EventKind.heartbeat = refl

build-to_dict : (e : Event) → build (to_dict e) e.kind ≡ some e
unfolding build to_dict Dict.get
build-to_dict e = refl

-- An event that is rendered and read back is the event.
pub from_dict-to_dict : (e : Event) → from_dict (to_dict e) ≡ some e
unfolding from_dict to_dict Dict.get
from_dict-to_dict e = ap (λ o. o >>= build (to_dict e)) (kind_of-kind_text e.kind) ∙ build-to_dict e

-- An envelope that is read back holds the events that were put in, in their order.
pub from_payload-to_payload : (es : List Event) → from_payload (to_payload es) ≡ some es
unfolding from_payload to_payload
from_payload-to_payload [] = refl
from_payload-to_payload (e ∷ es) = rw (from_dict-to_dict e, from_payload-to_payload es) refl

bind-none :
    {A B : Type 0} (o : Option A) (f : A → Option B) → ((a : A) → f a ≡ none) → (o >>= f) ≡ none
bind-none none f h = refl
bind-none (some a) f h = h a

build-unknown : (d : Dict Item) (k : EventKind) → all_known (Dict.keys d) ≡ false → build d k ≡ none
unfolding build
build-unknown d k h = bind-none (need_text (Dict.get "run_id" d)) _ (λ run_id.
    bind-none (need_number (Dict.get "seq" d)) _ (λ seq.
      bind-none (need_number (Dict.get "ts" d)) _ (λ ts.
        bind-none (maybe_text (Dict.get "book_id" d)) _ (λ book_id.
          bind-none (maybe_text (Dict.get "atom_name" d)) _ (λ atom_name.
            bind-none (maybe_text (Dict.get "atom_uuid" d)) _ (λ atom_uuid.
              bind-none (maybe_text (Dict.get "atom_type" d)) _ (λ atom_type.
                bind-none (maybe_state (Dict.get "state" d)) _ (λ state.
                  bind-none (maybe_state (Dict.get "old_state" d)) _ (λ old_state.
                    bind-none (maybe_text (Dict.get "intention" d)) _ (λ intention.
                      bind-none (maybe_progress (Dict.get "progress" d)) _ (λ progress.
                        bind-none (maybe_details (Dict.get "details" d)) _ (λ details.
                          ap
                            (λ b.
                              if b
                              then some (
                                  event run_id seq ts book_id atom_name atom_uuid atom_type state
                                    old_state intention progress details)
                              else none)
                            h))))))))))))
  where
    event :
        String
        → ℕ
        → ℕ
        → Option String
        → Option String
        → Option String
        → Option String
        → Option State
        → Option State
        → Option String
        → Option ℤ
        → Dict Value
        → Event
    event run_id seq ts book_id atom_name atom_uuid atom_type state old_state intention progress
          details =
        record {
          run_id = run_id;
          seq = seq;
          ts = ts;
          kind = k;
          book_id = book_id;
          atom_name = atom_name;
          atom_uuid = atom_uuid;
          atom_type = atom_type;
          state = state;
          old_state = old_state;
          intention = intention;
          progress = progress;
          details = details;
        }

not_all_known :
    (k : String) (ks : List String)
    → mem k ks ≡ true
    → mem k field_names ≡ false
    → all_known ks ≡ false
not_all_known k [] m h = absurd (ground arith)
not_all_known k (j ∷ ks) m h = elim (Bool-cases (str_eq k j)) [
  | inl e ↦
      let same : mem j field_names ≡ false =
        ap (λ n. mem n field_names) (sym ((eq_iff k j).0 e)) ∙ h in
      rw same refl
  | inr e ↦ rw (not_all_known k ks (rw e at m) h) and_false
]
  where
    and_false : (mem j field_names && false) ≡ false
    and_false = elim (Bool-cases (mem j field_names)) [ inl e ↦ rw e refl | inr e ↦ rw e refl ]

-- A dictionary with a key that is no field of an event is refused, whatever else it holds.
pub from_dict-unknown :
    (d : Dict Item) (k : String)
    → mem k (Dict.keys d) ≡ true
    → mem k field_names ≡ false
    → from_dict d ≡ none
unfolding from_dict
from_dict-unknown d k m h = bind-none (need_text (Dict.get "kind" d)) _ (λ name.
    bind-none (kind_of name) _ (λ kind. build-unknown d kind (not_all_known k (Dict.keys d) m h)))
