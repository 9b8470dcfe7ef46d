-- ===== src/Diff/Every.antt =====
-- What holds of each kind of event that diff.py builds holds of all the events of a difference.
use taskflow_meter.Prelude.{
  String, List, [], ◌∷◌, Option, none, All, All-append, Bool-cases, Option-cases, inl, inr,
}
use taskflow_meter.Prelude.Dict
use taskflow_meter.Prelude.Dict.{Dict}
use taskflow_meter.Events.{Event, EventKind}
use taskflow_meter.Models.{AtomSnapshot, FlowSnapshot, is_finished, atom_names}
use taskflow_meter.Diff.{
  previous_atoms, same_flow_state, flow_state_of, identity, state_changed, progress_changed,
  ordered, flow_events, atom_events, events_for, events_of_atom, atom_state_event,
  atom_progress_event, new_event,
}

module _ {ℓ} (new : FlowSnapshot) (P : Event → Type ℓ)
    (flow_ok : (old : Option FlowSnapshot)
      → P (
          new_event new EventKind.flow_state none new.state
            (flow_state_of old)
            none
            (identity old new)))
    (state_ok : (before : Option AtomSnapshot) (current : AtomSnapshot)
      → P (atom_state_event new before current))
    (progress_ok : (current : AtomSnapshot) → P (atom_progress_event new current)) where
  All-flow_events : (old : Option FlowSnapshot) → All P (flow_events old new)
  unfolding flow_events
  All-flow_events old = elim (Bool-cases (same_flow_state old new)) [
    | inl e ↦ rw e tt
    | inr e ↦ rw e (flow_ok old, tt)
  ]

  All-events_of_atom :
      (before : Option AtomSnapshot) (current : AtomSnapshot)
      → All P (events_of_atom new before current)
  unfolding events_of_atom
  All-events_of_atom before current =
      let s = state_ok before current in
      let p = progress_ok current in
      elim (Bool-cases (state_changed before current)) [
        | inl e ↦ elim (Bool-cases (progress_changed before current)) [
          | inl f ↦ rw (e, f) (s, (p, tt))
          | inr f ↦ rw (e, f) (s, tt)
        ]
        | inr e ↦ elim (Bool-cases (progress_changed before current)) [
          | inl f ↦ rw (e, f) (p, tt)
          | inr f ↦ rw (e, f) tt
        ]
      ]

  All-events_for :
      (previous : Dict AtomSnapshot) (names : List String) → All P (events_for previous new names)
  unfolding events_for
  All-events_for previous [] = tt
  All-events_for previous (n ∷ ns) = elim (Option-cases (Dict.get n new.atoms)) [
    | inl e ↦ rw e (All-events_for previous ns)
    | inr (c, e) ↦ rw e (
        All-append P (events_of_atom new (Dict.get n previous) c) (events_for previous new ns)
          (All-events_of_atom (Dict.get n previous) c) (All-events_for previous ns))
  ]

  pub All-ordered : (old : Option FlowSnapshot) → All P (ordered old new)
  unfolding ordered atom_events
  All-ordered old =
      let flow = All-flow_events old in
      let atoms = All-events_for (previous_atoms old) (atom_names new) in
      elim (Bool-cases (is_finished new)) [
        | inl e ↦ rw e (All-append P (atom_events old new) (flow_events old new) atoms flow)
        | inr e ↦ rw e (All-append P (flow_events old new) (atom_events old new) flow atoms)
      ]
