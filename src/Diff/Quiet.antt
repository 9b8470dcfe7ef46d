-- ===== src/Diff/Quiet.antt =====
-- A look at a run in which nothing has changed.
use taskflow_meter.Prelude.{
  ℕ, false, Option, none, some, List, [], ◌∷◌, ◌++◌, String, ◌≡◌, refl, ap, ◌∙◌, arith, Bool-cases,
  inl, inr,
}
use taskflow_meter.Prelude.Dict
use taskflow_meter.Prelude.Dict.{Dict}
use taskflow_meter.Models.{AtomSnapshot, FlowSnapshot, atom_names, is_finished}
use taskflow_meter.Events.{Event, Allocator}
use taskflow_meter.Fold.Replay.{observed}
use taskflow_meter.Diff.{
  state_changed, progress_changed, events_of_atom, events_for, atom_events, same_flow_state,
  flow_events, ordered, crosses_runs, stamp, diff_flow,
}

module _ (a : AtomSnapshot) where
  same_state : state_changed (some a) a ≡ false
  unfolding state_changed
  same_state = ground arith

  same_progress : progress_changed (some a) a ≡ false
  unfolding progress_changed
  same_progress = ground arith

  same_atom : (new : FlowSnapshot) → events_of_atom new (some a) a ≡ []
  unfolding events_of_atom
  same_atom new = rw (same_state, same_progress) refl

self_events :
    (new : FlowSnapshot) (o : Option AtomSnapshot)
    → (elim o as (λ _. List Event) [ none ↦ [] | some a ↦ events_of_atom new o a ]) ≡ []
self_events new none = refl
self_events new (some a) = same_atom a new

quiet_atoms : (new : FlowSnapshot) (names : List String) → events_for new.atoms new names ≡ []
unfolding events_for
quiet_atoms new [] = refl
quiet_atoms new (n ∷ ns) =
    ap (λ es. es ++ events_for new.atoms new ns) (self_events new (Dict.get n new.atoms))
    ∙ quiet_atoms new ns

quiet_flow : (f : FlowSnapshot) (t : ℕ) → flow_events (some f) (observed f t) ≡ []
unfolding flow_events same_flow_state
quiet_flow f t = ground arith

quiet_ordered : (f : FlowSnapshot) (t : ℕ) → ordered (some f) (observed f t) ≡ []
unfolding ordered atom_events
quiet_ordered f t =
    let atoms = quiet_atoms (observed f t) (atom_names (observed f t)) in
    elim (Bool-cases (is_finished (observed f t))) [
      | inl e ↦ rw (e, atoms, quiet_flow f t) refl
      | inr e ↦ rw (e, atoms, quiet_flow f t) refl
    ]

-- A later look at a run in which nothing has changed gives no event and spends no number.
pub diff_flow-quiet :
    (f : FlowSnapshot) (t : ℕ) (ts : Option ℕ) (c : Allocator)
    → diff_flow (some f) (observed f t) ts c ≡ some ([], c)
unfolding diff_flow crosses_runs stamp
diff_flow-quiet f t ts c =
    let same : crosses_runs (some f) (observed f t) ≡ false = ground arith in
    rw (same, quiet_ordered f t) refl
