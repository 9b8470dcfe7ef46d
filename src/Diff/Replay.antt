-- ===== src/Diff/Replay.antt =====
-- The property that fold.py exists to keep: applying the events that a difference produced gives the
-- snapshot that the difference came from.
use taskflow_meter.Prelude.{
  ℕ, String, List, [], ◌∷◌, ◌≡◌, refl, Option, none, some, ◌⊎◌, inl, inr, sym, ◌∙◌, All, All-append,
  All_map, arith, Bool-cases, Option-cases, subst,
}
use taskflow_meter.Prelude.Dict
use taskflow_meter.Prelude.Dict.{Dict, Distinct}
use taskflow_meter.Events.{Event, EventKind, Allocator}
use taskflow_meter.Models.{AtomSnapshot, FlowSnapshot, is_finished, atom_names}
use taskflow_meter.Fold.{fold, fold_kind, fold_named, fold_all}
use taskflow_meter.Fold.Replay.{fold_all-append, fold_all-stamp}
use taskflow_meter.Diff.{
  new_event, events_of_atom, events_for, atom_events, flow_events, same_flow_state, previous_atoms,
  ordered, stamp_time, diff_flow,
}
use taskflow_meter.Diff.Atoms.{All_for-events_of_atom, Tracks}
use taskflow_meter.Diff.Roundtrip.{IsKeyed, atoms-Tracks}
use taskflow_meter.Diff.Stamp.{diff_flow-stamp}

abbrev pub IsAtomEvent : Event → Type 0
IsAtomEvent e = (e.kind ≡ EventKind.atom_state) ⊎ (e.kind ≡ EventKind.atom_progress)

pub All_atom-events_for :
    (previous : Dict AtomSnapshot) (new : FlowSnapshot) (names : List String)
    → All IsAtomEvent (events_for previous new names)
unfolding events_for
All_atom-events_for previous new [] = tt
All_atom-events_for previous new (n ∷ ns) = elim (Option-cases (Dict.get n new.atoms)) [
  | inl e ↦ rw e (All_atom-events_for previous new ns)
  | inr (c, e) ↦ rw e (
      All-append IsAtomEvent (events_of_atom new (Dict.get n previous) c)
        (events_for previous new ns)
        (All_map (λ a h. h.kind) (events_of_atom new (Dict.get n previous) c)
          (All_for-events_of_atom new (Dict.get n previous) c))
        (All_atom-events_for previous new ns))
]

state-fold : (f : FlowSnapshot) (e : Event) → IsAtomEvent e → (fold f e).state ≡ f.state
unfolding fold fold_kind fold_named
state-fold f e h = ground arith

state-fold_all :
    (f : FlowSnapshot) (es : List Event) → All IsAtomEvent es → (fold_all f es).state ≡ f.state
unfolding fold_all
state-fold_all f [] h = refl
state-fold_all f (e ∷ es) h = state-fold_all (fold f e) es h.1 ∙ state-fold f e h.0

name-fold : (f : FlowSnapshot) (e : Event) → IsAtomEvent e → (fold f e).name ≡ f.name
unfolding fold fold_kind fold_named
name-fold f e h = ground arith

pub name-fold_all :
    (f : FlowSnapshot) (es : List Event) → All IsAtomEvent es → (fold_all f es).name ≡ f.name
unfolding fold_all
name-fold_all f [] h = refl
name-fold_all f (e ∷ es) h = name-fold_all (fold f e) es h.1 ∙ name-fold f e h.0

atoms-flow_events :
    (old : Option FlowSnapshot) (new f : FlowSnapshot)
    → (fold_all f (flow_events old new)).atoms ≡ f.atoms
unfolding fold_all fold fold_kind flow_events new_event
atoms-flow_events old new f = elim (Bool-cases (same_flow_state old new)) [
  | inl e ↦ rw e
  | inr e ↦ rw e
]

abbrev pub SameState : FlowSnapshot → Option FlowSnapshot → Type 0
SameState f none = Unit
SameState f (some last) = f.state ≡ last.state

keep-SameState :
    (f g : FlowSnapshot) (old : Option FlowSnapshot)
    → g.state ≡ f.state
    → SameState f old
    → SameState g old
keep-SameState f g none e h = tt
keep-SameState f g (some last) e h = e ∙ h

-- The store `f` knows what the last snapshot showed, or nothing where there was none: the state of
-- the run, and of each atom the state and the progress.
pub record Follows (f : FlowSnapshot) (old : Option FlowSnapshot) : Type 0 where
  pub state : SameState f old
  pub atoms : (n : String) → Tracks (Dict.get n f.atoms) (Dict.get n (previous_atoms old))

-- no atom leaves the flow between the two snapshots; diff.py logs it where one does
abbrev pub NoneVanished : Option FlowSnapshot → FlowSnapshot → Type 0
NoneVanished old new =
    (n : String) → Dict.get n new.atoms ≡ none → Dict.get n (previous_atoms old) ≡ none

state-flow_events :
    (old : Option FlowSnapshot) (new f : FlowSnapshot)
    → SameState f old
    → (fold_all f (flow_events old new)).state ≡ new.state
unfolding fold_all fold fold_kind flow_events new_event same_flow_state
state-flow_events none new f h = refl
state-flow_events (some last) new f h = ground arith

module _ (old : Option FlowSnapshot) (new : FlowSnapshot) (keyed : IsKeyed new)
    (stays : NoneVanished old new) where
  pub ordered-Follows :
      (f : FlowSnapshot) → Follows f old → Follows (fold_all f (ordered old new)) (some new)
  unfolding ordered atom_events
  ordered-Follows f h =
      let atoms = events_for (previous_atoms old) new (atom_names new) in
      let flow = flow_events old new in
      let quiet = All_atom-events_for (previous_atoms old) new (atom_names new) in
      elim (Bool-cases (is_finished new)) [
        | inl e ↦ rw e (
            rw (fold_all-append f atoms flow) (record {
              state =
                  state-flow_events old new (fold_all f atoms) (
                    keep-SameState f (fold_all f atoms) old (state-fold_all f atoms quiet) h.state);
              atoms = λ n.
                  subst (λ d. Tracks (Dict.get n d) (Dict.get n new.atoms))
                    (sym (atoms-flow_events old new (fold_all f atoms)))
                    (atoms-Tracks (previous_atoms old) new keyed n f (h.atoms n) (stays n));
            }))
        | inr e ↦ rw e (
            rw (fold_all-append f flow atoms) (record {
              state =
                  state-fold_all (fold_all f flow) atoms quiet
                  ∙ state-flow_events old new f h.state;
              atoms = λ n.
                  atoms-Tracks (previous_atoms old) new keyed n (fold_all f flow)
                    (subst (λ d. Tracks (Dict.get n d) (Dict.get n (previous_atoms old)))
                      (sym (atoms-flow_events old new f)) (h.atoms n))
                    (stays n);
            }))
      ]

  -- Where a store follows the old snapshot, no atom has vanished and the new snapshot holds its
  -- atoms under their names, the store that has folded the events of the difference follows the
  -- new snapshot: the state of the run, and the state and the progress of each atom, whatever the
  -- stamps and the numbers.
  pub diff_flow-Follows :
      (f : FlowSnapshot) (ts : Option ℕ) (c : Allocator) {r : List Event × Allocator}
      → diff_flow old new ts c ≡ some r
      → Follows f old
      → Follows (fold_all f r.0) (some new)
  diff_flow-Follows f ts c d h =
      let es = ordered old new in
      subst (λ (r : List Event × Allocator). Follows (fold_all f r.0) (some new))
        (diff_flow-stamp old new ts c d)
        (subst (λ g. Follows g (some new))
          (sym (fold_all-stamp new.run_id (stamp_time ts new) es c f f.observed_at))
          (let k = ordered-Follows f h in record { state = k.state; atoms = k.atoms }))
