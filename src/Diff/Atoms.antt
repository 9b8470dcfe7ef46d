-- ===== src/Diff/Atoms.antt =====
-- Folding the events of one atom over what is stored of it.
use taskflow_meter.Prelude.{
  String, List, [], ◌∷◌, ◌≡◌, refl, Option, none, some, ◌⊎◌, inl, inr, ◌∙◌, All, arith, str_eq,
  eq_iff, false, if◌then◌else◌, Bool-cases, not,
}
use taskflow_meter.Prelude.Dict
use taskflow_meter.Prelude.Dict.{Dict, get-set}
use taskflow_meter.Events.{Event, EventKind}
use taskflow_meter.Models.{AtomSnapshot, FlowSnapshot}
use taskflow_meter.Values.{Value, look, is_null}
use taskflow_meter.Fold.{
  fold, fold_kind, fold_named, fold_all, fold_atom, fold_atom_kind, fold_common, atom_or_new,
}
use taskflow_meter.Diff.{
  state_changed, progress_changed, atom_state_event, atom_progress_event, new_event, events_of_atom,
  entry,
}

-- an event that changes the atom `n` and nothing else of a flow
pub record ForAtom (n : String) (e : Event) : Type 0 where
  pub named : e.atom_name ≡ some n
  pub kind : (e.kind ≡ EventKind.atom_state) ⊎ (e.kind ≡ EventKind.atom_progress)

-- what is stored of the atom `n` after its events
pub fold_atoms : String → Option AtomSnapshot → List Event → Option AtomSnapshot
fold_atoms n stored [] = stored
fold_atoms n stored (e ∷ es) = fold_atoms n (some (fold_atom stored e n)) es

module _ (n : String) where
  get-fold :
      (j : String) (f : FlowSnapshot) (e : Event)
      → ForAtom n e
      → Dict.get j (fold f e).atoms
        ≡ (if str_eq j n then some (fold_atom (Dict.get n f.atoms) e n) else Dict.get j f.atoms)
  unfolding fold fold_kind fold_named
  get-fold j f e h =
      ground (arith, get-set j n (fold_atom (Dict.get n f.atoms) e n) f.atoms, h.kind, h.named)

  pub get-fold_all :
      (j : String) (f : FlowSnapshot) (es : List Event)
      → All (ForAtom n) es
      → Dict.get j (fold_all f es).atoms
        ≡ (if str_eq j n then fold_atoms n (Dict.get n f.atoms) es else Dict.get j f.atoms)
  unfolding fold_all fold_atoms
  get-fold_all j f [] h = ground (arith, eq_iff j n)
  get-fold_all j f (e ∷ es) h =
      ground (
        arith,
        get-fold_all j (fold f e) es h.1,
        get-fold j f e h.0,
        get-fold n f e h.0,
        eq_iff n n,
      )

pub All_for-events_of_atom :
    (new : FlowSnapshot) (before : Option AtomSnapshot) (current : AtomSnapshot)
    → All (ForAtom current.name) (events_of_atom new before current)
unfolding events_of_atom atom_state_event atom_progress_event new_event
All_for-events_of_atom new before current =
    let s : ForAtom current.name (atom_state_event new before current) = record {
      named = refl;
      kind = inl refl;
    } in
    let p : ForAtom current.name (atom_progress_event new current) = record {
      named = refl;
      kind = inr refl;
    } in
    elim (Bool-cases (state_changed before current)) [
      | inl e ↦ elim (Bool-cases (progress_changed before current)) [
        | inl f ↦ rw (e, f) (s, (p, tt))
        | inr f ↦ rw (e, f) (s, tt)
      ]
      | inr e ↦ elim (Bool-cases (progress_changed before current)) [
        | inl f ↦ rw (e, f) (p, tt)
        | inr f ↦ rw (e, f) tt
      ]
    ]

-- what a stored atom always shares with the snapshot that its events came from
pub record Agrees (stored : Option AtomSnapshot) (current : AtomSnapshot) : Type 0 where
  pub atom : AtomSnapshot
  pub found : stored ≡ some atom
  pub state : atom.state ≡ current.state
  pub progress : atom.progress ≡ current.progress
  pub progress_details : atom.progress_details ≡ current.progress_details

-- the store knows of the atom what the last snapshot showed, and nothing where it showed none
abbrev pub Tracks : Option AtomSnapshot → Option AtomSnapshot → Type 0
Tracks stored none = stored ≡ none
Tracks stored (some before) = Agrees stored before

-- the details of a progress event say what the snapshot says, `None` included
look_details :
    (v : Value) → look "progress_details" (entry (not (is_null v)) "progress_details" v) ≡ v
unfolding look Dict.get
look_details Value.null = refl
look_details (Value.flag b) = refl
look_details (Value.str s) = refl
look_details (Value.other s) = refl

module _ (new : FlowSnapshot) (current : AtomSnapshot) where
  state_event_details :
      (stored before : Option AtomSnapshot)
      → (fold_atom stored (atom_state_event new before current) current.name).progress_details
        ≡ (atom_or_new stored current.name).progress_details
  unfolding fold_atom fold_common fold_atom_kind atom_state_event new_event
  state_event_details stored before = refl

  -- after the state event of an atom
  state_event-Agrees :
      (stored before : Option AtomSnapshot)
      → (atom_or_new stored current.name).progress_details ≡ current.progress_details
      → Agrees (some (fold_atom stored (atom_state_event new before current) current.name)) current
  unfolding fold_atom fold_common fold_atom_kind atom_state_event new_event
  state_event-Agrees stored before h = record {
    atom = fold_atom stored (atom_state_event new before current) current.name;
    found = refl;
    state = refl;
    progress = refl;
    progress_details = h;
  }

  -- after the progress event of an atom whose stored state is right
  progress_event-Agrees :
      (a : AtomSnapshot)
      → a.state ≡ current.state
      → Agrees (some (fold_atom (some a) (atom_progress_event new current) current.name)) current
  unfolding fold_atom fold_common fold_atom_kind atom_progress_event new_event
  progress_event-Agrees a h = record {
    atom = fold_atom (some a) (atom_progress_event new current) current.name;
    found = refl;
    state = h;
    progress = refl;
    progress_details = look_details current.progress_details;
  }

  state_event_state :
      (stored before : Option AtomSnapshot)
      → (fold_atom stored (atom_state_event new before current) current.name).state ≡ current.state
  unfolding fold_atom fold_common fold_atom_kind atom_state_event new_event
  state_event_state stored before = refl

  unchanged_details :
      (before : AtomSnapshot)
      → progress_changed (some before) current ≡ false
      → (before.progress ≡ current.progress) × (before.progress_details ≡ current.progress_details)
  unfolding progress_changed
  unchanged_details before h = ground arith

  new_details : progress_changed none current ≡ false → Value.null ≡ current.progress_details
  unfolding progress_changed
  new_details h = ground arith

  unchanged_state :
      (before : AtomSnapshot)
      → state_changed (some before) current ≡ false
      → before.state ≡ current.state
  unfolding state_changed
  unchanged_state before h = ground arith

  new-Agrees : Agrees (fold_atoms current.name none (events_of_atom new none current)) current
  unfolding events_of_atom fold_atoms state_changed
  new-Agrees = elim (Bool-cases (progress_changed none current)) [
    | inl f ↦ rw f (progress_event-Agrees _ (state_event_state none none))
    | inr f ↦ rw f (state_event-Agrees none none (new_details f))
  ]

  known-Agrees :
      (before a : AtomSnapshot)
      → a.state ≡ before.state
      → a.progress ≡ before.progress
      → a.progress_details ≡ before.progress_details
      → Agrees (fold_atoms current.name (some a) (events_of_atom new (some before) current)) current
  unfolding events_of_atom fold_atoms
  known-Agrees before a s p d = elim (Bool-cases (state_changed (some before) current)) [
    | inl e ↦ elim (Bool-cases (progress_changed (some before) current)) [
      | inl f ↦ rw (e, f) (progress_event-Agrees _ (state_event_state (some a) (some before)))
      | inr f ↦
          rw (e, f) (state_event-Agrees (some a) (some before) (d ∙ (unchanged_details before f).1))
    ]
    | inr e ↦ elim (Bool-cases (progress_changed (some before) current)) [
      | inl f ↦ rw (e, f) (progress_event-Agrees a (s ∙ unchanged_state before e))
      | inr f ↦
          rw (e, f)
            (record {
              atom = a;
              found = refl;
              state = s ∙ unchanged_state before e;
              progress = p ∙ (unchanged_details before f).0;
              progress_details = d ∙ (unchanged_details before f).1;
            })
    ]
  ]

  pub events_of_atom-Agrees :
      (stored before : Option AtomSnapshot)
      → Tracks stored before
      → Agrees (fold_atoms current.name stored (events_of_atom new before current)) current
  events_of_atom-Agrees stored none h = rw h new-Agrees
  events_of_atom-Agrees stored (some b) h =
      rw h.found (known-Agrees b h.atom h.state h.progress h.progress_details)

pub Tracks-refl : (o : Option AtomSnapshot) → Tracks o o
Tracks-refl none = refl
Tracks-refl (some a) = record {
  atom = a;
  found = refl;
  state = refl;
  progress = refl;
  progress_details = refl;
}
